-- ===== src/Payment.antt =====
-- Payments: backend/internal/service/payment_service.go and
-- backend/internal/repository/payment_repository.go. What Stripe, the JSON decoder and the UUID parser
-- answer is not under this program's control: a checkout session, a decoded event (`none` where the
-- payload does not decode), whether the signature verifies, and `parse_uuid` are arguments. The id
-- that the database draws for a payment is an argument too.
pub mod Webhook
pub mod Signature
pub mod Events
pub mod Outcomes
pub mod Purchase
mod Tests
use Prim.Native.String.{◌++◌ as append, slice}
use anynote.Base.{
  order_desc, ℕ, ◌+◌, Bool, true, false, ◌&&◌, not, Option, none, some, List, [], ◌∷◌, ◌++◌, String,
  str_eq, Result, ok, err, map, select, select_one, update, exists, ltb, leb, if◌then◌else◌,
}
use anynote.Plan.{User, has_id, set_plan, plan_free, plan_pro, plan_lifetime}

-- `domain.Payment`: a row of payments, unique in `id` and in `stripe_session_id`.
pub record Payment : Type 0 where
  pub id : String
  pub user_id : String
  pub stripe_session_id : String
  pub amount_cents : ℕ
  pub currency : String
  pub status : String
  pub plan : String
  pub created_at : ℕ
  pub completed_at : Option ℕ

abbrev pub payment_status_completed : String
payment_status_completed = "completed"

abbrev pub payment_status_pending : String
payment_status_pending = "pending"

pub data PaymentError : Type 0 where
  database payment_missing already_done bad_user_id invalid_plan checkout_failed : PaymentError
  invalid_signature bad_payload missing_event_id missing_session_id missing_reference : PaymentError

-- The tables that payments touch.
pub record PaymentStore : Type 0 where
  pub payments : List Payment
  pub users : List User
  pub events : List String

-- The queries of one call that fail.
pub record PaymentFaults : Type 0 where
  pub record_fails : Bool
  pub lookup_fails : Bool
  pub update_fails : Bool
  pub begin_fails : Bool
  pub complete_fails : Bool
  pub upgrade_fails : Bool
  pub commit_fails : Bool
  pub set_plan_fails : Bool

-- `CreatePayment`: the session's id is unique, so a second row for it is an error.
unfoldable pub create_payment :
    Bool → String → ℕ → Payment → List Payment → List Payment × Result PaymentError (Unit {0})
create_payment fails id now payment rows =
    if fails
    then (rows, err database)
    else if exists (λ p. str_eq p.stripe_session_id payment.stripe_session_id) rows
    then (rows, err database)
    else (rows ++ record payment { id = id; created_at = now; completed_at = none } ∷ [], ok tt)

abbrev pub of_session : String → Payment → Bool
of_session session p = str_eq p.stripe_session_id session

-- No row is an error, as every failure of the scan is.
unfoldable pub get_by_stripe_session_id : Bool → String → List Payment → Result PaymentError Payment
get_by_stripe_session_id fails session rows =
    if fails
    then err database
    else elim (select_one (of_session session) rows) [ none ↦ err database | some p ↦ ok p ]

abbrev pub has_payment_id : String → Payment → Bool
has_payment_id id p = str_eq p.id id

-- completed_at = COALESCE($2, completed_at)
abbrev pub with_status : String → ℕ → Payment → Payment
with_status status now p = record p {
  status = status;
  completed_at = if str_eq status payment_status_completed then some now else p.completed_at;
}

unfoldable pub update_status :
    Bool → String → String → ℕ → List Payment → List Payment × Result PaymentError (Unit {0})
update_status fails id status now rows =
    if fails
    then (rows, err database)
    else if exists (has_payment_id id) rows
    then (update (has_payment_id id) (with_status status now) rows, ok tt)
    else (rows, err payment_missing)

-- ORDER BY created_at DESC
unfoldable pub get_payments_by_user :
    Bool → String → List Payment → Result PaymentError (List Payment)
unfolding order_desc
get_payments_by_user fails user rows =
    if fails
    then err database
    else ok (order_desc (λ p. p.created_at) (select (λ p. str_eq p.user_id user) rows))

abbrev is_null : Option ℕ → Bool
is_null none = true
is_null (some _) = false

abbrev or_zero : Option ℕ → ℕ
or_zero none = 0
or_zero (some t) = t

-- ORDER BY completed_at DESC, which puts NULL first. The last result of the method is always nil, so that a failed
-- query reads as no payment.
unfoldable pub get_latest_completed_payment : Bool → String → List Payment → Option Payment
unfolding order_desc
get_latest_completed_payment fails user rows =
    let of_user =
      select (λ p. str_eq p.user_id user && str_eq p.status payment_status_completed) rows in
    if fails then none else elim (select_one (λ p. is_null p.completed_at) of_user) [
      | some p ↦ some p
      | none ↦ select_one (λ _. true) (order_desc (λ p. or_zero p.completed_at) of_user)
    ]

-- `CompletePaymentTx`: both updates, or neither.
unfoldable pub complete_payment_tx :
    PaymentFaults
    → String
    → String
    → String
    → ℕ
    → PaymentStore
    → PaymentStore × Result PaymentError (Unit {0})
complete_payment_tx f id plan user now s =
    if f.begin_fails
    then (s, err database)
    else if f.complete_fails
    then (s, err database)
    else let payments' =
        update (has_payment_id id)
          (λ p. record p { status = payment_status_completed; completed_at = some now })
          s.payments in
      if f.upgrade_fails
      then (s, err database)
      else let users' =
          update (has_id user) (λ u. record u { plan = some plan; plan_updated_at = some now })
            s.users in
        if f.commit_fails
        then (s, err database)
        else (record s { payments = payments'; users = users' }, ok tt)

-- INSERT ... ON CONFLICT (event_id) DO NOTHING: false for an event that is there already.
unfoldable pub record_webhook_event :
    Bool → String → List String → List String × Result PaymentError Bool
record_webhook_event fails event events =
    if fails
    then (events, err database)
    else if exists (λ e. str_eq e event) events
    then (events, ok false)
    else (event ∷ events, ok true)

-- `GetPaymentHistory`
unfoldable pub get_payment_history :
    Bool → String → PaymentStore → Result PaymentError (List Payment)
unfolding get_payments_by_user
get_payment_history fails user s = get_payments_by_user fails user s.payments

-- `planAmounts`, in cents
unfoldable pub plan_amount : String → Option ℕ
plan_amount plan =
    if str_eq plan plan_pro then some 499 else if str_eq plan plan_lifetime then some 4999 else none

-- The id and the URL of a session in test mode, with `userID[:8]` for an id of eight bytes or more.
unfoldable pub test_session : String → String → String × String
test_session user plan =
    let id = append "cs_test_" (append (slice user 0 8) (append "_" plan)) in
    (id, append "https://checkout.stripe.test/" id)

-- `session` is the session's id and URL, from Stripe or, in test mode, from `test_session`; `none` where Stripe fails.
unfoldable pub create_checkout_session :
    Bool
    → String
    → ℕ
    → Option (String × String)
    → String
    → String
    → PaymentStore
    → PaymentStore × Result PaymentError String
unfolding create_payment plan_amount
create_checkout_session fails id now session user plan s = elim (plan_amount plan) [
  | none ↦ (s, err invalid_plan)
  | some amount ↦ elim session [
    | none ↦ (s, err checkout_failed)
    | some (session_id, url) ↦
        let (payments', r) =
          create_payment fails id now
            (record {
              id = "";
              user_id = user;
              stripe_session_id = session_id;
              amount_cents = amount;
              currency = "usd";
              status = payment_status_pending;
              plan = plan;
              created_at = 0;
              completed_at = none;
            })
            s.payments in
        elim r [
          | err e ↦ (record s { payments = payments' }, err e)
          | ok _ ↦ (record s { payments = payments' }, ok url)
        ]
  ]
]
