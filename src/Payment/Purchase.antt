-- ===== src/Payment/Purchase.antt =====
-- From a checkout to the plan that is paid for, backend/internal/service/payment_service.go.
use anynote.Base.{
  ℕ, true, false, ◌≡◌, refl, ◌≢◌, Option, none, some, List, [], ◌∷◌, ◌++◌, String, str_eq, eq_refl,
  ap, subst, ok, exists, select_one, arith,
}
use anynote.Plan.Limits.{plan_of}
use anynote.Payment.{
  Payment, PaymentStore, PaymentFaults, of_session, create_payment, plan_amount,
  create_checkout_session, payment_status_pending,
}
use anynote.Payment.Webhook.{StripeWebhookEvent, dispatch}
use anynote.Payment.Outcomes.{IsFaultless, completed, completed_lem}

-- The payment that a checkout stores.
abbrev pub pending : String → ℕ → String → String → ℕ → String → Payment
pending id now user session amount plan = record {
  id = id;
  user_id = user;
  stripe_session_id = session;
  amount_cents = amount;
  currency = "usd";
  status = payment_status_pending;
  plan = plan;
  created_at = now;
  completed_at = none;
}

exists-session :
    (session : String) (rows : List Payment)
    → select_one (of_session session) rows ≡ none
    → exists (of_session session) rows ≡ false
exists-session session [] h = refl
exists-session session (p ∷ rows) h = ground (arith, exists-session session rows)

select-append :
    (session : String) (p : Payment) (rows : List Payment)
    → select_one (of_session session) rows ≡ none
    → of_session session p ≡ true
    → select_one (of_session session) (rows ++ p ∷ []) ≡ some p
select-append session p [] h e = ground arith
select-append session p (q ∷ rows) h e = ground (arith, select-append session p rows)

module _ (id : String) (now : ℕ) (session url user plan : String) (amount : ℕ) (s : PaymentStore)
    (unused : select_one (of_session session) s.payments ≡ none)
    (priced : plan_amount plan ≡ some amount) where
  checkout_lem :
      let (s', r) = create_checkout_session false id now (some (session, url)) user plan s in
      (r ≡ ok url)
      × (select_one (of_session session) s'.payments
          ≡ some (pending id now user session amount plan))
      × (s'.users ≡ s.users)
  unfolding create_checkout_session create_payment
  checkout_lem = ground (
    arith,
    exists-session session s.payments unused,
    select-append session (pending id now user session amount plan) s.payments unused
        (eq_refl session),
  )

  -- A checkout of a plan with a price, by a user that exists, under a session that no payment has
  -- yet, is stored without a fault and returns the session's URL; and the event that the session
  -- has completed, handled without a fault, completes its payment of that price and gives the user
  -- the plan.
  pub purchase_lem :
      (parse_uuid : String → Option String) (f : PaymentFaults) (later : ℕ) (e : StripeWebhookEvent)
      (user_id : String)
      → IsFaultless f
      → e.event_type ≡ "checkout.session.completed"
      → e.object_id ≡ session
      → str_eq session "" ≡ false
      → parse_uuid user ≡ some user_id
      → plan_of user_id s.users ≢ none
      → let (s', r) = create_checkout_session false id now (some (session, url)) user plan s in
        let (s'', r') = dispatch parse_uuid f later e s' in
        (r ≡ ok url)
        × (r' ≡ ok tt)
        × (select_one (of_session session) s''.payments
            ≡ some (completed later (pending id now user session amount plan)))
        × (plan_of user_id s''.users ≡ some plan)
  purchase_lem parse_uuid f later e user_id faultless t o n owner known =
      let s' = (create_checkout_session false id now (some (session, url)) user plan s).0 in
      let (answered, stored, users_same) = checkout_lem in
      let (done, now_completed, plans) =
        completed_lem parse_uuid f faultless later e user_id
          (pending id now user session amount plan) s' (rw o n) (rw o stored) owner t refl in
      (
        answered,
        done,
        subst
            (λ x.
              select_one (of_session x) (dispatch parse_uuid f later e s').0.payments
              ≡ some (completed later (pending id now user session amount plan)))
            o now_completed,
        ground (arith, plans user_id, ap (plan_of user_id) users_same, known, eq_refl user_id),
      )
