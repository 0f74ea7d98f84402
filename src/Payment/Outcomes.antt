-- ===== src/Payment/Outcomes.antt =====
-- What a completed and a refunded checkout leave, backend/internal/service/payment_service.go.
use anynote.Base.{
  ℕ, true, false, ◌≡◌, refl, Option, none, some, List, [], ◌∷◌, String, str_eq, eq_iff, eq_refl, ok,
  exists, select_one, update, arith, if◌then◌else◌,
}
use anynote.Plan.{User, has_id, get_plan, set_plan, plan_free}
use anynote.Plan.Limits.{plan_of, plan_of-set_plan}
use anynote.Payment.{
  Payment, PaymentStore, PaymentFaults, of_session, has_payment_id, with_status,
  get_by_stripe_session_id, update_status, complete_payment_tx, payment_status_completed,
}
use anynote.Payment.Webhook.{
  StripeWebhookEvent, complete_payment, handle_checkout_completed, handle_charge_refunded, dispatch,
}

-- A call with no failing query.
pub record IsFaultless (f : PaymentFaults) : Type 0 where
  pub records : f.record_fails ≡ false
  pub finds : f.lookup_fails ≡ false
  pub updates : f.update_fails ≡ false
  pub begins : f.begin_fails ≡ false
  pub completes : f.complete_fails ≡ false
  pub upgrades : f.upgrade_fails ≡ false
  pub commits : f.commit_fails ≡ false
  pub sets_plan : f.set_plan_fails ≡ false

-- The payment as a completed one.
abbrev pub completed : ℕ → Payment → Payment
completed now p = record p { status = payment_status_completed; completed_at = some now }

abbrev upgraded : String → ℕ → User → User
upgraded plan now u = record u { plan = some plan; plan_updated_at = some now }

module _ (session id : String) (change : Payment → Payment)
    (keeps : (p : Payment) → (change p).stripe_session_id ≡ p.stripe_session_id) where
  payment-update :
      (rows : List Payment) (p : Payment)
      → select_one (of_session session) rows ≡ some p
      → p.id ≡ id
      → select_one (of_session session) (update (has_payment_id id) change rows) ≡ some (change p)
  payment-update [] p h e = cc
  payment-update (q ∷ rows) p h e =
      ground (arith, payment-update rows p, keeps q, eq_refl id, eq_iff q.id id)

  exists-payment :
      (rows : List Payment) (p : Payment)
      → select_one (of_session session) rows ≡ some p
      → p.id ≡ id
      → exists (has_payment_id id) rows ≡ true
  exists-payment [] p h e = cc
  exists-payment (q ∷ rows) p h e = ground (arith, exists-payment rows p, eq_refl id)

plan_of-upgraded :
    (user k plan : String) (now : ℕ) (users : List User)
    → plan_of k (update (has_id user) (upgraded plan now) users) ≡ (elim (plan_of k users) [
      | none ↦ none
      | some p ↦ if str_eq user k then some plan else some p
    ])
unfolding get_plan
plan_of-upgraded user k plan now [] = refl
plan_of-upgraded user k plan now (u ∷ users) =
    ground (
      arith,
      plan_of-upgraded user k plan now users,
      eq_iff u.id k,
      eq_iff u.id user,
      eq_iff user k,
    )

module _ (parse_uuid : String → Option String) (f : PaymentFaults) (faultless : IsFaultless f)
    (now : ℕ) (e : StripeWebhookEvent) (user : String) (p : Payment) (s : PaymentStore)
    (session : str_eq e.object_id "" ≡ false)
    (found : select_one (of_session e.object_id) s.payments ≡ some p)
    (owner : parse_uuid p.user_id ≡ some user) where
  completed-store :
      str_eq p.status payment_status_completed ≡ false
      → handle_checkout_completed parse_uuid f now e s ≡ (
        record s {
          payments = update (has_payment_id p.id) (completed now) s.payments;
          users = update (has_id user) (upgraded p.plan now) s.users;
        },
        ok tt,
      )
  unfolding handle_checkout_completed complete_payment get_by_stripe_session_id complete_payment_tx
  completed-store pending = ground (
    arith, session, faultless.finds, found, pending, owner, faultless.begins, faultless.completes,
    faultless.upgrades, faultless.commits,
  )

  refunded-store : handle_charge_refunded parse_uuid f now e s ≡ (
    record s {
      payments = update (has_payment_id p.id) (with_status "refunded" now) s.payments;
      users = (set_plan false user plan_free now s.users).0;
    },
    ok tt,
  )
  unfolding handle_charge_refunded get_by_stripe_session_id update_status set_plan
  refunded-store = ground (
    arith,
    session,
    faultless.finds,
    found,
    faultless.updates,
    exists-payment e.object_id p.id (with_status "refunded" now) (λ q. refl) s.payments p found
        refl,
    owner,
    faultless.sets_plan,
  )

  -- Without faults, for an event that names a session whose payment is found and has a valid owner:
  -- a checkout that completes makes its payment completed, unless it is already, and gives the plan
  -- paid for to the owner, where there is such a user, and changes the plan of no other user.
  pub completed_lem :
      e.event_type ≡ "checkout.session.completed"
      → str_eq p.status payment_status_completed ≡ false
      → let (s', r) = dispatch parse_uuid f now e s in
        (r ≡ ok tt)
        × (select_one (of_session e.object_id) s'.payments ≡ some (completed now p))
        × ((k : String)
            → plan_of k s'.users ≡ (elim (plan_of k s.users) [
              | none ↦ none
              | some current ↦ if str_eq user k then some p.plan else some current
            ]))
  unfolding dispatch handle_checkout_completed get_plan
  completed_lem t pending =
      rw (t, completed-store pending)
        (
          refl,
          payment-update e.object_id p.id (completed now) (λ q. refl) s.payments p found refl,
          λ k. plan_of-upgraded user k p.plan now s.users,
        )

  -- Without faults, for an event that names a session whose payment is found and has a valid owner:
  -- a refund makes the payment refunded and takes its owner back to the free plan, whatever plan
  -- the owner has by then, also the lifetime plan and also where another payment paid for it, and
  -- changes the plan of no other user.
  pub refunded_lem :
      e.event_type ≡ "charge.refunded"
      → let (s', r) = dispatch parse_uuid f now e s in
        (r ≡ ok tt)
        × (select_one (of_session e.object_id) s'.payments ≡ some (with_status "refunded" now p))
        × ((k : String)
            → plan_of k s'.users ≡ (elim (plan_of k s.users) [
              | none ↦ none
              | some current ↦ if str_eq user k then some plan_free else some current
            ]))
  unfolding dispatch handle_charge_refunded get_plan
  refunded_lem t =
      rw (t, refunded-store)
        (
          refl,
          payment-update e.object_id p.id (with_status "refunded" now) (λ q. refl) s.payments p
              found refl,
          λ k. plan_of-set_plan false user k plan_free now s.users,
        )
