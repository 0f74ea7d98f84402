-- ===== src/Payment/Webhook.antt =====
-- The webhook of backend/internal/service/payment_service.go: events from Stripe, recorded once, change
-- payments and plans.
use anynote.Base.{
  ℕ, Bool, true, false, not, Option, none, some, String, str_eq, Result, ok, err, if◌then◌else◌,
}
use anynote.Plan.{set_plan, plan_free}
use anynote.Payment.{
  PaymentError, database, already_done, bad_user_id, invalid_signature, bad_payload,
  missing_event_id, missing_session_id, missing_reference, PaymentStore, PaymentFaults,
  get_by_stripe_session_id, update_status, complete_payment_tx, record_webhook_event,
  payment_status_completed, payment_status_pending,
}

-- `stripeWebhookEvent`, less the fields that no handler reads; a missing field is "".
pub record StripeWebhookEvent : Type 0 where
  pub id : String
  pub event_type : String
  pub object_id : String
  pub client_reference_id : String

abbrev pub Answer : Type 0
Answer = PaymentStore × Result PaymentError (Unit {0})

module _ (parse_uuid : String → Option String) (f : PaymentFaults) (now : ℕ) where
  unfoldable pub complete_payment : String → PaymentStore → Answer
  unfolding get_by_stripe_session_id complete_payment_tx
  complete_payment session s = elim (get_by_stripe_session_id f.lookup_fails session s.payments) [
    | err e ↦ (s, err e)
    | ok p ↦
        if str_eq p.status payment_status_completed
        then (s, err already_done)
        else elim (parse_uuid p.user_id) [
          | none ↦ (s, err bad_user_id)
          | some user ↦ complete_payment_tx f p.id p.plan user now s
        ]
  ]

  unfoldable pub handle_checkout_completed : StripeWebhookEvent → PaymentStore → Answer
  unfolding complete_payment
  handle_checkout_completed e s =
      if str_eq e.object_id "" then (s, err missing_session_id) else complete_payment e.object_id s

  -- `SetPlan(ctx, uid, "free")`, with its outcome as a Boolean.
  abbrev downgrade : String → PaymentStore → PaymentStore × Bool
  downgrade user s =
      let (users', r) = set_plan f.set_plan_fails user plan_free now s.users in
      (record s { users = users' }, elim r [ ok _ ↦ true | err _ ↦ false ])

  unfoldable pub handle_subscription_deleted : StripeWebhookEvent → PaymentStore → Answer
  unfolding set_plan
  handle_subscription_deleted e s =
      if str_eq e.client_reference_id ""
      then (s, err missing_reference)
      else elim (parse_uuid e.client_reference_id) [
        | none ↦ (s, err bad_user_id)
        | some user ↦
            let (s', done) = downgrade user s in if done then (s', ok tt) else (s', err database)
      ]

  unfoldable pub handle_checkout_expired : StripeWebhookEvent → PaymentStore → Answer
  unfolding get_by_stripe_session_id update_status
  handle_checkout_expired e s =
      if str_eq e.object_id ""
      then (s, err missing_session_id)
      else elim (get_by_stripe_session_id f.lookup_fails e.object_id s.payments) [
        | err e' ↦ (s, err e')
        | ok p ↦
            if not (str_eq p.status payment_status_pending)
            then (s, ok tt)
            else let (payments', r) = update_status f.update_fails p.id "expired" now s.payments in
              (record s { payments = payments' }, r)
      ]

  -- A plan that cannot be set after a refund is logged, not reported.
  unfoldable pub handle_charge_refunded : StripeWebhookEvent → PaymentStore → Answer
  unfolding get_by_stripe_session_id update_status set_plan
  handle_charge_refunded e s =
      if str_eq e.object_id ""
      then (s, err missing_session_id)
      else elim (get_by_stripe_session_id f.lookup_fails e.object_id s.payments) [
        | err e' ↦ (s, err e')
        | ok p ↦
            let (payments', r) = update_status f.update_fails p.id "refunded" now s.payments in
            let s' = record s { payments = payments' } in
            elim r [
              | err e' ↦ (s', err e')
              | ok _ ↦ elim (parse_uuid p.user_id) [
                | none ↦ (s', ok tt)
                | some user ↦ ((downgrade user s').0, ok tt)
              ]
            ]
      ]

  -- The switch on the event's type, which both modes have; `invoice.payment_failed` is only logged,
  -- and so are types that are not handled.
  unfoldable pub dispatch : StripeWebhookEvent → PaymentStore → Answer
  dispatch e s =
      if str_eq e.event_type "checkout.session.completed"
      then handle_checkout_completed e s
      else if str_eq e.event_type "customer.subscription.deleted"
      then handle_subscription_deleted e s
      else if str_eq e.event_type "invoice.payment_failed"
      then (s, ok tt)
      else if str_eq e.event_type "checkout.session.expired"
      then handle_checkout_expired e s
      else if str_eq e.event_type "charge.refunded"
      then handle_charge_refunded e s
      else (s, ok tt)

  unfoldable pub handle_test_webhook : Option StripeWebhookEvent → PaymentStore → Answer
  unfolding record_webhook_event
  handle_test_webhook event s = elim event [
    | none ↦ (s, err bad_payload)
    | some e ↦
        if str_eq e.id ""
        then dispatch e s
        else let (events', r) = record_webhook_event f.record_fails e.id s.events in
          let s' = record s { events = events' } in
          elim r [
            | err _ ↦ dispatch e s'
            | ok is_new ↦ if is_new then dispatch e s' else (s', ok tt)
          ]
  ]

  -- `HandleWebhook`, with whether the service is in test mode and whether the signature verifies.
  unfoldable pub handle_webhook : Bool → Bool → Option StripeWebhookEvent → PaymentStore → Answer
  unfolding handle_test_webhook record_webhook_event
  handle_webhook test_mode verifies event s =
      if test_mode
      then handle_test_webhook event s
      else if not verifies
      then (s, err invalid_signature)
      else elim event [
        | none ↦ (s, err bad_payload)
        | some e ↦
            if str_eq e.id ""
            then (s, err missing_event_id)
            else let (events', r) = record_webhook_event f.record_fails e.id s.events in
              let s' = record s { events = events' } in
              elim r [
                | err e' ↦ (s', err e')
                | ok is_new ↦ if is_new then dispatch e s' else (s', ok tt)
              ]
      ]
