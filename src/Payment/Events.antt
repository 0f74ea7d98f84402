-- ===== src/Payment/Events.antt =====
-- What every webhook event leaves alone, and what a repeated one does,
-- backend/internal/service/payment_service.go.
use anynote.Base.{
  ℕ, Bool, true, false, ◌≡◌, ◌⊎◌, Option, none, some, List, [], ◌∷◌, String, str_eq, eq_refl, ok,
  exists, arith,
}
use anynote.Payment.{PaymentStore, PaymentFaults, record_webhook_event}
use anynote.Payment.Webhook.{
  StripeWebhookEvent, Answer, complete_payment, handle_checkout_completed,
  handle_subscription_deleted, handle_checkout_expired, handle_charge_refunded, dispatch,
  handle_test_webhook, handle_webhook,
}

-- An answer that succeeds, or leaves the payments and the users as they were.
abbrev pub IsClean : PaymentStore → Answer → Type 0
IsClean s a = (a.1 ≡ ok tt) ⊎ (a.0.payments ≡ s.payments) × (a.0.users ≡ s.users)

abbrev pub is_recorded : String → PaymentStore → Bool
is_recorded event s = exists (λ e. str_eq e event) s.events

module _ (parse_uuid : String → Option String) (f : PaymentFaults) (now : ℕ) where
  abbrev Keeps : (PaymentStore → Answer) → Type 0
  Keeps h = (s : PaymentStore) → ((h s).0.events ≡ s.events) × IsClean s (h s)

  complete_payment-Keeps : (session : String) → Keeps (complete_payment parse_uuid f now session)
  unfolding complete_payment
  complete_payment-Keeps session s = ground arith

  checkout_completed-Keeps :
      (e : StripeWebhookEvent) → Keeps (handle_checkout_completed parse_uuid f now e)
  unfolding handle_checkout_completed
  checkout_completed-Keeps e s = ground (arith, complete_payment-Keeps e.object_id s)

  subscription_deleted-Keeps :
      (e : StripeWebhookEvent) → Keeps (handle_subscription_deleted parse_uuid f now e)
  unfolding handle_subscription_deleted
  subscription_deleted-Keeps e s = ground arith

  checkout_expired-Keeps :
      (e : StripeWebhookEvent) → Keeps (handle_checkout_expired parse_uuid f now e)
  unfolding handle_checkout_expired
  checkout_expired-Keeps e s = ground arith

  charge_refunded-Keeps :
      (e : StripeWebhookEvent) → Keeps (handle_charge_refunded parse_uuid f now e)
  unfolding handle_charge_refunded
  charge_refunded-Keeps e s = ground arith

  dispatch-Keeps : (e : StripeWebhookEvent) → Keeps (dispatch parse_uuid f now e)
  unfolding dispatch
  dispatch-Keeps e s = ground (
    arith,
    checkout_completed-Keeps e s,
    subscription_deleted-Keeps e s,
    checkout_expired-Keeps e s,
    charge_refunded-Keeps e s,
  )

  record-events :
      (event : String) (events : List String)
      → (record_webhook_event f.record_fails event events).1 ≡ ok false
      → exists (λ e. str_eq e event) events ≡ true
  unfolding record_webhook_event
  record-events event events h = ground arith

  -- A webhook that returns an error leaves every payment and every user's plan as it was, in test
  -- mode and outside it, whichever queries fail.
  pub webhook_error_unchanged :
      (test_mode verifies : Bool) (event : Option StripeWebhookEvent) (s : PaymentStore)
      → IsClean s (handle_webhook parse_uuid f now test_mode verifies event s)
  unfolding handle_webhook handle_test_webhook record_webhook_event
  webhook_error_unchanged test_mode verifies none s = ground arith
  webhook_error_unchanged test_mode verifies (some e) s =
      ground (arith, dispatch-Keeps e s, dispatch-Keeps e (record s { events = e.id ∷ s.events }))

  recorded-kept :
      (k : String) (test_mode verifies : Bool) (event : Option StripeWebhookEvent)
      (s : PaymentStore)
      → is_recorded k s ≡ true
      → is_recorded k (handle_webhook parse_uuid f now test_mode verifies event s).0 ≡ true
  unfolding handle_webhook handle_test_webhook record_webhook_event
  recorded-kept k test_mode verifies none s h = ground arith
  recorded-kept k test_mode verifies (some e) s h =
      ground (
        arith,
        (dispatch-Keeps e s).0,
        (dispatch-Keeps e (record s { events = e.id ∷ s.events })).0,
      )

  recorded-after :
      (e : StripeWebhookEvent) (s : PaymentStore)
      → str_eq e.id "" ≡ false
      → f.record_fails ≡ false
      → is_recorded e.id (handle_webhook parse_uuid f now false true (some e) s).0 ≡ true
  unfolding handle_webhook record_webhook_event
  recorded-after e s h r =
      ground (arith, (dispatch-Keeps e (record s { events = e.id ∷ s.events })).0, eq_refl e.id)

  recorded-skips :
      (e : StripeWebhookEvent) (s : PaymentStore)
      → str_eq e.id "" ≡ false
      → f.record_fails ≡ false
      → is_recorded e.id s ≡ true
      → handle_webhook parse_uuid f now false true (some e) s ≡ (s, ok tt)
  unfolding handle_webhook record_webhook_event
  recorded-skips e s h r k = ground arith

-- A delivery of an event to the service.
pub record Delivery : Type 0 where
  pub test_mode : Bool
  pub verifies : Bool
  pub event : Option StripeWebhookEvent
  pub faults : PaymentFaults
  pub now : ℕ

module _ (parse_uuid : String → Option String) where
  unfoldable pub deliver : List Delivery → PaymentStore → PaymentStore
  deliver [] s = s
  deliver (d ∷ ds) s =
      deliver ds (handle_webhook parse_uuid d.faults d.now d.test_mode d.verifies d.event s).0

  deliver-recorded :
      (k : String) (ds : List Delivery) (s : PaymentStore)
      → is_recorded k s ≡ true
      → is_recorded k (deliver ds s) ≡ true
  unfolding deliver
  deliver-recorded k [] s h = h
  deliver-recorded k (d ∷ ds) s h =
      deliver-recorded k ds _
        (recorded-kept parse_uuid d.faults d.now k d.test_mode d.verifies d.event s h)

  -- Once a signed event with an id has been delivered, outside test mode and with no fault in
  -- recording it, a later signed delivery of it with no fault in looking it up is answered with
  -- success and changes nothing, whatever was delivered in between, and whether or not the first
  -- delivery was handled: one whose handling failed is never tried again.
  pub webhook_once :
      (e : StripeWebhookEvent) (f g : PaymentFaults) (now later : ℕ) (ds : List Delivery)
      (s : PaymentStore)
      → str_eq e.id "" ≡ false
      → f.record_fails ≡ false
      → g.record_fails ≡ false
      → let s' = deliver ds (handle_webhook parse_uuid f now false true (some e) s).0 in
        handle_webhook parse_uuid g later false true (some e) s' ≡ (s', ok tt)
  webhook_once e f g now later ds s h rf rg =
      recorded-skips parse_uuid g later e _ h rg
        (deliver-recorded e.id ds _ (recorded-after parse_uuid f now e s h rf))
