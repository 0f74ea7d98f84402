-- ===== src/Payment/Tests.antt =====
-- One purchase of the pro plan, its refund, and a lookup that fails,
-- backend/internal/service/payment_service.go.
use anynote.Base.{
  ◌≡◌, refl, ◌≢◌, str_eq, Option, none, some, true, false, [], ◌∷◌, String, ok, select_one,
  if◌then◌else◌, arith, lookup,
}
use anynote.Plan.{User, plan_free, plan_pro, plan_lifetime, get_plan}
use anynote.Plan.Limits.{plan_of}
use anynote.Payment.{PaymentStore, PaymentFaults, of_session, plan_amount, create_checkout_session}
use Prim.Native.String.{◌++◌ as append}
use anynote.Payment.Signature.{
  IsFresh, parse_stripe_signature_header, verify_stripe_signature, verify_stripe_signature_lem,
}
use anynote.Base.Int.{ℤ, pos}
use anynote.Payment.Webhook.{StripeWebhookEvent, dispatch, handle_webhook}
use anynote.Payment.Events.{Delivery, deliver, webhook_once}
use anynote.Payment.Outcomes.{IsFaultless, completed}
use anynote.Payment.Purchase.{pending, purchase_lem}

abbrev no_faults : PaymentFaults
no_faults = record {
  record_fails = false;
  lookup_fails = false;
  update_fails = false;
  begin_fails = false;
  complete_fails = false;
  upgrade_fails = false;
  commit_fails = false;
  set_plan_fails = false;
}

no_faults-IsFaultless : IsFaultless no_faults
no_faults-IsFaultless = record {
  records = refl;
  finds = refl;
  updates = refl;
  begins = refl;
  completes = refl;
  upgrades = refl;
  commits = refl;
  sets_plan = refl;
}

abbrev no_lookup : PaymentFaults
no_lookup = record no_faults { lookup_fails = true }

-- Every text is a UUID.
abbrev parse : String → Option String
parse text = some text

abbrev user : String → String → User
user id plan = record { id = id; plan = some plan; plan_updated_at = none; updated_at = 0 }

abbrev before : PaymentStore
before = record {
  payments = [];
  users = user "alice" plan_lifetime ∷ user "bob" plan_free ∷ [];
  events = [];
}

abbrev ordered : PaymentStore
ordered = record before {
  payments =
      pending "p1" 3 "alice" "cs1" 499 plan_pro ∷ pending "p2" 4 "bob" "cs2" 499 plan_pro ∷ [];
}

abbrev event : String → String → StripeWebhookEvent
event ty session = record {
  id = "evt1";
  event_type = ty;
  object_id = session;
  client_reference_id = "";
}

abbrev completes : String → StripeWebhookEvent
completes session = event "checkout.session.completed" session

abbrev refunds : String → StripeWebhookEvent
refunds session = event "charge.refunded" session

abbrev other : Delivery
other = record {
  test_mode = false;
  verifies = true;
  event = some (record (completes "cs2") { id = "evt2" });
  faults = no_faults;
  now = 6;
}

webhook_once_example :
    let s' =
      deliver parse
        (other ∷ [])
        (handle_webhook parse no_lookup 5 false true (some (completes "cs1")) ordered).0 in
    handle_webhook parse no_faults 9 false true (some (completes "cs1")) s' ≡ (s', ok tt)
webhook_once_example =
    webhook_once parse (completes "cs1") no_lookup no_faults 5 9 (other ∷ []) ordered refl refl refl

bob_known : plan_of "bob" before.users ≢ none
unfolding get_plan
bob_known = λ e. ground arith

purchase_lem_example :
    let (s', r) =
      create_checkout_session false "p1" 3 (some ("cs1", "https://pay")) "bob" plan_pro before in
    let (s'', r') = dispatch parse no_faults 7 (completes "cs1") s' in
    (r ≡ ok "https://pay")
    × (r' ≡ ok tt)
    × (select_one (of_session "cs1") s''.payments
        ≡ some (completed 7 (pending "p1" 3 "bob" "cs1" 499 plan_pro)))
    × (plan_of "bob" s''.users ≡ some plan_pro)
unfolding plan_amount
purchase_lem_example =
    purchase_lem "p1" 3 "cs1" "https://pay" "bob" plan_pro 499 before refl refl parse no_faults 7
      (completes "cs1") "bob" no_faults-IsFaultless refl refl refl refl bob_known

abbrev joined : String → String → String
joined secret text = append secret text

abbrev clock : String → Option ℤ
clock text = if str_eq text "1000" then some (pos 1000) else none

abbrev header : String
header = " t=1000 , v1=skey1000.body"

parse_header : parse_stripe_signature_header header ≡ ("t", "1000") ∷ ("v1", "skey1000.body") ∷ []
unfolding parse_stripe_signature_header
parse_header = refl

verify_stripe_signature_lem_example :
    (timestamp : String) × (str_eq "skey" "" ≡ false)
    × (lookup "t" (parse_stripe_signature_header header) ≡ some timestamp)
    × (lookup "v1" (parse_stripe_signature_header header)
        ≡ some (joined "skey" (append timestamp (append "." "body"))))
    × IsFresh 1200 (clock timestamp)
unfolding verify_stripe_signature parse_stripe_signature_header
verify_stripe_signature_lem_example =
    verify_stripe_signature_lem joined clock 1200 "body" header "skey" refl
