-- ===== src/Device/Tests.antt =====
-- A user with two devices, backend/internal/service/push_service.go.
use anynote.Base.{
  ◌≡◌, Bool, true, false, some, List, [], ◌∷◌, String, str_eq, Result, ok, err, exists,
  if◌then◌else◌,
}
use anynote.Device.Tokens.{DeviceToken, has_token, is_of}
use anynote.Device.Push.{PushService, PushJob, FcmMessage, process_task}
use anynote.Device.Push.Laws.{PushCall, registers, unregisters, takes_task, run, never_delivers}

abbrev token_of : String → String → DeviceToken
token_of user token = record {
  id = token;
  user_id = user;
  token = token;
  platform = "android";
  created_at = 1;
  updated_at = 1;
}

abbrev tokens : List DeviceToken
tokens = token_of "alice" "t-1" ∷ token_of "bob" "t-2" ∷ token_of "alice" "t-3" ∷ []

-- Firebase does not know the first token.
abbrev send : FcmMessage → Result String String
send m = if str_eq m.token "t-1" then err "UNREGISTERED" else ok "sent"

abbrev service : PushService
service = record { fcm = some send }

abbrev job : PushJob
job = record { user_id = "alice"; title = "hello"; body = ""; payload = [] }

abbrev calls : List PushCall
calls =
    registers false 2 "d-4" "alice" "t-4" "ios"
    ∷ takes_task false (λ t. false) (some job)
    ∷ unregisters false false "alice" "t-1"
    ∷ []

never_delivers_example :
    ((run service calls tokens).1 ≡ [])
    × ((token : String)
        → exists (has_token token) tokens ≡ true
        → exists (has_token token) (run service calls tokens).0 ≡ true)
    × ((job : PushJob) (fails : String → Bool)
        → str_eq job.user_id "" ≡ false
        → exists (is_of job.user_id) (run service calls tokens).0 ≡ true
        → process_task service false fails (some job) (run service calls tokens).0
          ≡ ((run service calls tokens).0, [], true))
never_delivers_example = never_delivers service calls tokens
