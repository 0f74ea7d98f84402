-- ===== src/Device/Push.antt =====
-- Push messages: backend/internal/service/push_service.go and backend/internal/queue/push_job_handler.go.
-- Firebase's client is a function from a message to its id or an error's text. The values of a payload's
-- data are the texts that fmt.Sprint makes of them.
pub mod Laws
use Prim.Native.String.{find, len}
use anynote.Base.{
  ℕ, Bool, true, false, ◌||◌, not, Option, none, some, List, [], ◌∷◌, String, str_eq, Result, ok,
  err, map, leb, if◌then◌else◌,
}
use anynote.Device.Tokens.{DeviceToken, create_token, delete_by_token, get_by_token, list_by_user}

pub record PushPayload : Type 0 where
  pub title : String
  pub body : String
  pub payload : List (String × String)
  pub priority : String

pub record FcmMessage : Type 0 where
  pub token : String
  pub title : String
  pub body : String
  pub payload : List (String × String)
  pub priority : String

-- `fcm` is none in log-only mode.
pub record PushService : Type 0 where
  pub fcm : Option (FcmMessage → Result String String)

pub data PushError : Type 0 where
  database token_not_found not_owner : PushError

abbrev contains : String → String → Bool
contains text part = leb (find text part) (len text)

unfoldable pub is_unregistered_error : String → Bool
is_unregistered_error message =
    contains message "UNREGISTERED"
    || contains message "invalid-registration-token"
    || contains message "NotRegistered"

abbrev pub message_of : PushPayload → DeviceToken → FcmMessage
message_of p t = record {
  token = t.token;
  title = p.title;
  body = p.body;
  payload = p.payload;
  priority = p.priority;
}

abbrev is_stale_answer : Result String String → Bool
is_stale_answer (ok _) = false
is_stale_answer (err message) = is_unregistered_error message

-- Whether Firebase says that the device's token is not registered.
abbrev pub is_stale : (FcmMessage → Result String String) → PushPayload → DeviceToken → Bool
is_stale send p t = is_stale_answer (send (message_of p t))

abbrev kept : Option (List DeviceToken) → List DeviceToken → List DeviceToken
kept none rows = rows
kept (some rows') rows = rows'

-- The loop over the devices, with the deletions that fail by token.
unfoldable pub send_all :
    (String → Bool)
    → (FcmMessage → Result String String)
    → PushPayload
    → List DeviceToken
    → List DeviceToken
    → List DeviceToken
send_all fails send p [] rows = rows
send_all fails send p (t ∷ devices) rows =
    send_all fails send p devices
      (if is_stale send p t then kept (delete_by_token (fails t.token) t.token rows) rows else rows)

-- `SendPush`: the tokens after it, the messages that were sent, and its error.
unfoldable pub send_push :
    PushService
    → Bool
    → (String → Bool)
    → String
    → PushPayload
    → List DeviceToken
    → List DeviceToken × List FcmMessage × Result PushError (Unit {0})
send_push svc list_fails fails user p rows = elim (list_by_user list_fails user rows) [
  | none ↦ (rows, [], err database)
  | some devices ↦ elim svc.fcm [
    | none ↦ (rows, [], ok tt)
    | some send ↦ (send_all fails send p devices rows, map (message_of p) devices, ok tt)
  ]
]

unfoldable pub register_device :
    Bool
    → ℕ
    → String
    → String
    → String
    → String
    → List DeviceToken
    → List DeviceToken × Result PushError (Unit {0})
register_device fails now id user token platform rows =
    elim (create_token fails now id user token platform rows) [
      | none ↦ (rows, err database)
      | some rows' ↦ (rows', ok tt)
    ]

unfoldable pub unregister_device :
    Bool
    → Bool
    → String
    → String
    → List DeviceToken
    → List DeviceToken × Result PushError (Unit {0})
unregister_device get_fails delete_fails user token rows =
    elim (get_by_token get_fails token rows) [
      | none ↦ (rows, err token_not_found)
      | some entry ↦
          if not (str_eq entry.user_id user)
          then (rows, err not_owner)
          else elim (delete_by_token delete_fails token rows) [
            | none ↦ (rows, err database)
            | some rows' ↦ (rows', ok tt)
          ]
    ]

-- A task of the queue: none is a payload that does not parse. The last part is whether it is tried again.
pub record PushJob : Type 0 where
  pub user_id : String
  pub title : String
  pub body : String
  pub payload : List (String × String)

unfoldable pub process_task :
    PushService
    → Bool
    → (String → Bool)
    → Option PushJob
    → List DeviceToken
    → List DeviceToken × List FcmMessage × Bool
process_task svc list_fails fails none rows = (rows, [], true)
process_task svc list_fails fails (some job) rows =
    if str_eq job.user_id ""
    then (rows, [], false)
    else let (rows', messages, result) =
        send_push svc list_fails fails job.user_id
          (record { title = job.title; body = job.body; payload = job.payload; priority = "" })
          rows in
      (rows', messages, elim result [ ok _ ↦ false | err _ ↦ true ])
