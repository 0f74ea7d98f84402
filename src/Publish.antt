-- ===== src/Publish.antt =====
-- Publishing: backend/internal/service/publish_service.go over the tables of Publish/Tables. The base64
-- of the standard library is a pair of functions, and the master key a cipher. The queue is a list of
-- payloads; push messages, which change no state, are left out. A history's rows are read at once.
pub mod Tables
pub mod Fields
pub mod Jobs
mod Tests
use anynote.Base.{
  ℕ, ◌≡◌, Bool, true, false, ◌||◌, not, Option, none, some, List, [], ◌∷◌, ◌++◌, String, str_eq,
  Result, ok, err, exists, if◌then◌else◌,
}
use anynote.LlmConfig.Crypto.{Bytes, Cipher, encrypt_api_key, decrypt_api_key}
use anynote.Platform.Connections.{PlatformConnection}
use anynote.Publish.Tables.{
  PublishLog, PostStats, create_log, get_log, list_by_user, update_status, latest_post_stats,
}

pub record Base64 : Type 0 where
  pub encode_to_string : Bytes → String
  pub decode_string : String → Option Bytes

-- What base64 promises: it decodes what it encodes, and encodes no bytes but none to the empty text.
pub record IsBase64 (b : Base64) : Type 0 where
  pub decodes : (bytes : Bytes) → b.decode_string (b.encode_to_string bytes) ≡ some bytes
  pub covers : (bytes : Bytes) → b.encode_to_string bytes ≡ "" → bytes ≡ []

pub record PublishService : Type 0 where
  pub has_master_key : Bool
  pub cipher : Cipher
  pub base64 : Base64
  pub has_queue : Bool
  pub valid_platforms : List String

pub record PublishRequest : Type 0 where
  pub platform : String
  pub title : String
  pub content : String
  pub tags : List String

pub record PublishJobPayload : Type 0 where
  pub user_id : String
  pub platform : String
  pub publish_log_id : String
  pub title : String
  pub content : String
  pub tags : List String

pub data PublishError : Type 0 where
  database encryption_failed decryption_failed enqueue_failed not_owner : PublishError

pub record PublishState : Type 0 where
  pub logs : List PublishLog
  pub stats : List PostStats
  pub connections : List PlatformConnection
  pub queue : List PublishJobPayload

-- The steps of one call that fail.
pub record PublishFaults : Type 0 where
  pub create_fails : Bool
  pub enqueue_fails : Bool
  pub update_fails : Bool

unfoldable pub encrypt_field : PublishService → Option Bytes → String → Result PublishError String
encrypt_field svc seed plaintext =
    if str_eq plaintext "" || not svc.has_master_key
    then ok plaintext
    else elim (encrypt_api_key svc.cipher seed plaintext) [
      | err _ ↦ err encryption_failed
      | ok ciphertext ↦ ok (svc.base64.encode_to_string ciphertext)
    ]

-- A text that is no base64 is taken for a plain one.
unfoldable pub decrypt_field : PublishService → String → Result PublishError String
decrypt_field svc encoded =
    if str_eq encoded "" || not svc.has_master_key
    then ok encoded
    else elim (svc.base64.decode_string encoded) [
      | none ↦ ok encoded
      | some ciphertext ↦ elim (decrypt_api_key svc.cipher ciphertext) [
        | err _ ↦ err decryption_failed
        | ok plaintext ↦ ok plaintext
      ]
    ]

-- The new row: the INSERT names neither the URL nor the message.
abbrev pub log_of : String → String → ℕ → PublishRequest → String → String → PublishLog
log_of id user now req title content = record {
  id = id;
  user_id = user;
  platform = req.platform;
  title = title;
  content = content;
  status = "pending";
  platform_url = none;
  platform_post_id = "";
  error_message = none;
  published_at = none;
  created_at = now;
  stats = none;
}

abbrev pub payload_of : String → String → PublishRequest → String → String → PublishJobPayload
payload_of id user req title content = record {
  user_id = user;
  platform = req.platform;
  publish_log_id = id;
  title = title;
  content = content;
  tags = req.tags;
}

-- The end of `Publish`: the job is enqueued, or the log is marked as failed.
unfoldable pub enqueue :
    PublishService
    → PublishFaults
    → ℕ
    → PublishLog
    → PublishJobPayload
    → PublishState
    → PublishState × Result PublishError PublishLog
enqueue svc f now log payload s =
    if not svc.has_queue
    then (s, ok log)
    else if f.enqueue_fails
    then (
      record s {
        logs = update_status f.update_fails log.id "failed" "failed to enqueue" "" now s.logs;
      },
      err enqueue_failed,
    )
    else (record s { queue = s.queue ++ payload ∷ [] }, ok log)

-- `Publish`, with the new id and the nonces that it draws.
unfoldable pub publish :
    PublishService
    → PublishFaults
    → ℕ
    → String
    → Option Bytes
    → Option Bytes
    → String
    → PublishRequest
    → PublishState
    → PublishState × Result PublishError PublishLog
publish svc f now id seed seed' user req s = elim (encrypt_field svc seed req.title) [
  | err e ↦ (s, err e)
  | ok title ↦ elim (encrypt_field svc seed' req.content) [
    | err e ↦ (s, err e)
    | ok content ↦
        let log = log_of id user now req title content in
        let (logs', created) = create_log f.create_fails log s.logs in
        if created
        then enqueue svc f now log (payload_of id user req title content)
            (record s { logs = logs' })
        else (s, err database)
  ]
]

-- A log with its title and content decrypted.
unfoldable pub decrypt_log : PublishService → PublishLog → Result PublishError PublishLog
decrypt_log svc l = elim (decrypt_field svc l.title) [
  | err e ↦ err e
  | ok title ↦ elim (decrypt_field svc l.content) [
    | err e ↦ err e
    | ok content ↦ ok (record l { title = title; content = content })
  ]
]

abbrev with_stats : (String → Bool) → List PostStats → PublishLog → PublishLog
with_stats fails stats l =
    if not (str_eq l.platform_post_id "")
    then elim (latest_post_stats (fails l.id) l.id stats) [
      | none ↦ l
      | some st ↦ record l { stats = some st }
    ]
    else l

-- `stats_fails` says for which logs the query for statistics fails.
unfoldable pub decrypt_all :
    PublishService
    → (String → Bool)
    → List PostStats
    → List PublishLog
    → Result PublishError (List PublishLog)
decrypt_all svc stats_fails stats [] = ok []
decrypt_all svc stats_fails stats (l ∷ logs) =
    let rest = decrypt_all svc stats_fails stats logs in
    elim (decrypt_log svc l) [
      | err e ↦ err e
      | ok l' ↦ elim rest [
        | err e ↦ err e
        | ok logs' ↦ ok (with_stats stats_fails stats l' ∷ logs')
      ]
    ]

unfoldable pub get_history :
    PublishService
    → Bool
    → (String → Bool)
    → String
    → PublishState
    → Result PublishError (List PublishLog)
get_history svc list_fails stats_fails user s = elim (list_by_user list_fails user s.logs) [
  | none ↦ err database
  | some logs ↦ decrypt_all svc stats_fails s.stats logs
]

unfoldable pub get_by_id :
    PublishService → Bool → String → String → PublishState → Result PublishError PublishLog
get_by_id svc fails user id s = elim (get_log fails id s.logs) [
  | none ↦ err database
  | some l ↦ if not (str_eq l.user_id user) then err not_owner else decrypt_log svc l
]

unfoldable pub is_valid_platform : PublishService → String → Bool
is_valid_platform svc name = if str_eq name "" then false else elim svc.valid_platforms [
  | [] ↦ true
  | _ ∷ _ ↦ exists (λ p. str_eq p name) svc.valid_platforms
]
