-- ===== src/Publish/Jobs.antt =====
-- The worker's side of publishing: backend/internal/queue/publish_job_handler.go and the refresh of
-- statistics of backend/internal/queue/stats_refresh_handler.go. The platforms' adapters are clients of
-- remote services: a registry of functions. A task that is returned with an error is tried again.
pub mod Delivery
pub mod Pending
use anynote.Base.{
  ℕ, Bool, true, false, ◌||◌, not, Option, none, some, List, [], ◌∷◌, String, str_eq, Result, ok,
  err, if◌then◌else◌,
}
use Prim.Native.String.{◌++◌ as append}
use anynote.LlmConfig.Crypto.{Bytes}
use anynote.Platform.Adapters.{Adapter, PublishParams, PublishResult, FetchedStats}
use anynote.Platform.Connections.{get_by_platform}
use anynote.Publish.{PublishService, PublishError, PublishState, PublishJobPayload, decrypt_field}
use anynote.Publish.Tables.{
  PublishLog, PostStats, update_status, update_status_with_post_id,
  list_recent_published_with_post_id, insert_post_stats, trim_post_stats,
}

pub record Worker : Type 0 where
  pub service : PublishService
  pub master_key : Bytes
  pub registry : String → Option Adapter
  pub parse_uuid : String → Option String

-- The queries of one task that fail: the status at its start, the connection, and the status at its end.
pub record JobFaults : Type 0 where
  pub start_fails : Bool
  pub connection_fails : Bool
  pub finish_fails : Bool

-- Whether a task is to be tried again.
pub data TaskResult : Type 0 where
  done retry : TaskResult

module _ (w : Worker) (f : JobFaults) (now : ℕ) where
  abbrev pub fail_log : String → String → PublishState → PublishState
  fail_log id message s = record s {
    logs = update_status f.finish_fails id "failed" message "" now s.logs;
  }

  abbrev result_url : Option PublishResult → String
  result_url none = ""
  result_url (some r) = r.platform_url

  abbrev result_id : Option PublishResult → String
  result_id none = ""
  result_id (some r) = r.platform_id

  -- The call of the adapter, and the status after it.
  unfoldable pub execute :
      Adapter → Bytes → PublishParams → String → PublishState → PublishState × TaskResult
  execute adapter auth params id s = elim (adapter.publish auth w.master_key params) [
    | err message ↦ (fail_log id message s, retry)
    | ok result ↦ (
      record s {
        logs =
            update_status_with_post_id f.finish_fails id "published" "" (result_url result)
              (result_id result) now s.logs;
      },
      done,
    )
  ]

  -- From the connection's data on: the fields are decrypted, and then published.
  unfoldable pub decrypt_and_execute :
      Adapter → Bytes → PublishJobPayload → String → PublishState → PublishState × TaskResult
  decrypt_and_execute adapter auth payload id s = elim (decrypt_field w.service payload.title) [
    | err _ ↦ (fail_log id "failed to decrypt title" s, done)
    | ok title ↦ elim (decrypt_field w.service payload.content) [
      | err _ ↦ (fail_log id "failed to decrypt content" s, done)
      | ok content ↦
          execute adapter auth
            (record { title = title; content = content; tags = payload.tags; images = [] }) id s
    ]
  ]

  -- A connection with no data has expired.
  unfoldable pub authenticate :
      Adapter → Bytes → PublishJobPayload → String → PublishState → PublishState × TaskResult
  authenticate adapter [] payload id s = (fail_log id "platform authentication expired" s, done)
  authenticate adapter (b ∷ auth) payload id s = decrypt_and_execute adapter (b ∷ auth) payload id s

  -- After the status is `publishing`.
  unfoldable pub run_publish :
      PublishJobPayload → String → String → PublishState → PublishState × TaskResult
  run_publish payload id user s = elim (w.registry payload.platform) [
    | none ↦ (fail_log id (append "unsupported platform: " payload.platform) s, done)
    | some adapter ↦ elim (get_by_platform f.connection_fails user payload.platform s.connections) [
      | none ↦ (fail_log id "platform not connected" s, done)
      | some conn ↦ authenticate adapter conn.encrypted_auth payload id s
    ]
  ]

  -- The task of a payload that was read.
  unfoldable pub run_task : PublishJobPayload → PublishState → PublishState × TaskResult
  run_task payload s = elim (w.parse_uuid payload.publish_log_id) [
    | none ↦ (s, done)
    | some id ↦ elim (w.parse_uuid payload.user_id) [
      | none ↦ (s, done)
      | some user ↦
          run_publish payload id user
            (record s { logs = update_status f.start_fails id "publishing" "" "" now s.logs })
    ]
  ]

  -- `HandleTask`: none is a payload that does not unmarshal.
  unfoldable pub handle_task : Option PublishJobPayload → PublishState → PublishState × TaskResult
  handle_task none s = (s, retry)
  handle_task (some payload) s = run_task payload s

-- The faults of the refresh of one log's statistics, its time, and the id of its new row.
pub record RefreshStep : Type 0 where
  pub connection_fails : Bool
  pub insert_fails : Bool
  pub trim_fails : Bool
  pub now : ℕ
  pub row_id : ℕ

abbrev pub stats_row : String → RefreshStep → FetchedStats → PostStats
stats_row id step st = record {
  id = step.row_id;
  publish_id = id;
  views = st.views;
  likes = st.likes;
  comments = st.comments;
  fetched_at = step.now;
}

unfoldable pub keep_stats : RefreshStep → String → FetchedStats → List PostStats → List PostStats
keep_stats step id st stats =
    if step.insert_fails
    then stats
    else let stats' = insert_post_stats (stats_row id step st) stats in
      if step.trim_fails then stats' else trim_post_stats id 30 stats'

-- The statistics of one log, where its adapter has any and its connection is there.
unfoldable pub refresh_log : Worker → RefreshStep → PublishLog → PublishState → PublishState
refresh_log w step l s = elim (w.registry l.platform) [
  | none ↦ s
  | some adapter ↦ elim adapter.fetch_stats [
    | none ↦ s
    | some fetch ↦ elim (get_by_platform step.connection_fails l.user_id l.platform s.connections) [
      | none ↦ s
      | some conn ↦ elim conn.encrypted_auth [
        | [] ↦ s
        | _ ∷ _ ↦ elim (fetch conn.encrypted_auth w.master_key l.platform_post_id) [
          | none ↦ s
          | some st ↦ record s { stats = keep_stats step l.id st s.stats }
        ]
      ]
    ]
  ]
]

unfoldable pub refresh_logs :
    Worker → (String → RefreshStep) → List PublishLog → PublishState → PublishState
refresh_logs w step [] s = s
refresh_logs w step (l ∷ logs) s = refresh_logs w step logs (refresh_log w (step l.id) l s)

abbrev pub lookback_days : ℕ
lookback_days = 30

-- `HandleRefreshPostStats`, and whether the query for the logs works.
unfoldable pub handle_refresh_post_stats :
    Worker → Bool → ℕ → (String → RefreshStep) → PublishState → PublishState × Bool
handle_refresh_post_stats w list_fails now step s =
    elim (list_recent_published_with_post_id list_fails lookback_days now s.logs) [
      | none ↦ (s, false)
      | some logs ↦ (refresh_logs w step logs s, true)
    ]
