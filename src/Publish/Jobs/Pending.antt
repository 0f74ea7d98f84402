-- ===== src/Publish/Jobs/Pending.antt =====
-- What becomes of the logs of publishing, backend/internal/service/publish_service.go,
-- backend/internal/queue/publish_job_handler.go and stats_refresh_handler.go, over
-- backend/internal/repository/publish_log_repository.go.
use anynote.Base.{
  ℕ, ◌≡◌, refl, ◌∙◌, inl, inr, Bool, true, false, ◌||◌, Option, none, some, List, [], ◌∷◌, ◌++◌,
  String, eq_iff, err, select, exists, All, arith, Bool-cases, Option-cases, Result-cases,
}
use anynote.LlmConfig.Crypto.{Bytes}
use anynote.Platform.Adapters.{Adapter}
use anynote.Platform.Connections.{get_by_platform}
use anynote.Publish.{
  PublishService, database, encrypt_field, PublishRequest, PublishState, PublishFaults,
  PublishJobPayload, publish, enqueue, log_of, get_by_id,
}
use anynote.Publish.Tables.{
  PublishLog, has_id, create_log, update_status, update_status_with_post_id, get_log, scan,
  scan_all, is_recent, list_recent_published_with_post_id,
}
use anynote.Publish.Jobs.{
  Worker, JobFaults, RefreshStep, authenticate, execute, decrypt_and_execute, run_publish, run_task,
  handle_task, refresh_logs, lookback_days, handle_refresh_post_stats,
}

-- A call of the service, a task of the worker, or a round of the refresh of statistics.
pub data PublishCall : Type 0 where
  publishes :
      PublishFaults
      → ℕ
      → String
      → Option Bytes
      → Option Bytes
      → String
      → PublishRequest
      → PublishCall
  takes_task : JobFaults → ℕ → Option PublishJobPayload → PublishCall
  refreshes : Bool → ℕ → (String → RefreshStep) → PublishCall

unfoldable pub step : Worker → PublishCall → PublishState → PublishState
step w (publishes f now id seed seed' user req) s =
    (publish w.service f now id seed seed' user req s).0
step w (takes_task f now payload) s = (handle_task w f now payload s).0
step w (refreshes fails now steps) s = (handle_refresh_post_stats w fails now steps s).0

unfoldable pub run : Worker → List PublishCall → PublishState → PublishState
unfolding step
run w [] s = s
run w (c ∷ calls) s = run w calls (step w c s)

-- A log as it is inserted: no task, platform or failure has left anything in it.
pub record IsPending (l : PublishLog) : Type 0 where
  pub pending : l.status ≡ "pending"
  pub no_url : l.platform_url ≡ none
  pub no_message : l.error_message ≡ none
  pub no_post : l.platform_post_id ≡ ""

-- No task changes a table.
module _ (w : Worker) (f : JobFaults) (now : ℕ) where
  decrypt_and_execute-same :
      (adapter : Adapter) (auth : Bytes) (payload : PublishJobPayload) (id : String)
      (s : PublishState)
      → (decrypt_and_execute w f now adapter auth payload id s).0 ≡ s
  unfolding decrypt_and_execute execute update_status update_status_with_post_id
  decrypt_and_execute-same adapter auth payload id s = ground arith

  authenticate-same :
      (adapter : Adapter) (auth : Bytes) (payload : PublishJobPayload) (id : String)
      (s : PublishState)
      → (authenticate w f now adapter auth payload id s).0 ≡ s
  unfolding authenticate update_status
  authenticate-same adapter [] payload id s = refl
  authenticate-same adapter (x ∷ xs) payload id s =
      decrypt_and_execute-same adapter (x ∷ xs) payload id s

  run_task-same :
      (payload : PublishJobPayload) (s : PublishState) → (run_task w f now payload s).0 ≡ s
  unfolding run_task run_publish update_status
  run_task-same payload s = elim (Option-cases (w.parse_uuid payload.publish_log_id)) [
    | inl e ↦ rw (run_task, e) refl
    | inr (id, e) ↦ elim (Option-cases (w.parse_uuid payload.user_id)) [
      | inl e' ↦ rw (run_task, e, e') refl
      | inr (user, e') ↦ elim (Option-cases (w.registry payload.platform)) [
        | inl k ↦ rw (run_task, e, e', run_publish, k) refl
        | inr (adapter, k) ↦
            elim (Option-cases
              (get_by_platform f.connection_fails user payload.platform s.connections)) [
                | inl c ↦ rw (run_task, e, e', run_publish, k, c) refl
                | inr (conn, c) ↦
                    rw (run_task, e, e', run_publish, k, c)
                      (authenticate-same adapter conn.encrypted_auth payload id s)
              ]
      ]
    ]
  ]

  handle_task-same :
      (payload : Option PublishJobPayload) (s : PublishState)
      → (handle_task w f now payload s).0 ≡ s
  unfolding handle_task
  handle_task-same none s = refl
  handle_task-same (some payload) s = run_task-same payload s

none_recent :
    (days now : ℕ) (logs : List PublishLog)
    → All IsPending logs
    → select (is_recent days now) logs ≡ []
none_recent days now [] h = refl
none_recent days now (l ∷ logs) h =
    let post = h.0.no_post in
    ground (arith, post, eq_iff l.platform_post_id "", none_recent days now logs h.1)

refresh-same :
    (w : Worker) (fails : Bool) (now : ℕ) (steps : String → RefreshStep) (s : PublishState)
    → All IsPending s.logs
    → (handle_refresh_post_stats w fails now steps s).0 ≡ s
unfolding handle_refresh_post_stats list_recent_published_with_post_id refresh_logs scan_all
refresh-same w true now steps s h = refl
refresh-same w false now steps s h =
    rw
      (
        handle_refresh_post_stats,
        list_recent_published_with_post_id,
        none_recent lookback_days now s.logs h,
      )
      refl

snoc-IsPending :
    (logs : List PublishLog) (l : PublishLog)
    → All IsPending logs
    → IsPending l
    → All IsPending (logs ++ l ∷ [])
snoc-IsPending [] l h p = (p, tt)
snoc-IsPending (x ∷ logs) l h p = (h.0, snoc-IsPending logs l h.1 p)

module _ (svc : PublishService) where
  log_of-IsPending :
      (id user : String) (now : ℕ) (req : PublishRequest) (title content : String)
      → IsPending (log_of id user now req title content)
  log_of-IsPending id user now req title content = record {
    pending = refl;
    no_url = refl;
    no_message = refl;
    no_post = refl;
  }

  create-IsPending :
      (fails : Bool) (id user : String) (now : ℕ) (req : PublishRequest) (title content : String)
      (logs : List PublishLog)
      → All IsPending logs
      → All IsPending (create_log fails (log_of id user now req title content) logs).0
  unfolding create_log
  create-IsPending fails id user now req title content logs h =
      elim (Bool-cases (fails || exists (has_id id) logs)) [
        | inl taken ↦ rw taken h
        | inr free ↦ rw free (
            snoc-IsPending logs (log_of id user now req title content) h
              (log_of-IsPending id user now req title content))
      ]

  -- What a publication leaves in the tables, whatever the queue does.
  publish-tables :
      (f : PublishFaults) (now : ℕ) (id : String) (seed seed' : Option Bytes) (user : String)
      (req : PublishRequest) (s : PublishState)
      → All IsPending s.logs
      → All IsPending (publish svc f now id seed seed' user req s).0.logs
        × ((publish svc f now id seed seed' user req s).0.stats ≡ s.stats)
  unfolding publish enqueue update_status
  publish-tables f now id seed seed' user req s h =
      elim (Result-cases (encrypt_field svc seed req.title)) [
        | inr (bad, e) ↦ rw (publish, e) (h, refl)
        | inl (title, e) ↦ elim (Result-cases (encrypt_field svc seed' req.content)) [
          | inr (bad, e') ↦ rw (publish, e, e') (h, refl)
          | inl (content, e') ↦
              let made = create-IsPending f.create_fails id user now req title content s.logs h in
              elim (Bool-cases
                (create_log f.create_fails (log_of id user now req title content) s.logs).1) [
                  | inr not_made ↦ rw (publish, e, e', not_made) (h, refl)
                  | inl is_made ↦ elim (Bool-cases svc.has_queue) [
                    | inr direct ↦ rw (publish, e, e', is_made, enqueue, direct) (made, refl)
                    | inl queued ↦ elim (Bool-cases f.enqueue_fails) [
                      | inl lost ↦ rw (publish, e, e', is_made, enqueue, queued, lost) (made, refl)
                      | inr kept ↦ rw (publish, e, e', is_made, enqueue, queued, kept) (made, refl)
                    ]
                  ]
                ]
        ]
      ]

  unreadable :
      (id : String) (logs : List PublishLog) → All IsPending logs → get_log false id logs ≡ none
  unfolding get_log scan
  unreadable id [] h = refl
  unreadable id (l ∷ logs) h = elim (Bool-cases (has_id id l)) [
    | inl e ↦ let u = h.0.no_url in rw (get_log, e, u) refl
    | inr e ↦ rw (get_log, e) (unreadable id logs h.1)
  ]

step-IsPending :
    (w : Worker) (c : PublishCall) (s : PublishState)
    → All IsPending s.logs
    → All IsPending (step w c s).logs × ((step w c s).stats ≡ s.stats)
unfolding step
step-IsPending w (publishes f now id seed seed' user req) s h =
    publish-tables w.service f now id seed seed' user req s h
step-IsPending w (takes_task f now payload) s h = rw (handle_task-same w f now payload s) (h, refl)
step-IsPending w (refreshes fails now steps) s h = rw (refresh-same w fails now steps s h) (h, refl)

-- Where every log is as it was inserted, as in an empty table: after any sequence of publications, tasks
-- and refreshes, whatever the platforms answer and whatever fails, each log is pending, with no URL,
-- no message and no post id, no statistics are stored, and nobody can read any log.
pub run-IsPending :
    (w : Worker) (calls : List PublishCall) (s : PublishState)
    → All IsPending s.logs
    → All IsPending (run w calls s).logs
      × ((run w calls s).stats ≡ s.stats)
      × ((user id : String) → get_by_id w.service false user id (run w calls s) ≡ err database)
unfolding run get_by_id
run-IsPending w [] s h = (h, refl, λ user id. rw (get_by_id, unreadable w.service id s.logs h) refl)
run-IsPending w (c ∷ calls) s h =
    let (pending, same) = step-IsPending w c s h in
    let (all, kept, unread) = run-IsPending w calls (step w c s) pending in
    (all, kept ∙ same, unread)
