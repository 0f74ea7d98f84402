-- ===== src/Publish/Jobs/Delivery.antt =====
-- From the request to the platform: a note is published, and the worker takes its task from the queue;
-- backend/internal/service/publish_service.go and backend/internal/queue/publish_job_handler.go.
use anynote.Base.{
  ℕ, ◌≡◌, refl, ◌∙◌, ap, inl, inr, true, Option, some, [], ◌∷◌, ◌++◌, String, Result, ok, err,
  is_ok, length, ltb, arith, Result-cases,
}
use anynote.LlmConfig.Crypto.{Bytes}
use anynote.Platform.Adapters.{Adapter, PublishParams, PublishResult}
use anynote.Platform.Connections.{PlatformConnection, get_by_platform}
use anynote.Publish.{
  PublishService, encrypt_field, decrypt_field, PublishRequest, PublishState, PublishFaults,
  PublishJobPayload, publish, enqueue, payload_of,
}
use anynote.Publish.Tables.{create_log, update_status, update_status_with_post_id}
use anynote.Publish.Fields.{IsLawful, decrypt_field-encrypt_field}
use anynote.Publish.Jobs.{
  Worker, JobFaults, TaskResult, done, retry, authenticate, execute, decrypt_and_execute,
  run_publish, handle_task, run_task,
}

-- A successful publish, where there is a queue, enqueues the two encrypted fields.
publish-queue :
    (svc : PublishService) (f : PublishFaults) (now : ℕ) (id : String) (seed seed' : Option Bytes)
    (user : String) (req : PublishRequest) (s : PublishState)
    → svc.has_queue ≡ true
    → is_ok (publish svc f now id seed seed' user req s).1 ≡ true
    → (title content : String) × (encrypt_field svc seed req.title ≡ ok title)
      × (encrypt_field svc seed' req.content ≡ ok content)
      × ((publish svc f now id seed seed' user req s).0.queue
          ≡ s.queue ++ payload_of id user req title content ∷ [])
      × ((publish svc f now id seed seed' user req s).0.connections ≡ s.connections)
unfolding publish enqueue create_log
publish-queue svc f now id seed seed' user req s queued h =
    elim (Result-cases (encrypt_field svc seed req.title)) [
      | inr (bad, e) ↦ ground (arith, e, h)
      | inl (title, e) ↦ elim (Result-cases (encrypt_field svc seed' req.content)) [
        | inr (bad, e') ↦ ground (arith, e, e', h)
        | inl (content, e') ↦ (
          title,
          content,
          e,
          e',
          ground (arith, e, e', h, queued),
          ground (arith, e, e', h, queued),
        )
      ]
    ]

-- A task is tried again where the platform refused the note.
abbrev pub result_of : Result String (Option PublishResult) → TaskResult
result_of (err _) = retry
result_of (ok _) = done

module _ (w : Worker) (g : JobFaults) (now : ℕ) where
  execute_lem :
      (adapter : Adapter) (auth : Bytes) (params : PublishParams) (id : String) (s : PublishState)
      → execute w g now adapter auth params id s
        ≡ (s, result_of (adapter.publish auth w.master_key params))
  unfolding execute update_status update_status_with_post_id
  execute_lem adapter auth params id s =
      elim (Result-cases (adapter.publish auth w.master_key params)) [
        | inl (result, e) ↦ rw (execute, e) refl
        | inr (message, e) ↦ rw (execute, e) refl
      ]

  authenticate_lem :
      (payload : PublishJobPayload) (id title content : String) (adapter : Adapter) (auth : Bytes)
      (s : PublishState)
      → ltb 0 (length auth) ≡ true
      → decrypt_field w.service payload.title ≡ ok title
      → decrypt_field w.service payload.content ≡ ok content
      → authenticate w g now adapter auth payload id s ≡ (
        s,
        result_of (
            adapter.publish auth w.master_key
              (record { title = title; content = content; tags = payload.tags; images = [] })),
      )
  unfolding authenticate decrypt_and_execute
  authenticate_lem payload id title content adapter [] s full t c = cc
  authenticate_lem payload id title content adapter (x ∷ auth) s full t c =
      rw (decrypt_and_execute, t, c)
        (execute_lem adapter (x ∷ auth)
          (record { title = title; content = content; tags = payload.tags; images = [] }) id s)

  -- What the task of a payload comes to whose fields decrypt, for a connection with data.
  handle_task-result :
      (payload : PublishJobPayload) (id user title content : String) (adapter : Adapter)
      (conn : PlatformConnection) (s : PublishState)
      → w.parse_uuid payload.publish_log_id ≡ some id
      → w.parse_uuid payload.user_id ≡ some user
      → w.registry payload.platform ≡ some adapter
      → get_by_platform g.connection_fails user payload.platform s.connections ≡ some conn
      → ltb 0 (length conn.encrypted_auth) ≡ true
      → decrypt_field w.service payload.title ≡ ok title
      → decrypt_field w.service payload.content ≡ ok content
      → handle_task w g now (some payload) s ≡ (
        s,
        result_of (
            adapter.publish conn.encrypted_auth w.master_key
              (record { title = title; content = content; tags = payload.tags; images = [] })),
      )
  unfolding handle_task run_task run_publish update_status
  handle_task-result payload id user title content adapter conn s p p' known found full t c =
      rw (run_task, p, p', run_publish, known, found)
        (authenticate_lem payload id title content adapter conn.encrypted_auth s full t c)

-- With a lawful cipher and base64, nonces of the cipher's size and a queue: a publication that succeeds
-- enqueues a payload, and a task of that payload, for a platform that the worker has and that the
-- user's connection has data for, calls the platform with the title, the content and the tags of the
-- request. The task is tried again exactly where the platform refuses them, and changes nothing.
pub publish_then_deliver :
    (w : Worker) (lawful : IsLawful w.service) (f : PublishFaults) (g : JobFaults) (now later : ℕ)
    (id user : String) (seed seed' : Bytes) (req : PublishRequest) (adapter : Adapter)
    (conn : PlatformConnection) (s : PublishState)
    → length seed ≡ w.service.cipher.nonce_size
    → length seed' ≡ w.service.cipher.nonce_size
    → w.service.has_queue ≡ true
    → is_ok (publish w.service f now id (some seed) (some seed') user req s).1 ≡ true
    → w.parse_uuid id ≡ some id
    → w.parse_uuid user ≡ some user
    → w.registry req.platform ≡ some adapter
    → get_by_platform g.connection_fails user req.platform s.connections ≡ some conn
    → ltb 0 (length conn.encrypted_auth) ≡ true
    → let s' = (publish w.service f now id (some seed) (some seed') user req s).0 in
      (payload : PublishJobPayload) × (s'.queue ≡ s.queue ++ payload ∷ [])
      × (handle_task w g later (some payload) s' ≡ (
        s',
        result_of (
            adapter.publish conn.encrypted_auth w.master_key
              (record { title = req.title; content = req.content; tags = req.tags; images = [] })),
      ))
publish_then_deliver w lawful f g now later id user seed seed' req adapter conn s size size' queued
      h p p' known found full =
    let (title, content, e, e', enqueued, same) =
      publish-queue w.service f now id (some seed) (some seed') user req s queued h in
    let s' = (publish w.service f now id (some seed) (some seed') user req s).0 in
    let found' : get_by_platform g.connection_fails user req.platform s'.connections ≡ some conn =
      ap (get_by_platform g.connection_fails user req.platform) same ∙ found in
    (
      payload_of id user req title content,
      enqueued,
      handle_task-result w g later (payload_of id user req title content) id user req.title
          req.content adapter conn s' p p' known found' full
          (decrypt_field-encrypt_field w.service lawful seed req.title title size e)
          (decrypt_field-encrypt_field w.service lawful seed' req.content content size' e'),
    )
