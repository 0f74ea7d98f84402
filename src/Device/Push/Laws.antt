-- ===== src/Device/Push/Laws.antt =====
-- What becomes of push messages, backend/internal/service/push_service.go and
-- backend/internal/queue/push_job_handler.go, over backend/internal/repository/device_token_repository.go.
use anynote.Base.{
  ℕ, ◌≡◌, refl, ◌∙◌, ap, ap₂, Bool, true, false, Option, none, some, List, [], ◌∷◌, ◌++◌, String,
  str_eq, select_one, select, update, exists, exists-snoc, order_desc, exists-order_desc,
  if◌then◌else◌, inl, inr, arith, Bool-cases, Option-cases,
}
use anynote.Device.Tokens.{
  DeviceToken, has_token, is_of, create_token, scan, scan_all, get_by_token, list_by_user,
}
use anynote.Device.Push.{
  PushService, PushPayload, FcmMessage, PushJob, send_all, send_push, register_device,
  unregister_device, process_task,
}

-- A registration, the end of one, or a task of the queue.
pub data PushCall : Type 0 where
  registers : Bool → ℕ → String → String → String → String → PushCall
  unregisters : Bool → Bool → String → String → PushCall
  takes_task : Bool → (String → Bool) → Option PushJob → PushCall

-- The tokens after a call, and the messages that were sent.
unfoldable pub step : PushService → PushCall → List DeviceToken → List DeviceToken × List FcmMessage
step svc (registers fails now id user token platform) rows =
    ((register_device fails now id user token platform rows).0, [])
step svc (unregisters get_fails delete_fails user token) rows =
    ((unregister_device get_fails delete_fails user token rows).0, [])
step svc (takes_task list_fails fails job) rows =
    let (rows', messages, _) = process_task svc list_fails fails job rows in (rows', messages)

unfoldable pub run :
    PushService → List PushCall → List DeviceToken → List DeviceToken × List FcmMessage
unfolding step
run svc [] rows = (rows, [])
run svc (c ∷ calls) rows =
    let (rows', messages) = step svc c rows in
    let (rows'', later) = run svc calls rows' in (rows'', messages ++ later)

exists-select :
    (p : DeviceToken → Bool) (rows : List DeviceToken)
    → exists (λ t. true) (select p rows) ≡ exists p rows
exists-select p [] = refl
exists-select p (t ∷ rows) = ground (arith, exists-select p rows)

-- A listing has no rows, or fails.
scan_all-cases :
    (rows : List DeviceToken) → scan_all rows ≡ (if exists (λ t. true) rows then none else some [])
unfolding scan
scan_all-cases [] = refl
scan_all-cases (t ∷ rows) = refl

list_by_user_lem :
    (user : String) (rows : List DeviceToken)
    → list_by_user false user rows ≡ (if exists (is_of user) rows then none else some [])
unfolding list_by_user
list_by_user_lem user rows =
    let found = select (is_of user) rows in
    scan_all-cases (order_desc (λ t. t.created_at) found)
    ∙ ap (λ b. if b then none else some [])
        (exists-order_desc (λ t. true) (λ t. t.created_at) found ∙ exists-select (is_of user) rows)

module _ (svc : PushService) where
  send_push-silent :
      (list_fails : Bool) (fails : String → Bool) (user : String) (p : PushPayload)
      (rows : List DeviceToken)
      → ((send_push svc list_fails fails user p rows).0 ≡ rows)
        × ((send_push svc list_fails fails user p rows).1 ≡ [])
  unfolding send_push list_by_user send_all
  send_push-silent true fails user p rows = (refl, refl)
  send_push-silent false fails user p rows = elim (Bool-cases (exists (is_of user) rows)) [
    | inl some_there ↦
        let e : list_by_user false user rows ≡ none =
          ground (arith, list_by_user_lem user rows, some_there) in
        rw (send_push, e) (refl, refl)
    | inr none_there ↦
        let e : list_by_user false user rows ≡ some [] =
          ground (arith, list_by_user_lem user rows, none_there) in
        elim (Option-cases svc.fcm) [
          | inl off ↦ rw (send_push, e, off) (refl, refl)
          | inr (send, on) ↦ rw (send_push, e, on) (refl, refl)
        ]
  ]

  process_task-silent :
      (list_fails : Bool) (fails : String → Bool) (job : Option PushJob) (rows : List DeviceToken)
      → ((process_task svc list_fails fails job rows).0 ≡ rows)
        × ((process_task svc list_fails fails job rows).1 ≡ [])
  unfolding process_task
  process_task-silent list_fails fails none rows = (refl, refl)
  process_task-silent list_fails fails (some job) rows = elim (Bool-cases (str_eq job.user_id "")) [
    | inl blank ↦ rw (process_task, blank) (refl, refl)
    | inr named ↦
        rw (process_task, named)
          (send_push-silent list_fails fails job.user_id
            (record { title = job.title; body = job.body; payload = job.payload; priority = "" })
            rows)
  ]

  -- The task of a user with a token is an error.
  process_task-fails :
      (fails : String → Bool) (job : PushJob) (rows : List DeviceToken)
      → str_eq job.user_id "" ≡ false
      → exists (is_of job.user_id) rows ≡ true
      → process_task svc false fails (some job) rows ≡ (rows, [], true)
  unfolding process_task send_push
  process_task-fails fails job rows named there =
      let e : list_by_user false job.user_id rows ≡ none =
        ground (arith, list_by_user_lem job.user_id rows, there) in
      rw (process_task, named, send_push, e) refl

exists-update :
    (token : String) (f : DeviceToken → DeviceToken) (p : DeviceToken → Bool)
    (rows : List DeviceToken)
    → ((t : DeviceToken) → (f t).token ≡ t.token)
    → exists (has_token token) (update p f rows) ≡ exists (has_token token) rows
exists-update token f p [] h = refl
exists-update token f p (t ∷ rows) h = ground (arith, h t, exists-update token f p rows h)

register-keeps :
    (fails : Bool) (now : ℕ) (id user token platform kept : String) (rows : List DeviceToken)
    → exists (has_token kept) rows ≡ true
    → exists (has_token kept) (register_device fails now id user token platform rows).0 ≡ true
unfolding register_device create_token
register-keeps fails now id user token platform kept rows h = ground (
  arith,
  h,
  exists-update kept (λ t. record t { user_id = user; platform = platform; updated_at = now })
      (has_token token) rows (λ t. refl),
  exists-snoc (has_token kept)
      (record {
        id = id;
        user_id = user;
        token = token;
        platform = platform;
        created_at = now;
        updated_at = now;
      })
      rows,
)

get_by_token_lem :
    (fails : Bool) (token : String) (rows : List DeviceToken) → get_by_token fails token rows ≡ none
unfolding get_by_token scan
get_by_token_lem true token rows = refl
get_by_token_lem false token rows = elim (Option-cases (select_one (has_token token) rows)) [
  | inl e ↦ rw (get_by_token, e) refl
  | inr (t, e) ↦ rw (get_by_token, e) refl
]

-- What a call does: it sends nothing, and leaves every token that is there.
step_silent :
    (svc : PushService) (c : PushCall) (rows : List DeviceToken)
    → ((step svc c rows).1 ≡ [])
      × ((token : String)
          → exists (has_token token) rows ≡ true
          → exists (has_token token) (step svc c rows).0 ≡ true)
unfolding step unregister_device
step_silent svc (registers fails now id user token platform) rows =
    (refl, λ kept h. register-keeps fails now id user token platform kept rows h)
step_silent svc (unregisters get_fails delete_fails user token) rows =
    (refl, λ kept h. rw (unregister_device, get_by_token_lem get_fails token rows) h)
step_silent svc (takes_task list_fails fails job) rows =
    let (same, silent) = process_task-silent svc list_fails fails job rows in
    (silent, λ kept h. ap (exists (has_token kept)) same ∙ h)

-- In any sequence of registrations, unregistrations and tasks, by anyone and whatever fails, with a
-- client of Firebase or without, no message is sent and no token is removed; and afterwards the task
-- of a user who has a token ends with an error, is tried again and changes nothing.
pub never_delivers :
    (svc : PushService) (calls : List PushCall) (rows : List DeviceToken)
    → ((run svc calls rows).1 ≡ [])
      × ((token : String)
          → exists (has_token token) rows ≡ true
          → exists (has_token token) (run svc calls rows).0 ≡ true)
      × ((job : PushJob) (fails : String → Bool)
          → str_eq job.user_id "" ≡ false
          → exists (is_of job.user_id) (run svc calls rows).0 ≡ true
          → process_task svc false fails (some job) (run svc calls rows).0
            ≡ ((run svc calls rows).0, [], true))
unfolding run
never_delivers svc [] rows =
    (refl, λ token h. h, λ job fails named there. process_task-fails svc fails job rows named there)
never_delivers svc (c ∷ calls) rows =
    let (silent, keeps) = step_silent svc c rows in
    let (later, kept, fail) = never_delivers svc calls (step svc c rows).0 in
    (ap₂ ◌++◌ silent later, λ token h. kept token (keeps token h), fail)
