-- ===== src/Platform/SignIn.antt =====
-- From the start of a sign-in to a connection that publishes,
-- backend/internal/service/platform_service.go.
use anynote.Base.{
  ℕ, ◌≡◌, refl, Bool, true, false, Option, none, some, List, [], ◌∷◌, String, All, eq_refl, Result,
  ok, err, exists, lookup, insert, erase, lookup-insert_self, lookup-erase, inl, inr, arith,
  Option-cases, Result-cases,
}
use anynote.LlmConfig.Crypto.{Bytes}
use anynote.Platform.Adapters.{Registry, Adapter, AuthSession, get_adapter}
use anynote.Platform.Connections.{has_id}
use anynote.Platform.Service.{
  Connections, Faults, PlatformError, session_not_found, publish, publish_with,
  PlatformPublishRequest,
}
use anynote.Platform.Sessions.{
  PlatformState, start_auth, poll_auth, finish_auth, auth_session_key, session_of,
}
use anynote.Platform.Auth.{no_faults, HasAuth, save_auth_lem, publish-HasAuth}

abbrev pub is_signed : Result PlatformError (Option Bytes) → Bool
is_signed (ok (some _)) = true
is_signed _ = false

-- One poll of a session.
pub record Poll : Type 0 where
  pub registry : Registry
  pub faults : Faults
  pub now : ℕ
  pub id : String
  pub key : Bytes

abbrev pub poll :
    String
    → String
    → String
    → Poll
    → PlatformState
    → PlatformState × Result PlatformError (Option Bytes)
poll u p ref x s = poll_auth x.registry x.faults x.now x.id u p ref x.key s

abbrev pub poll_all : String → String → String → List Poll → PlatformState → PlatformState
poll_all u p ref [] s = s
poll_all u p ref (x ∷ polls) s = poll_all u p ref polls (poll u p ref x s).0

finish_auth-unsigned :
    (f : Faults) (now : ℕ) (id u p ref : String) (auth : Bytes) (s : PlatformState)
    → is_signed (finish_auth f now id u p ref auth s).1 ≡ false
    → (finish_auth f now id u p ref auth s).0 ≡ s
unfolding finish_auth
finish_auth-unsigned f now id u p ref auth s h = ground (arith, h)

-- A poll that returns no data changes nothing.
poll-unsigned :
    (u p ref : String) (x : Poll) (s : PlatformState)
    → is_signed (poll u p ref x s).1 ≡ false
    → (poll u p ref x s).0 ≡ s
unfolding poll_auth
poll-unsigned u p ref x s h = elim (Option-cases (lookup (auth_session_key u p ref) s.sessions)) [
  | inl e ↦ rw (poll, poll_auth, e) refl
  | inr (stored, e) ↦ elim (Option-cases (get_adapter p x.registry)) [
    | inl e' ↦ rw (poll, poll_auth, e, e') refl
    | inr (adapter, e') ↦ elim (Result-cases (adapter.poll_auth stored.cdp_handle x.key)) [
      | inr (message, e'') ↦ rw (poll, poll_auth, e, e', e'') refl
      | inl (none, e'') ↦ rw (poll, poll_auth, e, e', e'') refl
      | inl (some auth, e'') ↦
          rw (poll, poll_auth, e, e', e'')
            (finish_auth-unsigned x.faults x.now x.id u p ref auth s
              (rw (poll_auth, e, e', e'') at h))
    ]
  ]
]

poll_all-unsigned :
    (u p ref : String) (polls : List Poll) (s : PlatformState)
    → All (λ x. is_signed (poll u p ref x s).1 ≡ false) polls
    → poll_all u p ref polls s ≡ s
poll_all-unsigned u p ref [] s h = refl
poll_all-unsigned u p ref (x ∷ polls) s h =
    let same = poll-unsigned u p ref x s h.0 in rw same (poll_all-unsigned u p ref polls s h.1)

-- A sign-in that is completed.
abbrev completed : String → String → String → Connections → PlatformState → PlatformState
completed u p ref rows s = record s {
  connections = rows;
  sessions = erase (auth_session_key u p ref) s.sessions;
}

poll_auth-signed :
    (u p ref : String) (registry : Registry) (b : Adapter) (now : ℕ) (id : String)
    (key auth : Bytes) (session : AuthSession) (began : ℕ) (s : PlatformState)
    → get_adapter p registry ≡ some b
    → lookup (auth_session_key u p ref) s.sessions ≡ some (session_of began u p session)
    → b.poll_auth session key ≡ ok (some auth)
    → exists (has_id id) s.connections ≡ false
    → (rows : Connections) × (poll_auth registry no_faults now id u p ref key s
        ≡ (completed u p ref rows s, ok (some auth)))
      × HasAuth u p auth rows
unfolding poll_auth finish_auth
poll_auth-signed u p ref registry b now id key auth session began s eb here answered fresh =
    let (rows, saved, has) = save_auth_lem u p now id auth s.connections fresh in
    (rows, rw (poll_auth, here, eb, answered, finish_auth, saved) refl, has)

poll_auth-completed :
    (u p ref : String) (rows : Connections) (x : Poll) (s : PlatformState)
    → (poll u p ref x (completed u p ref rows s)).1 ≡ err session_not_found
unfolding poll_auth
poll_auth-completed u p ref rows x s =
    let k = auth_session_key u p ref in
    let gone : lookup k (erase k s.sessions) ≡ none =
      ground (arith, lookup-erase k k s.sessions, eq_refl k) in
    rw (poll, poll_auth, gone) refl

start_auth-started :
    (u p : String) (registry : Registry) (a : Adapter) (now : ℕ) (key png : Bytes)
    (session : AuthSession) (s : PlatformState)
    → get_adapter p registry ≡ some a
    → a.start_auth key ≡ ok (session, png)
    → (start_auth registry now u p key s).0 ≡ record s {
      sessions =
          insert (auth_session_key u p session.auth_ref) (session_of now u p session) s.sessions;
    }
unfolding start_auth
start_auth-started u p registry a now key png session s ea started =
    rw (start_auth, ea, started) refl

-- After a sign-in is started, and any polls of it that returned no data, a poll that the platform
-- answers with data and whose queries work, under an id that is free, returns that data; the
-- service then publishes with it, and the session cannot be polled again.
pub sign_in_then_publish :
    (u p : String) (first second third : Registry) (a b c : Adapter) (now later : ℕ)
    (id log : String) (key auth png : Bytes) (session : AuthSession) (polls : List Poll)
    (again : Poll) (req : PlatformPublishRequest) (s : PlatformState)
    → get_adapter p first ≡ some a
    → get_adapter p second ≡ some b
    → get_adapter p third ≡ some c
    → a.start_auth key ≡ ok (session, png)
    → b.poll_auth session key ≡ ok (some auth)
    → exists (has_id id) s.connections ≡ false
    → All
        (λ x. is_signed (poll u p session.auth_ref x (start_auth first now u p key s).0).1 ≡ false)
        polls
    → let s1 = poll_all u p session.auth_ref polls (start_auth first now u p key s).0 in
      let s2 = poll_auth second no_faults later id u p session.auth_ref key s1 in
      (s2.1 ≡ ok (some auth))
      × (publish third false log u p req key s2.0.connections ≡ publish_with c log u p req key auth)
      × ((poll u p session.auth_ref again s2.0).1 ≡ err session_not_found)
sign_in_then_publish u p first second third a b c now later id log key auth png session polls again
      req s ea eb ec started answered fresh idle =
    let s1 = record s {
      sessions =
          insert (auth_session_key u p session.auth_ref) (session_of now u p session) s.sessions;
    } in
    let here =
      lookup-insert_self (auth_session_key u p session.auth_ref) (session_of now u p session)
        s.sessions in
    let (rows, e, has) =
      poll_auth-signed u p session.auth_ref second b later id key auth session now s1 eb here
        answered fresh in
    rw
      (
        poll_all-unsigned u p session.auth_ref polls (start_auth first now u p key s).0 idle,
        start_auth-started u p first a now key png session s ea started,
        e,
      )
      (
        refl,
        publish-HasAuth u p third c ec auth key log req rows has,
        poll_auth-completed u p session.auth_ref rows again s1,
      )
