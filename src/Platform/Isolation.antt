-- ===== src/Platform/Isolation.antt =====
-- What the calls of one user leave alone of another's, backend/internal/service/platform_service.go.
use anynote.Base.{
  ℕ, ◌≡◌, refl, ◌∙◌, ◌≢◌, false, none, some, List, [], ◌∷◌, String, str_eq, eq_iff, lookup, erase,
  lookup-insert_ne, lookup-erase, map, All, inl, inr, arith, Option-cases, Result-cases,
}
use anynote.LlmConfig.Crypto.{Bytes}
use anynote.Platform.Adapters.{Registry, get_adapter}
use anynote.Platform.Service.{Connections, Faults}
use anynote.Platform.Sessions.{
  PlatformState, start_auth, poll_auth, save_auth, finish_auth, cancel_auth, auth_session_key,
  session_of,
}
use anynote.Platform.Keys.{has_colon, auth_session_key-user}
use anynote.Platform.Invariant.{IsValid, perform-IsValid}
use anynote.Platform.Rows.{rows_of, connect-rows, disconnect-rows, verify-rows, save_auth-rows}
use anynote.Platform.Traces.{
  Operation, Call, calls, perform, step, run, connects, disconnects, verifies, starts, polls,
  cancels,
}

-- A user has the same connections in both states, and the same session under each of their keys.
pub record IsSameFor (v : String) (s s' : PlatformState) : Type 0 where
  pub same_rows : rows_of v s'.connections ≡ rows_of v s.connections
  pub same_sessions :
      (q r : String)
      → lookup (auth_session_key v q r) s'.sessions ≡ lookup (auth_session_key v q r) s.sessions

abbrev self : (v : String) (s : PlatformState) → IsSameFor v s s
self v s = record { same_rows = refl; same_sessions = λ q r. refl }

module _ (v u p : String) (differs : str_eq u v ≡ false) (plain : has_colon v ≡ false)
    (plain' : has_colon u ≡ false) where
  keys-ne : (q r t : String) → auth_session_key v q r ≢ auth_session_key u p t
  keys-ne q r t e =
      let same = auth_session_key-user v u q p r t plain plain' e in
      ground (arith, same, differs, eq_iff u v)

  sessions-erase :
      (t : String) (rows : Connections) (s : PlatformState)
      → rows_of v rows ≡ rows_of v s.connections
      → IsSameFor v s
          (record s { connections = rows; sessions = erase (auth_session_key u p t) s.sessions })
  sessions-erase t rows s h = record {
    same_rows = h;
    same_sessions = λ q r. ground (
      arith,
      keys-ne q r t,
      lookup-erase (auth_session_key u p t) (auth_session_key v q r) s.sessions,
      eq_iff (auth_session_key u p t) (auth_session_key v q r),
    );
  }

  module _ (f : Faults) (now : ℕ) where
    finish_auth-IsSameFor :
        (id ref : String) (auth : Bytes) (s : PlatformState)
        → IsSameFor v s (finish_auth f now id u p ref auth s).0
    unfolding finish_auth
    finish_auth-IsSameFor id ref auth s =
        elim (Option-cases (save_auth f now id u p auth s.connections)) [
          | inl e ↦ rw (finish_auth, e) (self v s)
          | inr (rows, e) ↦
              rw (finish_auth, e)
                (sessions-erase ref rows s
                  (save_auth-rows v u p differs f now id auth s.connections rows e))
        ]

    poll_auth-IsSameFor :
        (registry : Registry) (id ref : String) (key : Bytes) (s : PlatformState)
        → IsSameFor v s (poll_auth registry f now id u p ref key s).0
    unfolding poll_auth
    poll_auth-IsSameFor registry id ref key s =
        elim (Option-cases (lookup (auth_session_key u p ref) s.sessions)) [
          | inl e ↦ rw (poll_auth, e) (self v s)
          | inr (stored, e) ↦ elim (Option-cases (get_adapter p registry)) [
            | inl e' ↦ rw (poll_auth, e, e') (self v s)
            | inr (adapter, e') ↦ elim (Result-cases (adapter.poll_auth stored.cdp_handle key)) [
              | inr (message, e'') ↦ rw (poll_auth, e, e', e'') (self v s)
              | inl (none, e'') ↦ rw (poll_auth, e, e', e'') (self v s)
              | inl (some auth, e'') ↦
                  rw (poll_auth, e, e', e'') (finish_auth-IsSameFor id ref auth s)
            ]
          ]
        ]

    start_auth-IsSameFor :
        (registry : Registry) (key : Bytes) (s : PlatformState)
        → IsSameFor v s (start_auth registry now u p key s).0
    unfolding start_auth
    start_auth-IsSameFor registry key s = elim (Option-cases (get_adapter p registry)) [
      | inl e ↦ rw (start_auth, e) (self v s)
      | inr (adapter, e) ↦ elim (Result-cases (adapter.start_auth key)) [
        | inr (message, e') ↦ rw (start_auth, e, e') (self v s)
        | inl ((session, png), e') ↦
            rw (start_auth, e, e')
              (record {
                same_rows = refl;
                same_sessions = λ q r.
                    lookup-insert_ne (auth_session_key u p session.auth_ref)
                      (auth_session_key v q r) (session_of now u p session) s.sessions
                      (keys-ne q r session.auth_ref);
              })
      ]
    ]

    perform-IsSameFor :
        (o : Operation) (s : PlatformState) → IsValid s → IsSameFor v s (perform u p f now o s)
    unfolding perform cancel_auth
    perform-IsSameFor (connects id) s h = record {
      same_rows = connect-rows v u p differs f now id s.connections;
      same_sessions = λ q r. refl;
    }
    perform-IsSameFor (disconnects registry) s h = record {
      same_rows = disconnect-rows v u p differs f now registry s.connections h.unique;
      same_sessions = λ q r. refl;
    }
    perform-IsSameFor verifies s h = record {
      same_rows = verify-rows v u p differs f now s.connections;
      same_sessions = λ q r. refl;
    }
    perform-IsSameFor (starts registry key) s h = start_auth-IsSameFor registry key s
    perform-IsSameFor (polls registry id ref key) s h = poll_auth-IsSameFor registry id ref key s
    perform-IsSameFor (cancels ref) s h = sessions-erase ref s.connections s refl

-- A call by another user, whose id has no colon.
abbrev pub IsByOther : String → Call → Type 0
IsByOther v c = (str_eq c.user v ≡ false) × (has_colon c.user ≡ false)

-- From a valid state, any sequence of calls by other users, whatever fails in it, leaves the
-- connections of a user and each of their sign-in sessions as they are, where no user's id has a
-- colon.
pub run-IsSameFor :
    (v : String) (cs : List Call) (s : PlatformState)
    → has_colon v ≡ false
    → IsValid s
    → All (IsByOther v) cs
    → IsSameFor v s (run (map calls cs) s)
unfolding run step
run-IsSameFor v [] s plain h others = self v s
run-IsSameFor v (c ∷ cs) s plain h others =
    let s' = step (calls c) s in
    let first =
      perform-IsSameFor v c.user c.platform others.0.0 plain others.0.1 c.faults c.now c.operation s
        h in
    let rest =
      run-IsSameFor v cs s' plain (perform-IsValid c.faults c.now c.user c.platform c.operation s h)
        others.1 in
    record {
      same_rows = rest.same_rows ∙ first.same_rows;
      same_sessions = λ q r. rest.same_sessions q r ∙ first.same_sessions q r;
    }
