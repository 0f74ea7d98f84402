-- ===== src/Platform/Invariant.antt =====
-- The invariant of the platform service: the table's keys, and sessions that stand under their own key.
-- backend/internal/service/platform_service.go
use anynote.Base.{
  ℕ, ◌≡◌, refl, none, some, List, [], ◌∷◌, String, lookup, inl, inr, arith, Option-cases,
  Result-cases,
}
use anynote.LlmConfig.Crypto.{Bytes}
use anynote.Platform.Adapters.{Registry, get_adapter}
use anynote.Platform.Connections.{create, delete_by_id, update_connection, get_by_platform}
use anynote.Platform.Service.{
  Connections, Faults, connect, disconnect, verify, connection_of, status_active,
}
use anynote.Platform.Sessions.{
  PlatformState, start_auth, poll_auth, save_auth, finish_auth, cancel_auth, auth_session_key,
  session_of,
}
use anynote.Platform.Traces.{
  Operation, Event, calls, ticks, perform, step, run, connects, disconnects, verifies, starts,
  polls, cancels,
}
use anynote.Platform.Unique.{
  IsUnique, create-IsUnique, update_connection-IsUnique, delete_by_id-IsUnique,
}
use anynote.Platform.Entries.{IsKeyed, insert-IsKeyed, erase-IsKeyed, cleanup-IsKeyed}

-- Ids and pairs of user and platform stand once, and each session once under its own key.
pub record IsValid (s : PlatformState) : Type 0 where
  pub unique : IsUnique s.connections
  pub keyed : IsKeyed s.sessions

module _ (f : Faults) (now : ℕ) (user platform : String) where
  connect-IsUnique :
      (id : String) (rows : Connections)
      → IsUnique rows
      → IsUnique (connect f now id user platform rows).0
  unfolding connect
  connect-IsUnique id rows u =
      elim (Option-cases (get_by_platform f.get_fails user platform rows)) [
        | inr (c, e) ↦ rw (connect, e) u
        | inl e ↦
            let c = connection_of id user platform [] "pending" in
            elim (Option-cases (create f.write_fails now c rows)) [
              | inl e' ↦ rw (connect, e, e') u
              | inr (rows', e') ↦
                  rw (connect, e, e') (create-IsUnique f.write_fails now c rows rows' u e')
            ]
      ]

  disconnect-IsUnique :
      (registry : Registry) (rows : Connections)
      → IsUnique rows
      → IsUnique (disconnect f now registry user platform rows).0
  unfolding disconnect
  disconnect-IsUnique registry rows u =
      elim (Option-cases (get_by_platform f.get_fails user platform rows)) [
        | inl e ↦ rw (disconnect, e) u
        | inr (c, e) ↦ elim (Option-cases (delete_by_id f.write_fails c.id rows)) [
          | inl e' ↦ rw (disconnect, e, e') u
          | inr (rows', e') ↦
              rw (disconnect, e, e') (delete_by_id-IsUnique f.write_fails c.id rows rows' u e')
        ]
      ]

  verify-IsUnique :
      (rows : Connections) → IsUnique rows → IsUnique (verify f now user platform rows).0
  unfolding verify
  verify-IsUnique rows u = elim (Option-cases (get_by_platform f.get_fails user platform rows)) [
    | inl e ↦ rw (verify, e) u
    | inr (c, e) ↦
        let c' = record c { status = status_active } in
        elim (Option-cases (update_connection f.write_fails now c' rows)) [
          | inl e' ↦ rw (verify, e, e') u
          | inr (rows', e') ↦
              rw (verify, e, e') (update_connection-IsUnique f.write_fails now c' rows rows' u e')
        ]
  ]

  save_auth-IsUnique :
      (id : String) (auth : Bytes) (rows rows' : Connections)
      → IsUnique rows
      → save_auth f now id user platform auth rows ≡ some rows'
      → IsUnique rows'
  unfolding save_auth
  save_auth-IsUnique id auth rows rows' u h =
      elim (Option-cases (get_by_platform f.get_fails user platform rows)) [
        | inl e ↦
            create-IsUnique f.write_fails now (connection_of id user platform auth status_active)
              rows rows' u (ground (arith, e, h))
        | inr (c, e) ↦
            update_connection-IsUnique f.write_fails now
              (record c { encrypted_auth = auth; status = status_active }) rows rows' u
              (ground (arith, e, h))
      ]

  finish_auth-IsValid :
      (id ref : String) (auth : Bytes) (s : PlatformState)
      → IsValid s
      → IsValid (finish_auth f now id user platform ref auth s).0
  unfolding finish_auth
  finish_auth-IsValid id ref auth s v =
      elim (Option-cases (save_auth f now id user platform auth s.connections)) [
        | inl e ↦ rw (finish_auth, e) v
        | inr (rows, e) ↦
            rw (finish_auth, e)
              (record {
                unique = save_auth-IsUnique id auth s.connections rows v.unique e;
                keyed = erase-IsKeyed (auth_session_key user platform ref) s.sessions v.keyed;
              })
      ]

  poll_auth-IsValid :
      (registry : Registry) (id ref : String) (key : Bytes) (s : PlatformState)
      → IsValid s
      → IsValid (poll_auth registry f now id user platform ref key s).0
  unfolding poll_auth
  poll_auth-IsValid registry id ref key s v =
      elim (Option-cases (lookup (auth_session_key user platform ref) s.sessions)) [
        | inl e ↦ rw (poll_auth, e) v
        | inr (stored, e) ↦ elim (Option-cases (get_adapter platform registry)) [
          | inl e' ↦ rw (poll_auth, e, e') v
          | inr (adapter, e') ↦ elim (Result-cases (adapter.poll_auth stored.cdp_handle key)) [
            | inr (message, e'') ↦ rw (poll_auth, e, e', e'') v
            | inl (none, e'') ↦ rw (poll_auth, e, e', e'') v
            | inl (some auth, e'') ↦
                rw (poll_auth, e, e', e'') (finish_auth-IsValid id ref auth s v)
          ]
        ]
      ]

  start_auth-IsValid :
      (registry : Registry) (key : Bytes) (s : PlatformState)
      → IsValid s
      → IsValid (start_auth registry now user platform key s).0
  unfolding start_auth
  start_auth-IsValid registry key s v = elim (Option-cases (get_adapter platform registry)) [
    | inl e ↦ rw (start_auth, e) v
    | inr (adapter, e) ↦ elim (Result-cases (adapter.start_auth key)) [
      | inr (message, e') ↦ rw (start_auth, e, e') v
      | inl ((session, png), e') ↦
          rw (start_auth, e, e')
            (record {
              unique = v.unique;
              keyed =
                  insert-IsKeyed (auth_session_key user platform session.auth_ref)
                    (session_of now user platform session) s.sessions refl v.keyed;
            })
    ]
  ]

  pub perform-IsValid :
      (o : Operation) (s : PlatformState) → IsValid s → IsValid (perform user platform f now o s)
  unfolding perform cancel_auth
  perform-IsValid (connects id) s v = record {
    unique = connect-IsUnique id s.connections v.unique;
    keyed = v.keyed;
  }
  perform-IsValid (disconnects registry) s v = record {
    unique = disconnect-IsUnique registry s.connections v.unique;
    keyed = v.keyed;
  }
  perform-IsValid verifies s v = record {
    unique = verify-IsUnique s.connections v.unique;
    keyed = v.keyed;
  }
  perform-IsValid (starts registry key) s v = start_auth-IsValid registry key s v
  perform-IsValid (polls registry id ref key) s v = poll_auth-IsValid registry id ref key s v
  perform-IsValid (cancels ref) s v = record {
    unique = v.unique;
    keyed = erase-IsKeyed (auth_session_key user platform ref) s.sessions v.keyed;
  }

-- Any sequence of calls and rounds of the cleanup, by any users and with any failures, keeps ids and
-- pairs of user and platform unique in the table of connections, and each session once under the
-- key of its own user, platform and reference.
pub run-IsValid : (events : List Event) (s : PlatformState) → IsValid s → IsValid (run events s)
unfolding run step
run-IsValid [] s v = v
run-IsValid (calls c ∷ events) s v =
    run-IsValid events (step (calls c) s)
      (perform-IsValid c.faults c.now c.user c.platform c.operation s v)
run-IsValid (ticks now ∷ events) s v =
    run-IsValid events (step (ticks now) s)
      (record { unique = v.unique; keyed = cleanup-IsKeyed now s.sessions v.keyed })
