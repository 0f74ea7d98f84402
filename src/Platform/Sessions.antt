-- ===== src/Platform/Sessions.antt =====
-- Signing in to a platform: StartAuth, PollAuth, CancelAuth and the cleanup of sessions of
-- backend/internal/service/platform_service.go. The sessions are the entries of a sync.Map; times are
-- nanoseconds.
use Prim.Native.String.{◌++◌ as append}
use anynote.Base.{
  ℕ, Bool, ◌-◌, Option, none, some, List, [], ◌∷◌, String, Result, ok, err, lookup, insert, erase,
  ltb, if◌then◌else◌,
}
use anynote.LlmConfig.Crypto.{Bytes}
use anynote.Platform.Adapters.{AuthSession, Registry, get_adapter}
use anynote.Platform.Connections.{get_by_platform, create, update_connection}
use anynote.Platform.Service.{
  PlatformError, database, unsupported, session_not_found, adapter_failed, Connections, Faults,
  connection_of, status_active,
}

pub record StoredAuthSession : Type 0 where
  pub user_id : String
  pub platform : String
  pub auth_ref : String
  pub cdp_handle : AuthSession
  pub created_at : ℕ

abbrev pub Sessions : Type 0
Sessions = List (String × StoredAuthSession)

-- The service's state: the table, and the sessions in memory.
pub record PlatformState : Type 0 where
  pub connections : Connections
  pub sessions : Sessions

unfoldable pub auth_session_key : String → String → String → String
auth_session_key user platform ref = append user (append ":" (append platform (append ":" ref)))

abbrev pub session_max_age : ℕ
session_max_age = 300_000_000_000

-- now.Sub(session.createdAt) > sessionMaxAge
abbrev pub is_expired : ℕ → StoredAuthSession → Bool
is_expired now session = ltb session_max_age (now - session.created_at)

-- One round of the cleanup.
unfoldable pub cleanup_expired_sessions : ℕ → Sessions → Sessions
cleanup_expired_sessions now [] = []
cleanup_expired_sessions now ((key, session) ∷ sessions) =
    if is_expired now session
    then cleanup_expired_sessions now sessions
    else (key, session) ∷ cleanup_expired_sessions now sessions

unfoldable pub cancel_auth : String → String → String → PlatformState → PlatformState
cancel_auth user platform ref s = record s {
  sessions = erase (auth_session_key user platform ref) s.sessions;
}

abbrev pub session_of : ℕ → String → String → AuthSession → StoredAuthSession
session_of now user platform session = record {
  user_id = user;
  platform = platform;
  auth_ref = session.auth_ref;
  cdp_handle = session;
  created_at = now;
}

-- The reference of the session, and the QR code.
unfoldable pub start_auth :
    Registry
    → ℕ
    → String
    → String
    → Bytes
    → PlatformState
    → PlatformState × Result PlatformError (String × Bytes)
start_auth registry now user platform key s = elim (get_adapter platform registry) [
  | none ↦ (s, err unsupported)
  | some adapter ↦ elim (adapter.start_auth key) [
    | err message ↦ (s, err (adapter_failed message))
    | ok (session, png) ↦ (
      record s {
        sessions =
            insert (auth_session_key user platform session.auth_ref)
              (session_of now user platform session) s.sessions;
      },
      ok (session.auth_ref, png),
    )
  ]
]

-- The connection after a sign-in: a new one where the SELECT finds none, by any error.
unfoldable pub save_auth :
    Faults → ℕ → String → String → String → Bytes → Connections → Option Connections
save_auth f now id user platform auth rows = elim (get_by_platform f.get_fails user platform rows) [
  | none ↦ create f.write_fails now (connection_of id user platform auth status_active) rows
  | some c ↦
      update_connection f.write_fails now
        (record c { encrypted_auth = auth; status = status_active }) rows
]

unfoldable pub finish_auth :
    Faults
    → ℕ
    → String
    → String
    → String
    → String
    → Bytes
    → PlatformState
    → PlatformState × Result PlatformError (Option Bytes)
finish_auth f now id user platform ref auth s =
    elim (save_auth f now id user platform auth s.connections) [
      | none ↦ (s, err database)
      | some rows ↦ (
        record s {
          connections = rows;
          sessions = erase (auth_session_key user platform ref) s.sessions;
        },
        ok (some auth),
      )
    ]

-- `ok none` while the user has not signed in.
unfoldable pub poll_auth :
    Registry
    → Faults
    → ℕ
    → String
    → String
    → String
    → String
    → Bytes
    → PlatformState
    → PlatformState × Result PlatformError (Option Bytes)
poll_auth registry f now id user platform ref key s =
    elim (lookup (auth_session_key user platform ref) s.sessions) [
      | none ↦ (s, err session_not_found)
      | some stored ↦ elim (get_adapter platform registry) [
        | none ↦ (s, err unsupported)
        | some adapter ↦ elim (adapter.poll_auth stored.cdp_handle key) [
          | err message ↦ (s, err (adapter_failed message))
          | ok none ↦ (s, ok none)
          | ok (some auth) ↦ finish_auth f now id user platform ref auth s
        ]
      ]
    ]
