-- ===== src/Platform/Traces.antt =====
-- Any sequence of the platform service's calls, backend/internal/service/platform_service.go.
use anynote.Base.{ℕ, List, [], ◌∷◌, String}
use anynote.LlmConfig.Crypto.{Bytes}
use anynote.Platform.Adapters.{Registry}
use anynote.Platform.Service.{Connections, Faults, connect, disconnect, verify}
use anynote.Platform.Sessions.{
  PlatformState, start_auth, poll_auth, cancel_auth, cleanup_expired_sessions,
}

-- One call of the service that may change its state, of one user and platform, with its faults and time.
pub data Operation : Type 0 where
  connects : String → Operation
  disconnects : Registry → Operation
  verifies : Operation
  starts : Registry → Bytes → Operation
  polls : Registry → String → String → Bytes → Operation
  cancels : String → Operation

pub record Call : Type 0 where
  pub user : String
  pub platform : String
  pub faults : Faults
  pub now : ℕ
  pub operation : Operation

abbrev pub with_connections : PlatformState → Connections → PlatformState
with_connections s rows = record s { connections = rows }

unfoldable pub perform : String → String → Faults → ℕ → Operation → PlatformState → PlatformState
perform u p f now (connects id) s = with_connections s (connect f now id u p s.connections).0
perform u p f now (disconnects reg) s =
    with_connections s (disconnect f now reg u p s.connections).0
perform u p f now verifies s = with_connections s (verify f now u p s.connections).0
perform u p f now (starts reg key) s = (start_auth reg now u p key s).0
perform u p f now (polls reg id ref key) s = (poll_auth reg f now id u p ref key s).0
perform u p f now (cancels ref) s = cancel_auth u p ref s

-- What happens to the service: a call, or a tick of the cleanup.
pub data Event : Type 0 where
  calls : Call → Event
  ticks : ℕ → Event

unfoldable pub step : Event → PlatformState → PlatformState
step (calls c) s = perform c.user c.platform c.faults c.now c.operation s
step (ticks now) s = record s { sessions = cleanup_expired_sessions now s.sessions }

unfoldable pub run : List Event → PlatformState → PlatformState
run [] s = s
run (e ∷ events) s = run events (step e s)
