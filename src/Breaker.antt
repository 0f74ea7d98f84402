-- ===== src/Breaker.antt =====
-- The circuit breaker of backend/internal/llm/circuit_breaker.go. A method that mutates
-- `*CircuitBreaker` under its lock returns the new record; `time.Now()` is the argument `now`, in
-- nanoseconds. Counters and thresholds are natural numbers: the counters only grow from 0, and a
-- threshold below 1 acts like 0. The callback `onStateChange` is the list of the calls made to it.
pub mod Invariant
pub mod Traces
pub mod Graph
mod Tests
use anynote.Base.{
  ℕ, suc, ◌+◌, ◌-◌, ◌*◌, Bool, true, false, Option, none, some, List, [], ◌∷◌, ltb, leb, ◌==◌,
  if◌then◌else◌,
}

pub data State : Type 0 where
  state_closed state_open state_half_open : State

pub record CircuitBreaker : Type 0 where
  pub state : State
  pub failures : ℕ
  pub successes : ℕ
  pub last_failure_time : ℕ
  pub failure_threshold : ℕ
  pub success_threshold : ℕ
  pub open_timeout : ℕ
  pub half_open_max_reqs : ℕ
  pub half_open_reqs : ℕ
  pub changes : List (State × State)

-- `CircuitBreakerOption`
pub data CircuitBreakerOption : Type 0 where
  with_failure_threshold with_success_threshold : ℕ → CircuitBreakerOption
  with_open_timeout with_half_open_max_requests : ℕ → CircuitBreakerOption

pub apply_option : CircuitBreakerOption → CircuitBreaker → CircuitBreaker
apply_option (with_failure_threshold n) cb = record cb { failure_threshold = n }
apply_option (with_success_threshold n) cb = record cb { success_threshold = n }
apply_option (with_open_timeout d) cb = record cb { open_timeout = d }
apply_option (with_half_open_max_requests n) cb = record cb { half_open_max_reqs = n }

apply_options : List CircuitBreakerOption → CircuitBreaker → CircuitBreaker
apply_options [] cb = cb
apply_options (o ∷ os) cb = apply_options os (apply_option o cb)

abbrev pub second : ℕ
second = 1_000_000_000

unfoldable pub new_circuit_breaker : List CircuitBreakerOption → CircuitBreaker
unfolding apply_options apply_option
new_circuit_breaker opts = apply_options opts (record {
  state = state_closed;
  failures = 0;
  successes = 0;
  last_failure_time = 0;
  failure_threshold = 5;
  success_threshold = 3;
  open_timeout = 30 * second;
  half_open_max_reqs = 1;
  half_open_reqs = 0;
  changes = [];
})

abbrev same_state : State → State → Bool
same_state state_closed state_closed = true
same_state state_open state_open = true
same_state state_half_open state_half_open = true
same_state _ _ = false

-- The counters that `setState` resets, by the new state: `StateOpen` keeps `failures`.
abbrev reset_counters : State → CircuitBreaker → CircuitBreaker
reset_counters state_closed cb = record cb { failures = 0; successes = 0; half_open_reqs = 0 }
reset_counters state_open cb = record cb { successes = 0; half_open_reqs = 0 }
reset_counters state_half_open cb = record cb { failures = 0; successes = 0; half_open_reqs = 0 }

set_state : State → CircuitBreaker → CircuitBreaker
set_state new cb =
    if same_state cb.state new
    then cb
    else let cb' = reset_counters new (record cb { state = new }) in
      record cb' { changes = (cb.state, new) ∷ cb'.changes }

-- `true` is the nil error, `false` is `ErrCircuitOpen`.
allow_in : State → ℕ → CircuitBreaker → CircuitBreaker × Bool
unfolding set_state
allow_in state_closed now cb = (cb, true)
allow_in state_open now cb =
    if ltb (cb.last_failure_time + cb.open_timeout) now
    then (record (set_state state_half_open cb) { half_open_reqs = 1 }, true)
    else (cb, false)
allow_in state_half_open now cb =
    if leb cb.half_open_max_reqs cb.half_open_reqs
    then (cb, false)
    else (record cb { half_open_reqs = cb.half_open_reqs + 1 }, true)

unfoldable pub allow : ℕ → CircuitBreaker → CircuitBreaker × Bool
unfolding allow_in
allow now cb = allow_in cb.state now cb

-- `if cb.halfOpenReqs > 0 { cb.halfOpenReqs-- }`: truncated subtraction is the guarded one.
abbrev release : CircuitBreaker → CircuitBreaker
release cb = record cb { half_open_reqs = cb.half_open_reqs - 1 }

record_success_in : State → CircuitBreaker → CircuitBreaker
unfolding set_state
record_success_in state_half_open cb =
    let cb' = release (record cb { successes = cb.successes + 1 }) in
    if leb cb'.success_threshold cb'.successes then set_state state_closed cb' else cb'
record_success_in state_closed cb = record cb { failures = 0 }
record_success_in state_open cb = cb

unfoldable pub record_success : CircuitBreaker → CircuitBreaker
unfolding record_success_in
record_success cb = record_success_in cb.state cb

record_failure_in : State → CircuitBreaker → CircuitBreaker
unfolding set_state
record_failure_in state_closed cb =
    let cb' = record cb { failures = cb.failures + 1 } in
    if leb cb'.failure_threshold cb'.failures then set_state state_open cb' else cb'
record_failure_in state_half_open cb = set_state state_open (release cb)
record_failure_in state_open cb = cb

unfoldable pub record_failure : ℕ → CircuitBreaker → CircuitBreaker
unfolding record_failure_in
record_failure now cb = record_failure_in cb.state (record cb { last_failure_time = now })

-- The calls that the breaker takes, each with the time at which its lock is held.
pub data Call : Type 0 where
  allowing failing : ℕ → Call
  succeeding : Call

unfoldable pub step : Call → CircuitBreaker → CircuitBreaker
unfolding allow record_failure record_success
step (allowing now) cb = (allow now cb).0
step (failing now) cb = record_failure now cb
step succeeding cb = record_success cb

pub run : List Call → CircuitBreaker → CircuitBreaker
run [] cb = cb
run (c ∷ cs) cb = run cs (step c cb)
