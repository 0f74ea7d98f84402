-- ===== src/Breaker/Tests.antt =====
-- A breaker with the gateway's options over a few calls, backend/internal/llm/circuit_breaker.go.
use anynote.Base.{◌≡◌, refl, List, [], ◌∷◌, map, arith}
use anynote.Breaker.{
  state_open, CircuitBreaker, CircuitBreakerOption, with_failure_threshold, with_success_threshold,
  new_circuit_breaker, Call, allowing, failing, succeeding, run,
}
use anynote.Breaker.Invariant.{IsValid, new-run-IsValid}
use anynote.Breaker.Traces.{failures_trip}

abbrev options : List CircuitBreakerOption
options = with_failure_threshold 2 ∷ with_success_threshold 2 ∷ []

abbrev fresh : CircuitBreaker
fresh = new_circuit_breaker options

abbrev tripped : CircuitBreaker
tripped = record {
  state = state_open;
  failures = 2;
  successes = 0;
  last_failure_time = 5;
  failure_threshold = 2;
  success_threshold = 2;
  open_timeout = 100;
  half_open_max_reqs = 1;
  half_open_reqs = 0;
  changes = [];
}

abbrev calls : List Call
calls = failing 3 ∷ failing 5 ∷ allowing 200 ∷ succeeding ∷ []

new-run-IsValid_example : IsValid (run calls (new_circuit_breaker options))
unfolding new_circuit_breaker
new-run-IsValid_example = new-run-IsValid options calls (omega arith) (omega arith)

failures_trip_example : (run (map failing (3 ∷ 5 ∷ [])) fresh).state ≡ state_open
unfolding new_circuit_breaker
failures_trip_example = failures_trip (3 ∷ 5 ∷ []) fresh refl (omega arith)
