-- ===== src/Breaker/Graph.antt =====
-- The transitions that the comment on `CircuitBreaker` documents, backend/internal/llm/circuit_breaker.go,
-- and the calls made to `onStateChange`.
use anynote.Base.{ℕ, ◌+◌, ◌≤◌, ◌<◌, ◌≡◌, ◌⊎◌, ◌∷◌, arith}
use anynote.Breaker.{
  State, state_closed, state_open, state_half_open, CircuitBreaker, Call, allowing, failing,
  succeeding, step,
}

-- A transition, with the breaker before and the call that makes it.
pub data Transition (cb : CircuitBreaker) : Call → State → Type 0 where
  trips :
      {now : ℕ}
      → cb.state ≡ state_closed
      → cb.failure_threshold ≤ cb.failures + 1
      → Transition cb (failing now) state_open
  probes :
      {now : ℕ}
      → cb.state ≡ state_open
      → cb.last_failure_time + cb.open_timeout < now
      → Transition cb (allowing now) state_half_open
  recovers :
      cb.state ≡ state_half_open
      → cb.success_threshold ≤ cb.successes + 1
      → Transition cb succeeding state_closed
  reopens : {now : ℕ} → cb.state ≡ state_half_open → Transition cb (failing now) state_open

-- Every call leaves the state and the callback alone, or makes a documented transition under its
-- condition and reports it once to the callback.
pub step_transitions :
    (c : Call) (cb : CircuitBreaker)
    → ((step c cb).state ≡ cb.state) × ((step c cb).changes ≡ cb.changes)
      ⊎ Transition cb c (step c cb).state
        × ((step c cb).changes ≡ (cb.state, (step c cb).state) ∷ cb.changes)
unfolding step
step_transitions (allowing now) cb = grind (arith, probes)
step_transitions (failing now) cb = grind (arith, trips, reopens)
step_transitions succeeding cb = grind (arith, recovers)
