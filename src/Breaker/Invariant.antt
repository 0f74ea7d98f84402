-- ===== src/Breaker/Invariant.antt =====
-- What holds of a breaker between two calls, backend/internal/llm/circuit_breaker.go.
use anynote.Base.{ℕ, ◌≤◌, ◌<◌, max, ◌≡◌, refl, List, [], ◌∷◌, arith}
use anynote.Breaker.{
  state_closed, state_open, state_half_open, CircuitBreaker, CircuitBreakerOption,
  with_failure_threshold, with_success_threshold, with_open_timeout, with_half_open_max_requests,
  apply_option, apply_options, new_circuit_breaker, Call, allowing, failing, succeeding, step, run,
}

-- The thresholds and the timeout are set at construction.
pub record Config (ft st timeout probes : ℕ) (cb : CircuitBreaker) : Type 0 where
  pub failure_threshold_eq : cb.failure_threshold ≡ ft
  pub success_threshold_eq : cb.success_threshold ≡ st
  pub open_timeout_eq : cb.open_timeout ≡ timeout
  pub half_open_max_reqs_eq : cb.half_open_max_reqs ≡ probes

-- Each state has its counters below their thresholds, and the others at 0.
pub record IsValid (cb : CircuitBreaker) : Type 0 where
  pub closed_below : cb.state ≡ state_closed → cb.failures < cb.failure_threshold
  pub closed_idle : cb.state ≡ state_closed → (cb.successes ≡ 0) × (cb.half_open_reqs ≡ 0)
  pub open_idle : cb.state ≡ state_open → (cb.successes ≡ 0) × (cb.half_open_reqs ≡ 0)
  pub half_open_below : cb.state ≡ state_half_open → cb.successes < cb.success_threshold
  pub half_open_probes :
      cb.state ≡ state_half_open → cb.half_open_reqs ≤ max 1 cb.half_open_max_reqs
  pub half_open_clean : cb.state ≡ state_half_open → cb.failures ≡ 0

module _ (ft st timeout probes : ℕ) where
  step-Config :
      (c : Call) (cb : CircuitBreaker)
      → Config ft st timeout probes cb
      → Config ft st timeout probes (step c cb)
  unfolding step
  step-Config (allowing now) cb h = ground arith
  step-Config (failing now) cb h = ground arith
  step-Config succeeding cb h = ground arith

step-IsValid :
    (c : Call) (cb : CircuitBreaker)
    → 0 < cb.failure_threshold
    → 0 < cb.success_threshold
    → IsValid cb
    → IsValid (step c cb)
unfolding step
step-IsValid (allowing now) cb f s h = ground arith
step-IsValid (failing now) cb f s h = ground arith
step-IsValid succeeding cb f s h = ground arith

-- With positive thresholds any calls at any times keep the counters of a breaker within the limits
-- of its state.
run-IsValid :
    (cs : List Call) (cb : CircuitBreaker)
    → 0 < cb.failure_threshold
    → 0 < cb.success_threshold
    → IsValid cb
    → IsValid (run cs cb)
unfolding run
run-IsValid [] cb f s h = h
run-IsValid (c ∷ cs) cb f s h =
    let same = step-Config _ _ _ _ c cb (record {
      failure_threshold_eq = refl;
      success_threshold_eq = refl;
      open_timeout_eq = refl;
      half_open_max_reqs_eq = refl;
    }) in
    run-IsValid cs (step c cb) (omega arith) (omega arith) (step-IsValid c cb f s h)

-- Options change no counter and no state.
abbrev IsFresh : CircuitBreaker → Type 0
IsFresh cb =
    (cb.state ≡ state_closed) × (cb.failures ≡ 0) × (cb.successes ≡ 0) × (cb.half_open_reqs ≡ 0)

apply_options-IsFresh :
    (opts : List CircuitBreakerOption) (cb : CircuitBreaker)
    → IsFresh cb
    → IsFresh (apply_options opts cb)
unfolding apply_options apply_option
apply_options-IsFresh [] cb h = h
apply_options-IsFresh (with_failure_threshold n ∷ os) cb h = apply_options-IsFresh os _ h
apply_options-IsFresh (with_success_threshold n ∷ os) cb h = apply_options-IsFresh os _ h
apply_options-IsFresh (with_open_timeout n ∷ os) cb h = apply_options-IsFresh os _ h
apply_options-IsFresh (with_half_open_max_requests n ∷ os) cb h = apply_options-IsFresh os _ h

new-IsFresh : (opts : List CircuitBreakerOption) → IsFresh (new_circuit_breaker opts)
unfolding new_circuit_breaker
new-IsFresh opts = apply_options-IsFresh opts _ (refl, refl, refl, refl)

new-IsValid :
    (opts : List CircuitBreakerOption)
    → 0 < (new_circuit_breaker opts).failure_threshold
    → IsValid (new_circuit_breaker opts)
new-IsValid opts f = ground (arith, new-IsFresh opts)

-- A new breaker with the gateway's options, or with any options that leave the thresholds positive,
-- keeps its counters within the limits of its state, whatever calls are made at whatever times.
pub new-run-IsValid :
    (opts : List CircuitBreakerOption) (cs : List Call)
    → 0 < (new_circuit_breaker opts).failure_threshold
    → 0 < (new_circuit_breaker opts).success_threshold
    → IsValid (run cs (new_circuit_breaker opts))
new-run-IsValid opts cs f s = run-IsValid cs (new_circuit_breaker opts) f s (new-IsValid opts f)
