-- ===== src/Breaker/Traces.antt =====
-- How a breaker trips, rejects and recovers over a sequence of calls,
-- backend/internal/llm/circuit_breaker.go.
use anynote.Base.{
  ℕ, suc, ◌+◌, ◌≤◌, ◌<◌, ◌≡◌, refl, ◌∙◌, false, List, [], ◌∷◌, map, length, All, arith, ltb,
  if◌then◌else◌,
}
use anynote.Breaker.{
  state_closed, state_open, state_half_open, CircuitBreaker, Call, allowing, failing, succeeding,
  step, run, allow,
}

open_failures :
    (ts : List ℕ) (cb : CircuitBreaker)
    → cb.state ≡ state_open
    → (run (map failing ts) cb).state ≡ state_open
unfolding run step
open_failures [] cb o = o
open_failures (t ∷ ts) cb o = open_failures ts (step (failing t) cb) (ground arith)

-- From a closed breaker below its threshold, a run of failures with no success between them opens
-- it exactly when the threshold is reached.
pub failures_trip :
    (ts : List ℕ) (cb : CircuitBreaker)
    → cb.state ≡ state_closed
    → cb.failures < cb.failure_threshold
    → (run (map failing ts) cb).state
      ≡ (if ltb (cb.failures + length ts) cb.failure_threshold then state_closed else state_open)
unfolding run step
failures_trip [] cb c h = ground arith
failures_trip (t ∷ ts) cb c h =
    ground (arith, failures_trip ts (step (failing t) cb), open_failures ts (step (failing t) cb))

-- A call that leaves a breaker that tripped at `t` open: a request within the timeout after it, or a
-- report, failures no earlier than `t`.
abbrev pub Early : ℕ → ℕ → Call → Type 0
Early t timeout (allowing now) = now ≤ t + timeout
Early t timeout (failing now) = t ≤ now
Early t timeout succeeding = Unit

step_open :
    (t : ℕ) (c : Call) (cb : CircuitBreaker)
    → cb.state ≡ state_open
    → t ≤ cb.last_failure_time
    → Early t cb.open_timeout c
    → ((step c cb).state ≡ state_open)
      × (t ≤ (step c cb).last_failure_time)
      × ((step c cb).open_timeout ≡ cb.open_timeout)
unfolding step
step_open t (allowing now) cb o l h = ground arith
step_open t (failing now) cb o l h = ground arith
step_open t succeeding cb o l h = ground arith

run_open :
    (t timeout : ℕ) (cs : List Call) (cb : CircuitBreaker)
    → cb.state ≡ state_open
    → t ≤ cb.last_failure_time
    → cb.open_timeout ≡ timeout
    → All (Early t timeout) cs
    → ((run cs cb).state ≡ state_open)
      × (t ≤ (run cs cb).last_failure_time)
      × ((run cs cb).open_timeout ≡ timeout)
unfolding run
run_open t timeout [] cb o l e h = (o, l, e)
run_open t timeout (c ∷ cs) cb o l e h =
    let (o', l', e') = step_open t c cb o l (rw e h.0) in
    run_open t timeout cs (step c cb) o' l' (e' ∙ e) h.1

allow_open :
    (now : ℕ) (cb : CircuitBreaker)
    → cb.state ≡ state_open
    → now ≤ cb.last_failure_time + cb.open_timeout
    → allow now cb ≡ (cb, false)
unfolding allow
allow_open now cb o h = ground arith

-- Once open, a breaker rejects every request until its timeout after the last failure has passed,
-- whatever requests and reports come in between, and a rejected request changes nothing.
pub open_rejects :
    (cs : List Call) (now : ℕ) (cb : CircuitBreaker)
    → cb.state ≡ state_open
    → All (Early cb.last_failure_time cb.open_timeout) cs
    → now ≤ cb.last_failure_time + cb.open_timeout
    → allow now (run cs cb) ≡ (run cs cb, false)
open_rejects cs now cb o h n =
    let (o', l', e') = run_open cb.last_failure_time cb.open_timeout cs cb o (omega arith) refl h in
    allow_open now (run cs cb) o' (omega arith)

-- Each probe is admitted at its time and reports success before the next one.
abbrev pub probe_rounds : List ℕ → List Call
probe_rounds [] = []
probe_rounds (t ∷ ts) = allowing t ∷ succeeding ∷ probe_rounds ts

closed_rounds :
    (ts : List ℕ) (cb : CircuitBreaker)
    → cb.state ≡ state_closed
    → (run (probe_rounds ts) cb).state ≡ state_closed
unfolding run step
closed_rounds [] cb c = c
closed_rounds (t ∷ ts) cb c =
    closed_rounds ts (step succeeding (step (allowing t) cb)) (ground arith)

half_open_rounds :
    (ts : List ℕ) (cb : CircuitBreaker)
    → cb.state ≡ state_half_open
    → cb.half_open_reqs ≡ 0
    → 0 < cb.half_open_max_reqs
    → cb.successes < cb.success_threshold
    → (run (probe_rounds ts) cb).state ≡ (
        if ltb (cb.successes + length ts) cb.success_threshold
        then state_half_open
        else state_closed)
unfolding run step
half_open_rounds [] cb c r m h = ground arith
half_open_rounds (t ∷ ts) cb c r m h = ground (
  arith,
  half_open_rounds ts (step succeeding (step (allowing t) cb)),
  closed_rounds ts (step succeeding (step (allowing t) cb)),
)

-- After the timeout, probes that succeed one after the other close an open breaker exactly when
-- they are as many as the success threshold; before that it stays half-open.
pub open_recovers :
    (t : ℕ) (ts : List ℕ) (cb : CircuitBreaker)
    → cb.state ≡ state_open
    → cb.last_failure_time + cb.open_timeout < t
    → 0 < cb.half_open_max_reqs
    → 0 < cb.success_threshold
    → (run (probe_rounds (t ∷ ts)) cb).state
      ≡ (if ltb (suc (length ts)) cb.success_threshold then state_half_open else state_closed)
unfolding run step
open_recovers t ts cb o h m s = ground (
  arith,
  half_open_rounds ts (step succeeding (step (allowing t) cb)),
  closed_rounds ts (step succeeding (step (allowing t) cb)),
)
