-- ===== src/Provider/Calls.antt =====
-- The calls of the clients of backend/internal/llm/openai_compat.go and anthropic_provider.go as wholes.
use anynote.Base.{
  sym, ◌⊎◌, ℕ, zero, suc, ◌+◌, ◌-◌, ◌≤◌, ◌<◌, ◌≡◌, refl, true, false, ◌||◌, not, Option, none, some,
  String, Result, err, length, ◌==◌, if◌then◌else◌, inl, inr, arith,
}
use anynote.Provider.Retry.{
  Parsers, CallFault, World, Next, finish, again, ProviderError, exhausted, judge, attempts,
  retry_loop,
}
use anynote.Provider.Attempts.{is_transient, fault_of, verdict, decided, worn_out}

module _ {R : Type 0} (p : Parsers) (decode : String → Result ProviderError R) (w : World) where
  -- Where the request can be built and the context is not done: after `n` answers that another
  -- attempt may follow (no response, an unreadable body, or a status 429, 502, 503 or 504), with n at
  -- most the number of retries, an answer of another kind ends the call with `n + 1` requests sent,
  -- its decoded body where the status is 200 and the status as an error where it is not.
  pub retry_loop_decides :
      (max_retries base n : ℕ)
      → w.request_fails ≡ false
      → n ≤ max_retries
      → ((i : ℕ) → i < n → is_transient (w.answer i) ≡ true)
      → ((i : ℕ) → i ≤ n → (i == 0 || not (w.is_done i)) ≡ true)
      → is_transient (w.answer n) ≡ false
      → ((retry_loop p decode w max_retries base).result ≡ verdict p decode w (w.answer n))
        × ((retry_loop p decode w max_retries base).requests ≡ suc n)
  unfolding retry_loop
  retry_loop_decides max_retries base n fails le before live final =
      let zero_add : (i : ℕ) → 0 + i ≡ i = λ i. omega arith in
      rw (zero_add n) at (
        decided p decode w fails n (suc max_retries) 0 base none (omega arith)
          (λ i l. rw (sym (zero_add i)) at (before i l))
          (λ i l. rw (sym (zero_add i)) at (live i l)) (rw (sym (zero_add n)) at final))

  -- Where every answer up to the last retry is of that kind, the call fails with the last of them,
  -- after one request more than the number of retries.
  pub retry_loop_exhausts :
      (max_retries base : ℕ)
      → w.request_fails ≡ false
      → ((i : ℕ) → i ≤ max_retries → is_transient (w.answer i) ≡ true)
      → ((i : ℕ) → i ≤ max_retries → (i == 0 || not (w.is_done i)) ≡ true)
      → ((retry_loop p decode w max_retries base).result
          ≡ err (exhausted (some (fault_of (w.answer max_retries)))))
        × ((retry_loop p decode w max_retries base).requests ≡ suc max_retries)
  unfolding retry_loop
  retry_loop_exhausts max_retries base fails before live =
      let zero_add : (i : ℕ) → 0 + i ≡ i = λ i. omega arith in
      rw (zero_add max_retries) at (
        worn_out p decode w fails max_retries 0 base none
          (λ i l. rw (sym (zero_add i)) at (before i l))
          (λ i l. rw (sym (zero_add i)) at (live i l)))

  Next-cases :
      (x : Next R)
      → ((r : Result ProviderError R) × (x ≡ finish r))
        ⊎ ((f : CallFault) × (b : ℕ) × (x ≡ again f b))
  Next-cases (finish r) = inl (r, refl)
  Next-cases (again f b) = inr (f, b, refl)

  attempts-le :
      (left attempt base : ℕ) (last : Option CallFault)
      → ((attempts p decode w left attempt base last).requests ≤ left)
        × (length (attempts p decode w left attempt base last).delays
            ≤ (if attempt == 0 then left - 1 else left))
  unfolding attempts
  attempts-le zero attempt base last = ground arith
  attempts-le (suc left) attempt base last =
      elim (Next-cases (judge p decode base (w.answer attempt))) [
        | inl (r, e) ↦ rw (attempts, e) (ground arith)
        | inr (f, b, e) ↦
            rw (attempts, e) (ground (arith, attempts-le left (attempt + 1) b (some f)))
      ]

  -- Whatever the answers are, a call sends at most one request more than its number of retries, and
  -- waits at most once before each retry.
  pub retry_loop-le :
      (max_retries base : ℕ)
      → ((retry_loop p decode w max_retries base).requests ≤ max_retries + 1)
        × (length (retry_loop p decode w max_retries base).delays ≤ max_retries)
  unfolding retry_loop
  retry_loop-le max_retries base = ground (arith, attempts-le (suc max_retries) 0 base none)
