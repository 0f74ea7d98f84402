-- ===== src/Provider/Attempts.antt =====
-- What the retries of a call come to, Chat of backend/internal/llm/openai_compat.go.
use anynote.Base.{
  ◌∙◌, not, ℕ, zero, suc, ◌+◌, ◌≤◌, ◌<◌, ◌≡◌, refl, Bool, true, false, ◌||◌, Option, some, String,
  Result, err, ◌==◌, if◌then◌else◌, arith, ap,
}
use anynote.Provider.Retry.{
  is_refused, base_after, Parsers, Answer, network_error, unreadable, response, CallFault,
  no_response, no_body, returned, World, Run, finish, again, ProviderError, status_error, exhausted,
  create_request, judge, attempts, retry_backoff, is_retriable, parse_retry_after, stop, sent,
  waited,
}

-- An answer after which another attempt may be made.
abbrev pub is_transient : Answer → Bool
is_transient network_error = true
is_transient unreadable = true
is_transient (response status header body) = is_retriable status

abbrev pub fault_of : Answer → CallFault
fault_of network_error = no_response
fault_of unreadable = no_body
fault_of (response status header body) = returned status

module _ {R : Type 0} (p : Parsers) (decode : String → Result ProviderError R) (w : World) where
  -- What an answer that is not transient comes to.
  abbrev pub verdict : Answer → Result ProviderError R
  verdict (response status header body) =
      if status == 200 then decode body else err (status_error status)
  verdict _ = err create_request

  judge-transient :
      (base : ℕ) (a : Answer)
      → is_transient a ≡ true
      → (base' : ℕ) × (judge p decode base a ≡ again (fault_of a) base')
  unfolding judge is_retriable
  judge-transient base network_error h = (base, refl)
  judge-transient base unreadable h = (base, refl)
  judge-transient base (response status header body) h =
      let free : is_refused status ≡ false = ground (arith, h) in
      (
        if status == 429 then base_after base (parse_retry_after p header) else base,
        rw (free, h) refl,
      )

  judge-decisive :
      (base : ℕ) (a : Answer) → is_transient a ≡ false → judge p decode base a ≡ finish (verdict a)
  unfolding judge is_retriable
  judge-decisive base network_error h = cc
  judge-decisive base unreadable h = cc
  judge-decisive base (response status header body) h = ground (arith, h)

  -- The delay before an attempt, but the first.
  abbrev delayed : ℕ → ℕ → Run R → Run R
  delayed attempt base r = if attempt == 0 then r else waited (retry_backoff attempt base) r

  module _ (fails : w.request_fails ≡ false) where
    attempts-transient :
        (left attempt base : ℕ) (last : Option CallFault)
        → is_transient (w.answer attempt) ≡ true
        → (attempt == 0 || not (w.is_done attempt)) ≡ true
        → (base' : ℕ) × (attempts p decode w (suc left) attempt base last
            ≡ delayed attempt base (
                sent (
                  attempts p decode w left
                    (attempt + 1)
                    base'
                    (some (fault_of (w.answer attempt))))))
    unfolding attempts
    attempts-transient left attempt base last h live =
        let (base', e) = judge-transient base (w.answer attempt) h in
        (base', rw (attempts, e, fails) (ground (arith, live)))

    attempts-decisive :
        (left attempt base : ℕ) (last : Option CallFault)
        → is_transient (w.answer attempt) ≡ false
        → (attempt == 0 || not (w.is_done attempt)) ≡ true
        → attempts p decode w (suc left) attempt base last
          ≡ delayed attempt base (sent (stop (verdict (w.answer attempt))))
    unfolding attempts
    attempts-decisive left attempt base last h live =
        let e = judge-decisive base (w.answer attempt) h in
        rw (attempts, e, fails) (ground (arith, live))

    delayed-parts :
        (attempt base : ℕ) (r : Run R)
        → ((delayed attempt base r).result ≡ r.result)
          × ((delayed attempt base r).requests ≡ r.requests)
    delayed-parts attempt base r = ground arith

    -- After `n` transient answers, the answer `n` decides.
    pub decided :
        (n left attempt base : ℕ) (last : Option CallFault)
        → n < left
        → ((i : ℕ) → i < n → is_transient (w.answer (attempt + i)) ≡ true)
        → ((i : ℕ) → i ≤ n → (attempt + i == 0 || not (w.is_done (attempt + i))) ≡ true)
        → is_transient (w.answer (attempt + n)) ≡ false
        → ((attempts p decode w left attempt base last).result ≡ verdict (w.answer (attempt + n)))
          × ((attempts p decode w left attempt base last).requests ≡ suc n)
    decided n zero attempt base last lt before live final = absurd (omega arith)
    decided zero (suc left) attempt base last lt before live final =
        let here : attempt + 0 ≡ attempt = omega arith in
        let e =
          attempts-decisive left attempt base last (rw here at final)
            (rw here at (live 0 (omega arith))) in
        rw (e, here) (delayed-parts attempt base (sent (stop (verdict (w.answer attempt)))))
    decided (suc n) (suc left) attempt base last lt before live final =
        let here : attempt + 0 ≡ attempt = omega arith in
        let shift : (i : ℕ) → attempt + suc i ≡ attempt + 1 + i = λ i. omega arith in
        let (base', e) =
          attempts-transient left attempt base last (rw here at (before 0 (omega arith)))
            (rw here at (live 0 (omega arith))) in
        let r = attempts p decode w left (attempt + 1) base' (some (fault_of (w.answer attempt))) in
        let rest =
          decided n left (attempt + 1) base' (some (fault_of (w.answer attempt))) (omega arith)
            (λ i l. rw (shift i) at (before (suc i) (omega arith)))
            (λ i l. rw (shift i) at (live (suc i) (omega arith))) (rw (shift n) at final) in
        let parts = delayed-parts attempt base (sent r) in
        rw (e, shift n) (parts.0 ∙ rest.0, parts.1 ∙ ap suc rest.1)

    -- Transient answers up to the last attempt.
    pub worn_out :
        (left attempt base : ℕ) (last : Option CallFault)
        → ((i : ℕ) → i ≤ left → is_transient (w.answer (attempt + i)) ≡ true)
        → ((i : ℕ) → i ≤ left → (attempt + i == 0 || not (w.is_done (attempt + i))) ≡ true)
        → ((attempts p decode w (suc left) attempt base last).result
            ≡ err (exhausted (some (fault_of (w.answer (attempt + left))))))
          × ((attempts p decode w (suc left) attempt base last).requests ≡ suc left)
    unfolding attempts
    worn_out zero attempt base last before live =
        let here : attempt + 0 ≡ attempt = omega arith in
        let (base', e) =
          attempts-transient 0 attempt base last (rw here at (before 0 (omega arith)))
            (rw here at (live 0 (omega arith))) in
        rw (e, here)
          (delayed-parts attempt base
            (sent (attempts p decode w 0 (attempt + 1) base' (some (fault_of (w.answer attempt))))))
    worn_out (suc left) attempt base last before live =
        let here : attempt + 0 ≡ attempt = omega arith in
        let shift : (i : ℕ) → attempt + suc i ≡ attempt + 1 + i = λ i. omega arith in
        let (base', e) =
          attempts-transient (suc left) attempt base last (rw here at (before 0 (omega arith)))
            (rw here at (live 0 (omega arith))) in
        let r =
          attempts p decode w (suc left) (attempt + 1) base' (some (fault_of (w.answer attempt))) in
        let rest =
          worn_out left (attempt + 1) base' (some (fault_of (w.answer attempt)))
            (λ i l. rw (shift i) at (before (suc i) (omega arith)))
            (λ i l. rw (shift i) at (live (suc i) (omega arith))) in
        let parts = delayed-parts attempt base (sent r) in
        rw (e, shift left) (parts.0 ∙ rest.0, parts.1 ∙ ap suc rest.1)
