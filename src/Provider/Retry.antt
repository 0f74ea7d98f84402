-- ===== src/Provider/Retry.antt =====
-- The retries of a call: the helpers at the end of backend/internal/llm/openai_compat.go, and the loop of
-- its Chat, which anthropic_provider.go has too. Durations are nanoseconds; a product of durations is an
-- int64.
use anynote.Base.{
  ℕ, zero, suc, ◌+◌, ◌-◌, ◌*◌, ◌%◌, min, Bool, true, false, ◌||◌, Option, none, some, List, [], ◌∷◌,
  String, str_eq, Result, err, ltb, ◌==◌, if◌then◌else◌,
}
use Prim.Native.Nat.{◌^◌}
use anynote.Base.Int.{ℤ, pos, negsuc, ltb_ℤ, pos_part}

abbrev pub second : ℕ
second = 1_000_000_000

-- The int64 that a natural number wraps to.
unfoldable pub wrap_int64 : ℕ → ℤ
wrap_int64 n = let m = n % 2 ^ 64 in if ltb m (2 ^ 63) then pos m else negsuc (2 ^ 64 - m - 1)

unfoldable pub request_timeout : ℕ → ℕ
request_timeout cfg = if ltb 0 cfg then cfg else 120 * second

unfoldable pub is_retriable : ℕ → Bool
is_retriable status = (status == 429) || (status == 502) || (status == 503) || (status == 504)

-- `uint(attempt - 1)`, up to 10: before the first attempt it is a number near 2^64.
abbrev shift_of : ℕ → ℕ
shift_of attempt = if attempt == 0 then 10 else min (attempt - 1) 10

unfoldable pub retry_backoff : ℕ → ℕ → ℤ
retry_backoff attempt base_delay =
    let base = if ltb 0 base_delay then base_delay else second in
    wrap_int64 (base * 2 ^ shift_of attempt)

-- `strconv.Atoi` and `http.ParseTime`.
pub record Parsers : Type 0 where
  pub atoi : String → Option ℤ
  pub is_http_time : String → Bool

abbrev five_seconds_if : Bool → ℤ
five_seconds_if true = pos (5 * second)
five_seconds_if false = pos 0

unfoldable pub parse_retry_after : Parsers → String → ℤ
parse_retry_after p value = if str_eq value "" then pos 0 else elim (p.atoi value) [
  | none ↦ five_seconds_if (p.is_http_time value)
  | some n ↦
      if ltb_ℤ (pos 0) n
      then wrap_int64 (pos_part n * second)
      else five_seconds_if (p.is_http_time value)
]

-- What one attempt meets: no response, a body that cannot be read, or a response with its status, its
-- header Retry-After and its body.
pub data Answer : Type 0 where
  network_error unreadable : Answer
  response : ℕ → String → String → Answer

pub data CallFault : Type 0 where
  no_response no_body : CallFault
  returned : ℕ → CallFault

pub data ProviderError : Type 0 where
  bad_url create_request cancelled parse_failed no_choices send_failed unread_body : ProviderError
  status_error : ℕ → ProviderError
  exhausted : Option CallFault → ProviderError

-- The surroundings of a call: whether the request can be built, whether the context is done before the
-- delay of an attempt has passed, and what each attempt meets. Attempts count from 0.
pub record World : Type 0 where
  pub request_fails : Bool
  pub is_done : ℕ → Bool
  pub answer : ℕ → Answer

-- What a call did: the delays it waited for, the requests it sent, and its result.
pub record Run (R : Type 0) : Type 0 where
  pub delays : List ℤ
  pub requests : ℕ
  pub result : Result ProviderError R

abbrev pub stop : {R : Type 0} → Result ProviderError R → Run R
stop r = record { delays = []; requests = 0; result = r }

abbrev pub sent : {R : Type 0} → Run R → Run R
sent r = record r { requests = suc r.requests }

abbrev pub waited : {R : Type 0} → ℤ → Run R → Run R
waited delay r = record r { delays = delay ∷ r.delays }

-- What follows an attempt: a result, or another attempt with its fault and base delay.
pub data Next (R : Type 0) : Type 0 where
  finish : Result ProviderError R → Next R
  again : CallFault → ℕ → Next R

abbrev pub is_refused : ℕ → Bool
is_refused status = (status == 400) || (status == 401) || (status == 403)

-- `if after > 0 { retryBaseDelay = after }`
abbrev pub base_after : ℕ → ℤ → ℕ
base_after base after = if ltb_ℤ (pos 0) after then pos_part after else base

module _ {R : Type 0} (p : Parsers) (decode : String → Result ProviderError R) where
  unfoldable pub judge : ℕ → Answer → Next R
  judge base network_error = again no_response base
  judge base unreadable = again no_body base
  judge base (response status header body) =
      if is_refused status
      then finish (err (status_error status))
      else if is_retriable status
      then again (returned status)
          (if status == 429 then base_after base (parse_retry_after p header) else base)
      else if status == 200
      then finish (decode body)
      else finish (err (status_error status))

  module _ (w : World) where
    -- The loop, with the attempts that are left; `last` is lastErr.
    unfoldable pub attempts : ℕ → ℕ → ℕ → Option CallFault → Run R
    attempts zero attempt base last = stop (err (exhausted last))
    attempts (suc left) attempt base last =
        let request : Run R = elim (judge base (w.answer attempt)) [
          | finish r ↦ stop r
          | again fault base' ↦ attempts left (attempt + 1) base' (some fault)
        ] in
        let try : Run R = if w.request_fails then stop (err create_request) else sent request in
        let delay = retry_backoff attempt base in
        if attempt == 0
        then try
        else if w.is_done attempt
        then waited delay (stop (err cancelled))
        else waited delay try

    -- `for attempt := 0; attempt <= maxRetries; attempt++`
    unfoldable pub retry_loop : ℕ → ℕ → Run R
    retry_loop max_retries base = attempts (suc max_retries) 0 base none
