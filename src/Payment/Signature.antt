-- ===== src/Payment/Signature.antt =====
-- Stripe's signature header, backend/internal/service/payment_service.go (VerifyStripeSignature,
-- parseStripeSignatureHeader). HMAC-SHA256 in hexadecimal and strconv.ParseInt are functions; the clock
-- is in seconds.
use Prim.Native.String.{[] as empty, ◌∷◌ as char_then, ◌++◌ as append}
use Prim.Native.Char.{Char, code}
use anynote.Base.{
  ℕ, suc, ◌+◌, ◌≤◌, ◌≡◌, ap, ◌∙◌, ◌⊎◌, inl, inr, Bool, true, false, ◌&&◌, ◌||◌, not, Option, none,
  some, List, [], ◌∷◌, String, str_eq, eq_iff, Result, ok, err, lookup, insert, arith, ltb, leb,
  ◌==◌, Bool-cases, Option-cases, if◌then◌else◌,
}
use anynote.Base.Int.{ℤ, pos, negsuc}

pub data SignatureError : Type 0 where
  no_secret malformed_header signature_mismatch too_old : SignatureError

-- The spaces that `strings.TrimSpace` removes.
is_space : Char → Bool
is_space c =
    (leb 9 (code c) && leb (code c) 13)
    || (code c == 32)
    || (code c == 133)
    || (code c == 160)
    || (code c == 5760)
    || (leb 8192 (code c) && leb (code c) 8202)
    || (code c == 8232)
    || (code c == 8233)
    || (code c == 8239)
    || (code c == 8287)
    || (code c == 12288)

trim_left : String → String
unfolding is_space
trim_left empty = ""
trim_left (char_then c s) = if is_space c then trim_left s else char_then c s

trim_right : String → String
unfolding is_space
trim_right empty = ""
trim_right (char_then c s) =
    let rest = trim_right s in if is_space c && str_eq rest "" then "" else char_then c rest

abbrev trim_space : String → String
trim_space s = trim_right (trim_left s)

-- A character in front of the first part.
abbrev in_front : Char → List String → List String
in_front c [] = []
in_front c (part ∷ parts) = char_then c part ∷ parts

-- `strings.Split(header, ",")`
split : String → List String
split empty = "" ∷ []
split (char_then c s) = if code c == 44 then "" ∷ split s else in_front c (split s)

abbrev in_front_of_key : Char → Option (String × String) → Option (String × String)
in_front_of_key c none = none
in_front_of_key c (some (key, value)) = some (char_then c key, value)

-- The texts before and after the first `=`.
cut : String → Option (String × String)
cut empty = none
cut (char_then c s) = if code c == 61 then some ("", s) else in_front_of_key c (cut s)

-- A pair with an empty key is no pair; a key that stands twice has its last value.
abbrev add_pair : String → List (String × String) → List (String × String)
add_pair part parts = elim (cut (trim_space part)) [
  | none ↦ parts
  | some (key, value) ↦
      if str_eq key "" then parts else insert (trim_space key) (trim_space value) parts
]

add_pairs : List String → List (String × String) → List (String × String)
unfolding cut trim_left trim_right
add_pairs [] parts = parts
add_pairs (p ∷ ps) parts = add_pairs ps (add_pair p parts)

unfoldable pub parse_stripe_signature_header : String → List (String × String)
unfolding add_pairs split
parse_stripe_signature_header header = add_pairs (split header) []

-- `now - ts > tolerance` on 64 bits, where the difference of a very early time wraps around.
unfoldable pub is_too_old : ℕ → ℤ → Bool
is_too_old now (pos t) = ltb (t + 300) now
is_too_old now (negsuc n) = ltb 300 (now + suc n) && ltb (now + suc n) 9_223_372_036_854_775_808

-- Which timestamps pass: at most five minutes old, or no number, or so early that the clock has hardly begun
-- or the difference wraps around.
pub data IsFresh (now : ℕ) : Option ℤ → Type 0 where
  unreadable : IsFresh now none
  recent : (t : ℕ) → now ≤ t + 300 → IsFresh now (some (pos t))
  early :
      (n : ℕ)
      → (now + suc n ≤ 300) ⊎ (9_223_372_036_854_775_808 ≤ now + suc n)
      → IsFresh now (some (negsuc n))

passes-IsFresh : (now : ℕ) (t : ℤ) → is_too_old now t ≡ false → IsFresh now (some t)
unfolding is_too_old
passes-IsFresh now (pos t) h = recent t (ground arith)
passes-IsFresh now (negsuc n) h = elim (Bool-cases (ltb 300 (now + suc n))) [
  | inl late ↦ early n (inr (ground arith))
  | inr soon ↦ early n (inl (ground arith))
]

module _ (hmac : String → String → String) (parse_int : String → Option ℤ) where
  abbrev check_time : ℕ → String → Result SignatureError (Unit {0})
  check_time now timestamp = elim (parse_int timestamp) [
    | none ↦ ok tt
    | some t ↦ if is_too_old now t then err too_old else ok tt
  ]

  -- A timestamp that is no number is not checked.
  unfoldable pub verify_stripe_signature :
      ℕ → String → String → String → Result SignatureError (Unit {0})
  unfolding is_too_old
  verify_stripe_signature now payload header secret =
      if str_eq secret ""
      then err no_secret
      else let parts = parse_stripe_signature_header header in
        elim (lookup "t" parts) [
          | none ↦ err malformed_header
          | some timestamp ↦ elim (lookup "v1" parts) [
            | none ↦ err malformed_header
            | some signature ↦
                if not (str_eq signature (hmac secret (append timestamp (append "." payload))))
                then err signature_mismatch
                else check_time now timestamp
          ]
        ]

  check_time-IsFresh :
      (now : ℕ) (timestamp : String)
      → check_time now timestamp ≡ ok tt
      → IsFresh now (parse_int timestamp)
  check_time-IsFresh now timestamp h = elim (Option-cases (parse_int timestamp)) [
    | inl e ↦ rw e unreadable
    | inr (t, e) ↦ rw e (passes-IsFresh now t (ground (arith, e, h)))
  ]

  -- A signature that is accepted is, under a secret that is not empty, the HMAC of the header's
  -- timestamp and the payload, and the timestamp is fresh: no number, or at most five minutes old, or
  -- negative and beyond what 64 bits compare.
  pub verify_stripe_signature_lem :
      (now : ℕ) (payload header secret : String)
      → verify_stripe_signature now payload header secret ≡ ok tt
      → (timestamp : String) × (str_eq secret "" ≡ false)
        × (lookup "t" (parse_stripe_signature_header header) ≡ some timestamp)
        × (lookup "v1" (parse_stripe_signature_header header)
            ≡ some (hmac secret (append timestamp (append "." payload))))
        × IsFresh now (parse_int timestamp)
  unfolding verify_stripe_signature
  verify_stripe_signature_lem now payload header secret h =
      elim (Option-cases (lookup "t" (parse_stripe_signature_header header))) [
        | inl e ↦ ground (arith, e, h)
        | inr (timestamp, e) ↦
            elim (Option-cases (lookup "v1" (parse_stripe_signature_header header))) [
              | inl e' ↦ ground (arith, e, e', h)
              | inr (signature, e') ↦
                  let signed = hmac secret (append timestamp (append "." payload)) in
                  let same : str_eq signature signed ≡ true = ground (arith, e, e', h) in
                  (
                    timestamp,
                    ground (arith, h),
                    e,
                    e' ∙ ap some ((eq_iff signature signed).0 same),
                    check_time-IsFresh now timestamp (ground (arith, e, e', h)),
                  )
            ]
      ]
