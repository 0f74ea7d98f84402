-- ===== src/Platform/Keys.antt =====
-- The keys of the sign-in sessions, authSessionKey of backend/internal/service/platform_service.go.
use Prim.Native.String.{[] as empty, ◌∷◌ as char_then, ◌++◌ as append}
use Prim.Native.String.append.{nil as append_nil, cons as append_cons}
use Prim.Native.Char.{Char, code}
use anynote.Base.{
  sym, ◌∙◌, ℕ, Option, none, some, ◌≡◌, refl, ap, Bool, true, false, String, ◌==◌, if◌then◌else◌,
  arith,
}
use anynote.Platform.Sessions.{auth_session_key}

-- No colon in a text, as in that of a UUID.
abbrev pub has_colon : String → Bool
has_colon empty = false
has_colon (char_then c s) = if code c == b':' then true else has_colon s

abbrev first : String → ℕ
first empty = 0
first (char_then c s) = code c

abbrev first_char : String → Option Char
first_char empty = none
first_char (char_then c s) = some c

abbrev rest : String → String
rest empty = empty
rest (char_then c s) = s

no_colon_first :
    (c : Char) (s : String) → has_colon (char_then c s) ≡ false → (code c == b':') ≡ false
no_colon_first c s h = ground (arith, h)

no_colon_rest : (c : Char) (s : String) → has_colon (char_then c s) ≡ false → has_colon s ≡ false
no_colon_rest c s h = ground (arith, h)

colon_then : (x : String) → append ":" x ≡ char_then ":" x
colon_then x = append_cons ":" "" x ∙ ap (char_then ":") (append_nil x)

append-colon :
    (u v x y : String)
    → has_colon u ≡ false
    → has_colon v ≡ false
    → append u (append ":" x) ≡ append v (append ":" y)
    → u ≡ v
append-colon empty empty x y h k e = refl
append-colon empty (char_then d v) x y h k e =
    let e' : char_then ":" x ≡ char_then d (append v (append ":" y)) =
      sym (colon_then x) ∙ sym (append_nil (append ":" x)) ∙ e ∙ append_cons d v (append ":" y) in
    let same : b':' ≡ code d = ap first e' in ground (arith, same, no_colon_first d v k)
append-colon (char_then c u) empty x y h k e =
    let e' : char_then c (append u (append ":" x)) ≡ char_then ":" y =
      sym (append_cons c u (append ":" x)) ∙ e ∙ append_nil (append ":" y) ∙ colon_then y in
    let same : code c ≡ b':' = ap first e' in ground (arith, same, no_colon_first c u h)
append-colon (char_then c u) (char_then d v) x y h k e =
    let e' : char_then c (append u (append ":" x)) ≡ char_then d (append v (append ":" y)) =
      sym (append_cons c u (append ":" x)) ∙ e ∙ append_cons d v (append ":" y) in
    let same : some c ≡ some d = ap first_char e' in
    cc (same, append-colon u v x y (no_colon_rest c u h) (no_colon_rest d v k) (ap rest e'))

pub auth_session_key-user :
    (u v p q r t : String)
    → has_colon u ≡ false
    → has_colon v ≡ false
    → auth_session_key u p r ≡ auth_session_key v q t
    → u ≡ v
unfolding auth_session_key
auth_session_key-user u v p q r t h k e =
    append-colon u v (append p (append ":" r)) (append q (append ":" t)) h k e
