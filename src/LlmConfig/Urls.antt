-- ===== src/LlmConfig/Urls.antt =====
-- Which base URLs a configuration may have, backend/internal/llm/openai_compat.go (ValidateBaseURL). The
-- resolver, net.LookupIP, is a function from hosts to addresses, and an address is what net.IP says of it.
use Prim.Native.String.{[] as empty, ◌∷◌ as char_then, find, slice, len}
use Prim.Native.Char.{code}
use anynote.Base.{
  ◌+◌, ◌≡◌, Bool, true, false, ◌&&◌, ◌||◌, not, Option, none, some, List, [], ◌∷◌, String, str_eq,
  Result, ok, err, eq_iff, ap, ◌∙◌, inl, inr, Option-cases, All, arith, ltb, ◌==◌, if◌then◌else◌,
}

pub record Ip : Type 0 where
  pub is_loopback : Bool
  pub is_link_local_unicast : Bool
  pub is_link_local_multicast : Bool
  pub is_unspecified : Bool
  pub is_private : Bool

pub data UrlError : Type 0 where
  missing_scheme blocked_scheme empty_host lookup_failed reserved_ip : UrlError

unfoldable pub is_public_ip : Ip → Bool
is_public_ip ip =
    if ip.is_loopback || ip.is_link_local_unicast || ip.is_link_local_multicast || ip.is_unspecified
      || ip.is_private
    then false
    else true

-- The text before the first `/`, `?` or `#`.
until_path : String → String
until_path empty = ""
until_path (char_then c s) =
    if (code c == 47) || (code c == 63) || (code c == 35) then "" else char_then c (until_path s)

has_colon : String → Bool
has_colon empty = false
has_colon (char_then c s) = (code c == 58) || has_colon s

-- The text before the last `:`.
strip_port : String → String
unfolding has_colon
strip_port empty = ""
strip_port (char_then c s) =
    if (code c == 58) && not (has_colon s) then "" else char_then c (strip_port s)

strip_open : String → String
strip_open empty = ""
strip_open (char_then c s) = if code c == 91 then s else char_then c s

strip_close : String → String
strip_close empty = ""
strip_close (char_then c s) =
    if (code c == 93) && str_eq s "" then "" else char_then c (strip_close s)

unfoldable pub parse_scheme_and_host : String → Option (String × String)
unfolding until_path strip_port strip_open strip_close
parse_scheme_and_host raw =
    let scheme_end = find raw "://" in
    if ltb (len raw) scheme_end
    then none
    else some (
      slice raw 0 scheme_end,
      strip_close (strip_open (strip_port (until_path (slice raw (scheme_end + 3) (len raw))))),
    )

unfoldable pub check_ips : List Ip → Result UrlError (Unit {0})
check_ips [] = ok tt
check_ips (ip ∷ ips) =
    let rest = check_ips ips in if not (is_public_ip ip) then err reserved_ip else rest

unfoldable pub validate_base_url : (String → Option (List Ip)) → String → Result UrlError (Unit {0})
validate_base_url lookup_ip raw =
    if str_eq raw "" then ok tt else elim (parse_scheme_and_host raw) [
      | none ↦ err missing_scheme
      | some (scheme, host) ↦
          if not (str_eq scheme "https")
          then err blocked_scheme
          else if str_eq host ""
          then err empty_host
          else elim (lookup_ip host) [ none ↦ err lookup_failed | some ips ↦ check_ips ips ]
    ]

check_ips-public : (ips : List Ip) → check_ips ips ≡ ok tt → All (λ ip. is_public_ip ip ≡ true) ips
unfolding check_ips
check_ips-public [] h = tt
check_ips-public (ip ∷ ips) h = ground (arith, check_ips-public ips)

-- A base URL that is not empty and is accepted is an https URL of a host whose every address, at that
-- moment, is public.
pub validate_base_url_lem :
    (lookup_ip : String → Option (List Ip)) (raw : String)
    → str_eq raw "" ≡ false
    → validate_base_url lookup_ip raw ≡ ok tt
    → (host : String) × (ips : List Ip) × (parse_scheme_and_host raw ≡ some ("https", host))
      × (lookup_ip host ≡ some ips)
      × All (λ ip. is_public_ip ip ≡ true) ips
unfolding validate_base_url
validate_base_url_lem lookup_ip raw e h = elim (Option-cases (parse_scheme_and_host raw)) [
  | inl e₀ ↦ ground (arith, e₀, e, h)
  | inr ((scheme, host), p) ↦
      let https : scheme ≡ "https" = ground (arith, p, e, h, eq_iff scheme "https") in
      elim (Option-cases (lookup_ip host)) [
        | inl e₀ ↦ ground (arith, e₀, p, e, h)
        | inr (ips, q) ↦ (
          host,
          ips,
          p ∙ ap (λ x. some (x, host)) https,
          q,
          check_ips-public ips (ground (arith, p, q, e, h)),
        )
      ]
]
