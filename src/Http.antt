-- ===== src/Http.antt =====
-- Whose request it is, and how often it may come: backend/internal/handler/realip.go and
-- rate_limit_middleware.go, which stand before the handlers. Addresses are numbers; the parsers of package
-- net and strings.TrimSpace are functions.
pub mod Limits
mod Tests
use Prim.Native.String.{[] as empty, ◌∷◌ as char_then, ◌++◌ as append, find, len}
use Prim.Native.Char.{code}
use anynote.Base.{
  ℕ, ◌/◌, Bool, true, false, ◌&&◌, not, Option, none, some, List, [], ◌∷◌, String, str_eq, length,
  ltb, leb, ◌==◌, if◌then◌else◌,
}
use anynote.RateLimiter.{RateLimiter, allow}

-- A network, by the addresses in it.
abbrev pub Network : Type 0
Network = ℕ → Bool

pub record Net : Type 0 where
  pub parse_ip : String → Option ℕ
  pub is_v4 : ℕ → Bool
  pub parse_cidr : String → Option Network
  pub split_host_port : String → Option String
  pub trim_space : String → String

-- What a request tells: its peer's socket address, three of its headers, and the user that the
-- authentication put into its context.
pub record HttpRequest : Type 0 where
  pub remote_addr : String
  pub true_client_ip : String
  pub x_real_ip : String
  pub x_forwarded_for : String
  pub user_id : String

abbrev has_slash : String → Bool
has_slash e = leb (find e "/") (len e)

module _ (net : Net) where
  -- An entry as a network in CIDR notation; none where it is no address.
  unfoldable pub cidr_of : String → Option String
  cidr_of e = if has_slash e then some e else elim (net.parse_ip e) [
    | none ↦ none
    | some ip ↦ some (append e (if net.is_v4 ip then "/32" else "/128"))
  ]

  abbrev network_of : Option String → Option Network
  network_of none = none
  network_of (some cidr) = net.parse_cidr cidr

  unfoldable pub parse_trusted_proxies : List String → Option (List Network)
  parse_trusted_proxies [] = some []
  parse_trusted_proxies (entry ∷ entries) =
      let rest = parse_trusted_proxies entries in
      let e = net.trim_space entry in
      if str_eq e "" then rest else elim (network_of (cidr_of e)) [
        | none ↦ none
        | some n ↦ elim rest [ none ↦ none | some nets ↦ some (n ∷ nets) ]
      ]

  abbrev host_of : String → String
  host_of addr = elim (net.split_host_port addr) [ none ↦ addr | some host ↦ host ]

  unfoldable pub peer_ip : String → Option ℕ
  peer_ip addr = net.parse_ip (host_of addr)

  unfoldable pub any_contains : ℕ → List Network → Bool
  any_contains ip [] = false
  any_contains ip (n ∷ nets) = if n ip then true else any_contains ip nets

  unfoldable pub peer_trusted : String → List Network → Bool
  peer_trusted addr nets = elim (peer_ip addr) [ none ↦ false | some ip ↦ any_contains ip nets ]

  abbrev is_ip : String → Bool
  is_ip text = elim (net.parse_ip text) [ none ↦ false | some _ ↦ true ]

  -- Up to the first comma.
  unfoldable pub until_comma : String → String
  until_comma empty = empty
  until_comma (char_then c s) = if code c == b',' then "" else char_then c (until_comma s)

  unfoldable pub leftmost : String → String
  leftmost forwarded =
      let xff = net.trim_space forwarded in
      if str_eq xff ""
      then ""
      else let ip = net.trim_space (until_comma xff) in if is_ip ip then ip else ""

  abbrev is_address : String → Bool
  is_address text = not (str_eq text "") && is_ip text

  unfoldable pub forwarded_client_ip : HttpRequest → String
  forwarded_client_ip r =
      let first = net.trim_space r.true_client_ip in
      let second = net.trim_space r.x_real_ip in
      if is_address first
      then first
      else if is_address second
      then second
      else leftmost r.x_forwarded_for

  -- The request that TrustedRealIP passes on.
  unfoldable pub trusted_real_ip : List Network → HttpRequest → HttpRequest
  trusted_real_ip nets r =
      let ip = forwarded_client_ip r in
      if ltb 0 (length nets) && peer_trusted r.remote_addr nets
      then if str_eq ip "" then r else record r { remote_addr = ip }
      else r

unfoldable pub ip_key : HttpRequest → String
ip_key r = r.remote_addr

unfoldable pub user_id_key : HttpRequest → String
user_id_key r = if str_eq r.user_id "" then append "ip:" r.remote_addr else append "user:" r.user_id

-- `RateLimitMiddleware`: none where the request goes on to its handler, and else the seconds of Retry-After of the
-- answer 429.
unfoldable pub rate_limit :
    (HttpRequest → String)
    → ℕ
    → ℕ
    → List String
    → HttpRequest
    → RateLimiter
    → RateLimiter × Option ℕ
rate_limit key window now order r limiter =
    let (limiter', allowed) = allow (key r) now order limiter in
    (limiter', if allowed then none else some (window / 1_000_000_000))

-- A request, its time, and the order of the limiter's windows then.
pub record Arrival : Type 0 where
  pub request : HttpRequest
  pub now : ℕ
  pub order : List String

-- Requests to routes that TrustedRealIP and a limit by address stand before, and whether each goes on.
unfoldable pub pass : Net → List Network → ℕ → List Arrival → RateLimiter → List Bool
pass net nets window [] limiter = []
pass net nets window (a ∷ arrivals) limiter =
    let (limiter', answer) =
      rate_limit ip_key window a.now a.order (trusted_real_ip net nets a.request) limiter in
    elim answer [ none ↦ true | some _ ↦ false ] ∷ pass net nets window arrivals limiter'
