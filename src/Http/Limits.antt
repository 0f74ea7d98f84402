-- ===== src/Http/Limits.antt =====
-- What a limit by address stops, backend/internal/handler/realip.go and rate_limit_middleware.go.
use anynote.Base.{
  ℕ, ◌+◌, ◌/◌, ◌≤◌, ◌<◌, ◌≡◌, refl, ◌∙◌, ap, ap₂, Bool, true, false, ◌&&◌, none, some, List, [],
  ◌∷◌, String, str_eq, eq_iff, eq_refl, map, count, count-snoc, All, if◌then◌else◌, inl, inr, arith,
  Bool-cases,
}
use anynote.RateLimiter.{RateLimiter, new_rate_limiter_with_evict, after, allow, Request, serve}
use anynote.RateLimiter.Spec.{History, granted, record_grant, serve_spec, grants, Monotone}
use anynote.RateLimiter.Refinement.{serve_refines}
use anynote.RateLimiter.Bound.{window_bound}
use anynote.Http.{
  Net, Network, HttpRequest, Arrival, peer_trusted, trusted_real_ip, ip_key, rate_limit, pass,
}

module _ (net : Net) (nets : List Network) where
  -- A request as its limiter sees it.
  abbrev pub seen : Arrival → Request
  seen a = record {
    user = (trusted_real_ip net nets a.request).remote_addr;
    now = a.now;
    order = a.order;
  }

  pass-serve :
      (window : ℕ) (arrivals : List Arrival) (limiter : RateLimiter)
      → pass net nets window arrivals limiter ≡ serve (map seen arrivals) limiter
  unfolding pass serve rate_limit ip_key
  pass-serve window [] limiter = refl
  pass-serve window (a ∷ arrivals) limiter =
      let q = seen a in
      let r = allow q.user q.now q.order limiter in
      ap₂ (λ b bs. b ∷ bs) (bool r.1) (pass-serve window arrivals r.0)
    where
      bool :
          (b : Bool)
          → (elim (if b then none else some (window / 1_000_000_000)) [
            | none ↦ true
            | some _ ↦ false
          ])
            ≡ b
      bool true = refl
      bool false = refl

  -- A peer outside of the trusted networks keeps its socket address, whatever its headers say.
  untrusted-remote_addr :
      (r : HttpRequest)
      → peer_trusted net r.remote_addr nets ≡ false
      → trusted_real_ip net nets r ≡ r
  unfolding trusted_real_ip
  untrusted-remote_addr r h = ground (arith, h)

  -- The requests that went on, of those that came from a socket address.
  abbrev pub passed_from : String → List Arrival → List Bool → List ℕ
  passed_from addr [] answers = []
  passed_from addr (a ∷ arrivals) [] = []
  passed_from addr (a ∷ arrivals) (b ∷ answers) =
      let rest = passed_from addr arrivals answers in
      if b && str_eq a.request.remote_addr addr then a.now ∷ rest else rest

  passed-le-grants :
      (p : ℕ → Bool) (addr : String) (arrivals : List Arrival) (answers : List Bool) (h : History)
      → peer_trusted net addr nets ≡ false
      → count p (h addr) + count p (passed_from addr arrivals answers)
        ≤ count p (grants (map seen arrivals) answers h addr)
  unfolding grants
  passed-le-grants p addr [] answers h u = omega arith
  passed-le-grants p addr (a ∷ arrivals) [] h u = omega arith
  passed-le-grants p addr (a ∷ arrivals) (b ∷ answers) h u =
      let h' = record_grant b (seen a) h in
      let rest = passed-le-grants p addr arrivals answers h' u in
      elim (Bool-cases (str_eq a.request.remote_addr addr)) [
        | inl mine ↦
            let here : a.request.remote_addr ≡ addr =
              ground (arith, mine, eq_iff a.request.remote_addr addr) in
            let own : (seen a).user ≡ addr =
              ap (λ r. r.remote_addr) (untrusted-remote_addr a.request (rw here u)) ∙ here in
            ground (
              arith,
              mine,
              own,
              eq_refl addr,
              rest,
              count-snoc p a.now (h addr),
              eq_iff (seen a).user addr,
            )
        | inr other ↦ ground (arith, other, rest, count-snoc p a.now (h addr))
      ]

  -- Behind TrustedRealIP, a peer outside of the trusted networks cannot pass a limit by address by what its
  -- headers say: where the clock does not go back, of the requests from its socket address no more
  -- than the limit go on within a window, whatever other requests there are.
  pub peer_limited :
      (limit window evict_interval retry : ℕ) (arrivals : List Arrival) (addr : String) (t : ℕ)
      → peer_trusted net addr nets ≡ false
      → Monotone 0 (map seen arrivals)
      → All (λ q. q.now ≤ t) (map seen arrivals)
      → let answers =
          pass net nets retry arrivals (new_rate_limiter_with_evict limit window evict_interval) in
        count (after t window) (passed_from addr arrivals answers) ≤ limit
  peer_limited limit window evict_interval retry arrivals addr t u m a =
      let new = new_rate_limiter_with_evict limit window evict_interval in
      let answers = serve (map seen arrivals) new in
      rw (pass-serve retry arrivals new) (
        omega (
          arith,
          passed-le-grants (after t window) addr arrivals answers (λ v. []) u,
          window_bound limit window evict_interval (map seen arrivals) addr t m a,
        ))

  -- Requests of untrusted peers, no two from one socket address.
  abbrev pub AreFresh : List Arrival → Type 0
  AreFresh [] = Unit
  AreFresh (a ∷ arrivals) =
      (peer_trusted net a.request.remote_addr nets ≡ false)
      × All (λ b. str_eq a.request.remote_addr b.request.remote_addr ≡ false) arrivals
      × AreFresh arrivals

  abbrev Unused : History → List Arrival → Type 0
  Unused h = All (λ a. h a.request.remote_addr ≡ [])

  fresh_key_granted :
      (limit window : ℕ) (a : Arrival) (arrivals : List Arrival) (h : History)
      → (seen a).user ≡ a.request.remote_addr
      → All (λ b. str_eq a.request.remote_addr b.request.remote_addr ≡ false) arrivals
      → Unused h arrivals
      → Unused (record_grant (granted limit window (seen a) h) (seen a) h) arrivals
  fresh_key_granted limit window a [] h e d u = tt
  fresh_key_granted limit window a (b ∷ arrivals) h e d u =
      (ground (arith, e, d.0, u.0), fresh_key_granted limit window a arrivals h e d.1 u.1)

  fresh-granted :
      (limit window : ℕ) (arrivals : List Arrival) (h : History)
      → 0 < limit
      → AreFresh arrivals
      → Unused h arrivals
      → serve_spec limit window (map seen arrivals) h ≡ map (λ a. true) arrivals
  unfolding serve_spec
  fresh-granted limit window [] h l f u = refl
  fresh-granted limit window (a ∷ arrivals) h l f u =
      let e : (seen a).user ≡ a.request.remote_addr =
        ap (λ r. r.remote_addr) (untrusted-remote_addr a.request f.0) in
      let allowed : granted limit window (seen a) h ≡ true = ground (arith, e, u.0) in
      let rest =
        fresh-granted limit window arrivals
          (record_grant (granted limit window (seen a) h) (seen a) h) l f.2
          (fresh_key_granted limit window a arrivals h e f.1 u.1) in
      ap₂ (λ b bs. b ∷ bs) allowed rest

  -- A limit by address counts socket addresses, the port included: requests of untrusted peers from
  -- pairwise different socket addresses, such as connections of one host, all go on, however many
  -- they are and however close, with any limit but 0.
  pub fresh_ports_pass :
      (limit window evict_interval retry : ℕ) (arrivals : List Arrival)
      → 0 < limit
      → Monotone 0 (map seen arrivals)
      → AreFresh arrivals
      → pass net nets retry arrivals (new_rate_limiter_with_evict limit window evict_interval)
        ≡ map (λ a. true) arrivals
  fresh_ports_pass limit window evict_interval retry arrivals l m f =
      pass-serve retry arrivals (new_rate_limiter_with_evict limit window evict_interval)
      ∙ serve_refines limit window evict_interval (map seen arrivals) m
      ∙ fresh-granted limit window arrivals (λ v. []) l f (unused arrivals)
    where
      unused : (arrivals : List Arrival) → Unused (λ v. []) arrivals
      unused [] = tt
      unused (a ∷ arrivals) = (refl, unused arrivals)
