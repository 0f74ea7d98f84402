-- ===== src/Http/Tests.antt =====
-- One host that is not trusted, on three connections: backend/internal/handler/rate_limit_middleware.go.
use anynote.Base.{ℕ, ◌≤◌, ◌≡◌, refl, true, none, some, List, [], ◌∷◌, String, ◌==◌, count, arith}
use anynote.RateLimiter.{new_rate_limiter_with_evict, after}
use anynote.Http.{any_contains, Net, Network, Arrival, pass, peer_trusted, peer_ip}
use anynote.Http.Limits.{passed_from, peer_limited, fresh_ports_pass}

-- Every address is that of one host.
abbrev net : Net
net = record {
  parse_ip = λ t. some 7;
  is_v4 = λ ip. true;
  parse_cidr = λ t. none;
  split_host_port = λ t. some "10.0.0.7";
  trim_space = λ t. t;
}

-- The network of the trusted proxy.
abbrev edge : List Network
edge = (λ ip. ip == 9) ∷ []

abbrev arrival : String → String → ℕ → Arrival
arrival addr spoofed now = record {
  request = record {
    remote_addr = addr;
    true_client_ip = spoofed;
    x_real_ip = "";
    x_forwarded_for = "";
    user_id = "";
  };
  now = now;
  order = [];
}

abbrev one_port : List Arrival
one_port = arrival "10.0.0.7:1" "1.1.1.1" 1 ∷ arrival "10.0.0.7:1" "2.2.2.2" 2 ∷ []

peer_limited_example :
    let answers = pass net edge 60 one_port (new_rate_limiter_with_evict 1 10 2) in
    count (after 2 10) (passed_from net edge "10.0.0.7:1" one_port answers) ≤ 1
unfolding peer_trusted peer_ip any_contains
peer_limited_example =
    peer_limited net edge 1 10 2 60 one_port "10.0.0.7:1" 2 refl (omega arith, (omega arith, tt))
      (omega arith, (omega arith, tt))

abbrev two_ports : List Arrival
two_ports = arrival "10.0.0.7:1" "" 1 ∷ arrival "10.0.0.7:2" "" 1 ∷ []

fresh_ports_pass_example :
    pass net edge 60 two_ports (new_rate_limiter_with_evict 1 10 2) ≡ true ∷ true ∷ []
unfolding peer_trusted peer_ip any_contains
fresh_ports_pass_example =
    fresh_ports_pass net edge 1 10 2 60 two_ports (omega arith) (omega arith, (omega arith, tt))
      (refl, (refl, tt), (refl, tt, tt))
