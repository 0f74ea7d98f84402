-- ===== src/Platform/Tests.antt =====
-- One user's platforms, backend/internal/service/platform_service.go.
use anynote.Base.{◌≡◌, refl, Bool, true, false, none, some, List, [], ◌∷◌, ok, err, map, All}
use anynote.LlmConfig.Tests.{bytes_of}
use anynote.Platform.Adapters.{Adapter, Registry, AuthSession, get_adapter}
use anynote.Platform.Service.{
  PlatformPublishRequest, PlatformCatalogEntry, auth_expired, session_not_found, connection_of,
  catalog, connect, verify, publish, publish_with,
}
use anynote.Platform.Sessions.{PlatformState, start_auth, poll_auth, session_of, auth_session_key}
use anynote.Platform.Traces.{Call, calls, run, disconnects, connects}
use anynote.Platform.Invariant.{IsValid}
use anynote.Platform.Isolation.{IsSameFor, run-IsSameFor}
use anynote.Platform.Auth.{no_faults, HasAuth}
use anynote.Platform.SignIn.{Poll, poll, poll_all, sign_in_then_publish}
use anynote.Platform.Verified.{verify_unusable}
use anynote.Platform.Sorting.{IsSorted}
use anynote.Platform.Listing.{is_listed, has_adapter, entry_names, TellsConnected, catalog_lem}

abbrev session : AuthSession
session = record { cdp_context = 1; auth_ref = "ref" }

-- An adapter whose user has signed in, or not yet.
abbrev adapter_of : Bool → Adapter
adapter_of signed = record {
  start_auth = λ key. ok (session, []);
  poll_auth = λ s key. ok (elim signed [ true ↦ some (bytes_of "auth") | false ↦ none ]);
  publish = λ auth key params. ok (some (record { platform_url = "url"; platform_id = "post" }));
  check_status = λ auth key post. ok "live";
  revoke_auth = λ auth key. none;
  fetch_stats = none;
}

abbrev waiting : Registry
waiting = ("medium", adapter_of false) ∷ []

abbrev signed : Registry
signed = ("medium", adapter_of true) ∷ []

abbrev request : PlatformPublishRequest
request = record { title = "title"; content = "content"; tags = []; images = [] }

abbrev state : PlatformState
state = record {
  connections = connection_of "c-1" "bob" "medium" (bytes_of "bobs") "active" ∷ [];
  sessions = (auth_session_key "bob" "zhihu" "ref", session_of 5 "bob" "zhihu" session) ∷ [];
}

state-IsValid : IsValid state
state-IsValid = record { unique = (refl, refl, tt); keyed = (refl, refl, tt) }

abbrev call : Call
call = record {
  user = "alice";
  platform = "medium";
  faults = no_faults;
  now = 10;
  operation = connects "c-2";
}

abbrev not_yet : Poll
not_yet = record { registry = waiting; faults = no_faults; now = 20; id = "c-3"; key = [] }

run-IsSameFor_example :
    IsSameFor "bob" state
      (run (map calls (call ∷ record call { operation = disconnects signed } ∷ [])) state)
run-IsSameFor_example =
    run-IsSameFor "bob" (call ∷ record call { operation = disconnects signed } ∷ []) state refl
      state-IsValid ((refl, refl), ((refl, refl), tt))

sign_in_then_publish_example :
    let s1 =
      poll_all "alice" "medium" "ref"
        (not_yet ∷ [])
        (start_auth waiting 10 "alice" "medium" [] state).0 in
    let s2 = poll_auth signed no_faults 30 "c-3" "alice" "medium" "ref" [] s1 in
    (s2.1 ≡ ok (some (bytes_of "auth")))
    × (publish signed false "log" "alice" "medium" request [] s2.0.connections
        ≡ publish_with (adapter_of true) "log" "alice" "medium" request [] (bytes_of "auth"))
    × ((poll "alice" "medium" "ref" not_yet s2.0).1 ≡ err session_not_found)
unfolding poll_auth start_auth get_adapter auth_session_key
sign_in_then_publish_example =
    sign_in_then_publish "alice" "medium" waiting signed signed (adapter_of false) (adapter_of true)
      (adapter_of true) 10 30 "c-3" "log" [] (bytes_of "auth") [] session (not_yet ∷ []) not_yet
      request state refl refl refl refl refl refl (refl, tt)

verify_unusable_example :
    let rows =
      (verify no_faults 20 "alice" "medium"
        (connect no_faults 10 "c-2" "alice" "medium" state.connections).0).0 in
    HasAuth "alice" "medium" [] rows
    × (publish signed false "log" "alice" "medium" request [] rows ≡ err auth_expired)
unfolding get_adapter
verify_unusable_example =
    verify_unusable "alice" "medium" "c-2" "log" signed (adapter_of true) 10 20 [] request
      state.connections refl refl refl

catalog_lem_example :
    (entries : List PlatformCatalogEntry) × (catalog signed false "bob" state.connections
      ≡ ok entries)
    × (is_listed "medium" (entry_names entries) ≡ has_adapter "medium" signed)
    × IsSorted (entry_names entries)
    × All (TellsConnected "bob" state.connections) entries
catalog_lem_example = catalog_lem signed "bob" "medium" state.connections
