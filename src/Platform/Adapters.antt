-- ===== src/Platform/Adapters.antt =====
-- The interface of a platform's adapter and the registry of adapters: backend/internal/platform/adapter.go
-- and registry.go. An adapter is a client of a remote service: here it is what that service answers during
-- one call, so two calls may be given two registries. A failure is its message; an absent master key is no
-- bytes.
use anynote.Base.{ℕ, Option, List, ◌∷◌, [], String, Result, lookup, insert}
use anynote.LlmConfig.Crypto.{Bytes}

pub record ImageRef : Type 0 where
  pub url : String
  pub file_path : String

pub record PublishParams : Type 0 where
  pub title : String
  pub content : String
  pub tags : List String
  pub images : List ImageRef

pub record PublishResult : Type 0 where
  pub platform_url : String
  pub platform_id : String

-- `cdp_context` is the adapter's handle of a browser tab.
pub record AuthSession : Type 0 where
  pub cdp_context : ℕ
  pub auth_ref : String

pub record FetchedStats : Type 0 where
  pub views : ℕ
  pub likes : ℕ
  pub comments : ℕ

-- Each method takes the connection's data and the master key as the source does. `poll_auth` returns
-- `none` while the user has not signed in; `fetch_stats` is `none` for an adapter without statistics.
pub record Adapter : Type 0 where
  pub start_auth : Bytes → Result String (AuthSession × Bytes)
  pub poll_auth : AuthSession → Bytes → Result String (Option Bytes)
  pub publish : Bytes → Bytes → PublishParams → Result String (Option PublishResult)
  pub check_status : Bytes → Bytes → String → Result String String
  pub revoke_auth : Bytes → Bytes → Option String
  pub fetch_stats : Option (Bytes → Bytes → String → Option FetchedStats)

-- The map of the adapters by name.
abbrev pub Registry : Type 0
Registry = List (String × Adapter)

unfoldable pub new_registry : Registry
new_registry = []

unfoldable pub register : String → Adapter → Registry → Registry
register name adapter registry = insert name adapter registry

unfoldable pub get_adapter : String → Registry → Option Adapter
get_adapter name registry = lookup name registry

-- In an order that the map does not fix.
unfoldable pub list_names : Registry → List String
list_names [] = []
list_names ((name, _) ∷ registry) = name ∷ list_names registry
