-- ===== src/Platform/Service.antt =====
-- The platform service without its sign-in: List, Catalog, Connect, Disconnect, Verify, Publish and
-- CheckStatus of backend/internal/service/platform_service.go. The result of a call stands with the state
-- after it where the call may change the state.
use Prim.Native.String.{[] as empty, ◌∷◌ as char_then}
use Prim.Native.Char.{code}
use anynote.Base.{
  ℕ, Bool, true, false, Option, none, some, List, [], ◌∷◌, String, str_eq, Result, ok, err, exists,
  map, ltb, ◌==◌, if◌then◌else◌,
}
use anynote.LlmConfig.Crypto.{Bytes}
use anynote.Publish.Tables.{PublishLog}
use anynote.Platform.Adapters.{
  Adapter, Registry, ImageRef, PublishParams, PublishResult, get_adapter, list_names,
}
use anynote.Platform.Connections.{
  PlatformConnection, list_by_user, get_by_platform, create, delete_by_id, update_connection,
}

pub data PlatformError : Type 0 where
  database already_connected not_connected unsupported auth_expired session_not_found :
      PlatformError
  adapter_failed : String → PlatformError
  nil_result : PlatformError

abbrev pub status_active : String
status_active = "active"

abbrev pub Connections : Type 0
Connections = List PlatformConnection

unfoldable pub list : Bool → String → Connections → Result PlatformError Connections
list fails user rows = elim (list_by_user fails user rows) [ none ↦ err database | some l ↦ ok l ]

pub record PlatformCatalogEntry : Type 0 where
  pub platform : String
  pub display_name : String
  pub connected : Bool

unfoldable pub display_name_of : String → String
display_name_of name =
    if str_eq name "xiaohongshu"
    then "小红书"
    else if str_eq name "wechat"
    then "微信"
    else if str_eq name "zhihu"
    then "知乎"
    else if str_eq name "medium"
    then "Medium"
    else if str_eq name "wordpress"
    then "WordPress"
    else if str_eq name "webhook"
    then "Webhook"
    else name

-- Go's order of strings is that of their bytes, which in UTF-8 is that of their code points.
unfoldable pub less : String → String → Bool
less s empty = false
less empty (char_then d t) = true
less (char_then c s) (char_then d t) =
    if ltb (code c) (code d) then true else if code c == code d then less s t else false

unfoldable pub insert_name : String → List String → List String
insert_name n [] = n ∷ []
insert_name n (m ∷ names) = if less m n then m ∷ insert_name n names else n ∷ m ∷ names

-- `sort.Strings`
unfoldable pub sort_strings : List String → List String
sort_strings [] = []
sort_strings (n ∷ names) = insert_name n (sort_strings names)

abbrev pub entry_of : Connections → String → PlatformCatalogEntry
entry_of rows name = record {
  platform = name;
  display_name = display_name_of name;
  connected = exists (λ c. str_eq c.platform name) rows;
}

unfoldable pub catalog :
    Registry → Bool → String → Connections → Result PlatformError (List PlatformCatalogEntry)
catalog registry fails user rows = elim (list_by_user fails user rows) [
  | none ↦ err database
  | some mine ↦ ok (map (entry_of mine) (sort_strings (list_names registry)))
]

-- A new connection; its uid and display name are the zero values.
abbrev pub connection_of : String → String → String → Bytes → String → PlatformConnection
connection_of id user platform auth status = record {
  id = id;
  user_id = user;
  platform = platform;
  platform_uid = "";
  display_name = "";
  encrypted_auth = auth;
  status = status;
  last_verified = none;
  created_at = 0;
  updated_at = 0;
}

-- The call of RevokeAuth, without the master key, and its answer.
unfoldable pub revoke : Registry → String → Bytes → List (Bytes × Option String)
revoke registry platform [] = []
revoke registry platform (b ∷ auth) = elim (get_adapter platform registry) [
  | none ↦ []
  | some adapter ↦ (b ∷ auth, adapter.revoke_auth (b ∷ auth) []) ∷ []
]

-- The queries of one call that fail: the SELECT, and the write after it.
pub record Faults : Type 0 where
  pub get_fails : Bool
  pub write_fails : Bool

module _ (f : Faults) (now : ℕ) where
  unfoldable pub connect :
      String → String → String → Connections → Connections × Result PlatformError PlatformConnection
  connect id user platform rows = elim (get_by_platform f.get_fails user platform rows) [
    | some _ ↦ (rows, err already_connected)
    | none ↦
        let c = connection_of id user platform [] "pending" in
        elim (create f.write_fails now c rows) [
          | none ↦ (rows, err database)
          | some rows' ↦ (rows', ok c)
        ]
  ]

  -- The third part is the calls of RevokeAuth; no answer of theirs changes the rest.
  unfoldable pub disconnect :
      Registry
      → String
      → String
      → Connections
      → Connections × Result PlatformError (Unit {0}) × List (Bytes × Option String)
  disconnect registry user platform rows = elim (get_by_platform f.get_fails user platform rows) [
    | none ↦ (rows, err not_connected, [])
    | some c ↦ elim (delete_by_id f.write_fails c.id rows) [
      | none ↦ (rows, err database, revoke registry platform c.encrypted_auth)
      | some rows' ↦ (rows', ok tt, revoke registry platform c.encrypted_auth)
    ]
  ]

  unfoldable pub verify :
      String → String → Connections → Connections × Result PlatformError PlatformConnection
  verify user platform rows = elim (get_by_platform f.get_fails user platform rows) [
    | none ↦ (rows, err not_connected)
    | some c ↦
        let c' = record c { status = status_active } in
        elim (update_connection f.write_fails now c' rows) [
          | none ↦ (rows, err database)
          | some rows' ↦ (rows', ok c')
        ]
  ]

pub record PlatformPublishRequest : Type 0 where
  pub title : String
  pub content : String
  pub tags : List String
  pub images : List ImageRef

abbrev pub params_of : PlatformPublishRequest → PublishParams
params_of req = record {
  title = req.title;
  content = req.content;
  tags = req.tags;
  images = map (λ img. record { url = img.url; file_path = img.file_path }) req.images;
}

abbrev pub log_of : String → String → String → PlatformPublishRequest → PublishResult → PublishLog
log_of id user platform req result = record {
  id = id;
  user_id = user;
  platform = platform;
  title = req.title;
  content = req.content;
  status = "published";
  platform_url = some result.platform_url;
  platform_post_id = "";
  error_message = none;
  published_at = none;
  created_at = 0;
  stats = none;
}

-- From the connection's data on. A call that succeeds with a nil result panics, which is an error here.
unfoldable pub publish_with :
    Adapter
    → String
    → String
    → String
    → PlatformPublishRequest
    → Bytes
    → Bytes
    → Result PlatformError PublishLog
publish_with adapter id user platform req key [] = err auth_expired
publish_with adapter id user platform req key (b ∷ auth) =
    elim (adapter.publish (b ∷ auth) key (params_of req)) [
      | err message ↦ err (adapter_failed message)
      | ok none ↦ err nil_result
      | ok (some result) ↦ ok (log_of id user platform req result)
    ]

module _ (registry : Registry) (get_fails : Bool) where
  unfoldable pub publish :
      String
      → String
      → String
      → PlatformPublishRequest
      → Bytes
      → Connections
      → Result PlatformError PublishLog
  publish id user platform req key rows = elim (get_adapter platform registry) [
    | none ↦ err unsupported
    | some adapter ↦ elim (get_by_platform get_fails user platform rows) [
      | none ↦ err not_connected
      | some c ↦ publish_with adapter id user platform req key c.encrypted_auth
    ]
  ]

  unfoldable pub check_status :
      String → String → String → Bytes → Connections → Result PlatformError String
  check_status user platform post key rows = elim (get_adapter platform registry) [
    | none ↦ err unsupported
    | some adapter ↦ elim (get_by_platform get_fails user platform rows) [
      | none ↦ err not_connected
      | some c ↦ elim (adapter.check_status c.encrypted_auth key post) [
        | err message ↦ err (adapter_failed message)
        | ok status ↦ ok status
      ]
    ]
  ]
