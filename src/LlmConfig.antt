-- ===== src/LlmConfig.antt =====
-- The users' own LLM configurations: backend/internal/service/llm_config_service.go over the table of
-- LlmConfig/Tables.
pub mod Crypto
pub mod Urls
pub mod Tables
pub mod Resolver
pub mod Updates
pub mod Tests
use anynote.Base.{
  ℕ, ◌*◌, Bool, true, false, ◌&&◌, ◌||◌, not, Option, none, some, List, [], ◌∷◌, ◌++◌, String,
  str_eq, Result, ok, err, select, select_one, update, delete, exists, order_desc, ◌==◌,
  if◌then◌else◌,
}
use anynote.Breaker.{second}
use anynote.Gateway.{Gateway, GatewayConfig, ChatRequest, ChatMessage, chat, GatewayError}
use anynote.LlmConfig.Crypto.{Bytes, Cipher, encrypt_api_key, decrypt_api_key}
use anynote.LlmConfig.Urls.{Ip, validate_base_url}
use anynote.LlmConfig.Tables.{
  LlmConfig, LlmConfigError, chat_failed, create, database, decryption_failed, delete_config,
  encryption_failed, get_by_id, get_default_by_user, has_id, invalid_base_url, is_default_of,
  is_row, list_by_user, not_found, of_user, overwritten, unauthorized, update_config,
}

pub record LlmConfigService : Type 0 where
  pub cipher : Cipher
  pub lookup_ip : String → Option (List Ip)

-- `Create`, with the random id and nonce.
unfoldable pub create_config :
    LlmConfigService
    → Bool
    → ℕ
    → String
    → Option Bytes
    → String
    → LlmConfig
    → List LlmConfig
    → List LlmConfig × Result LlmConfigError LlmConfig
create_config svc fails now id seed user cfg rows =
    elim (validate_base_url svc.lookup_ip cfg.base_url) [
      | err _ ↦ (rows, err invalid_base_url)
      | ok _ ↦ elim (encrypt_api_key svc.cipher seed cfg.decrypted_key) [
        | err _ ↦ (rows, err encryption_failed)
        | ok sealed ↦
            let cfg' = record cfg {
              id = id;
              user_id = user;
              encrypted_key = sealed;
              decrypted_key = "";
            } in
            let (rows', created) = create fails now cfg' rows in
            if created then (rows', ok cfg') else (rows, err database)
      ]
    ]

abbrev or_text : String → String → String
or_text text other = if str_eq text "" then other else text

abbrev or_number : ℕ → ℕ → ℕ
or_number n other = if n == 0 then other else n

-- The fields that a partial update leaves empty are the stored ones.
abbrev pub merged : LlmConfig → LlmConfig → LlmConfig
merged cfg existing = record cfg {
  name = or_text cfg.name existing.name;
  provider = or_text cfg.provider existing.provider;
  base_url = or_text cfg.base_url existing.base_url;
  model = or_text cfg.model existing.model;
  max_tokens = or_number cfg.max_tokens existing.max_tokens;
  temperature = or_number cfg.temperature existing.temperature;
}

abbrev pub key_of :
    LlmConfigService → Option Bytes → LlmConfig → LlmConfig → Result LlmConfigError LlmConfig
key_of svc seed cfg existing =
    if not (str_eq cfg.decrypted_key "")
    then elim (encrypt_api_key svc.cipher seed cfg.decrypted_key) [
      | err _ ↦ err encryption_failed
      | ok sealed ↦ ok (record cfg { encrypted_key = sealed; decrypted_key = "" })
    ]
    else ok (record cfg { encrypted_key = existing.encrypted_key })

abbrev pub check_url : LlmConfigService → LlmConfig → Bool
check_url svc cfg =
    if not (str_eq cfg.base_url "")
    then elim (validate_base_url svc.lookup_ip cfg.base_url) [ err _ ↦ false | ok _ ↦ true ]
    else true

-- `Update`. The UPDATE names the user of the given configuration.
unfoldable pub change_config :
    LlmConfigService
    → Bool
    → Bool
    → Option Bytes
    → String
    → LlmConfig
    → List LlmConfig
    → List LlmConfig × Result LlmConfigError LlmConfig
change_config svc find_fails update_fails seed user cfg rows =
    elim (get_by_id find_fails cfg.id rows) [
      | none ↦ (rows, err not_found)
      | some existing ↦
          if not (str_eq existing.user_id user)
          then (rows, err unauthorized)
          else let cfg' = merged cfg existing in
            if not (check_url svc cfg')
            then (rows, err invalid_base_url)
            else elim (key_of svc seed cfg' existing) [
              | err e ↦ (rows, err e)
              | ok cfg'' ↦
                  let (rows', done) = update_config update_fails cfg'' rows in
                  if done then (rows', ok cfg'') else (rows, err database)
            ]
    ]

unfoldable pub remove_config :
    Bool
    → Bool
    → String
    → String
    → List LlmConfig
    → List LlmConfig × Result LlmConfigError (Unit {0})
remove_config find_fails delete_fails user id rows = elim (get_by_id find_fails id rows) [
  | none ↦ (rows, err database)
  | some existing ↦
      if not (str_eq existing.user_id user)
      then (rows, err unauthorized)
      else let (rows', done) = delete_config delete_fails id user rows in
        if done then (rows', ok tt) else (rows, err database)
]

abbrev pub test_request : LlmConfig → ChatRequest
test_request cfg = record {
  model = cfg.model;
  messages = record { role = "user"; content = "Hello, this is a test. Reply with OK." } ∷ [];
  temperature = none;
  max_tokens = some 10;
  stream = false;
  timeout = 0;
  max_retries = 0;
  retry_base_delay = 0;
}

abbrev pub test_gateway_config : LlmConfig → String → GatewayConfig
test_gateway_config cfg key = record {
  provider = cfg.provider;
  base_url = cfg.base_url;
  api_key = key;
  model = cfg.model;
  max_tokens = 0;
  temperature = 0;
  timeout = 0;
  max_retries = 0;
  retry_base_delay = 0;
}

unfoldable pub test_connection :
    {R : Type 0}
    → LlmConfigService
    → Bool
    → String
    → String
    → ℕ
    → ℕ
    → List LlmConfig
    → Gateway R
    → Gateway R × Result LlmConfigError (Unit {0})
test_connection svc fails user id now answered rows g = elim (get_by_id fails id rows) [
  | none ↦ (g, err database)
  | some cfg ↦
      if not (str_eq cfg.user_id user)
      then (g, err unauthorized)
      else elim (decrypt_api_key svc.cipher cfg.encrypted_key) [
        | err _ ↦ (g, err decryption_failed)
        | ok key ↦
            let (g', answer) =
              chat (test_gateway_config cfg key) (test_request cfg) now answered g in
            elim answer [ err e ↦ (g', err (chat_failed e)) | ok _ ↦ (g', ok tt) ]
      ]
]
