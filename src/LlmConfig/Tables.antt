-- ===== src/LlmConfig/Tables.antt =====
-- The table of configurations, backend/internal/repository/llm_config_repository.go. Temperatures are in
-- thousandths; each query may fail, which is a Boolean argument.
use anynote.Base.{
  ℕ, Bool, true, false, ◌&&◌, ◌||◌, Option, none, List, [], ◌∷◌, ◌++◌, String, str_eq, Result, ok,
  err, select, select_one, update, delete, exists, order_desc, if◌then◌else◌,
}
use anynote.Gateway.{GatewayError}
use anynote.LlmConfig.Crypto.{Bytes}

-- A row of llm_configs, with the plain key that is never stored.
pub record LlmConfig : Type 0 where
  pub id : String
  pub user_id : String
  pub name : String
  pub provider : String
  pub base_url : String
  pub encrypted_key : Bytes
  pub decrypted_key : String
  pub model : String
  pub is_default : Bool
  pub max_tokens : ℕ
  pub temperature : ℕ
  pub created_at : ℕ

pub data LlmConfigError : Type 0 where
  database not_found unauthorized invalid_base_url encryption_failed decryption_failed :
      LlmConfigError
  chat_failed : GatewayError → LlmConfigError

abbrev pub has_id : String → LlmConfig → Bool
has_id id c = str_eq c.id id

abbrev pub of_user : String → LlmConfig → Bool
of_user user c = str_eq c.user_id user

abbrev pub is_default_of : String → LlmConfig → Bool
is_default_of user c = str_eq c.user_id user && c.is_default

-- ORDER BY created_at DESC
unfoldable pub list_by_user :
    Bool → String → List LlmConfig → Result LlmConfigError (List LlmConfig)
list_by_user fails user rows =
    if fails then err database else ok (order_desc (λ c. c.created_at) (select (of_user user) rows))

unfoldable pub get_by_id : Bool → String → List LlmConfig → Option LlmConfig
get_by_id fails id rows = if fails then none else select_one (has_id id) rows

unfoldable pub get_default_by_user : Bool → String → List LlmConfig → Option LlmConfig
get_default_by_user fails user rows = if fails then none else select_one (is_default_of user) rows

-- The INSERT fails where the id is taken, and leaves the plain key out.
unfoldable pub create : Bool → ℕ → LlmConfig → List LlmConfig → List LlmConfig × Bool
create fails now cfg rows =
    if fails || exists (has_id cfg.id) rows
    then (rows, false)
    else (rows ++ record cfg { decrypted_key = ""; created_at = now } ∷ [], true)

abbrev pub is_row : String → String → LlmConfig → Bool
is_row id user c = str_eq c.id id && str_eq c.user_id user

abbrev pub overwritten : LlmConfig → LlmConfig → LlmConfig
overwritten cfg row = record row {
  name = cfg.name;
  provider = cfg.provider;
  base_url = cfg.base_url;
  encrypted_key = cfg.encrypted_key;
  model = cfg.model;
  is_default = cfg.is_default;
  max_tokens = cfg.max_tokens;
  temperature = cfg.temperature;
}

unfoldable pub update_config : Bool → LlmConfig → List LlmConfig → List LlmConfig × Bool
update_config fails cfg rows =
    if fails
    then (rows, false)
    else (update (is_row cfg.id cfg.user_id) (overwritten cfg) rows, true)

unfoldable pub delete_config : Bool → String → String → List LlmConfig → List LlmConfig × Bool
delete_config fails id user rows =
    if fails then (rows, false) else (delete (is_row id user) rows, true)
