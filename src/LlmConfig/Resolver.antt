-- ===== src/LlmConfig/Resolver.antt =====
-- Which configuration a request uses, backend/internal/service/llm_config_resolver.go.
use anynote.Base.{
  ℕ, ◌*◌, Bool, not, Option, none, some, List, [], ◌∷◌, String, str_eq, ok, err, if◌then◌else◌,
}
use anynote.Breaker.{second}
use anynote.Gateway.{GatewayConfig}
use anynote.LlmConfig.Crypto.{Cipher, decrypt_api_key}
use anynote.LlmConfig.Tables.{LlmConfig, get_default_by_user, list_by_user}

abbrev pub default_llm_timeout : ℕ
default_llm_timeout = 120 * second

abbrev pub gateway_config : LlmConfig → String → GatewayConfig
gateway_config cfg key = record {
  provider = cfg.provider;
  base_url = cfg.base_url;
  api_key = key;
  model = cfg.model;
  max_tokens = cfg.max_tokens;
  temperature = cfg.temperature;
  timeout = default_llm_timeout;
  max_retries = 0;
  retry_base_delay = 0;
}

-- The user's first configuration, where the query for it works.
abbrev pub first_config : Bool → String → List LlmConfig → Option LlmConfig
first_config fails user rows = elim (list_by_user fails user rows) [
  | err _ ↦ none
  | ok list ↦ elim list [ [] ↦ none | c ∷ _ ↦ some c ]
]

abbrev pub chosen_config : Bool → Bool → String → List LlmConfig → Option LlmConfig
chosen_config default_fails list_fails user rows =
    elim (get_default_by_user default_fails user rows) [
      | some c ↦ some c
      | none ↦ first_config list_fails user rows
    ]

-- `UserLLMConfig`: `none` is the shared mode. It never fails.
unfoldable pub user_llm_config :
    Cipher → Bool → Bool → String → List LlmConfig → Option GatewayConfig
user_llm_config cipher default_fails list_fails user rows =
    elim (chosen_config default_fails list_fails user rows) [
      | none ↦ none
      | some cfg ↦ elim (decrypt_api_key cipher cfg.encrypted_key) [
        | err _ ↦ none
        | ok key ↦ some (gateway_config cfg key)
      ]
    ]

-- `ResolveChatModel`
unfoldable pub resolve_chat_model : String → GatewayConfig → String
resolve_chat_model model cfg = if not (str_eq model "") then model else cfg.model
