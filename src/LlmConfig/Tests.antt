-- ===== src/LlmConfig/Tests.antt =====
-- A configuration with a cipher that hides nothing, backend/internal/service/llm_config_service.go.
use Prim.Native.String.{[] as empty, ◌∷◌ as char_then}
use anynote.Base.{◌≡◌, refl, true, false, some, [], ◌∷◌, String, ap}
use anynote.LlmConfig.{LlmConfigService, create_config}
use anynote.LlmConfig.Tables.{LlmConfig, create}
use anynote.LlmConfig.Resolver.{user_llm_config, gateway_config}
use anynote.LlmConfig.Crypto.{Bytes, Cipher, IsCipher, encrypt_api_key}
use anynote.LlmConfig.Urls.{Ip, is_public_ip, check_ips, parse_scheme_and_host, validate_base_url}
use anynote.LlmConfig.Updates.{create_then_use}

abbrev pub bytes_of : String → Bytes
bytes_of empty = []
bytes_of (char_then c s) = c ∷ bytes_of s

abbrev pub text_of : Bytes → String
text_of [] = ""
text_of (c ∷ s) = char_then c (text_of s)

pub text_of-bytes_of : (s : String) → text_of (bytes_of s) ≡ s
text_of-bytes_of empty = refl
text_of-bytes_of (char_then c s) = ap (char_then c) (text_of-bytes_of s)

abbrev pub plain_cipher : Cipher
plain_cipher = record {
  accepts_key = true;
  nonce_size = 1;
  seal = λ n t. bytes_of t;
  open_sealed = λ n b. some (text_of b);
}

pub plain_cipher-IsCipher : IsCipher plain_cipher
plain_cipher-IsCipher = record { opens = λ n t. ap some (text_of-bytes_of t) }

abbrev public_ip : Ip
public_ip = record {
  is_loopback = false;
  is_link_local_unicast = false;
  is_link_local_multicast = false;
  is_unspecified = false;
  is_private = false;
}

abbrev service : LlmConfigService
service = record { cipher = plain_cipher; lookup_ip = λ host. some (public_ip ∷ []) }

abbrev given : LlmConfig
given = record {
  id = "c-1";
  user_id = "";
  name = "mine";
  provider = "openai";
  base_url = "https://api.example.org:443/v1";
  encrypted_key = [];
  decrypted_key = "sk-1";
  model = "m";
  is_default = true;
  max_tokens = 100;
  temperature = 700;
  created_at = 0;
}

abbrev stored : LlmConfig
stored = record given { user_id = "alice"; encrypted_key = bytes_of "nsk-1"; decrypted_key = "" }

create_then_use_example :
    user_llm_config plain_cipher false true "bob"
      (create_config service false 5 "c-2" (some (bytes_of "n")) "bob" given (stored ∷ [])).0
    ≡ some (gateway_config given "sk-1")
unfolding create_config validate_base_url parse_scheme_and_host check_ips is_public_ip
    encrypt_api_key create
create_then_use_example =
    create_then_use service plain_cipher-IsCipher 5 "c-2" "bob" (bytes_of "n") true given
      (stored ∷ []) refl refl refl refl
