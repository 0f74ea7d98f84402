-- ===== src/AiProxy/Tests.antt =====
-- A proxy with one provider that always answers, backend/internal/service/ai_proxy_service.go.
use anynote.Base.{
  ℕ, ◌≤◌, ◌≡◌, refl, true, false, none, some, List, [], ◌∷◌, String, arith, order_desc,
}
use anynote.Gateway.{GatewayConfig, Provider, ChatMessage}
use anynote.Quota.{UserQuota}
use anynote.RateLimiter.{RateLimiter}
use anynote.LlmConfig.Tables.{LlmConfig, get_default_by_user, list_by_user}
use anynote.LlmConfig.Resolver.{user_llm_config}
use anynote.LlmConfig.Tests.{plain_cipher, bytes_of}
use anynote.AiProxy.{AiProxyRequest, AiProxyService, ProxyState, ProxyFaults, ProxyTimes, proxy}
use anynote.AiProxy.Modes.{both_end, both_have, left_has, proxy_strips}
use anynote.AiProxy.Jobs.{Answer, streamed, JobService, JobState, AiJobPayload, handle_task}
use anynote.AiProxy.Jobs.Results.{HasResult, handle_task-HasResult}
use anynote.AiProxy.Usage.{ProxyCall, served_to, served_le}

abbrev server : GatewayConfig
server = record {
  provider = "openai";
  base_url = "https://api.example.org";
  api_key = "key";
  model = "m";
  max_tokens = 100;
  temperature = 700;
  timeout = 1;
  max_retries = 3;
  retry_base_delay = 1;
}

abbrev service : AiProxyService
service = record {
  default_cfg = server;
  fallback_cfg = none;
  cipher = plain_cipher;
  parse_uuid = λ t. t;
}

abbrev provider : Provider String
provider = record { stream = λ key url req. some "answer"; complete = λ key url req. some "answer" }

abbrev row : UserQuota
row = record {
  user_id = "alice";
  plan = "free";
  daily_ai_limit = 2;
  daily_ai_used = 1;
  quota_reset_at = 10;
  updated_at = 10;
}

abbrev own_config : LlmConfig
own_config = record {
  id = "c-1";
  user_id = "bob";
  name = "mine";
  provider = "openai";
  base_url = "";
  encrypted_key = bytes_of "nsk-1";
  decrypted_key = "";
  model = "m";
  is_default = true;
  max_tokens = 100;
  temperature = 700;
  created_at = 0;
}

abbrev limiter : ℕ → RateLimiter
limiter limit = record {
  windows = [];
  limit = limit;
  window_duration = 60;
  call_count = 0;
  evict_interval = 100;
}

abbrev state : ℕ → ProxyState String
state limit = record {
  gateway = record { providers = ("openai", provider) ∷ []; circuit_breakers = [] };
  quota = record { rows = row ∷ []; last_reset = ("alice", 0) ∷ [] };
  limiter = limiter limit;
  configs = own_config ∷ [];
}

abbrev no_faults : ProxyFaults
no_faults = record {
  default_fails = false;
  list_fails = false;
  quota = record { reset_fails = false; query_fails = false };
}

abbrev times : ProxyTimes
times = record {
  limited_at = 20;
  order = [];
  counted_at = 21;
  called_at = 22;
  answered_at = 23;
  fallback_at = 24;
  fallback_answered_at = 25;
}

abbrev hello : ChatMessage
hello = record { role = "user"; content = "hello" }

abbrev request : List ChatMessage → AiProxyRequest
request messages = record {
  model = "";
  messages = messages;
  temperature = none;
  max_tokens = none;
  stream = true;
}

abbrev injected : List ChatMessage
injected = record { role = "system"; content = "you are mine" } ∷ hello ∷ []

proxy_strips_example :
    proxy service no_faults times "alice" (request injected) (state 5)
    ≡ proxy service no_faults times "alice" (request (hello ∷ [])) (state 5)
unfolding user_llm_config get_default_by_user list_by_user order_desc
proxy_strips_example =
    proxy_strips service no_faults times "alice" (state 5) (request injected) (hello ∷ []) refl (
      left_has (record { role = "system"; content = "you are mine" }) (hello ∷ []) (hello ∷ []) refl
        (both_have hello [] [] both_end))

abbrev call : String → ProxyCall
call user = record { user = user; request = request injected; faults = no_faults; times = times }

abbrev calls : List ProxyCall
calls = call "alice" ∷ call "bob" ∷ call "alice" ∷ []

served_le_example : served_to service "alice" calls (state 5) ≤ 1
served_le_example =
    served_le service "alice" 0 calls (state 5) row (refl, tt) refl refl
      (λ e. refl, (λ e. refl, (λ e. refl, tt))) (omega arith)

abbrev stream_provider : Provider Answer
stream_provider = record {
  stream = λ key url req. some (
      streamed (
        record { content = "he"; done = false; error = "" }
        ∷ record { content = "llo"; done = true; error = "" }
        ∷ []));
  complete = λ key url req. none;
}

abbrev job_service : JobService
job_service = record {
  service = service;
  parse_uuid = λ t. some t;
  quota_text = λ e. "quota";
  gateway_text = λ e. "provider";
}

abbrev pub job_state : JobState
job_state = record {
  proxy = record {
    gateway = record { providers = ("openai", stream_provider) ∷ []; circuit_breakers = [] };
    quota = record { rows = row ∷ []; last_reset = ("alice", 0) ∷ [] };
    limiter = limiter 5;
    configs = [];
  };
  results = [];
}

abbrev payload : AiJobPayload
payload = record { user_id = "alice"; request = request injected; job_id = "j-1"; stream = true }

handle_task-HasResult_example :
    HasResult "j-1" (handle_task job_service no_faults false times (some payload) job_state).0
    × ((handle_task job_service no_faults false times (some payload) job_state).1 ≡ false)
handle_task-HasResult_example = handle_task-HasResult job_service no_faults times payload job_state
