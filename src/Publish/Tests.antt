-- ===== src/Publish/Tests.antt =====
-- One note that is published, backend/internal/service/publish_service.go and
-- backend/internal/queue/publish_job_handler.go.
use anynote.Base.{
  ◌≡◌, refl, true, false, none, some, List, [], ◌∷◌, ◌++◌, String, ok, err, ap, arith, All,
}
use anynote.LlmConfig.Crypto.{Bytes, encrypt_api_key}
use anynote.LlmConfig.Tests.{plain_cipher, plain_cipher-IsCipher, bytes_of, text_of}
use anynote.Publish.{
  Base64, IsBase64, PublishService, PublishRequest, PublishState, PublishFaults, PublishJobPayload,
  log_of, encrypt_field, enqueue, publish, get_by_id, database,
}
use anynote.Publish.Tables.{create_log}
use anynote.Publish.Fields.{IsLawful, publish_unreadable}
use anynote.Platform.Adapters.{Adapter}
use anynote.Platform.Service.{connection_of}
use anynote.Platform.Connections.{PlatformConnection, get_by_platform}
use anynote.Publish.Jobs.{Worker, JobFaults, handle_task}
use anynote.Publish.Jobs.Delivery.{result_of, publish_then_deliver}
use anynote.Publish.Jobs.Pending.{
  PublishCall, publishes, takes_task, refreshes, run, IsPending, run-IsPending,
}

bytes_of-text_of : (b : Bytes) → bytes_of (text_of b) ≡ b
bytes_of-text_of [] = refl
bytes_of-text_of (c ∷ b) = ap (λ r. c ∷ r) (bytes_of-text_of b)

text_of-empty : (b : Bytes) → text_of b ≡ "" → b ≡ []
text_of-empty b h = rw (← bytes_of-text_of b, h) refl

abbrev plain : Base64
plain = record { encode_to_string = text_of; decode_string = λ t. some (bytes_of t) }

plain-IsBase64 : IsBase64 plain
plain-IsBase64 = record { decodes = λ b. ap some (bytes_of-text_of b); covers = text_of-empty }

abbrev service : PublishService
service = record {
  has_master_key = true;
  cipher = plain_cipher;
  base64 = plain;
  has_queue = true;
  valid_platforms = [];
}

service-IsLawful : IsLawful service
service-IsLawful = record {
  cipher = plain_cipher-IsCipher;
  base64 = plain-IsBase64;
  sized = omega arith;
}

abbrev no_faults : PublishFaults
no_faults = record { create_fails = false; enqueue_fails = false; update_fails = false }

abbrev request : PublishRequest
request = record { platform = "medium"; title = "title"; content = "content"; tags = [] }

abbrev state : PublishState
state = record {
  logs = log_of "p-1" "alice" 10 request "ntitle" "mcontent" ∷ [];
  stats = [];
  connections = connection_of "con-1" "alice" "medium" (bytes_of "auth") "active" ∷ [];
  queue = [];
}

publish_unreadable_example :
    get_by_id service false "alice" "p-2"
      (publish service no_faults 10 "p-2"
        (some (bytes_of "n"))
        (some (bytes_of "m"))
        "alice"
        request
        state).0
    ≡ err database
unfolding publish encrypt_field encrypt_api_key create_log enqueue
publish_unreadable_example =
    publish_unreadable service no_faults 10 "p-2" (some (bytes_of "n")) (some (bytes_of "m"))
      "alice" "alice" request state refl

abbrev adapter : Adapter
adapter = record {
  start_auth = λ key. ok (record { cdp_context = 1; auth_ref = "ref" }, []);
  poll_auth = λ session key. ok (some (bytes_of "auth"));
  check_status = λ auth key post. ok "live";
  revoke_auth = λ auth key. none;
  publish = λ auth key params. ok (some (record { platform_url = "url"; platform_id = "post" }));
  fetch_stats = none;
}

abbrev worker : Worker
worker = record {
  master_key = [];
  service = service;
  registry = λ name. some adapter;
  parse_uuid = λ t. some t;
}

abbrev payload : PublishJobPayload
payload = record {
  user_id = "alice";
  platform = "medium";
  publish_log_id = "p-1";
  title = "ntitle";
  content = "mcontent";
  tags = [];
}

abbrev no_job_faults : JobFaults
no_job_faults = record { start_fails = false; connection_fails = false; finish_fails = false }

abbrev alice_connection : PlatformConnection
alice_connection = connection_of "con-1" "alice" "medium" (bytes_of "auth") "active"

publish_then_deliver_example :
    let s' =
      (publish service no_faults 10 "p-2"
        (some (bytes_of "n"))
        (some (bytes_of "m"))
        "alice"
        request
        state).0 in
    (payload : PublishJobPayload) × (s'.queue ≡ [] ++ payload ∷ [])
    × (handle_task worker no_job_faults 20 (some payload) s' ≡ (
      s',
      result_of (
          adapter.publish
            (bytes_of "auth")
            []
            (record { title = "title"; content = "content"; tags = []; images = [] })),
    ))
unfolding publish encrypt_field encrypt_api_key create_log enqueue get_by_platform
publish_then_deliver_example =
    publish_then_deliver worker service-IsLawful no_faults no_job_faults 10 20 "p-2" "alice"
      (bytes_of "n") (bytes_of "m") request adapter alice_connection state refl refl refl refl refl
      refl refl refl refl

abbrev calls : List PublishCall
calls =
    publishes no_faults 10 "p-2" (some (bytes_of "n")) (some (bytes_of "m")) "alice" request
    ∷ takes_task no_job_faults 20 (some payload)
    ∷ refreshes false 30 (λ id. record {
      connection_fails = false;
      insert_fails = false;
      trim_fails = false;
      now = 30;
      row_id = 1;
    })
    ∷ []

run-IsPending_example :
    All IsPending (run worker calls state).logs
    × ((run worker calls state).stats ≡ [])
    × ((user id : String) → get_by_id service false user id (run worker calls state) ≡ err database)
run-IsPending_example =
    run-IsPending worker calls state
      (record { pending = refl; no_url = refl; no_message = refl; no_post = refl }, tt)
