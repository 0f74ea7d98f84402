-- ===== src/Lib.antt =====
-- A model of the parts of the AnyNote backend that decide what is stored and what is refused, with
-- theorems about them. Paths are from the repository's root.
--
-- Sync (Sync, Sync/Service; backend/internal/repository/sync_blob_repository.go and
-- backend/internal/service/sync_service.go). A table is the list of its rows. `batch_upsert` is
-- BatchUpsert with its two phases and its transaction; `push` and `pull` are the service's Push and
-- Pull over it; `get_progress` is GetProgress and `batch_delete` is BatchDelete; Sync/Stats has the
-- reports. Sync/Tables, Keys, Versions, Batch and Push are about upserts; Pages, Cursor and
-- Progress about pulls; Delete about deletion.
--
-- Rate limiting (RateLimiter; backend/internal/service/rate_limiter.go). `allow` is Allow, with its
-- sweep of expired windows. RateLimiter/Spec is the abstract limiter, a history of grants by user;
-- Eviction, Refinement and Bound relate the two.
--
-- AI quotas (Quota; backend/internal/service/quota_service.go and
-- backend/internal/repository/quota_repository.go). The state is the table and the cache of the
-- days on which the users' quotas were reset.
--
-- The LLM gateway (Gateway, Breaker; backend/internal/llm/gateway.go, provider.go and
-- circuit_breaker.go). The gateway keeps a breaker for each provider and calls `allow`,
-- `record_success` and `record_failure` of Breaker around each call to the provider.
--
-- Plans (Plan; backend/internal/domain/plan.go, backend/internal/service/plan_service.go and
-- backend/internal/repository/plan_repository.go) and payments (Payment, Payment/Webhook;
-- backend/internal/service/payment_service.go and
-- backend/internal/repository/payment_repository.go). Plan/Usage has the
-- queries that its limits are checked against. Payment/Signature is the header of Stripe's
-- signature, whose verdict the webhook takes as an argument. A payment that completes or is
-- refunded sets the plan of its user, in the table that Plan reads.
--
-- Accounts and tokens (Auth, Auth/Tables; backend/internal/service/auth_service.go and
-- backend/internal/repository/user_repository.go and refresh_token_repository.go). `register`,
-- `login`, `refresh` and `delete_account` are Register, Login, RefreshToken and DeleteAccount;
-- Auth/Calls has sequences of requests, Rotation, Spending and Replay are about tokens that were
-- used, Accounts and Login about passwords, and Salts has the salts that a client asks for, with their
-- handlers.
--
-- LLM configurations (LlmConfig with Tables, Resolver, Crypto and Urls below it;
-- backend/internal/service/llm_config_service.go and llm_config_resolver.go,
-- backend/internal/repository/llm_config_repository.go, backend/internal/llm/crypto.go and the
-- check of URLs in backend/internal/llm/openai_compat.go), and the AI proxy (AiProxy;
-- backend/internal/service/ai_proxy_service.go), whose `proxy` calls RateLimiter, Quota, LlmConfig
-- and Gateway one after the other. AiProxy/Modes is about one request and AiProxy/Usage about many.
-- AiProxy/Jobs is the queue's handler of backend/internal/queue/ai_job_handler.go over the same
-- parts.
--
-- Shared notes (Share, Share/Reactions; backend/internal/service/share_service.go and
-- backend/internal/repository/shared_note_repository.go) and the comments on them (Comment;
-- backend/internal/service/comment_service.go and
-- backend/internal/repository/comment_repository.go).
--
-- Publishing (Publish, Publish/Tables; backend/internal/service/publish_service.go and
-- backend/internal/repository/publish_log_repository.go) and the worker's tasks (Publish/Jobs;
-- backend/internal/queue/publish_job_handler.go and stats_refresh_handler.go). Fields is about the
-- encryption of what is published, Jobs/Delivery about a task and what the platform
-- gets, and Jobs/Pending about what stays in the logs.
--
-- Platforms (Platform; backend/internal/platform/adapter.go and registry.go,
-- backend/internal/repository/platform_connection_repository.go and
-- backend/internal/service/platform_service.go). Platform/Connections is the table, which publishing
-- reads too, Service has the calls on it and Sessions the sign-in. Traces has sequences of calls;
-- Invariant and Isolation are about them, SignIn, Auth and Verified about a connection and what
-- publishing does with it, and Listing about the catalog.
--
-- Clients of the model providers (Provider; backend/internal/llm/openai_compat.go and
-- anthropic_provider.go). Provider/Retry has the loop over the attempts of a call, OpenAi and
-- Anthropic what is sent and read. Attempts and Calls are about the loop, Streams and Lost about
-- the chunks of a stream, the latter with the AI job that reads them.
--
-- Smaller parts: Notification (backend/internal/service/notification_service.go and
-- backend/internal/repository/notification_repository.go); Device with Tokens and Push
-- (backend/internal/service/device_service.go and push_service.go,
-- backend/internal/repository/device_repository.go and device_token_repository.go, and
-- backend/internal/queue/push_job_handler.go), whose tokens the deletion of an account removes too;
-- NoteLink (backend/internal/service/note_link_service.go and
-- backend/internal/repository/note_link_repository.go); Profile
-- (backend/internal/service/profile_service.go and backend/internal/repository/profile_repository.go).
--
-- Before the handlers (Http; backend/internal/handler/realip.go and rate_limit_middleware.go):
-- whose request it is, and a limit by address over RateLimiter's `allow`. RateLimiter/Redis is the
-- limiter of backend/internal/service/redis_rate_limiter.go, whose times are compared as the doubles
-- that they are between the years 2006 and 2043.
--
-- Base has what these share: tables and the SQL operations on them, Go maps, results, integers.
--
-- How the code is read. A method that changes a record or a table returns the new one; the calls
-- that hold a lock or run in a transaction are taken one after the other, and interleavings of
-- whole calls are lists of calls. `time.Now()` and NOW() are arguments, in nanoseconds, one clock
-- for the server and the database. Whether a query fails is an argument (`Faults`), and
-- where PostgreSQL or its driver refuse a statement or a row in every case, it is refused; a failed
-- transaction leaves the tables as they were. UUIDs are their text, the bytes of an encrypted blob
-- a number, versions and counters natural numbers; limits of plans are integers. Negative
-- thresholds, limits and versions, which a configuration or a client could send, are outside the
-- model. Go's random order over a map is an argument. Rows of equal sort key stay in the table's
-- order. The ratio behind the health of a sync is compared in integers, which agrees with the
-- code's doubles for counts below 2 ^ 40. All loops are recursion on lists, or
-- on the number of attempts that are left, so that no fuel is needed.
--
-- What is a parameter: the answers of LLM providers, Stripe's sessions, the decoding of JSON, the
-- HMAC of a signature and the parser of its timestamp, the parser of UUIDs, the JWT library,
-- bcrypt, AES-GCM, base64, the resolver of host names and the adapters of publishing platforms. The
-- laws that the theorems need of them are records (IsLawful, IsCipher, IsBase64), which the tests
-- give concrete functions for.
--
-- Not modelled: the HTTP handlers themselves and the adapters of platforms and of Firebase, process
-- start and configuration, the queue, the agent and search. Of the push messages that other parts
-- send, the model has the receiver of a comment's and the number of conflicts in a sync's.
pub mod AiProxy
pub mod Auth
pub mod Base
pub mod Breaker
pub mod Comment
pub mod Device
pub mod Gateway
pub mod Http
pub mod LlmConfig
pub mod NoteLink
pub mod Notification
pub mod Payment
pub mod Plan
pub mod Platform
pub mod Profile
pub mod Provider
pub mod Publish
pub mod Quota
pub mod RateLimiter
pub mod Share
pub mod Sync
