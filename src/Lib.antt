-- ===== src/Lib.antt =====
-- The services of the Lead OS back end, as their Python code behaves.
--
-- The program is a set of services that share one package. services/auth-service keeps users and
-- their sessions, hands out access tokens and refresh tokens, and opens new accounts: it publishes
-- `onboarding.pending`, services/tenant-service creates the tenant and publishes `tenant.created`, and
-- auth-service's consumer gives the user the tenant, while the request that opened the account waits
-- on a registry for that to happen. services/files-service keeps avatars in an object store and a
-- table. services/api-gateway stands before all of them: it limits the rate of requests, reads the
-- user's access token and states the user in headers that files-service trusts, and proxies the request
-- to the service of its path; it also serves media files and the services' merged documentation.
-- shared/ holds the event bus, service tokens and exceptions.
--
-- Parts, and the files that model them:
--   Prelude.antt, Prelude/: library names, Boolean tests, texts, dictionaries, and code that may raise
--     as a state-passing function (`Exec`): what was written before a raise stays written.
--   Shared/Host.antt: clocks, random values and Redis as functions of the number of draws made before.
--   Shared/Json.antt, Shared/Jwt.antt: JSON objects, and PyJWT as a record of functions with its laws.
--   Shared/Events.antt: shared/src/shared/events (`EventEnvelope`, `EventBus.publish`) over the state
--     of a service: its tables, what it has published, its draws.
--   Shared/ServiceToken.antt, Shared/Exceptions.antt: shared/src/shared/auth/service_token.py and
--     shared/src/shared/utils/exceptions.py.
--   Shared/Consumer.antt: shared/src/shared/events/consumer.py. The state has what Redis
--     keeps of the group; `redeliver` is what repeated passes do with one message.
--     Shared/Consumer/Loop.antt: its `run_forever`, a recursion on what producers add before each turn
--     of the loop; the list of these ends where `stop` is called. Redis is assumed to answer.
--   Shared/Cache.antt: shared/src/shared/cache/decorator.py; its theorem is over sequences of calls,
--     expiries and invalidations.
--   Shared/Middleware.antt, Shared/Identity.antt: middleware.py and dependencies.py of
--     shared/src/shared/auth.
--   Auth/Models.antt, Auth/Db.antt: services/auth-service/app/models. A table is the list of its
--     committed rows; a commit that breaks a unique column raises `IntegrityError`.
--   Auth/App.antt: the settings, packages and surroundings that the service runs with.
--   Auth/Tokens.antt, Auth/Login.antt, Auth/Refresh.antt, Auth/Logout.antt, Auth/Users.antt,
--     Auth/Validate.antt, Auth/Avatars.antt, Auth/Onboarding.antt, Auth/Registry.antt: the modules of
--     services/auth-service/app/services with the same or a similar name (auth_tokens.py, login.py,
--     refresh.py, logout.py, users.py, validate.py, avatars_read.py, onboarding.py,
--     onboarding_completion.py), function for function; Auth/Onboarding.antt has events.py too.
--   Auth/Controller.antt, Auth/Controller/Onboarding.antt: services/auth-service/app/controller.py, one
--     function per endpoint.
--   Auth/Schemas.antt, Auth/Router.antt: app/schemas and app/router.py of services/auth-service.
--   Auth/Service.antt: sequences of requests, by the controller's functions, and of events. A request that
--     onboards is two steps, up to its wait and from its completion on, with any others between them.
--   Tenant/Slug.antt, Tenant/Onboarding.antt: services/tenant-service/app/services/onboarding.py and
--     events.py; `str.lower` and `UUID.hex` are arguments.
--   Tenant/Domains.antt and the modules below it: services/tenant-service/app/_archived/cloudflare_domains,
--     Cloudflare.antt and Service.antt for cloudflare.py, Tenants.antt, Resolution.antt and
--     Credentials.antt for tenants.py, Endpoints.antt and Admin.antt for controller.py, Requests.antt
--     for sequences of requests. `db.refresh` and what one session sees of another are not modelled.
--   Gateway/Routes.antt: services/api-gateway/app/config.py and the routing functions of controller.py.
--   Gateway/Guard.antt: utils/middleware.py (`GatewayAuthMiddleware`), utils/jwt_keys.py and
--     serializers/identity.py of services/api-gateway/app. Gateway/RateLimit.antt: its
--     services/ratelimit.py and `RateLimitMiddleware`. Gateway/Controller.antt: its health routes and
--     `SecurityHeadersMiddleware`.
--   Gateway/Proxy.antt: services/api-gateway/app/services/proxy.py and `proxy_request`. The loop over
--     attempts is recursion on the attempts that are left.
--   Gateway/Media.antt: services/api-gateway/app/services/media.py. The loop of `_iter_file` has as many
--     rounds as bytes are wanted, which is enough, since each round reads at least one. `int` is partial.
--   Gateway/Docs/Merger.antt, Gateway/Docs/Fetcher.antt: the modules of the same names in
--     services/api-gateway/app/services/docs_aggregator.
--   Files/Models.antt, Files/Config.antt, Files/Auth.antt: models, config.py and auth.py of
--     services/files-service/app.
--   Files/Storage.antt, Files/Storage/Minio.antt: services/files-service/app/storage, less its manager:
--     a backend is a record of operations on a state of its own, which may raise.
--   Files/Manager.antt: services/files-service/app/storage/manager.py, over any backend.
--   Files/Routers.antt: public_router.py and internal_router.py of services/files-service/app.
--   Flows.antt: what the services do together, a new account from auth-service through tenant-service and
--     back, and a session from auth-service through the gateway to files-service.
-- The modules below a part (Auth/Refresh/Reuse.antt, for example) hold its lemmas and theorems, and the
-- Tests modules small services on which they are run.
--
-- A row's primary key and its times are draws, as the models' default factories make them. Identifiers
-- are numbers; a digest and a token are texts; a time is a number of microseconds, and that of a token
-- of seconds. Requests of one service run one after the other on its tables; in the registry whole
-- methods of several threads interleave, as its lock makes them.
--
-- Not modelled: database migrations, the wiring of processes, CORS, the page that shows the
-- documentation; foreign keys and column lengths; the text form of JSON; the serializers of the
-- archived code of services/tenant-service, which are not in the repository. PyJWT, passlib, hashlib,
-- uuid, phonenumbers, zoneinfo, Redis, the MinIO package, urlparse, the HTTP clients (Cloudflare's
-- included) and the file system are arguments of the definitions. Uploads of one user that run at the
-- same time are not modelled.
pub mod Prelude
pub mod Shared
pub mod Auth
pub mod Tenant
pub mod Gateway
pub mod Files
pub mod Flows
