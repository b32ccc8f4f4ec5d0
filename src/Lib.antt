-- ===== src/Lib.antt =====
-- A verification library of the API portal: developers register APIs in a catalog, apply for access
-- to them, and issue personal access tokens (PATs), which a gateway checks against a Redis cache.
--
-- The parts. The handlers of services/portal-backend/routers change the tables of PostgreSQL and the
-- Redis cache; batch jobs close tokens; catalog changes are carried to the gateway and empty the
-- cache of JWTs. A handler is a function from its inputs and the state to a reply and the state
-- after it; random bytes, new identifiers, the clock and the answers of other services are inputs.
--
-- - Prelude: shared notation and lemmas (texts as lists of code points, Boolean tests, lists).
-- - Config, Errors, Auth: config.py, error_handlers.py and auth.py of services/portal-backend.
-- - Redis: the commands of the Redis server as a record of operations and laws, and the functions
--   of the standard library that are only passed on; Redis/Client is redis_client.py.
-- - Database: the tables of infra/postgres/init/01_ddl.sql as lists of rows, and the statements on
--   cdp.pat. Portal: the database and the cache together.
-- - PatUtils: pat_utils.py (Base62 and Secret: generation; Format: build_pat and parse_pat; Mask:
--   mask_pat).
-- - Tokens: routers/tokens.py (Issue, Revoke, UpdateQuota). AdminTokens: bulk_revoke of
--   routers/admin_tokens.py. Internal: routers/internal.py (Meta, UserEvent, AuditBatch).
-- - Batch: batch.py (Jobs: the jobs that close tokens; Partitions: the months of bat_cdp_06).
-- - Applications: routers/applications.py.
-- - Params and Apisix: apisix_client.py (Params: the parameters of a path; Paths: the functions on
--   paths; Routes: route ids and build_endpoint_route; Admin: the Admin API as an interface, and the
--   ids that an API owns; Reconcile: upsert_api_routes, delete_api_routes and smoke_test, and the
--   instance of the catalog's interface). Apisix/Resync: resync_gateway_routes of main.py.
-- - Queries: the handlers that list rows (list_all_tokens, list_pats, list_applications, list_apis,
--   get_api). Usage: routers/usage.py, routers/audit.py and routers/me.py. DevAuth:
--   routers/dev_auth.py. Migrations: db_migrations.py.
-- - AuditConsumer: audit_consumer.py, over an interface of Redis streams.
-- - Catalog: routers/catalog.py (Patterns: keys of endpoints; Checks: validation; Publish:
--   create_api; Patch: patch_api and delete_api; Rows: the stored endpoints), over an interface of
--   the gateway client.
-- - Lifecycle: all operations on tokens as one step relation, with the loss of cached entries as a
--   step, and what holds in every reachable state.
-- - TokenExchange: services/token-exchange-service (CircuitBreaker: circuit_breaker.py; Shared: its
--   commands on the store that it shares with the portal; CallerAuth: caller_auth.py; Keycloak:
--   keycloak_client.py; Cache: cache.py; Service: token_exchange of main.py, with the background
--   refresh that it may start).
-- - Mocks: services/mock-keycloak (Keycloak) and services/mock-internal-gw (InternalGw), and the two
--   together (Accepted).
-- - Tests: concrete instances of the parameters, and examples.
--
-- Bounds and fuel. Times are microseconds since the epoch and dates days, as natural numbers.
-- mask_pat runs on the length of the text plus one, and the cutting of a path into parameters on its
-- length: each round takes a character at least. A follower of the token cache polls six times and
-- the resync of an API tries ten times, as in the code; the endless loop of the audit consumer runs
-- for a number of rounds. All other recursion is structural.
--
-- Not modelled: the texts of messages, column lengths, the scheduler, the aggregation of bat_cdp_01,
-- the connections, metrics, the constant answers of the mock services, the Lua plugins and the
-- frontend. A handler of the portal runs as one step; the failure of Redis itself and interleavings
-- inside such a handler are left out. The token exchange service gives way where it awaits Keycloak
-- or sleeps: what others do to the store there is a parameter; the background refresh that a hit
-- starts runs once the request is answered. Keys of the store do not expire by themselves.
pub mod Prelude
pub mod Config
pub mod Errors
pub mod Redis
pub mod Database
pub mod Applications
pub mod Params
pub mod Apisix
pub mod AuditConsumer
pub mod Migrations
pub mod Queries
pub mod Usage
pub mod DevAuth
pub mod Catalog
pub mod Auth
pub mod Portal
pub mod PatUtils
pub mod Tokens
pub mod Internal
pub mod AdminTokens
pub mod Batch
pub mod Lifecycle
pub mod TokenExchange
pub mod Mocks
pub mod Tests
