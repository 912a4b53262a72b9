-- ===== src/Lib.antt =====
-- Lamdis Core: the policy, orchestration and tenancy services that stand between agents and the
-- connectors of a tenant.
--
-- A request passes the middleware first: WithTenant finds the tenant of its host, JWTAuth checks its
-- token against the tenant's conditions. An agent reads the manifest, whose actions come from the
-- connector registry, calls the preflight endpoint of an action, which evaluates the tenant's published
-- policy over resolved facts and stores a decision, and then the execute endpoint, which accepts the
-- decision for the same action, inputs and facts and lets the orchestrator send one request to the
-- connector. The connector service passes the operations of a connector on to it, with the stored
-- credentials. Administrators create and publish the versions of a policy, the resolvers and mappings of its
-- facts, connectors with their operations, and credentials.
--
-- The files, and the code that they model:
--   Prelude, Text, Json: shared lemmas; Go's strings and maps; decoded JSON values.
--   Store: the rows of the database's tables (db/migrations). A database is the lists of its rows.
--   Problems: pkg/problems/problems.go.
--   Slug: slug and deriveShort of internal/orchestrator/service.go, deriveName of
--     internal/manifest/service.go, slugify of internal/adminapi/handlers_connectors.go.
--   Facts: internal/facts/engine.go. Transforms has applyTransform, Resolve the loop of ResolveFacts.
--   Policy: internal/policy. Evaluate and Decisions are service.go, Http the handlers of http.go,
--     Lifetime what becomes of ttl_seconds.
--   Orchestrator: Execute of internal/orchestrator/service.go, in the order of its body: Select chooses
--     the operation, Template and Escape build the request, Execute sends it and stores the row.
--   Tenants, Middleware: pkg/tenants/model.go, memory.go and (Postgres) postgres.go; scope.go, auth.go,
--     tenant.go, dpop.go and debugwrite.go of pkg/middleware.
--   Connectors, Manifest: pkg/connectors/registry.go and BuildManifest of internal/manifest/service.go.
--   ConnectorService: internal/connector/handler.go. The root has the platform's own operations, Platform,
--     Proxy and Router the operations of connectors that are passed on to them, Document serveOpenAPI.
--   Admin: internal/adminapi. Policies is handlers_policies.go (Trials has the dry run and the test
--     execution), Actions handlers_actions.go, Connectors handlers_connectors.go, AuthConfigs
--     handlers_marketplace_auth.go, Tenant handlers_tenant.go, Access auth.go.
--   Store.Table: the SQL statements on a table, over its list of rows.
--   Secrets: internal/adminapi/crypto.go and decryptSecrets of internal/connector/handler.go.
--   OpenApi: pkg/openapi/builder.go.
--   Tests: runs at concrete inputs.
--
-- State is passed explicitly: a handler takes the tables or the cache and returns them. A nil pool
-- is none. An error that Go drops is a value of Result or Option that the model drops at the same
-- place. Times are nanoseconds. What computes facts takes a Clock, the readings of time.Now in the
-- order of the calls, two for each mapping, which no transform exceeds; what stores or compares one
-- time takes that reading. An INSERT that may fail takes what the database answers. Texts are code
-- points, except where a file says bytes. The loops of the code are structural recursions, so no
-- fuel is chosen but for decimal digits (one more than the number, which has fewer digits).
--
-- Parameters stand for code outside of the repository: Rego, JMESPath, json.Marshal and json.Unmarshal of
-- whole documents, SHA-256 and AES-GCM, the JWT and JWS libraries, Redis, net/http with the network, floats and
-- clocks. `sees` tells which tenants' rows a database session shows: the set_config of the queries stands
-- in a CTE that nothing reads, so that the model does not fix what row-level security makes of it.
--
-- Not modelled: the connector registry's files and analytics of internal/adminapi, the JSON output of the
-- documents, start-up, logging and tracing, and the user interface.
pub mod Prelude
pub mod Text
pub mod Slug
pub mod Json
pub mod Facts
pub mod Store
pub mod Problems
pub mod Policy
pub mod Orchestrator
pub mod Tenants
pub mod Middleware
pub mod Connectors
pub mod ConnectorService
pub mod Manifest
pub mod Admin
pub mod Secrets
pub mod OpenApi
pub mod Tests
