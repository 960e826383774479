-- ===== src/Lib.antt =====
-- AEON-IQ: a memory gateway for language-model agents. This library models the parts of it that
-- decide who may do what: the credential subsystem (src/credentials), the migration to tenants, the
-- rate limiter, the guard on outbound URLs, the truncation of logged bodies, and the outbox of jobs
-- that extract memories.
--
-- A presented credential is parsed by Credentials/Secret.antt (src/credentials/secret.rs); its
-- record comes from the cache, Credentials/Cache.antt (src/credentials/cache.rs), or from the
-- registry, Credentials/Store.antt (src/credentials/store.rs), whose scopes and mode are parsed by
-- Credentials/Scope.antt (src/credentials/scope.rs) and Credentials/Mode.antt
-- (src/credentials/context.rs). Credentials/Auth.antt (src/credentials/mod.rs) puts them together:
-- `authenticate`, `issue` and `revoke` act on one state of rows, pepper, cache and the counter of
-- decoys. Credentials/Settings.antt is the configuration and the startup gate of the same file, and
-- Credentials/Grants.antt (src/credentials/grants.rs) says which agents an authenticated
-- Credentials/Context.antt may act for. Tenancy.antt (src/tenancy/mod.rs) moves the agents of an
-- older deployment to tenants and guards the start of multi-tenant mode. Below it,
-- Tenancy/Plan.antt (src/tenancy/plan.rs) is the staged migration of the schema as data, and
-- Tenancy/Audit.antt (src/tenancy/audit.rs, with types of src/tenancy/inventory.rs and the verdict
-- of src/tenancy/report.rs) the audit that says which tranches of it may proceed. Extraction.antt
-- (src/extraction_worker.rs) is the table of extraction jobs and a worker on it, and
-- Extraction/Outbox.antt any number of workers. RateLimit.antt is src/rate_limit.rs, with the `f64`
-- that it computes in below it, UrlGuard.antt is src/url_guard.rs, and LogUtils.antt is
-- src/log_utils.rs. A function of the source keeps its name; a helper beside it is a part of its
-- body. Common.antt passes on what all of them share, and Tests holds concrete inputs.
--
-- Requests run one after another, each from end to end; an interleaving of two requests between
-- their statements is not modelled, but for the workers of the outbox, whose claims and finishes
-- come in any order. What the environment decides during a request (the clock, the answer of the
-- database, the random bytes, whether a lock was free) is an argument. A table is the list of its
-- rows, a statement a function on it, and a constraint of a migration a test that an insertion must
-- pass; `false` for `reachable` is any error of the database. A timestamp, a tick and a UUID are
-- natural numbers, times in nanoseconds, in the outbox in seconds; a text is its code points, and a presented credential its
-- bytes. A hash map is an association list in which no key stands twice. The tokens of the rate
-- limiter are values of `f64` that are neither negative, infinite nor NaN, as multiples of 2^-1074,
-- and its sums, products and quotients round to 53 bits as in the source; the fuel of the rounding
-- is enough for every value below 2^3075. The attempts of a job are not bounded by their column. A
-- finish of a job reads two clocks, the worker's and the database's, and panics where the crate
-- chrono has no such duration or no such time. The registry of tables, the catalog as the queries
-- give it, what the scans of rows push, and how a text is printed for debugging are arguments of
-- the audit of a snapshot (Tenancy/Audit/Snapshot.antt), in which no statement fails. All recursion
-- is structural but the printing of a number, whose fuel exceeds the number, and the rounding.
--
-- Not modelled: the log lines and the wording of errors; the crates uuid, hex, hmac and sha2, the
-- URL parser and the resolver, which are parameters; the inspection of the database catalog at
-- startup; timing, of which only the number of MACs is kept; and the rest of the program, among it
-- the memory store and its ranking, the content of an extraction, archival, the tenancy settings,
-- the queries of the audit on rows and on the catalog, its registry and its report, attestation,
-- the HTTP interface and the proxy.
pub mod Common
pub mod Credentials
pub mod RateLimit
pub mod UrlGuard
pub mod LogUtils
pub mod Tenancy
pub mod Extraction
pub mod Tests
