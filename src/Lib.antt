-- ===== src/Lib.antt =====
-- Verification library of agentenv-skills-hub, a registry of agent skills: callers publish versions of
-- skills into namespaces, the hub checks the request, fetches and verifies the artifact, stores a row
-- and queues an event, and readers list what is public.
--
-- Parts, and the files that model them:
-- Core: crates/hub-core. Core/Model and Core/Error are model.rs and error.rs, Core/Auth is auth.rs,
-- Core/Validation is validation.rs (with Core/FilePath for the parts of std::path that it uses), and
-- Core/Service is service.rs: `HubService::publish` and `yank` over records of operations for the four
-- traits, with the states behind the repository and the queue passed explicitly.
-- Index: crates/hub-index. Index/Tables has the tables of migrations/0001_init.sql as lists of rows
-- and the SQL statements as functions on them, Index/Postgres the operations of `PgHubRepository`
-- that write, Index/Queries those that read (Index/Queries/Served has what a reader may see of a
-- record, Index/Queries/Once one row for each version), Index/Json the manifest as JSON. Index/Registry is the view of the tables as a function
-- from a namespace, a name and a version to a record, and what relates the writes to it; its module
-- Overlap has the calls of many sessions, where others commit inside of a publish.
-- Index/Postgres/Rule says what has to be shown of the steps of a publish for something to be kept
-- by it. Index/Migrations is migrations.rs with the script that it runs.
-- Storage: crates/hub-storage. Storage has pointers and digests, Storage/Stores the three
-- `fetch_verified` of file.rs, s3.rs and oci.rs, and the constructors of the stores; Storage/Confined
-- compares them in two worlds.
-- Attestation: crates/hub-attestation, the checks around Ed25519 signatures and Sigstore bundles.
-- Search: Search/Lexical is crates/hub-search/src/lexical.rs, Search/Vector is pgvector.rs.
-- Webhooks: crates/hub-webhooks, the payloads, their signature and the delay between attempts.
-- Api: Api/State is crates/hub-api/src/state.rs: the implementations of the traits of hub-core that
-- the server runs, put into the service of Core with the repository of Index and the stores of
-- Storage. Api/State/App is its `AppState`, and Api/State/Startup `from_env`, which migrates the
-- database and configures the state. Api/Handlers has the parts of handlers.rs that read headers
-- and file names, and error.rs; its modules Reads, Writes, Artifacts and Fixture are the handlers
-- that list and search, that publish and yank, that serve artifacts, and the skill without a
-- database. Api/Routes has those that answer with a constant, and the table of routes.rs.
-- Api/Server is the whole server: the reply to a request, by the handler that the table names, and
-- sequences of requests. Api/Main is main.rs.
-- Common: results, runs that pass a state, lists, texts, stable insertion sort and orders.
-- Tests: the theorems at concrete inputs.
--
-- Correspondence. A text is a list of Unicode scalar values; `bytes` is its UTF-8 form where the source
-- reads bytes. `Result` is a data type with `ok` and `err`, and `?` is its bind. `sort_by` is a stable
-- insertion sort. A set or map that is only looked up is a list. A transaction has a view of its own,
-- which becomes the shared tables at its commit and is dropped on an error; other sessions may commit
-- between the lookup of a version and its insert. No definition uses fuel: every loop is a recursion on
-- a list or a number.
--
-- Parameters stand for code that is not in the repository: the crates semver and url (`Crates`), sha2,
-- the file system and HTTP exchanges (`Outside`), hex, ed25519-dalek and serde_json (`Signing`,
-- `Runtime`), hmac (`Hmac`), tar and zstd (`Archive`), `f32` (`Floats`), the Unicode tables of
-- `to_lowercase`, the extractors of axum, and for Postgres the clock, fresh ids, failing statements and
-- other sessions (`Session`), and the ORDER BY of the server (`arrange`, `ordered`), which is taken to
-- keep the rows. `set_path` of url is opaque: it resolves a `..`, and is only taken to keep the scheme
-- and the host.
--
-- Not modelled: which paths a route matches, which is axum's, opening the pool of connections (a
-- parameter, `connect`), the configurations of Qdrant and Milvus, which nothing uses, and logging.
pub mod Common
pub mod Core
pub mod Tests
pub mod Index
pub mod Storage
pub mod Search
pub mod Attestation
pub mod Webhooks
pub mod Api
