-- ===== src/Lib.antt =====
-- AgentSecrets keeps credentials in the OS keychain and lets agents use them without seeing them. A
-- local proxy takes a request with the names of secrets, checks it, puts the values into the
-- outbound request, forwards it, and takes the values out of the response. This library models the
-- proxy, its audit log and the files that hold secrets, and proves what they guarantee.
--
-- Parts and files:
--   Text            bytes as Go strings: comparison, ASCII case, prefixes, search, trimming.
--   Capabilities    pkg/capabilities/policy.go (`EvaluateSecret`) and `isSecretAllowed`: what a
--                   secret's policy and an agent's lists permit.
--   Redaction       pkg/proxy/engine.go (`redactSecretFromResponse`, `redactResponse`).
--   Approvals       pkg/proxy/approvals.go (`ApprovalStore`): `Approve`, `Deny` and the parts of
--                   `WaitForApproval` are functions on a `World` of store, channels and waiting
--                   goroutines, and `Step` lets them happen in any order.
--   Json, Injector  pkg/proxy/injector.go (`setNested`; `Inject`, `InjectAll` and the six styles).
--   Network         pkg/proxy/engine.go (`isPrivateOrLoopbackIP`, the dialer in `NewEngine`).
--   Tokens          pkg/proxy/token_cache.go (`TokenCache`), the agent entries of
--                   pkg/keyring/keyring.go, `Sync` and `IsTokenRevoked` of the engine.
--   Identity        pkg/proxy/engine.go (`resolveIdentity`) and `maskToken` of pkg/proxy/server.go.
--   Audit           pkg/audit/event.go and the functions of the engine that build its blocks.
--   Requests        `CallRequest`, `CallResult` and the reasons for a block.
--   Engine          pkg/proxy/engine.go (`ExecuteCtx`): a chain of stages over a state of tokens,
--                   approvals, sent requests and audit trail. A stage goes on, or the call returns a
--                   result or an error. Authorize, Policies and Tail hold the stages in the order of
--                   the source, Pipeline puts them together, and Quiet, Grants, Passing and Safety
--                   are about what has been checked when a request is sent, Trail and Records about
--                   what is recorded.
--   Server          pkg/proxy/server.go: `validateSession`, `handleRotateSession`, `handleApprove`,
--                   `parseInjections`, and in Server/Proxying `handleProxy`.
--   AuditLog        pkg/proxy/audit.go: `LogForensic`, with `VerifyChain` of pkg/log/service.go, on a
--                   table of records. Writer is the queue and its goroutine, as the states that their
--                   steps reach, Syncing is `SyncUnpushedLogs`, and Chain and Tampering are about
--                   the hash chain; in Syncing, Reports is about what the cloud is told, Draining
--                   and Outcome about what becomes of the rows.
--   Logs            pkg/log/service.go: the queries of the tables and, in Records, the forms of a
--                   record, here and in the cloud. Answers says what a filter asks for, and
--                   Matching and Pages that the queries answer it.
--   Dotenv          pkg/secrets/dotenv.go: the .env file, from its lines to a map and back. Values,
--                   Reading and Merging are about what is read after a write.
--   Secrets         pkg/secrets/secrets.go: `BatchSet`, `Delete` and `Pull` on the keychain, the
--                   .env file and the cache, in Exchange `Get` and `Push`, in Diffing the comparison
--                   of `Diff`, in Example the .env.example file; Storing, Failing and Sealing are
--                   about what is kept, here and in the cloud.
--   ApiClient       pkg/api/client.go: the endpoints of the backend and `CallCtx`.
--   Crypto          pkg/crypto/crypto.go: how secrets and private keys are framed.
--   Config          pkg/config/config.go: which environment, storage mode, project and server count.
--   Updates         pkg/config/update.go: `isNewer` and `CheckForUpdates`.
--   Prelude, Tests  shared helpers; runs at concrete inputs.
--
-- The engine calls Capabilities, Approvals, Identity (which calls Tokens), Injector and Redaction;
-- the dialer of Network sits below the HTTP client, which is the argument `forward` of the engine.
-- The records of Audit are those that AuditLog writes and Logs queries; Secrets writes through
-- Dotenv.
--
-- Bounds: no definition has fuel; all loops are structural. Strings are lists of bytes. Case folding
-- and trimming are those of ASCII text. The clock is a natural number.
--
-- Arguments of the model: encoding/json, net/url and base64 (`Codecs`), package net
-- (`Resolver`), the backend, the terminal, and the goroutines that run while a request waits for
-- its approval; of the audit log, SHA-256, the form of an instant, and what the database makes
-- of LIKE, of the order of rows of one time, of a row that it cannot read; of the secrets, the
-- ciphers and encodings, the random source, the keychain's store, the scanner of lines and what
-- a failing write leaves of a file; of a server, the path of its URL, what net/http makes a
-- request of, and what the HTTP client answers.
--
-- Not modelled: `handleSync`, `handleHealth` and the start of the HTTP server, the set-up of the
-- audit database, the agents' capabilities that `Pull` stores, the files of the configuration, the
-- command line, the services for projects and workspaces, the keychain daemon, telemetry and
-- terminal output. Locks are left out: an operation under a lock is one step. A map is an
-- association list; where Go ranges over a map, the list's order stands for its order.
pub mod Prelude
pub mod Text
pub mod Capabilities
pub mod Redaction
pub mod ApiClient
pub mod Approvals
pub mod Json
pub mod Injector
pub mod Logs
pub mod Network
pub mod Tokens
pub mod Updates
pub mod Requests
pub mod Identity
pub mod Audit
pub mod Engine
pub mod Secrets
pub mod Server
pub mod AuditLog
pub mod Config
pub mod Crypto
pub mod Dotenv
pub mod Tests
