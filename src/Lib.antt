-- ===== src/Lib.antt =====
-- A verification library for bazUSOP, the server operations hub and its agents.
--
-- The hub is made of services, each over a store with one mutex. The services call one another only
-- through the functions that they are given, such as the check that a host belongs to a scope. A method
-- of a store holds the mutex from its start to its end, so that it is one step here: a function from the
-- store to the new store and an answer. A method of a service is a chain of such steps. Sequences of
-- calls (`run` in the History modules) stand for every order in which callers can be served; a request
-- that makes several steps is not interleaved with the steps of another, except in Executor, where the
-- agent's calls and those of others come in any order, and in Identity/Race.
--
-- The modelled code are the services and their stores in memory; the tests and the local mode of the
-- hub run these. Below, the files of the library and the code that each is about.
--   Base                the shared part: texts, times, results, lists, maps, sorting; Base/Bytes is
--                       truncateUTF8 of internal/agent/log_collector.go, on the bytes of UTF-8
--   Tenancy             internal/tenancy/tenancy.go: Scope, Agent and their Validate
--   Jobs                internal/jobs/jobs.go: Store has the methods of MemoryStore, Signing has Verify
--                       and the two payloads, Service has the methods of Service. Cases, Log, Invariant,
--                       Report, Claim and History are lemmas that the other files of the folder use
--   Sessions            internal/sessions/sessions.go (Service) and memorystore.go (Store)
--   RateLimit           internal/ratelimit/ratelimit.go: Limiter, New as `new_limiter`, Allow
--   Authorization       internal/authorization/authorization.go (Matrix, Service) and memorystore.go
--                       (Store)
--   ServiceAccounts     internal/serviceaccounts/serviceaccounts.go (Service) and memorystore.go (Store)
--   Alerting            internal/alerting/alerting.go: MemoryStore (Store) and Service (Service)
--   AuditTrail          internal/audittrail/audittrail.go and memorystore.go
--   Executor            internal/agent/job_executor.go (Trust, Process) and job_state.go (Disk); World is
--                       what the executor calls: the hub of Jobs, the file, and the platform
--   Identity            internal/identity: identity.go (Service, SignIn), memorystore.go (Store), password.go
--                       (Password), totp.go (Totp) and recoverycodes.go (Random). `redeem_invite` is the
--                       ConsumeInvite of the service, `consume_invite` that of the store
--   Logstream           internal/logstream: MemoryStore (Store), Ingest and Search (Service); Kept is
--                       what the lemmas say of an agent's entries
--   Telemetry           internal/telemetry: MemoryStore and Service (Store)
--   Enrollment          internal/enrollment/authority.go: Authority with memoryTokenStore (Service)
--   Activity            internal/activity/activity.go, over the stores of Jobs and of Alerting
-- A function or a field keeps its name of the source in lower case with underscores: ClaimNextJob is
-- `claim_next_job`, Job.LastSequence is `last_sequence`.
--
-- Conventions. An instant is the number of nanoseconds since Go's zero time, a duration a number of
-- nanoseconds, neither negative; differences that may be negative in Go are written as sums. The
-- readings of the clock and the identifiers that a call draws are its arguments, and an identifier may
-- fail to be drawn. A text is a list of Unicode code points, and `len` counts the bytes of its UTF-8
-- form, as in Go; texts that are not valid UTF-8 are left out. Go's int is a natural number: sequences,
-- limits, days and seconds below zero are left out, all of which the code refuses. A map is an
-- association list, and `range` visits it in the list's order; a theorem is about all lists. sort.Slice
-- keeps the order of equal elements here. All loops are structural recursion, so that no fuel is needed.
-- Cryptography, base64 and JSON in Jobs are the interface `Crypto` with the laws `IsSound`; the digests
-- of tokens, the calendar's AddDate and the checks for active users, administrators and hosts are
-- arguments; so are the packages that Identity, Executor and Enrollment call (`Crypto`, `Certificates`,
-- `Packages`), whose laws are hypotheses where any are needed; float64 and the messages that fmt makes
-- of it are the interfaces `Numbers` in Alerting and `Floats` in Telemetry, of which nothing is assumed.
--
-- Not modelled: the other domains of internal/ (the agent's collectors,
-- inventories), the PostgreSQL stores, whose work is SQL, the HTTP
-- handlers of internal/server, OIDC, configuration, the commands, and the web interface. Of the modelled
-- packages, the constructors of the services with their options, the directory of hosts of the alerts'
-- store, the live subscriptions to logs, and the making of the enrollment authority's own key and
-- certificate.
pub mod Base
pub mod Tenancy
pub mod Jobs
pub mod Sessions
pub mod RateLimit
pub mod Authorization
pub mod Alerting
pub mod ServiceAccounts
pub mod AuditTrail
pub mod Executor
pub mod Identity
pub mod Logstream
pub mod Telemetry
pub mod Enrollment
pub mod Activity
