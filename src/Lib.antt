-- ===== src/Lib.antt =====
-- The log correlation core of siem-v2: how raw provider records of one HTTP request become one flow,
-- how long a flow waits, what it is judged to be, which records are never stored, what retention
-- deletes, and who may send records and see flows.
--
-- The parts and how they interact. A batch of raw records is parsed, filtered and accumulated
-- (Pipeline/Process). A later step gives each waiting event the window of the identifiers that it
-- shares with earlier ones, merging windows that it bridges (Pipeline/Correlate, on Keys and Window).
-- A flush takes the windows that are due (Window), makes a flow of each (Flow, on Order), forgets the
-- window, merges a late flow with the stored one, and writes the flows in chunks (Pipeline/Flush).
-- A restart saves the windows and the identifier index and restores them (Pipeline/Restart), and stored
-- batches and dead letters can be processed again (Replay). Verdicts of one flow that contradict one
-- another are reported (Conflicts). Detections that meet their fixtures raise alerts, and repeated
-- alerts are suppressed (Alerting); repairs are tried a bounded number of times (Recovery), and
-- sources that fall silent are reported (Health). Retention ages what is stored and spares what a legal
-- hold covers (Retention). Records can also be grouped as a whole, on shared identifiers or on their
-- attributes (Group). Feeds present a credential before they deliver
-- batches; people sign in, refresh their session and are held to their permissions (Access).
--
-- Files and the code that they model, under backend/internal where no other path is given:
--   Schema      normalize/schema/event.go: Event and its parts, Layer.Order, Action.Terminal
--   Order       correlate/order.go: OrderEvents, DetectSkew
--   Keys        correlate/keys/identifiers.go, and parseIdentifier of biz/flow/pipeline.go
--   Group       correlate/group: Component
--     UnionFind   unionfind.go: add, find, link
--     Exact       bridge.go: Exact
--     Heuristic   heuristic.go: Heuristic and its parts
--   Window      correlate/window/window.go: Add, Ready, Merge, Get, InFlight, Restore, Snapshot
--   Flow        biz/flow/flow.go and materialize.go: the helpers of Materialize, which is in
--               Flow/Materialize
--     Amend       biz/flow/amend.go: Amend
--   Pipeline    biz/flow/pipeline.go: the state, NewPipeline, accumulate
--     Correlate   Correlate, canonicalOf, mergeKeyState
--     Flush       Flush up to the end of its lock, mergeWithStored, pruneRecentKeys
--     Flush/Emit  the storing half of Flush
--     Process     ProcessBatch, deadLetter, hashOf
--     Restart     Snapshot, Restore, IdentifierIndex and the rest of what
--                 backend/cmd/logproc/main.go saves and restores, in its order
--   Filter      ingest/filter/filter.go: Compile, Drops, Empty
--   Retention   biz/retention/hold.go: Covers, TierFor, Validate
--     Apply       biz/retention/expiry.go: Apply, preserve, heldBy, audit
--   Replay      ingest/replay.go: ReplayRange, ReplayDeadLetters
--   Alerting    alerting/alert.go: Suppressor, SortAlerts
--     Detections  alerting/detection.go, and NewAlert with its keys of alert.go
--   Recovery    observability/selfheal.go: Heal, Attempts
--   Health      observability/health.go: Registry
--   Access      errors/errors.go: Kind, HTTPStatus
--     Tenancy     biz/tenancy/context.go: Can, AllowsProperty, FromContext, TenantOf, Require
--     Tokens      auth/tokens.go and data/valkey/revocation.go
--     Sessions    service/authsvc.go: the service, profiles, cookies and audit entries; the handlers
--                 Login, VerifyMFA, Refresh, Logout and ResolveAccess are in Sessions/Handlers
--     Limiter     server/authz_middleware.go: RateLimiter
--     Gate        resolvePrincipal of backend/cmd/apiserver/main.go; Middleware, RequirePermission and
--                 identityHint of server/authz_middleware.go
--     Feeds       auth/feedtoken.go, ingest/feedauth, BearerToken of ingest/validate.go
--   Conflicts   biz/verdict/conflict.go: Analyse and its parts
-- Prelude has the shared helpers: byte strings, times and durations, maps and sorting. Tests has
-- sample requests and the theorems applied to them.
--
-- How state is modelled. A method with a pointer receiver is a function from the state to the state
-- and its results. A Go map with string keys is an association list whose order stands for the order
-- of a range over the map, which Go leaves open; the theorems hold for every such order. A text is
-- the list of its bytes, and ToLower and TrimSpace work on ASCII. A time is its number of nanoseconds
-- since the zero time, Sub saturates at the bounds of an int64, and the products of durations in
-- TierFor wrap at 64 bits. Confidences are in tenths and durations of responses in microseconds. The
-- loops run over lists, but for the two of the union-find's find, which follow parents: they have one
-- step of fuel more than the largest rank, which is enough since ranks grow along the parents.
--
-- Parameters: the parsers and the masker, which the pipeline takes as values; and what is outside, the
-- store and the loader of stored flows, the archive, the hold registry, the auditor, the marks of a
-- replay, and time.Parse; for Access the JWT library, the Valkey server, the database of accounts, the
-- password hash, the one-time codes, the sealing of secrets and the hash of feed secrets; for alerts
-- the hash and the text of a time; for alerts and health the type of floating-point numbers. The
-- theorems on tokens name what they assume: with its key, a token that was signed reads back as its
-- claims while it is valid, if they are ASCII texts and whole seconds (ReadsBack), dates are cut to the
-- second, an accepted token has not expired and an id has one expiry (IsStrict), and a key that is set
-- is found for the whole seconds of its time to live (IsKeeping). The other properties assume no more
-- of them than that they are functions, but for those on amending and on dead letters, which assume
-- that a write or a mark succeeds.
--
-- Not modelled: the mutexes (each method is one step, as it is under its lock), the callbacks that
-- count and log, the text of error messages, a pipeline without a store or dead letters (ProcessBatch
-- skips its writes then; it ignores their errors, so that its kept and dead records are attempted
-- writes), the statistics of baselines and traffic profiles, the classification of rules, and the
-- parts of the repository that are I/O: parsers, the other HTTP services, storage clients, commands.
pub mod Prelude
pub mod Schema
pub mod Order
pub mod Keys
pub mod Group
pub mod Window
pub mod Flow
pub mod Pipeline
pub mod Filter
pub mod Retention
pub mod Conflicts
pub mod Alerting
pub mod Recovery
pub mod Health
pub mod Replay
pub mod Access
pub mod Tests
