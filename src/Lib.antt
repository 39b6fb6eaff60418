-- ===== src/Lib.antt =====
-- A model of contentflow, a server that collects articles from RSS feeds and e-mail: the accounts of
-- its users (Go's packages internal/module/auth and internal/module/user), their sources
-- (internal/module/source) and articles (internal/module/article), the collection of a source
-- (internal/module/collector), the guard of its outgoing connections (internal/netguard), the limiter
-- of requests (internal/ratelimit), a round of the scheduler (internal/module/scheduler), and the
-- collection jobs, which carry a request for a collection from the API or the scheduler through Kafka
-- to the worker that does it (internal/module/collectionjob).
--
-- How the parts work together. A user registers, logs in and keeps the session by refresh tokens,
-- each of which serves once. A source of the user names a feed or a mailbox; its URL must pass the
-- guard, and its configuration is redacted wherever it is shown. A producer stores a request for a
-- collection in the outbox, a table with one active event for each topic and key. A dispatcher claims
-- the events that are due, writes them to Kafka and marks them sent or failed. A worker reads the
-- messages; it claims the task in the execution log, calls the collection service, reports the result
-- to Kafka, and for a failure requests the next attempt or gives the job to the dead letters, which a
-- user may list, replay and close. The collection service ends stale runs of the source, takes the
-- lock of the source, starts a run, collects the items, and in one transaction stores the articles,
-- the end of the run and the state of the source. The article service saves the items that are new
-- and keeps what a user has read and saved.
--
-- The files:
--   Prelude                 tests, 64-bit integers, texts, errors, procedures that change a state and
--                           may fail, and the statements of SQL on a list of rows
--   Netguard                internal/netguard/netguard.go; `Reach` holds its proofs
--   Auth.Data               auth/model.go, dto.go and user/model.go: the rows, requests and `World`
--   Auth.Repositories       user/repository.go and auth/refresh_token_repository.go
--   Auth.Token              auth/token.go: `JWTTokenManager`
--   Auth.Service            auth/service.go; `Sessions`, `Once`, `Accounts` and `Login` hold proofs
--   Sources.Data            source/model.go, dto.go, type.go: the rows, requests, JSON and `World`
--   Sources.Config          source/service.go: the checks of a configuration and its redaction
--   Sources.Repository      source/repository.go
--   Sources.Request         source/service.go: the settings, the checks of a request, `toDTO`
--   Sources.Service         source/service.go: the five operations; `Redaction`, `Answers`, `History`,
--                           `Jsonb`, `Revision`, `Kept`, `Reachable`, `Access` and `Stored` hold
--                           proofs
--   Articles.Data           article/model.go, dto.go: the rows, requests and `World`
--   Articles.Repository     article/repository.go
--   Articles.Service        article/service.go; `Saving`, `Batches`, `Once` and `Marks` hold proofs
--   Collection.Data         collector/model.go, dto.go, item.go, status.go: the rows, the `World` of
--                           a collection and what it calls (`Env`)
--   Collection.Runs         collector/run_repository.go and two methods of source/repository.go
--   Collection.Service      collector/service.go: the settings, `finishFailed`, stale runs, the lock
--   Collection.Collect      collector/service.go: `finishSuccess` and `CollectSource`
--   Collection.Atomic, Recorded and Lock hold proofs
--   CollectionJob.Event     event.go, errors.go: topics, events, permanent errors
--   CollectionJob.Env       the tables and topics (`World`), and what the code calls (`Env`)
--   CollectionJob.Key       producer.go: `idempotencyKey`
--   CollectionJob.Backoff   `retryBackoff` of worker.go and outbox.go
--   CollectionJob.Execution job_execution.go: `Claim`, `MarkSucceeded`, `MarkFailed`, `MarkDLQ`; its
--                           children hold the rows, the lease and the history of the log
--   CollectionJob.Outbox    outbox_repository.go: `Create`, `ListReady`, `ClaimReady`, `MarkSent`,
--                           `MarkFailed`; below it `Dispatcher` models the dispatcher of outbox.go,
--                           `Producer` the requests of outbox.go and producer.go, and the others
--                           hold proofs
--   CollectionJob.Dlq       dlq_repository.go; `Dlq.Service` models the service of dlq.go
--   CollectionJob.Worker    worker.go: `HandleMessage`, `handleFailed`, `Run`; `Worker.Config` holds
--                           its settings and `validateCollectionRequestedMessage`
--   RateLimit               internal/ratelimit/limiter.go; `Window` holds proofs
--   Scheduler               scheduler/scheduler.go: `RunOnce`; `Goroutines` and `Rounds` hold proofs
-- The modules named Tests have runs on concrete data.
--
-- How the code is read. A method with a receiver, a context and an error is a procedure: a function
-- from the `World` to a result and a `World`. A call of something outside (a database statement, a
-- Kafka write, the clock, a random text, the cache of a list, another service) takes its answer from
-- `Env` by the number of the call, so a theorem for every `Env` covers each order of faults. Each
-- package has a `World` and an `Env` of its own. Each table is a list of rows in the order of their
-- ids. A transaction gives back the old tables when it fails. Unique indexes (migrations 000001, 000008
-- and 000009) are part of the inserts and updates. Times are nanoseconds since Go's zero time, but
-- milliseconds in the limiter; durations and counters are 64-bit integers that wrap around. Database ids are natural numbers. JSON
-- is the type of values that Go decodes to `any`; the decoder and the encoder are functions of `Env`.
-- A configuration that is written to its JSONB column comes back as `Env` says, and what PostgreSQL
-- keeps of it is a named hypothesis. Stored times keep their nanoseconds, where the database keeps
-- microseconds. The status by which dead letters are listed is one of the three that there are, or none.
-- Go's package `strings` is modelled in Prelude.Text, but for the lower case, which `Env` gives. Other
-- processes are seen through the histories of operations: a history is any list of calls, each with
-- arguments of its own. A round of the scheduler is seen the same way, as any sequence of what its
-- loop and its workers may do next: a worker receives a source or finishes it, the context is done, the
-- channel is closed, a worker leaves, the wait for the workers ends.
--
-- Loops. The loops over events, messages, items and addresses are recursion on the list; the endless
-- loops of the dispatcher and the worker are run for a given number of rounds or messages.
-- `decimal_digits` has fuel for 20 digits, one more than an `int64` has.
--
-- Not modelled: logging, the HTTP handlers and the Kafka client; cancellation of a context other than
-- as a failing call; the text of RFC 3339 times; the queries of past runs; the lock and the caches in
-- Redis and the collectors themselves, whose answers are arbitrary (the release of a lock may fail);
-- and the other packages (AI, configuration). The worker reaches the collection service, and that
-- reaches the writer of articles, through functions of `Env`, so nothing here relies on how those
-- functions behave.
pub mod Prelude
pub mod RateLimit
pub mod Scheduler
pub mod Netguard
pub mod Sources
pub mod Articles
pub mod Auth
pub mod Collection
pub mod CollectionJob
