-- ===== src/Lib.antt =====
-- Verification of the synapse platform: the Go service that polls device messages from Kafka, turns
-- them into events, stores these in SQLite, and serves them, with summaries written by a model.
--
-- The parts and how they interact:
--   * The ingestor polls a message, transforms it into an event and stores the event; only then, or
--     once the message is kept as a failure, it calls the message's acknowledge handler.
--   * The handler is the offset committer's: it commits a Kafka offset only when all earlier offsets
--     of the partition are acknowledged.
--   * The transformer looks a message's type up in the registry of domains, decodes, normalizes and
--     checks its payload. The class of an error decides whether the ingestor keeps the message as a
--     failure or leaves it for Kafka to deliver again; the store's errors are classified likewise.
--   * The event store writes events in chunks, one transaction each, and counts what it stored.
--   * The server passes a request through its middleware, which asks the validator for the identity
--     of the token, to a handler that reads the event store or asks for a summary.
--   * The summary service groups the stored events, looks for a saved summary under a key that hashes
--     them, and otherwise asks a model and saves its report with links to the events it was shown.
--   * The router of model providers passes a request to one of them, and on to a fallback.
--
-- The files and the code they model:
--   * Kafka/Committer.antt: internal/kafka/ack.go (OffsetCommitter, register, complete). A locked
--     section is one step; Kafka/Committer/History.antt has histories of fetches and handler calls.
--   * Ingestor/Errors.antt, Domains.antt, Message.antt: internal/ingestor/error.go, const.go,
--     message.go, processor.go, fallback_failure_storer.go.
--   * Ingestor/Payload.antt, Transformer.antt: internal/ingestor/normalized_message.go, registry.go,
--     transformer.go.
--   * Ingestor/Loop.antt with Loop/Single.antt, Batch.antt and Pool.antt: internal/ingestor/ingestor.go
--     (ingestSingle, saveBatchWithDeliveries, ingestWithWorkerPool and what they call). Each loop
--     records the calls it makes, oldest last; the worker pool is a step relation.
--   * Sqllite/Errors.antt, Store.antt, Store/Pages.antt, Store/Pages/Lookup.antt: internal/sqllite/error.go
--     and storer.go (StoreData, StoreBatch, insertChunk, ListEvents, GetEvent), the tables of
--     summary.sql, and the queries of internal/sqlc/generated/events.sql.go that list events and get
--     one. The statements are functions on lists of rows.
--   * Intelligence/Provider.antt with Provider/Router.antt, OpenAi.antt and Ollama.antt:
--     internal/intelligence/provider (types.go, errors.go, router.go, openai_compatible.go, ollama.go).
--   * Intelligence/Summary.antt: internal/intelligence/summary/types.go (ValidateAgainstEvidence) and
--     AllowedEventIDs of prompt.go.
--   * Auth.antt: internal/auth (auth.go, jwt.go, error.go).
--   * Health.antt: internal/health/health.go (CheckAll); its handlers are in Api/Routes.antt.
--   * Api/Types.antt, Response.antt, Handlers.antt, Middleware.antt, Routes.antt: internal/api
--     (server.go, responses.go, error.go, handler.go, middleware.go) and internal/log/http.go. A handler
--     takes the request and an exchange, that is the response writer, the calls made and the world
--     of the services, and returns or panics with the exchange that it leaves.
--   * Intelligence/Summary/Prompt.antt and Service.antt: prompt.go, cache_key.go and service.go of
--     internal/intelligence/summary. The service acts through interfaces on a world.
--   * Sqllite/SummaryRows.antt, Summaries.antt and Summaries/Cache.antt: the summaries in
--     internal/sqllite/storer.go and summary.sql, the query SummarizeByDomain, and the service over
--     this store.
--   * Kafka/Poller.antt: internal/kafka/poller.go and Ack of ack.go; Poller/Handlers.antt reads
--     the events of a consumer as a history of its committer.
--   * Log.antt: internal/log/handler.go.
--   * Prelude holds the shared names, tests, lists and tables; Tests holds runs and witnesses.
--
-- Conventions: an `error` is an option or a result; a function with effects takes and returns the
-- state it changes. What other packages do (the Kafka reader, the SQLite driver, net/http, JSON,
-- uuid, time, floating-point numbers, the validator) is a parameter, with what is used of it as a
-- hypothesis. A time is a number, which stands for the instant with its zone. A counter of Go's
-- `int` or `int64` is a natural number where it only counts up by ones from a small start, and an
-- integer where the code looks at its sign.
--
-- Fuel: the walk of the committer has the number of held messages as fuel, which its loop cannot
-- exceed since each round removes one; the chunks of StoreBatch have the number of events, of which
-- each round takes at least one; the retries of a store have the constant number of attempts.
--
-- Not modelled: the publisher and statistics of Kafka, configuration and start-up; the other
-- decorators for logging and metrics, which pass calls on; opening and migrating the database;
-- mocks, generated code but for four queries, deployment and tests. A failed commit is taken to roll
-- back; a transaction that SQLite leaves open when it is busy is not modelled. Whether the driver
-- reads back the text of a time is a parameter where events are read, and not where they are
-- grouped for a summary.
mod Prelude
pub mod Kafka
pub mod Ingestor
pub mod Intelligence
pub mod Sqllite
pub mod Auth
pub mod Health
pub mod Api
pub mod Log
mod Tests
