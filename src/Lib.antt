-- ===== src/Lib.antt =====
-- go-identity-service: accounts, sessions, the outbox and the Kafka consumer
--
-- The service keeps users and refresh tokens in PostgreSQL, caches users in Redis, writes an event for
-- each new user into an outbox table in the transaction that creates the user, publishes the outbox to
-- Kafka from a worker, and consumes the topic into an audit table.
--
--   Apperror      internal/apperror, internal/user/errors.go, internal/auth/errors.go
--   User          internal/user: model, repository, cache, transactions, validation, service, listing
--   Auth          internal/auth: tokens, passwords, refresh tokens, transactions, service, and in Access
--                 the middleware that guards the HTTP API
--   Outbox        internal/outbox: model, repository, publisher and worker. Protocol is the worker's
--                 specification, a state machine for each row beside the topic
--   Kafka         internal/kafkaconsumer and internal/audit: stores, transactions, handlers, consumer
--   Ratelimit     internal/ratelimit: the limiter in memory and the limiter in Redis
--   Http          internal/response, internal/validation, the handlers of internal/user and internal/auth
--                 with their routes, and the guards as internal/app/app.go sets them up
--                 In Middleware the chain of internal/middleware around the routes
--   Grpc          internal/grpcapi: the interceptor, the checks and the methods
--   App           internal/config and internal/app/health.go
--   Consistency   what every sequence of requests to the two services keeps true of the tables
--   External      the third parties' functions, which every definition that uses them takes as an
--                 argument: bcrypt, JWT, SHA-256, the random generator, protobuf, JSON, mail addresses
--   World         the state: the tables of migrations/, the Redis keys, the topic, the clock, and the
--                 answers of the servers to come; the monad of actions on it, and its laws
--   Base          texts, decimals, integers, lists and queries, which the parts share
--   Tests         runs on a small installation
--
-- An operation of the source is a function of the same name in snake_case, an action of the monad `M`
-- of World. Each call of PostgreSQL, Redis or Kafka takes the next of the world's `answers`: it is
-- carried out, or it fails without an effect, or it takes effect and its reply is lost. So a statement
-- about every world is a statement about every pattern of failures and timeouts, and the deadline of a
-- context is one of these. A method that ends in `_tx` is the callback of a transaction; `within_tx`
-- restores the tables at `begin` when the callback fails or the commit is refused.
--
-- A text is the list of its code points, and `len` counts its bytes in UTF-8. Identifiers are integers
-- without a bound: a bigserial column does not wrap around, it fails at its end, which is not modelled.
-- Times are natural numbers, and the clock moves by the world's `delays`. The model runs one operation
-- at a time; two transactions never interleave, and the isolation of PostgreSQL is taken for granted.
-- A query for a page finds the rows in an order of its own, so rows that its ORDER BY does not tell
-- apart may come in another order on the next page. The rate limiter in Redis runs on the clock of
-- Redis, in whole milliseconds. Logs, metrics and traces are left out. No definition needs fuel: the loops of the source run over
-- lists. The endless loop of Worker.Run runs over a list of what happens to the world before each of its
-- rounds, and that of Consumer.Run over the polls, until the context is done.
--
-- A handler of an HTTP route is an action that gives a response, a status with a body before its
-- encoding. What the JSON decoder made of the body, and what the validator reports for the tags of a
-- request, are arguments. A method of the gRPC server gives a reply, a message or a code with its text.
--
-- Not modelled: the wiring in internal/app but for the guards of the routes and the chain, and the
-- parts that only observe (logs, metrics, traces, the counting cache).
mod Base
pub mod Apperror
pub mod User
pub mod Auth
pub mod Outbox
pub mod Kafka
pub mod External
pub mod World
pub mod Ratelimit
pub mod Http
pub mod Grpc
mod App
mod Consistency
mod Tests
