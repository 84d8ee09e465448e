-- ===== src/Lib.antt =====
-- The core logic of the escrow platform: amounts, fees, splits, disputes, payouts, and the guards
-- around them.
--
-- The backend keeps trades, disputes and payout intents in a database (Prisma) and mirrors what the
-- escrow contract does on the chain. Amounts are `bigint`s in stroops, or decimal strings at the
-- edges. The parts and the files that model them:
--   Money (backend/src/lib/money.ts): `divideWithPolicy`, `applyBps` and the class `DustLedger`.
--     The children are Money/Policy (what each rounding policy does), Money/Ledger (residuals
--     carried over windows) and Money/Decimal (`parseDecimalToStroops`, `formatStroopsToDecimal`,
--     `sumDecimalStrings`, `normalizeDecimalString`), with its own children.
--   Fees (backend/src/lib/feeComputation.ts): the breakdown of each outcome of a trade. It divides
--     by the functions of Money.
--   Allocation (backend/src/lib/lossAllocation.ts): `largestRemainderAllocation`.
--   Disputes (backend/src/services/disputeTransitions.ts): the status machine of a dispute, its
--     versioned update, and its synchronisation from chain events.
--   PayoutIntent (backend/src/services/payoutIntent.service.ts): the idempotent claim of a payout,
--     its submission, confirmation and failure, and the sweep that reconciles it with the chain.
--   MediatorQuorum (backend/src/services/mediatorQuorum.service.ts): weighted votes on a dispute.
--   DeadlineExtension (backend/src/services/deadlineExtension.service.ts): caps on extensions.
--   CircuitBreaker (backend/src/lib/circuitBreaker.ts): the breaker in front of a service.
--   ServiceBreaker (backend/src/lib/circuit-breaker.ts): a second breaker, which closes again at
--     the first success.
--   Wallet (frontend/src/lib/wallet/state-machine.ts): the state of the wallet connection.
--   AuditChain (backend/src/lib/auditChain.ts, the middleware of backend/src/lib/db.ts, and `verifyChain`
--     of backend/src/services/adminAudit.service.ts): the hash chain over the audit table.
--   Trades (backend/src/services/eventHandlers.ts, backend/src/types/events.ts): what the events of the
--     chain do to a trade and to its dispute, and which webhooks they send. Trades/Schema holds their
--     types and tables, Trades/Flow is the life of a trade as a relation, Trades/Events one event and a history of them, Trades/Replay,
--     Trades/Sync and Trades/Dispatch events in and out of turn.
--   Auth (backend/src/services/auth.service.ts): challenges and their lockout (Auth/Challenges), the
--     validation of tokens (Auth/Revocation), their refresh (Auth/Refresh) and its repetition
--     (Auth/Reuse).
--   Idempotency (backend/src/middleware/idempotency.ts): requests with an idempotency key, their lock
--     and the replay of their response.
--   ClawbackLock (backend/src/services/streamClawback.service.ts): the lock that pods share.
--   Streams (backend/src/services/streamLock.service.ts, streamTermination.service.ts and
--     streamValidation.service.ts): an administrator's actions on a stream; the rows
--     are in Streams/Schema.
--   Retry (backend/src/lib/retry.ts): the classification of errors and the loop of attempts.
--   Pagination (backend/src/lib/cursorPagination.ts): pages behind cursors.
--   Base holds what they share: numbers and tests, lists, errors as values (`Outcome`), `bigint` as
--     an integer (`ℤ`), text as its code points, the database table (Base/Table) and Redis (Base/Redis).
--   Tests applies the theorems at concrete inputs.
--
-- A function keeps its source's name in snake case, and a class is a record with one function per
-- method that returns the new record. A thrown error is the `throw` of an `Outcome`; where a handler
-- writes before it throws, it returns the table besides. The clock is an argument.
--
-- The database is a parameter: a record of `findUnique`, `updateMany`, `update`, `create` and `upsert` with
-- their documented behaviour as laws, where each call is one atomic step. Base/Table/Keyed gives an
-- association list that has those laws. Redis is a parameter in the same way (Base/Redis, with an
-- instance in Base/Redis/Timed); its keys are typed by their prefixes, and its clock counts seconds.
-- The signatures of tokens and wallets, SHA-256, `toLowerCase`, the answers of the chain and the
-- translations are parameters as well. `Array.prototype.sort` is an insertion sort, which is stable
-- as the language demands.
--
-- Loops over arrays are recursions on the list. The loop of `retryAsync` runs on fuel, one unit to an
-- attempt: `maxRetries + 1` are given, and it is proved that they are enough. How long a sleep lasts is
-- a parameter. `bigint`s have no bound;
-- the range of `i128` is checked where the code checks it. Numbers that the code has validated as
-- non-negative integers are natural numbers, those it has not are integers; fractions, NaN and the
-- loss of precision of a `number` above 2 ^ 53 are not modelled. A `string` that is only compared is
-- a native string, one that is taken apart is its list of code points.
--
-- Not modelled: HTTP routes, jobs, workers, logs, metrics, notifications, the trade service and the
-- sweep of expired trades, the sessions of administrators' devices, the outbox, the trail of a trade's
-- timestamps, the caches, the rest of the frontend, the mobile application, and the escrow contract itself, which is
-- written in Rust.
pub mod Base
pub mod Money
pub mod Fees
pub mod Allocation
pub mod Disputes
pub mod DeadlineExtension
pub mod CircuitBreaker
pub mod MediatorQuorum
pub mod PayoutIntent
pub mod ServiceBreaker
pub mod Wallet
pub mod AuditChain
pub mod Idempotency
pub mod Trades
pub mod Auth
pub mod ClawbackLock
pub mod Streams
pub mod Retry
pub mod Pagination
pub mod Tests
