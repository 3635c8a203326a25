-- ===== src/Lib.antt =====
-- The Stellar transaction submitter: a service that takes payments over HTTP, keeps them in Postgres,
-- and submits each of them to the Stellar network through a pool of channel accounts.
--
-- The parts and their files:
--  * Base: the names of the libraries that all modules share, with the Boolean tests, the lists, the
--    texts and the integers over the native ℕ and the lemmas on them.
--  * State, Errors, Metrics, External: the rows of the tables, Go errors as values, the collectors,
--    and the code outside the repository's own packages (the database driver, vendor-stellar,
--    shopspring/decimal, net/http's JSON decoder, the process environment) as one record `Env` of
--    functions. A function that may answer differently from call to call takes the number of the call.
--  * World: the tables, the collectors, what was sent to Horizon, and the number of calls made; a Go
--    function that does I/O and returns an error is an `Action` on it. World/Keeps has the rules by
--    which an action keeps a predicate of the tables, World/Ensures those by which it takes the tables
--    from one predicate to another, by what it returns, and World/Sends and World/Growth those by which
--    it sends at most n transactions and at least one; World/Adds says what is added to what was sent,
--    World/Preserves what is kept of the whole state, and World/Returns takes a sequence of actions
--    that returned apart.
--  * Store (internal/state/store.go): `txStore`, one definition for each method, with its SQL read as
--    a change of the tables; Store/Accounts has the channel accounts. Store/Ids, Updates, Reads, Leases,
--    Exclusion, Consistency, Histories and Races (two calls of `UpdateStatus` that overlap) are proofs
--    about it. Store/Writers is a step relation for one `UpdateStatus` at a time whose read and write
--    other callers come between. Store/Ledger is the specification of the tables of transactions, by
--    what can be looked up and by the steps that it may take; Store/Ledger/Refinement and Permanence
--    are about the operations as such steps and about what any steps keep.
--  * Retry (internal/retry/policy.go): the fee schedule, over an interface `Floats` to float64.
--  * Pool (internal/channelaccount): `Pool`, Pool/Provision the `Provisioner`, Pool/Secrets the seeds
--    from an environment variable, which Pool/Secrets/Seeds describes without the loop;
--    Pool/Provision/Keys and Size are about the accounts that `EnsurePoolSize` adds,
--    Pool/Provision/Sequences about `SyncSequences`. Pool/Exclusive is about callers one after the
--    other; Pool/Sessions is a step relation for callers that run at the same time, with the row locks
--    of Postgres (FOR UPDATE SKIP LOCKED).
--  * Submitter (internal/submitter): Submitter/Builder is builder.go; engine.go is Submitter/Signing
--    (the fields, the signed transactions), Submitter/Retries (`handleSubmissionError`),
--    Submitter/Polling (`pollForConfirmation`) and Submitter (`SubmitProcess`, `Start`). Its other
--    children are proofs: Submitter/Lifecycle has the edges along which a payment's status goes,
--    Submitter/Stages, Progress and Queue take `SubmitProcess` and `Start` along them, Submitter/Frame
--    is about the rows that are left alone, Submitter/Unrecorded about a payment that is accepted and
--    not recorded, and Submitter/Delivery, Confirmation, Draining, Listing and Backlog about a queue
--    where nothing outside fails (`IsHealthy`), of payments that the SDK takes (`IsPayable`) with
--    accounts whose keys it takes (`IsUsable`); Submitter/Payable shows that the engine's writes leave
--    the last two. Submitter/Refused is about a payment whose destination it does not take. In a queue
--    where nothing fails Submitter/Paying and Once count what is sent, and Submitter/Again
--    takes one payment up twice. Submitter/Contents is about what is in a transaction that the engine
--    builds, Submitter/Bumps about the fee of its fee bumps, Submitter/Sending, Fidelity and Accounting
--    about what it sends.
--  * Api (internal/api): the handlers and the routes, with Api/Answers on what they answer, Api/Quiet
--    on what they do not send. Config (internal/config). Server (cmd/server): the start-up, Server/Process the rest of `main`;
--    Server/Ready is about the tables at the engine's start, Server/Books about `main` as steps of the
--    ledger, Server/Audit about what is sent, Server/Service about a payment from the queue to what GET
--    answers of it, Server/Migrated about `main` on the schema of migrations/0001_init.up.sql.
--  * Tests: a small deployment and the examples that run on it.
--
-- Bounds: `poll_loop` recurs on its 30 rounds and `retry_loop` on the attempts left, which are the
-- loops' own bounds; `start` recurs on the list of signals that it receives. Integers are int64 with
-- their wrap-around (`add64`, `mul64`); the ledger bound is a uint32.
--
-- Not modelled: logging; the headers, the encoding of JSON and the endpoint of the collectors;
-- cancellation of contexts. In the actions each call of a Go function ends before the next: what
-- overlaps is modelled where the code provides for it, in Pool/Sessions for the callers of the pool and
-- in Store/Races and Store/Writers for `UpdateStatus`. In Server/Process a request or a tick goes
-- through before the next one, and a shutdown does not cut off a payment. A call of the driver that reports an error has no
-- effect. Times are numbers of which only the order is used.
-- Ids are compared as texts, so an id of a request is taken in the spelling that the database gives.
-- A database transaction that is rolled back gives its history id back, which a sequence of Postgres
-- does not. The default of the column channel_account is a parameter of the schema, since a deployment
-- may add one: the migrations give it none, and without one no payment is taken.
pub mod Base
pub mod State
pub mod Errors
pub mod Metrics
pub mod External
pub mod World
pub mod Store
pub mod Retry
pub mod Pool
pub mod Submitter
pub mod Config
pub mod Api
pub mod Server
pub mod Tests
