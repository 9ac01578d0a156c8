-- ===== src/Lib.antt =====
-- FinBase gathers market data: an HTTP server keeps a watchlist of tickers in SQLite, a pool of workers
-- takes the tickers in turn, asks several data services for what is due, and stores and broadcasts it.
--
-- The parts and their modules. Paths are from the repository's root; a Go name in camel case is the
-- same name in snake case here.
--   Base          Boolean tests, lists, results, texts (packages strings and strconv), float64 as its
--                 bit pattern, signed integers.
--   Db            db/db.go. Models: the row structures and the tables. Tx: the write connection, WithTx,
--                 and the monad `M` of database calls; every call of SQLite answers as a list of
--                 outcomes says, so theorems hold under any failure. Watchlist: AddWatchitem,
--                 FetchAndQueueNextWatchitem, UpdateWatchitemStatus and the other operations on table
--                 watchlist; its child Reads: the plain reads. Sorting: ORDER BY and LIMIT. Keys: table
--                 api_keys. Companies: UpsertCompany, the update stamps and LogAction. Series: all
--                 Insert functions. Consolidated: GetConsolidatedData. Quiet, Safe: which methods leave
--                 the tables, and which the keys and the order of the watchlist.
--   Clients       clients/clients.go. Breaker: CircuitBreaker, with Execute as two steps between which
--                 other calls may run. Redact: RedactString. Manager: ClientManager. Http: one call of a
--                 service through limiter, request, reply and breaker. Payloads: the structures. Cik:
--                 FormatCIK. Quotes: the market data fetchers and FetchMarketDataWaterfall. Facts: the
--                 other fetchers of company facts. Sec: FetchSECFacts with the encodings of its answer,
--                 FetchSECCIKForTicker and FetchOpenFIGI. Probe: TestKeyFunctionality.
--   Env           env/env.go: LoadAndApplyKeys, SetAPIKey, DeleteAPIKey, GetKeyStatuses. TestKey: its
--                 last method. Probing, Frame: what tests and changes of keys leave as it is.
--   Api           Auth: api/auth.go, the tokens and the middleware's decision. Broker: SSEBroker of
--                 api/api.go, its clients, its channels and the steps on them. Messages: requests,
--                 responses and the state of `Server`. Server: the handlers of api/api.go; its children
--                 Routes: `routes`, AuthMiddleware and ServeHTTP; Changes: what requests do to keys and
--                 tables; Invariant: runs of the whole server, with requests and jobs.
--   Worker        worker/worker.go. Site: what a job works on, shouldUpdateCategory. Fundamentals: the
--                 extraction of the SEC's facts and FMP's statements. Job: processJob, by its nine
--                 categories. Pool: the dispatcher and the workers as steps in any order. Due: when a
--                 category is due. Wiring: the fetchers as the services of a job. Job/Kept, Job/Keeping: what jobs
--                 leave as it is; Job/Settled, Job/Settling: the row that a job leaves.
--   Main          main.go: its settings, the health check and how the parts are put together.
-- The worker's jobs call the database's operations and, through the record `Services`, the fetchers,
-- of which they ask what `Serves` in Worker/Job/Kept says; their broadcasts go to the broker;
-- Env sets the clients' keys and the table's; the server's handlers call the database and Env, and its
-- middleware reads Env's system key.
--
-- Outside the program, and parameters or inputs of the model: SQLite (its answers, and what a statement
-- does as a function of the tables; the order of equal rows is that of the table), the network and the
-- rate limiters (the replies of a wire), the clock, the environment's variables, encoding/json,
-- base64, HMAC, decompression, float arithmetic and number formatting, the path cleaning of
-- http.ServeMux and the file server. Upper and lower case are those of ASCII letters. `int` counters
-- and row ids do not overflow here. A range over a Go map takes the order of a list. A response is a
-- status and the value that its JSON encodes. A run of the server serves a request and does a job as one
-- step, so that they do not interleave between their transactions there.
--
-- Fuel: the scans of Redact have one unit for each character, and each step of them takes one at least;
-- the printing of a number has as many units as its value and one more, which its digits never exceed.
--
-- Not modelled, since they are input and output with no state of the program's own: a query that breaks
-- off between two rows, the opening and migrating of the database, the headers of responses, the
-- listener, the signals and the shutdown of main.go, and the embedded web page.
pub mod Base
pub mod Db
pub mod Clients
pub mod Env
pub mod Api
pub mod Worker
pub mod Main
