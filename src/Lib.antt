-- ===== src/Lib.antt =====
-- The exfer-honor library: it turns a quote that was accepted and paid on a chain into one delivery of
-- goods. A host registers a quote, and then asks the engine to honor it; the engine scores the payments
-- that the chain shows by the quote's settlement form, and opens the gate, one transaction of the
-- database that locks the quote's row, takes the payment's outpoint and calls the consumer's `deliver`.
--
-- The files, and the code that each models:
--   Base         texts, Boolean tests, lists and dictionaries that the modules share.
--   Spec         src/spec: Types (types.ts), Errors (errors.ts) and Datum (datum.ts), the strict codec
--                `decodeSettlementDatum`, `encodeSettlementDatum` and `asQuoteId`; Datum/Laws.
--   Ports        src/ports: Store, Chain (also custody.ts), Form and Deps, the interfaces as records of
--                effects. Effect is what an awaited call is: a function from a state to a value or a
--                throw and a new state. World is that state: the database, the engine's `claimTxIds`,
--                the HTLC form's `claims` and the rest of the world, which is a parameter. Alike relates
--                calls over two states, and Lift makes a port of the rest of the world one of the whole.
--   Store        src/adapters/sqlite-store.ts and ddl.ts: Rows (the tables and `rowFromSql`), Amount
--                (`amountToText`), Table (what the SQL statements do to a list of rows), Txn
--                (`db.transaction`) and Sqlite, one function for each method of `SqliteStore`, with
--                `runHonorTxn` as its three steps. Contract is what a store promises, apart from any
--                tables. Sqlite/View reads the contract's gate off the tables, Sqlite/Refines and
--                Sqlite/Honor (with Sqlite/Lock and Sqlite/Consume) prove the methods against it,
--                Sqlite/Keys keeps the primary keys, Sqlite/History runs sequences of calls, and
--                Sqlite/Port makes it a store port. Postgres is postgres-store.ts, each method of
--                `PostgresStore`; Postgres/Sync maps its rows to those of the other store, and
--                Postgres/Honors and Postgres/Reads compare the two; Postgres/Port is the store port.
--                Fake is `FakeSyncStore`, the reference store in memory of
--                src/core/fakes.test-helpers.ts; Fake/Keys keeps its keys unique, Fake/Refines and
--                Fake/Honors compare it with `SqliteStore` call by call, Fake/History over sequences of
--                calls, and Fake/Port makes it a store port. Keyed: what a statement on a keyed table changes.
--   Forms        src/forms: Address (address.ts), Spine (spine.ts), Plain (plain.ts), Htlc (htlc.ts) and
--                Echo (examples/trivial-form.ts), the functions with the source's names; under each,
--                what it asks of a payment. Alike and Htlc/Alike run the forms over two states.
--   Core         src/core: Registry, Scorer, Alike (over two stores) and Engine (`register`,
--                `markObserved`, `canHonor`, `honor`, `status`, `sweep` and `createHonorEngine`);
--                Engine/Commit, Engine/Async, Engine/Paid, Engine/Repeats, Engine/Registers,
--                Engine/Observes, Engine/Pays, Engine/Reads and Engine/Honors (when a quote is honored, by
--                the engine's steps and by the calls of its ports), Engine/PlainPays (with the plain form
--                over `SqliteStore`), Engine/Calls (sequences of calls), and Engine/Alike and
--                Engine/BothStores (one engine over two stores).
--   Adapters     src/adapters: HexText and Wire (indexer-chain.ts, `hexToBytes`, `ByteReader` and
--                `decodeTxHex`), with the wire layout as a relation in Wire/Layout; Indexer (its class
--                `IndexerChainSource`), Custody (keystore-custody.ts), Verifier (walletd-verifier.ts)
--                and Messages, what they read of a thrown value.
--   Service      src/service: the loop of `onPaid` (honor-service.ts) as a state machine over ticks and
--                cancellations, with Service/Loop; Service/Create (`createHonorService`); and
--                Service/HttpRpc (http-rpc.ts), one remote call with its retries.
--   Conformance  src/conformance/harness.ts: the chain, keys and clock that its tests set, and the engine that
--                `buildEngine` makes; Conformance/BothStores runs it over both reference stores.
--   Examples     examples: Merchant and PriceFeed (merchant/merchant.ts, merchant/priceFeed.ts) and Faucet
--                (testnet-faucet/faucet.ts), the routes of its server, with Faucet/Budget; TestnetLoop
--                (testnet-loop/loop.ts), the rows of its demo and its ledger, with TestnetLoop/Row,
--                TestnetLoop/Rows and TestnetLoop/Ledger.
--   Tests        runs of the code and the theorems at concrete inputs.
--
-- How the code is rendered:
--   - A call that is awaited may change any part of the state, so what other tasks do meanwhile is part
--     of the call. Every method of `SqliteStore` is one synchronous call on one connection, so a history
--     of a store is a list of calls in the order in which they reach it, from any number of engines.
--   - A throw is a value: a `HonorError` by its code, a `GateViolation` by its kind, any other error by
--     its JSON-RPC code and message, and a mark on what the consumer's `deliver` threw.
--   - Amounts, times and heights are natural numbers, and a hex string is its code units. The depth tests
--     `tip - height + 1 < n` are written without subtraction. The 32-bit words of the address fold keep
--     their wrap-around. The digits of a number are written by recursion on fuel, one more than the
--     number, which is proved enough for amounts by the round trip.
--   - Chain, keystore, clock and the HTLC form's reserver are parameters, as is the consumer's `deliver`
--     over the goods tables that share the gate's connection.
--   - A remote call is one parameter for each JSON-RPC method, and so are `fetch`, the wait between two
--     attempts, the daemon's test-sign and the driver's reading of a BIGINT column. A link to Postgres
--     is how its connect, BEGIN and COMMIT end; an answer to the COMMIT may be lost after it was taken.
--     A statement that fails inside the transaction ends as a COMMIT that is not taken.
--   - The decoder's state is the list of the bytes that it has not read. Its loops run on the counts of
--     the header, and the retries on the number of attempts left, five, so no fuel is chosen.
--   - The lower case of a text is that of ASCII, the Kelvin sign and the dotted capital I; no phrase that
--     the adapters look for holds another letter.
--   - The goods that the fake store stages in memory are the set of their keys, and the database whose
--     goods it is compared with is one where `deliver` adds a key to the same set. Its ledger is keyed by a
--     text that joins txid and index, or by the quote's id; the comparison asks for ids without a colon.
--   - The remote calls of the testnet loop are the parameters `Remotes`; reading the clock and waiting
--     do not throw.
--   - The faucet's `serve` handles a request to its end before the next one; `admit` and `book` are what it
--     does before and after its transfer is awaited.
--
-- What is not modelled: the logger, the free-text details of verdicts and messages (of a message, the
-- offsets and names in it), the test of a store's handle and API version at construction, the DDL, the
-- envelope and headers of a JSON-RPC request, JSON itself, numbers beyond 2 ^ 53 that JavaScript rounds,
-- the timers of `onPaid` and a cancellation while its registration is awaited, the faucet's
-- environment and the faults of its database, the executors of the conformance vectors and the other
-- fakes of the tests, which run the code at one input each, the identities, HTTP server and shutdown
-- of the testnet loop, and the other example hosts and scripts, which start processes and call remote
-- nodes.
mod Base
pub mod Spec
pub mod Ports
pub mod Store
pub mod Forms
pub mod Core
pub mod Adapters
pub mod Service
pub mod Conformance
pub mod Examples
pub mod Tests
