-- ===== src/Lib.antt =====
-- Verification of the trading core of nexocrypto: the strategies and the scan that runs them, the
-- deterministic risk engine, the executor, paper trading and backtests, and the control API that carries an
-- approved signal to a live order.
--
-- A scan takes candles and funding from the venue, runs every strategy on them and hands each signal to the
-- risk engine with the state of the account. `RiskEngine.authorize_new_entry` runs it through the
-- guards, the liquidation gate, the sizing, the expected value gate and the claim of its deduplication
-- key, and gives a decision. The API queues approved decisions. A human's click on approve goes through
-- the route to the coordinator, which sends the order by `ExecutionEngine.open_position`, if the mode,
-- the switches and the connection of the user allow it, and records what happened.
--
-- Files, with the code that they model (paths from the repository's root):
--   Prelude        names passed on, native integers, exceptions as results, dicts as association lists
--   Decimal        Python's `decimal.Decimal` as the code uses it; Order, Sign, Rounding and
--                  Bounds are its lemmas
--   Shared         packages/shared/src/nexocrypto_shared: enums.py, models.py, dedup.py
--   Risk           services/engine/src/nexocrypto_engine/risk: a module per file. Types types.py, Guards
--                  guards.py, Sizing sizing.py, Ev ev.py, Liquidation liquidation.py, Protected
--                  protected.py, Idempotency idempotency.py, Engine engine.py. Their children hold
--                  the proofs, and are named for what they prove.
--   Execution      services/engine/src/nexocrypto_engine/execution/executor.py, with OrderRequest and
--                  OrderResult of connectors/src/nexocrypto_connectors/base.py
--   Strategies     services/engine/src/nexocrypto_engine/strategy: the contract of base.py, Series and
--                  Indicators indicators.py, Trend ema_adx_trend.py, MeanReversion
--                  vwap_rsi_meanrev.py, Structure fvg_ob.py; the other children hold proofs
--   Backtest       services/engine/src/nexocrypto_engine/backtest: Fills fills.py, Runner runner.py,
--                  Metrics metrics.py
--   Paper          services/engine/src/nexocrypto_engine/paper/engine.py
--   Api            services/api/src/nexocrypto_api: State, Signals, Approvals, Ledger, Modes, Tenants and
--                  Connections are `InMemoryStore` of store.py, Coordinator is
--                  execution_coordinator.py, Routes is the approval and mode handlers of routes.py
--   Worker         services/worker/src/nexocrypto_worker: Scanner scanner.py
--   Telegram       services/telegram_control/src/nexocrypto_telegram_control/bot.py: Texts and Control
--   Venue          connectors/src/nexocrypto_connectors/bitunix/ws.py: Socket
--   Examples       the theorems at concrete inputs, and tests that run the definitions
--
-- State and operations. A class that keeps state is a record, and an operation takes it and gives it
-- back. The idempotency store is an interface, `IdempotencyStore`, of two operations and the laws that a
-- client relies on; `in_memory_store` fills it from the code of `InMemoryIdempotencyStore`. A function
-- that can raise returns `Result`. An executor call returns the orders that reached the venue along with
-- its report, so that "nothing is sent" is a statement. Coroutines run one after another.
--
-- Numbers. A Decimal is a coefficient and an exponent with a precision of 28 digits, rounded half to
-- even as the default context does; the bounds of the exponent are not modelled, nor are trailing zeros
-- of a result, which no comparison sees; where the source keeps a quantity or a price as its text, as the
-- reports and rows do, the model keeps the number. A datetime and a reading of the monotonic clock is a count of
-- microseconds, so the rounding of `total_seconds` to a float is not modelled. A UUID is a number, and
-- `uuid4` takes the next one of a supply. Recursion is structural, except for the outer loop of the backtest,
-- whose next index is computed: it runs on fuel, and as much as there are candles is enough, since every turn
-- goes ahead by at least one candle.
--
-- Parameters. SHA-256, `strip` and `lower` are the record `Hashing`, the texts of decimals, integers and dates
-- the record `Formatting`. What the strategy makes of a snapshot is an argument of a paper tick. The
-- candles and the funding of a scan are functions that may raise, as is a strategy; the id of its signal
-- and the reading of the clock in its turn are arguments. The venue of the executor is a function from an
-- order to its reply, which is a result, a ConnectorError or another exception. The connector factory,
-- which decrypts the stored keys, is a function that may raise. What the network makes of a call of the stream is an argument of the call.
-- Laws are assumed of the idempotency store, and of the text of a UUID, which reads back.
--
-- Not modelled: the connectors' HTTP clients and the contents of the websocket's envelopes, the Postgres store,
-- authentication and administration, the parser of Telegram messages, which is regular expressions, the bot's
-- HTTP calls and the LLM analyst; the scanner's daemon and command line, which call one scan and print.
pub mod Prelude
pub mod Decimal
pub mod Shared
pub mod Risk
pub mod Execution
pub mod Strategies
pub mod Backtest
pub mod Paper
pub mod Api
pub mod Worker
pub mod Telegram
pub mod Venue
pub mod Examples
