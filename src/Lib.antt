-- ===== src/Lib.antt =====
-- The execution, risk and feed core of the trading engine in core/.
--
-- The engine reads order books from exchanges (core/feeds), turns the position its strategy wants
-- into a parent plan (core/execution/common/orders/parent_order_manager.hpp), sends child orders
-- through a connector to a venue (core/execution/common/connectors) and stops on the checks of
-- core/risk. The connector keeps a journal of its requests and a map from its own order ids to those
-- of the venue. Fills come back from the connector's thread through a ring.
--
-- Orders/SpscQueue: `SpscQueue` of core/execution/common/orders/order_manager.hpp. Refines and Fifo are
--   about calls one after the other, Threads about the two threads interleaved at each access to
--   shared memory, in one order of all accesses, which the acquire and release orders provide.
-- Orders/ParentPlan: core/execution/common/orders/parent_order_manager.hpp. Quantities are integers in
--   units of 1e-9, the source's resolution, so NaN and infinities do not occur. What the source leaves uninitialised is an argument.
-- Risk/KillSwitch: core/risk/kill_switch.hpp and core/risk/recovery_guard.hpp.
-- Risk/CircuitBreaker: core/risk/circuit_breaker.hpp, over `Common/Double`, a type with operations of
--   which nothing is assumed, so the theorems hold for IEEE arithmetic. Counters are 32-bit patterns.
-- Connectors/Journal: core/execution/common/connectors/idempotency_journal.hpp. The file is its bytes,
--   written and read as in Connectors/Records and Connectors/Text; a line is written whole.
-- Connectors/OrderMap: core/execution/common/connectors/venue_order_map.hpp.
-- Connectors/LiveConnector: core/execution/common/connectors/live_connector_base.hpp. The venue is a
--   function from the log of calls to an answer. Signatures and headers are not modelled.
-- Portfolio/PositionLedger: core/execution/common/portfolio/position_ledger.hpp, over `Common/Double`.
-- Portfolio/OrderManager: `OrderManager` of core/execution/common/orders/order_manager.hpp, over
--   `Common/Double`, with the connector as a function from an order to its result and one reading
--   of the clock for all the fills of a drain.
-- Risk/GlobalRisk: core/risk/global_risk_controls.hpp, over `Common/Float`, which adds conversions and
--   literals to `Common/Double`. What lies behind the symbol table is an argument.
-- Connectors/Reconciliation: core/execution/common/reconciliation. What the venues, the fetchers of
--   canonical snapshots and the clock answer is an argument, and so is what a DriftDecision holds where
--   the source leaves it unset. Hooks and calls of the position ledger are recorded in order.
-- Books/OrderBook: core/orderbook/orderbook.hpp, over `Common/Float`. A cell is a size with its order
--   count, which the source keeps in two vectors. The checksum of a snapshot is an argument.
-- Portfolio/IntentEngine: core/execution/common/portfolio/portfolio_intent_engine.hpp, over
--   `Common/Float`. The target that the source leaves unset is an argument.
-- Portfolio/SessionAccounting: core/execution/common/portfolio/live_session_accounting.hpp, over
--   `Common/Float`.
-- Routing/Router: core/execution/router/smart_order_router.{hpp,cpp}, and Routing/ChildScheduler:
--   core/execution/common/orders/child_order_scheduler.hpp, both over `Common/Float`. The counts, weights
--   and styles that the source leaves unset are arguments.
-- Routing/VenueQuality: core/execution/common/quality/venue_quality_model.hpp, over `Common/Float`.
-- Ipc/LobPublisher: core/ipc/lob_publisher.hpp. The mapped file is a header and slots by their index, and
--   what the system calls return is an argument.
-- Ipc/SignalReader: core/ipc/alpha_signal.hpp and core/ipc/regime_signal.hpp. The file is a number and
--   five words; what memory holds at each load is an argument, restricted by the steps of a writer.
-- Feeds/BookManager: core/feeds/common/book_manager.hpp, which joins Books/OrderBook and
--   Ipc/LobPublisher.
-- Feeds/BinanceFeed: core/feeds/binance/binance_feed_handler.cpp. What the JSON library makes of a
--   message is data, a price is a value of any type, and the checksum function is a parameter.
-- Feeds/OkxFeed: core/feeds/okx/okx_feed_handler.cpp, in the same way, over `Common/Double`. The texts
--   that std::stod and std::stoull read are numbers, so that neither throws, and the CRC is a parameter.
--
-- Loops over arrays are recursion over lists. `retry` recurses on the number of attempts, which the
-- source bounds too. `drain_fills` takes a number of rounds: as many as the ring holds items suffice.
-- The loops of the router and the scheduler take five rounds: each but the last uses up one of four venues.
-- Times are natural numbers. Logging, sleeping, threads' starts and stops, sockets and the REST
-- interfaces of the venues are not modelled. Nor are the other feed handlers, the market maker and the
-- shadow engine.
pub mod Common
pub mod Orders
pub mod Risk
pub mod Connectors
pub mod Feeds
pub mod Portfolio
pub mod Books
pub mod Routing
pub mod Ipc
