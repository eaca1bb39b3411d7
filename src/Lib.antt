-- ===== src/Lib.antt =====
-- QuantForge: a back-testing engine. A plugin sees one bar after another and answers with orders; the engine
-- executes them against the bar, keeps the account and the open orders, and draws an equity curve.
--
-- The parts and their files (paths from the repository's root):
--   Heap                src/utils/min_heap.hpp, max_heap.hpp: MinHeap and MaxHeap as one heap over `before`
--   Money               src/utils/money_utils.hpp and .cpp: amounts of microdollars and their texts
--   Models              src/simulators/back_test/models.hpp: orders, fills, exit orders, results
--   Params, Manifest    src/plugins/manifest: the parameters of a plugin and the checks of manifest.cpp
--   State               src/simulators/back_test/state.hpp and .cpp: the account and what a bar sets in it
--   Ledger              state.cpp, update_state: what a fill does to the account, and the FIFO of open fills
--   Snapshot            state.cpp, record_bar_equity_snapshot: the equity curve
--   Equity              equity_calculator.cpp
--   Exchange            exchange.cpp, slippage_calculator.cpp, src/utils/time_utils.cpp
--   PositionCalc        position_calculator.cpp: sizes of signals, positions, the fills that a fill closes
--   Closing, Margin     executor.cpp, calculate_closing_margin_info and the checks of validate_margin
--   Executor            executor.cpp, execute_order: an order becomes a fill or an error
--   AbiConverter        abi_converter.cpp, to_instruction: what a plugin sends
--   ExitBook, LimitBook exit_order_book.cpp and limit_order_book.cpp: the pending orders
--   Engine              back_test_engine.cpp: the loops over the books, the plugin's instructions and `run`
--   StringUtils         src/utils/string_utils.cpp on lists of bytes, and the decimals of the C library
--   Http                src/http: CacheMeta and Cache (cache/network_cache.cpp), Headers and Client
--                       (client/curl_easy.cpp), Provider (api/stock_api.cpp, provider/polygon.cpp)
--   ThreadPool          src/utils/thread_pool.cpp: the workers as a step relation
--   DataStore           src/forge/stores/data_store.cpp: the bars of each plugin and symbol, behind a mutex
--   Forge               src/forge/forge_engine/forge.cpp: the builder of the engine
-- Common has the shared names, Result the ways in which a call ends, Double the parameter for `double`, and
-- Tests a market on which the theorems are applied.
--
-- How they interact: `Engine.Run.run` prepares each bar in the State, runs the order book, the limit books
-- and the exit book, asks the plugin, schedules its instructions and records the equity. Each of those loops
-- pops an order and calls `Engine.execute`, which is `execute_order` followed by `handle_execution_result`;
-- the latter reduces the exit orders of the fills that close, adds the new ones, schedules what is left of a
-- partial fill and calls `update_state`. The loops of the books stand in Engine, since their callback changes
-- the book that they run over.
--
-- Choices. A std::map is an association list in key order. Amounts are integers without a bound: a run whose
-- amounts leave int64_t is outside the model, but for parse_microdollars, where the wrap-around is written out.
-- `double` is a type with the operations that the engine calls; a theorem that needs a law of IEEE 754 takes IsIeee. A uuid comes from `create_uuid n`, the n-th text
-- drawn, one for each execution. The heap's own loops take as many rounds as the index or the size, which is
-- enough, since each round halves or doubles the index. The loops over the books take a number of rounds and
-- are `unfinished` when they use it up. Each round takes an order off its queue, so a round more than the
-- queue has orders is enough where nothing comes back, that is where fill_max_pct_of_volume is not set. With
-- it, a partial fill can come back in the same bar, and the source's loop need not end either. The bars of
-- `run` are an argument: the call of get_iterable_plugin_data that fetches them in the source is that of
-- DataStore, and is not part of `run` here.
--
-- Http is apart from the engine, which finds its bars in a DataStore. Its calls are functions of a World: the
-- files, the clock, the client's members and the requests sent. An exception is a value, and what a call wrote
-- before it threw stays written. libcurl, the file system, the hash of a url and the random numbers are the
-- functions of a record, Libraries. A `long` has 64 bits; twenty digits are printed, which is enough below
-- 10 ^ 20. The retries are a recursion on the attempts that are left. The length of the longest std::string is
-- an argument of parse_microdollars. In ThreadPool a block under the mutex is
-- one step, and so is each notification behind it; a worker that sleeps in its wait makes no step until it is
-- woken. In DataStore a call that locks the mutex twice is `blocked`.
--
-- Not modelled: the loaders of plugins, the report store, the calls of the engine that run the
-- plugins on the thread pool, the options that a manifest passes on to a plugin, the parsing of JSON, the
-- options of libcurl, the export of the account to C structs, and the console. The plugin is an Environment:
-- any functions for its calls, on a state of any type.
pub mod Common
pub mod Heap
pub mod Result
pub mod Double
pub mod Money
pub mod Models
pub mod Params
pub mod State
pub mod Ledger
pub mod Equity
pub mod Snapshot
pub mod Exchange
pub mod PositionCalc
pub mod Closing
pub mod Margin
pub mod Executor
pub mod AbiConverter
pub mod ExitBook
pub mod LimitBook
pub mod Engine
pub mod StringUtils
pub mod Http
pub mod ThreadPool
pub mod DataStore
pub mod Manifest
pub mod Forge
pub mod Tests
