-- ===== src/Lib.antt =====
-- OverUnder: a prediction market with an off-chain order book, a relayer that settles its matches on
-- chain, an indexer that mirrors the chain's events, markets that users list, and oracles that list
-- and resolve markets. This library models the trading halt, the routes of the order book with the
-- order matching, the relayer, the user listings, the indexer and the oracles' fallback, all in Python,
-- and states what makes them correct.
--
-- How the parts interact. A new order is matched at once: `try_match` takes from the resting orders in
-- the database, row by row with guarded updates, and for each fill adds a trade and, where the relayer
-- is ready, a relay job. The relay worker takes the jobs on: it checks a match against the chain
-- (preflight), signs it on a reserved nonce with a quoted fee, broadcasts it, and follows its
-- transactions until a receipt settles the job or the fill is rolled back. An order comes in by
-- `post_order`, which runs the matcher, and `cancel` rolls back the jobs that were not sent. A user's
-- listing is prepared by one route, sent by the user, and made public by the confirm route or by the
-- indexer, both through `review_user_listing`; the trading halt reads its row. The indexer reads the
-- chain's blocks in windows, each committed by its checkpoint.
--
-- Which file models which part:
--   Prelude            shared names, Boolean tests, lists, tables (rows with a key)
--   Settings           backend/app/config.py, and relayer_ready of backend/app/relayer/queue.py
--   Market             backend/app/markets/trading.py: halts_at, trading_open, trading_halt_reason
--   Db                 backend/app/models.py: orders, trades, relay jobs, and the database
--   Orderbook/Rows     backend/app/orderbook/matcher.py: _remaining, _crosses, _take, _give_back
--   Orderbook/Match    try_match of the same file, enqueue_match of backend/app/relayer/queue.py
--   Relayer/Gas        backend/app/relayer/gas.py
--   Relayer/Nonce      backend/app/relayer/nonce.py, and _nonce_floor of the worker and of the emissions
--                      route
--   Relayer/Queue      rollback_job of backend/app/relayer/queue.py
--   Relayer/Preflight  backend/app/relayer/preflight.py; its child Exchange has hashOrder, _recover,
--                      _validate and matchOrders of contracts/src/Exchange.vy, and safeTransferFrom of
--                      contracts/src/ConditionalTokens.vy
--   Relayer/Worker     backend/app/relayer/worker.py: _hashes, _find_receipt, _confirm, _fill_verdict;
--                      Retire (_retire_after_revert and what it calls), Settle (_apply_receipt,
--                      _rebroadcast, _nonce_consumed, _settle_consumed), Reconcile (_bump,
--                      _reconcile, _guard, the first loop of tick), Send (_send and what it calls,
--                      the second loop of tick), Moves (evidence for what a pass does to a job)
--   Oracles/Fallback   oracles/consensus/fallback.py, and run_fallback of oracles/resolve/fallback.py
--   Text               Python's str and re, as far as the listing gates use them
--   Listings/Gates     backend/app/markets/listing_gates.py
--   Listings/Review    backend/app/markets/visibility.py
--   Listings/Prepare   listing_prepare of backend/app/markets/listing.py, with its reads
--   Listings/Confirm   listing_confirm and _apply_confirm of the same file
--   Listings/Indexed   _index_user_listing of backend/app/indexer/listener.py
--   Indexer            the rest of that file: Price (the prices and points), Plan (resolve_start_block,
--                      plan_ranges, next_delay), Checkpoint (_load_checkpoint, advance_checkpoint),
--                      Events and Amm (index_range, _index_amm_history), Tick (index_once, the loop)
--   Orders/Signing     backend/app/orderbook/eip712.py
--   Orders/Post        post_order of backend/app/orderbook/router.py, with _check_fields, _open_orders,
--                      _reserved
--   Orders/Cancel      cancel of the same file
--   Emissions          distribute of backend/app/emissions/router.py under the nonce lock, with
--                      _refresh, _live_rows, _nonce_floor, _duplicate and _mined_earlier
--   Tests              concrete books, jobs and chains
--
-- State. The database is a record of tables; a function that writes takes it and returns it. In the
-- matcher, what other sessions commit before each statement is a list of batches of writes, `World`.
-- In the worker, the state of a step is `State`: the database, the job's object, the nonce cache, the
-- counts, the database of the last commit, and the raw transactions broadcast so far. A step that
-- raises is rolled back to the last commit, as `_guard` does.
--
-- Conventions. Hashes, addresses, condition ids, salts and signatures are the numbers that their
-- hex texts spell, so comparisons that ignore case are equalities. One reading of the clock
-- stands for the readings within one call. `amount - filled` stops at 0; the code compares it
-- with 0 and takes minima only. `last_error` is one of the kinds of message that the code writes.
-- The answers of the node are arguments: `Ledger` for the reads of a preflight (a failed read is
-- no ledger), `Chain` for the worker, before and after a broadcast. The signer is a function of
-- the transaction. The Python integers are unbounded, and so are the numbers here; a request's
-- integers may be negative. The contract's sums and products are tested against 2 ^ 256. The
-- answers of the factory are arguments of the listing routes, `none` where a call fails, and
-- those of the node are the record `Node` of a tick. keccak, the recovery of a signer, the normal
-- distribution and the Unicode tables are parameters. No definition needs fuel: the two tries for
-- a maker are a recursion on the number 2, `plan_ranges` is a recursion on the number of windows
-- that it may add, and every other loop is over a list.
--
-- Not modelled: leader election (a flag of each tick) and the sleeping loops, the views among the HTTP
-- routes and the routes of other parts, the tests, the estimate and the fees of a distribution, AMM
-- quotes, the oracles' research and scheduling, the other contracts, and the web and mobile clients. USDC
-- is a parameter that pays where its standard promises it.
pub mod Prelude
pub mod Text
pub mod Settings
pub mod Market
pub mod Db
pub mod Listings
pub mod Indexer
pub mod Orders
pub mod Emissions
pub mod Orderbook
pub mod Relayer
pub mod Oracles
pub mod Tests
