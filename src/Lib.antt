-- ===== src/Lib.antt =====
-- Openbook DEX: the on-chain program under dex/, a central limit order book. A market has two slabs of
-- orders (bids and asks), a request queue and an event queue; a trader has an open orders account.
-- An order is matched against the opposite slab in rounds. A round trades with the best order there,
-- writes events to the event queue, adds what it moves to the proceeds of the request, and posts or
-- releases what is left. The definitions follow the Rust source, function by function.
--
-- Files, with the source that each is about:
--   Prelude     names of the library, tests on numbers, lists, machine integers
--   Error       dex/src/error.rs; DexResult has a third outcome, panic, which aborts the transaction
--   Fees        dex/src/fees.rs
--   Queue       Queue of dex/src/state.rs, generic over its header
--   Types       Side, OrderType (dex/src/matching.rs), SelfTradeBehavior (dex/src/instruction.rs)
--   Event       Event and EventView of dex/src/state.rs
--   Request     Request and RequestView of dex/src/state.rs, and the order ids of gen_order_id
--   Critbit     dex/src/critbit.rs: Node (node views and keys), Alloc (the slab as an allocator),
--               Handles (what its handles read), Find, Insert, Remove, Walk; Prefix (bits of keys),
--               Free (the chain of free nodes), Trie (the tree that the nodes stand for), Sorted
--               (the list of orders that it is), Branch, Moves, Split, Grow, Descent (an insertion), Unlink,
--               Erase (a removal), Book, Delete, Lookup, Extremes, Ends (each operation on the whole
--               slab), Paths (where the walks of Find end)
--   Market      MarketState of dex/src/state.rs; its children: Versions (the two layouts of a market
--               account), Loads (the accounts that are checked against a market)
--   OpenOrders  OpenOrders of dex/src/state.rs
--   Matching    dex/src/matching.rs: State (the book, the market, the event queue and the proceeds as
--               one record), Ask (new_ask), Bid (new_bid), Order (new_order), Cancel (the
--               cancels and process_orderbook_request), Post and Proceeds (postconditions), Book,
--               Best, Entry (the two slabs as lists of orders), Sample (a book for the tests)
--   Vault       process_settle_funds and process_sweep_fees of dex/src/state.rs, over any token program
--   Place       process_new_order_v3 of dex/src/state.rs: locking funds, matching, booking the proceeds;
--               Deposit (the whole handler, with the clock and the token transfer)
--   Consume     process_consume_events of dex/src/state.rs; Refine has the abstract consumer, a relation
--               on the list of events and the accounts
--   Instruction dex/src/instruction.rs: the instructions, Unpack, and Pack over any serializer
--   Handlers    account_parser of dex/src/state.rs and the handlers that make a market,
--               cancel, prune, close and replace, each from its accounts on; Book has a relation of
--               runs of instructions on one market
-- The children of a module prove about it; its Tests apply the theorems to concrete inputs.
--
-- Numbers. A u64 or u128 is a natural number, and what bounds it is a hypothesis where it matters. The
-- release profile of dex/Cargo.toml leaves overflow checks off, so the operators of the source wrap:
-- add64, sub64 and mul64 write the wrap out. checked_add(..).unwrap() and division by zero panic.
--
-- Loops. The loops down the critbit tree run on the fuel path_fuel = 129: prefix lengths grow along a
-- path and stay below 128. A loop that runs out of fuel is a panic. A queue's iterator runs on one step
-- more than the queue has items. The loop of new_order recurses on its limit, which counts down. The
-- loops of new_ask and new_bid run their body once, because each path through it breaks or returns.
--
-- Outside the repository. The token program, bincode's serializer, rent and the hash that names the
-- signer of a vault are parameters, with their documented behaviour as laws where a theorem needs it.
--
-- Not modelled: the bytes of the Solana runtime's accounts and their padding (an account carries its
-- contents), the dispatch of State::process, send_take, which is unimplemented!(), the proxy under
-- dex/permissioned, and the clients (dex/crank, common). Logging is left out.
pub mod Prelude
pub mod Error
pub mod Fees
pub mod Queue
pub mod Types
pub mod Event
pub mod Request
pub mod Critbit
pub mod Market
pub mod OpenOrders
pub mod Matching
pub mod Vault
pub mod Place
pub mod Consume
pub mod Handlers
pub mod Instruction
