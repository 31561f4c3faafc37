-- ===== src/Matching.antt =====
-- dex/src/matching.rs: the matching engine. `State` has what a request works on, `Ask` and `Bid` one
-- round of matching for an order of each side, `Book` the two sides as lists of orders.
pub mod State
pub mod Ask
pub mod Bid
pub mod Post
pub mod Proceeds
pub mod Ledger
pub mod Order
pub mod Book
pub mod Best
pub mod Entry
pub mod Cancel
pub mod Sample
