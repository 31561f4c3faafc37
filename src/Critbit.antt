-- ===== src/Critbit.antt =====
-- dex/src/critbit.rs: an order book side is a critbit tree of orders inside a slab of equal nodes.
-- `Node` has the nodes, `Alloc` the slab as an allocator, `Find`, `Insert`, `Remove` and `Walk`
-- the operations on the tree, `Trie` and `Sorted` what a slab stands for.
pub mod Node
pub mod Alloc
pub mod Handles
pub mod Free
pub mod Prefix
pub mod Trie
pub mod Sorted
pub mod Branch
pub mod Moves
pub mod Split
pub mod Grow
pub mod Descent
pub mod Unlink
pub mod Erase
pub mod Book
pub mod Delete
pub mod Lookup
pub mod Ends
pub mod Extremes
pub mod Find
pub mod Insert
pub mod Remove
pub mod Walk
pub mod Paths
mod Tests
