-- ===== src/Handlers.antt =====
-- Handlers of dex/src/state.rs with what `account_parser` asks of their accounts: `Cancels` the
-- cancels and `process_prune`, `Admin` the events, the fees and the flags of a market, `Orders` the
-- opening and the closing of an open orders account, `Placing` new orders and those that replace
-- others, `Initialize` the making of a market. A `with_parsed_args` takes the accounts that it
-- names, each with the contents that are read from it, and the number of accounts.
pub mod Accounts
pub mod Cancels
pub mod Admin
pub mod Orders
pub mod Placing
pub mod Initialize
pub mod Balances
pub mod Book
pub mod Signers
pub mod Closing
pub mod Funded
pub mod Deposits
pub mod NewMarket
pub mod Fresh
mod Tests
