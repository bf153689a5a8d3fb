-- ===== src/GovToken.antt =====
-- The governance token, contracts/gov-token: balances, allowances and minters, viewing keys and
-- histories, by the SNIP-20 standard.
pub mod ViewingKey
pub mod Msg
pub mod State
pub mod Handle
pub mod Query
pub mod Books
pub mod Ledger
pub mod Accounts
pub mod Stopped
pub mod Keys
mod Tests
