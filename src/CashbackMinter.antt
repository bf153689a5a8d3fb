-- ===== src/CashbackMinter.antt =====
-- The cashback minter, contracts/cashback-minter: it mints cashback for the swaps of supported pairs.
pub mod Asset
pub mod Msg
pub mod Handle
pub mod Pairs
mod Tests
