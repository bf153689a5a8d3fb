-- ===== src/DevFund.antt =====
-- The development fund, contracts/dev-fund: it accumulates its allocation of the governance token,
-- and its beneficiary redeems it.
pub mod Msg
pub mod State
pub mod Handle
pub mod Query
pub mod Balance
pub mod Access
pub mod Redeem
mod Tests
