-- ===== src/BulkDistributor.antt =====
-- The bulk distributor, contracts/bulk-distributor: it spreads each bulk of reward tokens that the
-- admin sends evenly over a number of blocks, and pays one staking contract ("spy").
pub mod State
pub mod Msg
pub mod Rewards
pub mod Handle
pub mod Blocks
pub mod Owed
pub mod Backed
pub mod Agreement
pub mod Access
mod Tests
