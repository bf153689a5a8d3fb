-- ===== src/WeightMaster.antt =====
-- The emission contract, contracts/weight-master: it mints the governance token by a schedule and
-- shares it among the staking contracts by weight.
pub mod State
pub mod Emission
pub mod Handle
pub mod Schedule
pub mod Minted
pub mod Weights
pub mod Shares
pub mod Updates
pub mod Access
mod Tests
