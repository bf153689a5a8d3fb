-- ===== src/LpStaking.antt =====
-- The staking contract, contracts/lp-staking: users lock the incentivized token and earn the
-- reward token that the reward sources allocate.
pub mod State
pub mod Rewards
pub mod Admin
pub mod Handle
pub mod Query
pub mod Accounting
pub mod Amounts
pub mod Balance
pub mod Allocation
pub mod Flows
pub mod Solvency
pub mod Withdraw
pub mod Notified
pub mod Redemption
pub mod Effects
pub mod Access
pub mod Forecast
mod Inputs
mod Tests
