-- ===== src/Scrt.antt =====
-- The package that the contracts share, packages/scrt-finance/src, and what the contracts use of
-- the chain: `Env`, `HandleResponse`, the messages that a call emits.
pub mod Types
pub mod Bytes
pub mod LpStakingMsg
pub mod MasterMsg
pub mod VoteTypes
pub mod Chain
pub mod ViewingKey
