-- ===== src/Scrt/MasterMsg.antt =====
-- packages/scrt-finance/src/master_msg.rs: the messages of the reward sources.
use secret_finance_rewards.Common.{ℕ, String, List}
use secret_finance_rewards.Scrt.Types.{HumanAddr, Schedule, WeightInfo}

pub record MasterInitMsg : Type 0 where
  pub gov_token_addr : HumanAddr
  pub gov_token_hash : String
  pub minting_schedule : Schedule

pub data MasterHandleMsg : Type 0 where
  update_allocation : (spy_addr : HumanAddr) (spy_hash : String) → MasterHandleMsg
  set_weights : (weights : List WeightInfo) → MasterHandleMsg
  set_schedule : (schedule : Schedule) → MasterHandleMsg
  set_gov_token : (addr : HumanAddr) (hash : String) → MasterHandleMsg
  change_admin : (addr : HumanAddr) → MasterHandleMsg

pub data MasterHandleAnswer : Type 0 where
  success failure : MasterHandleAnswer

pub data MasterQueryMsg : Type 0 where
  admin : MasterQueryMsg
  gov_token : MasterQueryMsg
  schedule : MasterQueryMsg
  spy_weight : (addr : HumanAddr) → MasterQueryMsg
  pending : (spy_addr : HumanAddr) (block : ℕ) → MasterQueryMsg

pub data MasterQueryAnswer : Type 0 where
  admin : (address : HumanAddr) → MasterQueryAnswer
  gov_token : (token_addr : HumanAddr) (token_hash : String) → MasterQueryAnswer
  schedule : (schedule : Schedule) → MasterQueryAnswer
  spy_weight : (weight : ℕ) → MasterQueryAnswer
  pending : (amount : ℕ) → MasterQueryAnswer
