-- ===== src/WeightMaster/State.antt =====
-- contracts/weight-master/src/state.rs, and the settings of each staking contract ("spy").
use secret_finance_rewards.Common.{ℕ, String, Dict, lookup, unwrap_or}
use secret_finance_rewards.Scrt.Types.{HumanAddr, Schedule, SpySettings}
use secret_finance_rewards.Scrt.Chain.{HandleResponse}
use secret_finance_rewards.Scrt.MasterMsg.{MasterHandleAnswer}

pub record State : Type 0 where
  pub admin : HumanAddr
  pub gov_token_addr : HumanAddr
  pub gov_token_hash : String
  pub total_weight : ℕ
  pub minting_schedule : Schedule

-- The storage after `init`. An address is never spelled like the key of the configuration.
pub record Deps : Type 0 where
  pub state : State
  pub spies : Dict SpySettings

-- `load(addr).unwrap_or(SpySettings { weight: 0, last_update_block: block })`
unfoldable pub load_spy : HumanAddr → ℕ → Dict SpySettings → SpySettings
load_spy addr block spies =
    unwrap_or (lookup addr spies) (record { weight = 0; last_update_block = block })

abbrev pub Response : Type 0
Response = HandleResponse MasterHandleAnswer

abbrev pub Outcome : Type 0
Outcome = Deps × Response
