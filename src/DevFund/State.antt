-- ===== src/DevFund/State.antt =====
-- contracts/dev-fund/src/state.rs and constants.rs: the stored values.
use secret_finance_rewards.Common.{ℕ, String, Option, unwrap_or}
use secret_finance_rewards.Scrt.Types.{HumanAddr, SecretContract}
use secret_finance_rewards.Scrt.Chain.{HandleResponse}
use secret_finance_rewards.DevFund.Msg.{HandleAnswer}

abbrev pub response_block_size : ℕ
response_block_size = 256

pub record Config : Type 0 where
  pub admin : HumanAddr
  pub beneficiary : HumanAddr
  pub sefi : SecretContract
  pub master : SecretContract
  pub viewing_key : String
  pub own_addr : HumanAddr

-- The rewards are not stored before the first allocation.
pub record Deps : Type 0 where
  pub config : Config
  pub accumulated_rewards : Option ℕ

-- `load(ACCUMULATED_REWARDS_KEY).unwrap_or(0)`
abbrev pub load_balance : Deps → ℕ
load_balance d = unwrap_or d.accumulated_rewards 0

abbrev pub Response : Type 0
Response = HandleResponse HandleAnswer

abbrev pub Outcome : Type 0
Outcome = Deps × Response
