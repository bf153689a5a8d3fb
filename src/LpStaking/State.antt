-- ===== src/LpStaking/State.antt =====
-- contracts/lp-staking/src/state.rs and constants.rs: the stored values, one field for each key.
-- The user records and the configuration keys share one key space in the source; an account
-- address is never spelled like one of the configuration keys.
use secret_finance_rewards.Common.{ℕ, String, Bool, List, Dict, lookup, unwrap_or}
use secret_finance_rewards.Scrt.Types.{
  HumanAddr, Binary, RewardPool, TokenInfo, UserInfo, SecretContract,
}
use secret_finance_rewards.Scrt.Chain.{HandleResponse}
use secret_finance_rewards.Scrt.LpStakingMsg.{LpStakingHandleAnswer}

abbrev pub response_block_size : ℕ
response_block_size = 256

abbrev pub reward_scale : ℕ
reward_scale = 1_000_000_000_000_000_000

pub record Config : Type 0 where
  pub admin : HumanAddr
  pub reward_token : SecretContract
  pub inc_token : SecretContract
  pub reward_sources : List SecretContract
  pub viewing_key : String
  pub prng_seed : Binary
  pub is_stopped : Bool
  pub own_addr : HumanAddr

-- The storage after `init`, which writes every key of the configuration.
pub record Deps : Type 0 where
  pub config : Config
  pub reward_pool : RewardPool
  pub token_info : TokenInfo
  pub subscribers : List SecretContract
  pub users : Dict UserInfo
  pub viewing_keys : Dict Binary

-- `load(addr).unwrap_or(UserInfo { locked: 0, debt: 0 })`
unfoldable pub load_user : HumanAddr → Deps → UserInfo
load_user addr d = unwrap_or (lookup addr d.users) (record { locked = 0; debt = 0 })

abbrev pub Response : Type 0
Response = HandleResponse LpStakingHandleAnswer

-- What a call that returns leaves: the storage, and the response.
abbrev pub Outcome : Type 0
Outcome = Deps × Response
