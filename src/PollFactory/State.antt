-- ===== src/PollFactory/State.antt =====
-- contracts/poll-factory/src/state.rs: the stored values, one field for each key.
use secret_finance_rewards.Common.{ℕ, String, List, Option}
use secret_finance_rewards.Scrt.Types.{HumanAddr, Binary, SecretContract}
use secret_finance_rewards.Scrt.VoteTypes.{PollContract, PollConfig, RevealCommittee}
use secret_finance_rewards.PollFactory.Challenge.{Challenge}

pub record Config : Type 0 where
  pub poll_contract : PollContract
  pub staking_pool : SecretContract
  pub id_counter : ℕ
  pub prng_seed : Binary
  pub min_staked : ℕ
  pub reveal_com : RevealCommittee

pub record ActivePoll : Type 0 where
  pub address : HumanAddr
  pub hash : String
  pub end_time : ℕ

-- The storage after `init`. The polls are read with `unwrap_or_default`, so that no value there is
-- no poll.
pub record Deps : Type 0 where
  pub admin : HumanAddr
  pub default_poll_config : PollConfig
  pub config : Config
  pub current_challenge : Option Challenge
  pub active_polls : List ActivePoll
