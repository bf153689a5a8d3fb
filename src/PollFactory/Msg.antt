-- ===== src/PollFactory/Msg.antt =====
-- contracts/poll-factory/src/msg.rs: the messages and answers.
use secret_finance_rewards.Common.{ℕ, List}
use secret_finance_rewards.Scrt.Types.{HumanAddr, Binary, SecretContract}
use secret_finance_rewards.Scrt.VoteTypes.{PollContract, PollConfig, RevealCommittee}
use secret_finance_rewards.PollFactory.State.{ActivePoll}

pub record InitMsg : Type 0 where
  pub prng_seed : Binary
  pub poll_contract : PollContract
  pub staking_pool : SecretContract
  pub default_poll_config : PollConfig
  pub min_staked : ℕ
  pub reveal_com : RevealCommittee

pub data QueryMsg : Type 0 where
  active_polls : (current_time : ℕ) → QueryMsg
  default_poll_config staking_pool poll_code admin reveal_committee minimum_stake : QueryMsg

pub data QueryAnswer : Type 0 where
  active_polls : (active_polls : List ActivePoll) → QueryAnswer
  default_poll_config : (poll_config : PollConfig) → QueryAnswer
  staking_pool : (contract : SecretContract) → QueryAnswer
  poll_code : (contract : PollContract) → QueryAnswer
  admin : (address : HumanAddr) → QueryAnswer
  reveal_committee : (committee : RevealCommittee) → QueryAnswer
  minimum_stake : (amount : ℕ) → QueryAnswer

pub data ResponseStatus : Type 0 where
  success failure : ResponseStatus
