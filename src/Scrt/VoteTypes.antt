-- ===== src/Scrt/VoteTypes.antt =====
-- packages/scrt-finance/src/secret_vote_types.rs: the messages and records of the polls.
use secret_finance_rewards.Common.{ℕ, String, List, Option}
use secret_finance_rewards.Scrt.Types.{HumanAddr, Binary, SecretContract}

pub record PollContract : Type 0 where
  pub code_id : ℕ
  pub code_hash : String

pub record PollConfig : Type 0 where
  pub duration : ℕ
  pub quorum : ℕ
  pub min_threshold : ℕ

pub record PollMetadata : Type 0 where
  pub title : String
  pub description : String
  pub vote_type : String
  pub author_addr : Option HumanAddr
  pub author_alias : String

pub record RevealCommittee : Type 0 where
  pub n : ℕ
  pub revealers : List HumanAddr

pub record InitHook : Type 0 where
  pub contract_addr : HumanAddr
  pub code_hash : String
  pub msg : Binary

pub record PollInitMsg : Type 0 where
  pub metadata : PollMetadata
  pub config : PollConfig
  pub reveal_com : RevealCommittee
  pub choices : List String
  pub staking_pool : SecretContract
  pub init_hook : Option InitHook

pub data PollHandleMsg : Type 0 where
  vote : (choice : ℕ) (staking_pool_viewing_key salt : String) → PollHandleMsg
  update_voting_power : (voter : HumanAddr) (new_power : ℕ) → PollHandleMsg
  finalize : (rolling_hash : String) → PollHandleMsg

pub data PollFactoryHandleMsg : Type 0 where
  new_poll :
      (poll_metadata : PollMetadata) (poll_config : Option PollConfig) (poll_choices : List String)
      (pool_viewing_key : String)
      → PollFactoryHandleMsg
  update_voting_power : (voter : HumanAddr) (new_power : ℕ) → PollFactoryHandleMsg
  register_for_updates : (challenge : String) (end_time : ℕ) → PollFactoryHandleMsg
  update_default_poll_config : (duration quorum min_threshold : Option ℕ) → PollFactoryHandleMsg
  update_config :
      (new_poll_code : Option PollContract) (new_staking_pool : Option SecretContract)
      (new_min_stake_amount : Option ℕ) (new_reveal_com : Option RevealCommittee)
      → PollFactoryHandleMsg
  change_admin : (new_admin : HumanAddr) → PollFactoryHandleMsg
