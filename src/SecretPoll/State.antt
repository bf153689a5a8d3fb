-- ===== src/SecretPoll/State.antt =====
-- contracts/secret-poll/src/state.rs: the stored values, one field for each key. The votes and the
-- configuration keys share one key space in the source; an account address is never spelled like
-- one of the configuration keys.
use secret_finance_rewards.Common.{ℕ, String, Bool, List, Option, Dict, lookup, insert}
use secret_finance_rewards.Scrt.Types.{HumanAddr, Binary, SecretContract}
use secret_finance_rewards.Scrt.VoteTypes.{PollMetadata, RevealCommittee}

pub record Vote : Type 0 where
  pub choice : ℕ
  pub voting_power : ℕ

pub record StoredPollConfig : Type 0 where
  pub end_timestamp : ℕ
  pub quorum : ℕ
  pub min_threshold : ℕ
  pub choices : List String
  pub finalized : Bool
  pub valid : Bool
  pub rolling_hash : Binary

pub record StoredRevealConfig : Type 0 where
  pub committee : RevealCommittee
  pub num_revealed : ℕ
  pub revealed : List HumanAddr

-- The storage after `init`.
pub record Deps : Type 0 where
  pub owner : HumanAddr
  pub tally : List ℕ
  pub metadata : PollMetadata
  pub config : StoredPollConfig
  pub staking_pool : SecretContract
  pub num_of_voters : ℕ
  pub reveal_config : StoredRevealConfig
  pub votes : Dict Vote

unfoldable pub store_vote : Deps → HumanAddr → ℕ → ℕ → Deps
store_vote d voter choice voting_power = record d {
  votes = insert voter (record { choice = choice; voting_power = voting_power }) d.votes;
}

-- A vote that is stored; the only error is that there is none.
unfoldable pub read_vote : Deps → HumanAddr → Option Vote
read_vote d voter = lookup voter d.votes
