-- ===== src/SecretPoll/Msg.antt =====
-- contracts/secret-poll/src/msg.rs: the queries and answers.
use secret_finance_rewards.Common.{ℕ, String, Bool, List, Option}
use secret_finance_rewards.Scrt.Types.{HumanAddr}
use secret_finance_rewards.Scrt.VoteTypes.{PollMetadata, RevealCommittee}
use secret_finance_rewards.SecretPoll.State.{StoredPollConfig}

pub record FinalizeAnswer : Type 0 where
  pub finalized : Bool
  pub valid : Option Bool
  pub choices : Option (List String)
  pub tally : Option (List ℕ)

pub data QueryMsg : Type 0 where
  choices vote_info tally number_of_voters reveal_committee revealed rolling_hash : QueryMsg
  has_voted : (voter : HumanAddr) → QueryMsg
  vote : (voter : HumanAddr) (key : String) → QueryMsg

pub data QueryAnswer : Type 0 where
  choices : (choices : List String) → QueryAnswer
  vote_info :
      (metadata : PollMetadata) (config : StoredPollConfig) (reveal_com : RevealCommittee)
      → QueryAnswer
  has_voted : (has_voted : Bool) → QueryAnswer
  tally : (choices : List String) (tally : List ℕ) → QueryAnswer
  vote : (choice voting_power : ℕ) → QueryAnswer
  number_of_voters : (count : ℕ) → QueryAnswer
  reveal_committee : (committee : RevealCommittee) → QueryAnswer
  revealed : (required num_revealed : ℕ) (revealed : List HumanAddr) → QueryAnswer
  rolling_hash : (hash : String) → QueryAnswer

pub data ResponseStatus : Type 0 where
  success failure : ResponseStatus

-- The `data` of a response: the status, or what `finalize` answers.
pub data HandleAnswer : Type 0 where
  status : ResponseStatus → HandleAnswer
  finalize : FinalizeAnswer → HandleAnswer
