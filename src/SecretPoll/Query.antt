-- ===== src/SecretPoll/Query.antt =====
-- contracts/secret-poll/src/contract.rs: the queries.
use secret_finance_rewards.Common.{
  String, true, false, not, Option, none, some, [], Result, ok, err, ◌>>=◌, ◌>>◌, err_if,
  generic_err, not_found,
}
use secret_finance_rewards.Scrt.Types.{HumanAddr}
use secret_finance_rewards.SecretPoll.Msg.{QueryMsg, QueryAnswer}
use secret_finance_rewards.SecretPoll.State.{Vote, StoredPollConfig, Deps, read_vote}
use secret_finance_rewards.SecretPoll.Handle.{Externals}

query_choices : Deps → Result QueryAnswer
query_choices d = ok (QueryAnswer.choices d.config.choices)

query_vote_info : Deps → Result QueryAnswer
query_vote_info d = ok (QueryAnswer.vote_info d.metadata d.config d.reveal_config.committee)

query_has_voted : Deps → HumanAddr → Result QueryAnswer
query_has_voted d voter =
    ok (QueryAnswer.has_voted (elim (read_vote d voter) [ none ↦ false | some v ↦ true ]))

require_vote_finalized_and_valid : StoredPollConfig → Result (Unit {0})
require_vote_finalized_and_valid config = do
  err_if (not config.finalized) (generic_err "vote hasn't been finalized yet" [])
  err_if (not config.valid) (generic_err "vote hasn't passed quorum" [])

query_tally : Deps → Result QueryAnswer
query_tally d = do
  require_vote_finalized_and_valid d.config
  ok (QueryAnswer.tally d.config.choices d.tally)

stored : Option Vote → Result Vote
stored none = err not_found
stored (some v) = ok v

-- The balance is asked for the sake of the viewing key alone.
query_vote : Externals → Deps → HumanAddr → String → Result QueryAnswer
query_vote x d voter key = do
  balance ← x.balance_query voter key d.staking_pool
  v ← stored (read_vote d voter)
  ok (QueryAnswer.vote v.choice v.voting_power)

query_num_of_voters : Deps → Result QueryAnswer
query_num_of_voters d = ok (QueryAnswer.number_of_voters d.num_of_voters)

query_reveal_com : Deps → Result QueryAnswer
query_reveal_com d = ok (QueryAnswer.reveal_committee d.reveal_config.committee)

query_revealed : Deps → Result QueryAnswer
query_revealed d = ok (
    QueryAnswer.revealed d.reveal_config.committee.n d.reveal_config.num_revealed
      d.reveal_config.revealed)

query_rolling_hash : Externals → Deps → Result QueryAnswer
query_rolling_hash x d = ok (QueryAnswer.rolling_hash (x.hex_encode d.config.rolling_hash))

unfoldable pub query : Externals → Deps → QueryMsg → Result QueryAnswer
unfolding query_choices query_vote_info query_has_voted require_vote_finalized_and_valid query_tally
    stored query_vote query_num_of_voters query_reveal_com query_revealed query_rolling_hash
query x d QueryMsg.choices = query_choices d
query x d QueryMsg.vote_info = query_vote_info d
query x d (QueryMsg.has_voted voter) = query_has_voted d voter
query x d QueryMsg.tally = query_tally d
query x d (QueryMsg.vote voter key) = query_vote x d voter key
query x d QueryMsg.number_of_voters = query_num_of_voters d
query x d QueryMsg.reveal_committee = query_reveal_com d
query x d QueryMsg.revealed = query_revealed d
query x d QueryMsg.rolling_hash = query_rolling_hash x d
