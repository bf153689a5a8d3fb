-- ===== src/PollFactory/Query.antt =====
-- contracts/poll-factory/src/contract.rs: the queries.
use secret_finance_rewards.Common.{ℕ, Result, ok}
use secret_finance_rewards.PollFactory.Msg.{QueryMsg, QueryAnswer}
use secret_finance_rewards.PollFactory.State.{Deps}
use secret_finance_rewards.PollFactory.Handle.{get_active_polls}

query_active_polls : Deps → ℕ → Result QueryAnswer
query_active_polls d current_time = ok (QueryAnswer.active_polls (get_active_polls d current_time))

query_default_poll_config : Deps → Result QueryAnswer
query_default_poll_config d = ok (QueryAnswer.default_poll_config d.default_poll_config)

query_staking_pool : Deps → Result QueryAnswer
query_staking_pool d = ok (QueryAnswer.staking_pool d.config.staking_pool)

query_poll_code : Deps → Result QueryAnswer
query_poll_code d = ok (QueryAnswer.poll_code d.config.poll_contract)

query_admin : Deps → Result QueryAnswer
query_admin d = ok (QueryAnswer.admin d.admin)

query_reveal_com : Deps → Result QueryAnswer
query_reveal_com d = ok (QueryAnswer.reveal_committee d.config.reveal_com)

query_min_stake : Deps → Result QueryAnswer
query_min_stake d = ok (QueryAnswer.minimum_stake d.config.min_staked)

unfoldable pub query : Deps → QueryMsg → Result QueryAnswer
unfolding query_active_polls query_default_poll_config query_staking_pool query_poll_code
    query_admin query_reveal_com query_min_stake
query d (QueryMsg.active_polls current_time) = query_active_polls d current_time
query d QueryMsg.default_poll_config = query_default_poll_config d
query d QueryMsg.staking_pool = query_staking_pool d
query d QueryMsg.poll_code = query_poll_code d
query d QueryMsg.admin = query_admin d
query d QueryMsg.reveal_committee = query_reveal_com d
query d QueryMsg.minimum_stake = query_min_stake d
