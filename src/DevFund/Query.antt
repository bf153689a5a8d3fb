-- ===== src/DevFund/Query.antt =====
-- contracts/dev-fund/src/contract.rs and querier.rs: the queries. An answer is kept as the value
-- that is serialised, before `pad_query_result` pads it.
use secret_finance_rewards.Common.{ℕ, [], Result, ok, err, ◌>>=◌, generic_err, u128, checked_add}
use secret_finance_rewards.Scrt.Types.{SecretContract}
use secret_finance_rewards.Scrt.MasterMsg.{MasterQueryMsg, MasterQueryAnswer}
use secret_finance_rewards.DevFund.Msg.{QueryMsg, QueryAnswer}
use secret_finance_rewards.DevFund.State.{Deps, load_balance}

-- `deps.querier.query` at the emission contract.
abbrev pub Querier : Type 0
Querier = SecretContract → MasterQueryMsg → Result MasterQueryAnswer

pending_amount : MasterQueryAnswer → Result ℕ
pending_amount (MasterQueryAnswer.pending amount) = ok amount
pending_amount _ = err (generic_err "something is wrong with the master contract.." [])

query_pending : Querier → Deps → ℕ → Result ℕ
query_pending q d block = do
  response ← q d.config.master (MasterQueryMsg.pending d.config.own_addr block)
  pending_amount response

query_balance : Querier → Deps → ℕ → Result QueryAnswer
query_balance q d block = do
  new_rewards ← query_pending q d block
  amount ← checked_add u128 new_rewards (load_balance d)
  ok (QueryAnswer.balance amount)

query_sefi : Deps → Result QueryAnswer
query_sefi d = ok (QueryAnswer.sefi d.config.sefi)

query_admin : Deps → Result QueryAnswer
query_admin d = ok (QueryAnswer.admin d.config.admin)

query_beneficiary : Deps → Result QueryAnswer
query_beneficiary d = ok (QueryAnswer.beneficiary d.config.beneficiary)

unfoldable pub query : Querier → Deps → QueryMsg → Result QueryAnswer
unfolding query_sefi query_balance query_admin query_beneficiary query_pending pending_amount
query q d QueryMsg.sefi = query_sefi d
query q d (QueryMsg.balance block) = query_balance q d block
query q d QueryMsg.admin = query_admin d
query q d QueryMsg.beneficiary = query_beneficiary d
