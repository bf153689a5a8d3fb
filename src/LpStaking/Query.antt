-- ===== src/LpStaking/Query.antt =====
-- contracts/lp-staking/src/contract.rs and querier.rs: the queries. An answer is kept as the
-- value that is serialised, before `pad_query_result` pads it.
use secret_finance_rewards.Common.{
  ℕ, Bool, false, List, [], ◌∷◌, Option, none, some, Result, ok, err, ◌>>=◌, generic_err, words,
  panicked, ◌==◌, if◌then◌else◌, u128, checked_add, checked_mul, checked_div, lookup,
}
use secret_finance_rewards.Scrt.Types.{HumanAddr, Binary, SecretContract}
use secret_finance_rewards.Scrt.ViewingKey.{Crypto, ViewingKey, check_viewing_key}
use secret_finance_rewards.Scrt.MasterMsg.{MasterQueryMsg, MasterQueryAnswer}
use secret_finance_rewards.Scrt.LpStakingMsg.{LpStakingQueryMsg, LpStakingQueryAnswer}
use secret_finance_rewards.LpStaking.State.{Deps, load_user, reward_scale}
use secret_finance_rewards.LpStaking.Rewards.{pending_of}

-- `deps.querier.query` at a reward source.
abbrev pub Querier : Type 0
Querier = SecretContract → MasterQueryMsg → Result MasterQueryAnswer

pending_amount : SecretContract → MasterQueryAnswer → Result ℕ
pending_amount rs (MasterQueryAnswer.pending amount) = ok amount
pending_amount rs _ =
    err (generic_err "something is wrong with the reward source: {}" (words rs.address ∷ []))

module _ (q : Querier) (own_addr : HumanAddr) (block : ℕ) where
  -- The loop of `query_pending`, with what it has added up.
  pending_loop : ℕ → List SecretContract → Result ℕ
  pending_loop total_amount [] = ok total_amount
  pending_loop total_amount (rs ∷ sources) = do
    response ← q rs (MasterQueryMsg.pending own_addr block)
    amount ← pending_amount rs response
    total ← checked_add u128 total_amount amount
    pending_loop total sources

unfoldable pub query_pending : Querier → Deps → ℕ → Result ℕ
unfolding pending_loop pending_amount
query_pending q d block = pending_loop q d.config.own_addr block 0 d.config.reward_sources

-- The value of `acc_reward_per_share` that the query reckons with.
unfoldable pub projected_acc : Deps → ℕ → Result ℕ
projected_acc d new_rewards =
    let pool = d.reward_pool in
    if pool.inc_token_supply == 0 then ok pool.acc_reward_per_share else (do
      amount ← checked_add u128 new_rewards pool.residue
      scaled ← checked_mul u128 amount reward_scale
      share ← checked_div scaled pool.inc_token_supply
      checked_add u128 pool.acc_reward_per_share share)

unfoldable pub query_pending_rewards : Querier → Deps → HumanAddr → ℕ → Result LpStakingQueryAnswer
query_pending_rewards q d address block = do
  new_rewards ← query_pending q d block
  acc ← projected_acc d new_rewards
  rewards ← pending_of (load_user address d) acc
  ok (LpStakingQueryAnswer.rewards rewards)

unfoldable pub query_deposit : Deps → HumanAddr → Result LpStakingQueryAnswer
query_deposit d address = ok (LpStakingQueryAnswer.balance (load_user address d).locked)

-- `get_validation_params`: only the two authenticated queries have them.
unfoldable pub get_validation_params : LpStakingQueryMsg → Result (HumanAddr × ViewingKey)
get_validation_params (LpStakingQueryMsg.rewards address key height) = ok (address, key)
get_validation_params (LpStakingQueryMsg.balance address key) = ok (address, key)
get_validation_params _ = err panicked

authenticated : Querier → Deps → LpStakingQueryMsg → Result LpStakingQueryAnswer
authenticated q d (LpStakingQueryMsg.rewards address key height) =
    query_pending_rewards q d address height
authenticated q d (LpStakingQueryMsg.balance address key) = query_deposit d address
authenticated q d _ = err panicked

-- A key is compared with the stored hash; where none is stored, the comparison is made for its
-- time alone.
key_matches : Crypto → ViewingKey → Option Binary → Bool
key_matches c key none = false
key_matches c key (some expected) = check_viewing_key c key expected

unfoldable pub authenticated_queries :
    Crypto → Querier → Deps → LpStakingQueryMsg → Result LpStakingQueryAnswer
unfolding authenticated key_matches
authenticated_queries c q d msg = do
  (address, key) ← get_validation_params msg
  (if key_matches c key (lookup address d.viewing_keys)
      then authenticated q d msg
      else ok (
          LpStakingQueryAnswer.query_error
            "Wrong viewing key for this address or viewing key not set"))

query_contract_status : Deps → Result LpStakingQueryAnswer
query_contract_status d = ok (LpStakingQueryAnswer.contract_status d.config.is_stopped)

query_reward_token : Deps → Result LpStakingQueryAnswer
query_reward_token d = ok (LpStakingQueryAnswer.reward_token d.config.reward_token)

query_incentivized_token : Deps → Result LpStakingQueryAnswer
query_incentivized_token d = ok (LpStakingQueryAnswer.incentivized_token d.config.inc_token)

query_token_info : Deps → Result LpStakingQueryAnswer
query_token_info d =
    ok (LpStakingQueryAnswer.token_info d.token_info.name d.token_info.symbol 1 none)

query_total_locked : Deps → Result LpStakingQueryAnswer
query_total_locked d = ok (LpStakingQueryAnswer.total_locked d.reward_pool.inc_token_supply)

query_subscribers : Deps → Result LpStakingQueryAnswer
query_subscribers d = ok (LpStakingQueryAnswer.subscribers d.subscribers)

query_reward_sources : Deps → Result LpStakingQueryAnswer
query_reward_sources d = ok (LpStakingQueryAnswer.reward_sources d.config.reward_sources)

query_admin : Deps → Result LpStakingQueryAnswer
query_admin d = ok (LpStakingQueryAnswer.admin d.config.admin)

unfoldable pub query : Crypto → Querier → Deps → LpStakingQueryMsg → Result LpStakingQueryAnswer
unfolding query_contract_status query_reward_token query_incentivized_token query_token_info
    query_total_locked query_subscribers query_reward_sources query_admin
query c q d LpStakingQueryMsg.contract_status = query_contract_status d
query c q d LpStakingQueryMsg.reward_token = query_reward_token d
query c q d LpStakingQueryMsg.incentivized_token = query_incentivized_token d
query c q d LpStakingQueryMsg.token_info = query_token_info d
query c q d LpStakingQueryMsg.total_locked = query_total_locked d
query c q d LpStakingQueryMsg.subscribers = query_subscribers d
query c q d LpStakingQueryMsg.reward_sources = query_reward_sources d
query c q d LpStakingQueryMsg.admin = query_admin d
query c q d msg = authenticated_queries c q d msg
