-- ===== src/LpStaking/Rewards.antt =====
-- contracts/lp-staking/src/contract.rs: the accounting of rewards and of locked tokens.
use secret_finance_rewards.Common.{
  ℕ, List, [], ◌∷◌, ◌++◌, map, Option, some, Result, ok, ◌>>=◌, ◌>>◌, err_if, generic_err, number,
  ltb, ◌==◌, if◌then◌else◌, unwrap_or, u128, checked_add, checked_mul, checked_sub, checked_div,
  insert,
}
use secret_finance_rewards.Scrt.Types.{HumanAddr, RewardPool, UserInfo, SecretContract}
use secret_finance_rewards.Scrt.Chain.{Env, CosmosMsg, Payload}
use secret_finance_rewards.Scrt.LpStakingMsg.{LpStakingHandleAnswer, LpStakingResponseStatus}
use secret_finance_rewards.Scrt.VoteTypes.{PollFactoryHandleMsg}
use secret_finance_rewards.LpStaking.State.{
  Config, Deps, Outcome, load_user, reward_scale, response_block_size,
}

-- `locked * acc_reward_per_share / REWARD_SCALE`
unfoldable pub accrued : ℕ → ℕ → Result ℕ
accrued locked acc = do p ← checked_mul u128 locked acc; checked_div p reward_scale

-- `user.locked * reward_pool.acc_reward_per_share / REWARD_SCALE - user.debt`
unfoldable pub pending_of : UserInfo → ℕ → Result ℕ
pending_of user acc = do checked_sub (← accrued user.locked acc) user.debt

-- The message that pays a pending reward, if there is any.
unfoldable pub pay_pending : Config → HumanAddr → ℕ → List CosmosMsg
pay_pending config to pending =
    if ltb 0 pending
    then CosmosMsg.transfer to pending response_block_size config.reward_token ∷ []
    else []

unfoldable pub create_subscriber_msg : HumanAddr → ℕ → SecretContract → CosmosMsg
create_subscriber_msg user new_vp sub =
    CosmosMsg.execute sub.address sub.contract_hash
      (Payload.poll_factory (PollFactoryHandleMsg.update_voting_power user new_vp))

-- The pool is returned beside the storage.
unfoldable pub update_rewards : Deps → ℕ → Result (Deps × RewardPool)
update_rewards d newly_allocated =
    let pool = d.reward_pool in
    if newly_allocated == 0
    then ok (d, pool)
    else if pool.inc_token_supply == 0
    then (do
      residue ← checked_add u128 pool.residue newly_allocated
      let pool' = record pool { residue = residue }
      ok (record d { reward_pool = pool' }, pool'))
    else (do
      amount ← checked_add u128 newly_allocated pool.residue
      scaled ← checked_mul u128 amount reward_scale
      share ← checked_div scaled pool.inc_token_supply
      acc ← checked_add u128 pool.acc_reward_per_share share
      let pool' = record pool { acc_reward_per_share = acc; residue = 0 }
      ok (record d { reward_pool = pool' }, pool'))

-- What a staker is paid by `deposit_hook`: only one who has tokens locked.
unfoldable pub deposit_pending : UserInfo → ℕ → Result ℕ
deposit_pending user acc = if ltb 0 user.locked then pending_of user acc else ok 0

unfoldable pub deposit_hook : Deps → Env → Config → RewardPool → HumanAddr → ℕ → Result Outcome
deposit_hook d env config reward_pool from amount = do
  let user = load_user from d
  pending ← deposit_pending user reward_pool.acc_reward_per_share
  locked ← checked_add u128 user.locked amount
  debt ← accrued locked reward_pool.acc_reward_per_share
  supply ← checked_add u128 reward_pool.inc_token_supply amount
  ok (
    record d {
      users = insert from (record { locked = locked; debt = debt }) d.users;
      reward_pool = record reward_pool { inc_token_supply = supply };
    },
    record {
      messages =
          pay_pending config from pending ++ map (create_subscriber_msg from locked) d.subscribers;
      log = [];
      answer = some (LpStakingHandleAnswer.receive_deposit LpStakingResponseStatus.success);
    },
  )

unfoldable pub redeem_hook :
    Deps → Env → Config → RewardPool → HumanAddr → Option ℕ → Result Outcome
redeem_hook d env config reward_pool to requested = do
  let user = load_user to d
  let amount = unwrap_or requested user.locked
  err_if (ltb user.locked amount) (
      generic_err "insufficient funds to redeem: balance={}, required={}"
        (number user.locked ∷ number amount ∷ []))
  pending ← pending_of user reward_pool.acc_reward_per_share
  locked ← checked_sub user.locked amount
  debt ← accrued locked reward_pool.acc_reward_per_share
  supply ← checked_sub reward_pool.inc_token_supply amount
  ok (
    record d {
      users = insert to (record { locked = locked; debt = debt }) d.users;
      reward_pool = record reward_pool { inc_token_supply = supply };
    },
    record {
      messages =
          pay_pending config to pending
          ++ (CosmosMsg.transfer to amount response_block_size config.inc_token
              ∷ map (create_subscriber_msg to locked) d.subscribers);
      log = [];
      answer = some (LpStakingHandleAnswer.redeem LpStakingResponseStatus.success);
    },
  )

unfoldable pub emergency_redeem : Deps → Env → Result Outcome
emergency_redeem d env = do
  let user = load_user env.sender d
  supply ← checked_sub d.reward_pool.inc_token_supply user.locked
  ok (
    record d {
      reward_pool = record (d.reward_pool) { inc_token_supply = supply };
      users = insert env.sender (record { locked = 0; debt = 0 }) d.users;
    },
    record {
      messages =
          if ltb 0 user.locked
          then CosmosMsg.transfer env.sender user.locked response_block_size d.config.inc_token ∷ []
          else [];
      log = [];
      answer = some (LpStakingHandleAnswer.emergency_redeem LpStakingResponseStatus.success);
    },
  )
