-- ===== src/LpStaking/Tests.antt =====
-- Runs of contracts/lp-staking at concrete inputs, and the theorems at inputs that meet their
-- hypotheses.
use secret_finance_rewards.Common.{
  ℕ, List, map, run_calls, ◌+◌, ◌≤◌, ◌≡◌, refl, none, some, [], ◌∷◌, ◌++◌, Result, ok, arith,
  insert, lookup, filter, all, any, checked_add, checked_mul, checked_sub, checked_div,
}
use secret_finance_rewards.Scrt.Chain.{Env, CosmosMsg}
use secret_finance_rewards.Scrt.ViewingKey.{to_hashed, create_hashed_password}
use secret_finance_rewards.Scrt.LpStakingMsg.{
  LpStakingHandleMsg, LpStakingHookMsg, LpStakingHandleAnswer, LpStakingResponseStatus,
  LpStakingQueryAnswer,
}
use secret_finance_rewards.LpStaking.State.{load_user, response_block_size}
use secret_finance_rewards.LpStaking.Rewards.{
  accrued, pending_of, deposit_pending, pay_pending, create_subscriber_msg, update_rewards,
  deposit_hook, redeem_hook, emergency_redeem,
}
use secret_finance_rewards.LpStaking.Admin.{
  set_viewing_key, enforce_admin, is_stranger, notify_allocation, stop_contract, change_admin,
  add_subscribers, without, remove_subscribers,
}
use secret_finance_rewards.LpStaking.Handle.{
  init, ask_source, call_self, run_hook, self_callback, handle_stopped, handle_running, handle,
}
use secret_finance_rewards.LpStaking.Query.{query_pending, projected_acc, query_pending_rewards}
use secret_finance_rewards.LpStaking.Accounting.{IsSound, total_locked}
use secret_finance_rewards.LpStaking.Solvency.{
  run, no_calls, total_claims, rewards_bounded, principal_backed,
}
use secret_finance_rewards.LpStaking.Withdraw.{
  restaked, claim_at, tell_subscribers, redeem_hook_pays, deposit_hook_pays, emergency_redeem_pays,
}
use secret_finance_rewards.LpStaking.Notified.{notify}
use secret_finance_rewards.LpStaking.Redemption.{paid, redeem_completes}
use secret_finance_rewards.LpStaking.Access.{admin_only, own_record_only, sources_only}
use secret_finance_rewards.LpStaking.Forecast.{query_pending_rewards-pending_of}
use secret_finance_rewards.LpStaking.Inputs.{
  externals, contract_at, env_of, init_msg, rounding_calls, start, staked, stopped, exited,
  answering, allotted, staked-IsSound,
}

-- What a run computes with.
program : Unit {0}
unfolding insert lookup filter all any checked_add checked_mul checked_sub checked_div load_user
    accrued pending_of deposit_pending pay_pending create_subscriber_msg update_rewards deposit_hook
    redeem_hook emergency_redeem enforce_admin is_stranger notify_allocation stop_contract
    change_admin add_subscribers without remove_subscribers init run_hook self_callback
    handle_stopped handle_running handle run
program = tt

-- Two units are notified, and three are paid: the unit for each hook is not spare.
rounding_overpays :
    let (d, g) = run externals rounding_calls (start, no_calls) in
    (g.notified ≡ 2) × (g.rewards_paid ≡ 3) × (g.deposited ≡ 9) × (g.returned ≡ 9) × (g.hooks ≡ 6)
unfolding program
rounding_overpays = (refl, refl, refl, refl, refl)

-- A stranger's notification, and a deposit hook that the contract did not send, do nothing.
strangers_refused :
    run externals
      ((env_of "eve", LpStakingHandleMsg.notify_allocation 5)
        ∷ (env_of "eve", LpStakingHandleMsg.self_callback (LpStakingHookMsg.deposit "eve" 9))
        ∷ [])
      (start, no_calls)
    ≡ (start, no_calls)
unfolding program
strangers_refused = refl

-- `test_subs_redeem` of the source, at other amounts.
redeem-some :
    Result.ok (
      restaked staked "a" 3 6,
      record {
        messages =
            CosmosMsg.transfer "a" 5 256 (contract_at "reward_t")
            ∷ CosmosMsg.transfer "a" 2 256 (contract_at "inc_t")
            ∷ create_subscriber_msg "a" 3 (contract_at "sub_a")
            ∷ create_subscriber_msg "a" 3 (contract_at "sub_b")
            ∷ [];
        log = [];
        answer = some (LpStakingHandleAnswer.redeem LpStakingResponseStatus.success);
      },
    )
    ≡ redeem_hook staked (env_of "pool") staked.config staked.reward_pool "a" (some 2)
unfolding program
redeem-some = refl

rewards_bounded_example :
    let (d, g) = run externals rounding_calls (start, no_calls) in
    g.rewards_paid + total_claims d + d.reward_pool.residue ≤ g.notified + g.hooks
rewards_bounded_example =
    rewards_bounded externals (λ n r. refl) (env_of "admin") init_msg rounding_calls refl

principal_backed_example :
    let (d, g) = run externals rounding_calls (start, no_calls) in
    (d.reward_pool.inc_token_supply ≡ total_locked d) × (g.returned + total_locked d ≡ g.deposited)
principal_backed_example =
    principal_backed externals (λ n r. refl) (env_of "admin") init_msg rounding_calls refl

redeem_hook_pays_example :
    redeem_hook staked (env_of "pool") staked.config staked.reward_pool "a" (some 2)
    ≡ ok (
      restaked staked "a" 3 6,
      record {
        messages =
            pay_pending staked.config "a" (claim_at staked "a")
            ++ (CosmosMsg.transfer "a" 2 response_block_size staked.config.inc_token
                ∷ tell_subscribers staked "a" 3);
        log = [];
        answer = some (LpStakingHandleAnswer.redeem LpStakingResponseStatus.success);
      },
    )
unfolding program
redeem_hook_pays_example =
    redeem_hook_pays staked staked-IsSound (env_of "pool") "a" (some 2) (omega arith) (omega arith)

deposit_hook_pays_example :
    deposit_hook staked (env_of "pool") staked.config staked.reward_pool "b" 10
    ≡ ok (
      restaked staked "b" 13 18,
      record {
        messages =
            pay_pending staked.config "b" (claim_at staked "b") ++ tell_subscribers staked "b" 13;
        log = [];
        answer = some (LpStakingHandleAnswer.receive_deposit LpStakingResponseStatus.success);
      },
    )
unfolding program
deposit_hook_pays_example =
    deposit_hook_pays staked staked-IsSound (env_of "pool") "b" 10 (omega arith) (omega arith)

stopped-IsSound : IsSound stopped
stopped-IsSound = record { supply_is_sum = refl; debts_covered = omega arith }

emergency_redeem_pays_example :
    handle externals stopped (env_of "a") LpStakingHandleMsg.emergency_redeem ≡ ok exited
unfolding program
emergency_redeem_pays_example = emergency_redeem_pays stopped stopped-IsSound (env_of "a") externals

-- A stranger's notification between two of a source.
abbrev notes : List (Env × ℕ)
notes = (env_of "master", 12) ∷ (env_of "eve", 99) ∷ (env_of "master", 4) ∷ []

redeem_completes_example :
    let d' = run_calls (notify externals) notes staked in
    (hook : LpStakingHookMsg) × (handle externals staked
        (env_of "a")
        (LpStakingHandleMsg.redeem none)
      ≡ ok (
        staked,
        record {
          messages =
              map (ask_source (env_of "a")) (contract_at "master" ∷ [])
              ++ (call_self (env_of "a") hook ∷ []);
          log = [];
          answer = none;
        },
      ))
    × (handle externals d' (env_of "pool") (LpStakingHandleMsg.self_callback hook)
        ≡ ok (restaked d' "a" 0 3, paid staked.config staked.subscribers "a" 5 0 (claim_at d' "a")))
    × (claim_at staked "a" ≤ claim_at d' "a")
unfolding program run_calls
redeem_completes_example =
    redeem_completes externals staked (env_of "a") (env_of "pool") none notes staked-IsSound refl
      refl (omega arith) (omega arith)

admin_only_example :
    let d' = record staked { viewing_keys = ("eve", []) ∷ [] } in
    (d'.config ≡ staked.config) × (d'.subscribers ≡ staked.subscribers)
unfolding program set_viewing_key to_hashed create_hashed_password
admin_only_example =
    admin_only externals staked (env_of "eve") (LpStakingHandleMsg.set_viewing_key "k" none) refl
      refl

own_record_only_example : lookup "b" exited.0.users ≡ lookup "b" stopped.users
unfolding program
own_record_only_example =
    own_record_only externals stopped (env_of "a") LpStakingHandleMsg.emergency_redeem {o = exited}
      refl refl "b" refl

sources_only_example :
    (exited.0.reward_pool.acc_reward_per_share ≡ stopped.reward_pool.acc_reward_per_share)
    × (exited.0.reward_pool.residue ≡ stopped.reward_pool.residue)
unfolding program
sources_only_example =
    sources_only externals stopped (env_of "a") LpStakingHandleMsg.emergency_redeem {o = exited}
      refl refl

query_pending_rewards-pending_of_example :
    query_pending_rewards answering staked "a" 9 ≡ ok (LpStakingQueryAnswer.rewards 15)
unfolding program query_pending
query_pending_rewards-pending_of_example =
    query_pending_rewards-pending_of answering staked "a" 9 12 {d' = allotted} refl (omega arith)
      refl

-- With no new rewards an allocation keeps the residue; the query counts it as distributed.
residue_kept :
    (update_rewards staked 0 ≡ ok (staked, staked.reward_pool))
    × (projected_acc staked 0 ≡ ok 2_000_000_000_000_000_000)
unfolding program projected_acc
residue_kept = (refl, refl)
