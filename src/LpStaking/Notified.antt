-- ===== src/LpStaking/Notified.antt =====
-- contracts/lp-staking/src/contract.rs: what any notifications of the reward sources leave alone.
use secret_finance_rewards.Common.{
  ℕ, ◌≤◌, ◌≡◌, refl, ◌∙◌, ap, none, List, [], arith, Result, Ensures, >>=-Ensures, if-Ensures,
  Ensures-ok, err_if, ◌==◌, u128, checked_add, checked_mul, checked_div, checked_add-eq, run_calls,
  run_calls-keeps,
}
use secret_finance_rewards.Scrt.Types.{RewardPool}
use secret_finance_rewards.Scrt.Chain.{Env}
use secret_finance_rewards.Scrt.LpStakingMsg.{LpStakingHandleMsg}
use secret_finance_rewards.LpStaking.State.{Deps, Response, Outcome, reward_scale}
use secret_finance_rewards.LpStaking.Rewards.{update_rewards}
use secret_finance_rewards.LpStaking.Admin.{is_stranger, notify_allocation}
use secret_finance_rewards.LpStaking.Handle.{Externals, handle_stopped, handle_running, handle}
use secret_finance_rewards.LpStaking.Accounting.{IsSound, Moves}
use secret_finance_rewards.LpStaking.Allocation.{update_rewards-Moves}

-- What notifications leave alone; a share has earned no less.
pub record IsNotified (d d' : Deps) : Type 0 where
  pub sound : IsSound d'
  pub config : d'.config ≡ d.config
  pub subscribers : d'.subscribers ≡ d.subscribers
  pub users : d'.users ≡ d.users
  pub supply : d'.reward_pool.inc_token_supply ≡ d.reward_pool.inc_token_supply
  pub grows : d.reward_pool.acc_reward_per_share ≤ d'.reward_pool.acc_reward_per_share

-- `NotifyAllocation` by anyone: a stranger's call fails.
abbrev pub notify : Externals → Deps → Env × ℕ → Result Outcome
notify x d call = handle x d call.0 (LpStakingHandleMsg.notify_allocation call.1)

-- An allocation that goes through writes the residue and what a share has earned.
update_rewards-grows :
    (d : Deps) (n : ℕ)
    → Ensures
        (λ (o : Deps × RewardPool).
          (o.0 ≡ record d { reward_pool = o.0.reward_pool })
          × (o.0.reward_pool.inc_token_supply ≡ d.reward_pool.inc_token_supply)
          × (d.reward_pool.acc_reward_per_share ≤ o.0.reward_pool.acc_reward_per_share))
        (update_rewards d n)
unfolding update_rewards
update_rewards-grows d n =
    let pool = d.reward_pool in
    if-Ensures _ (n == 0) _ _ (refl, refl, omega arith)
      (if-Ensures _ (pool.inc_token_supply == 0) _ _
        (>>=-Ensures (checked_add u128 pool.residue n) _ _ λ residue hr. (refl, refl, omega arith))
        (>>=-Ensures (checked_add u128 n pool.residue) _ _ λ amount ha.
          >>=-Ensures (checked_mul u128 amount reward_scale) _ _ λ scaled hm.
            >>=-Ensures (checked_div scaled pool.inc_token_supply) _ _ λ share hs.
              >>=-Ensures (checked_add u128 pool.acc_reward_per_share share) _ _ λ acc hc. (
                refl,
                refl,
                omega (arith, checked_add-eq u128 pool.acc_reward_per_share share hc),
              )))

module _ (d : Deps) where
  notify_allocation-IsNotified :
      (d' : Deps) (env : Env) (n : ℕ)
      → IsNotified d d'
      → Ensures (λ o. IsNotified d o.0) (notify_allocation d' env n)
  unfolding notify_allocation
  notify_allocation-IsNotified d' env n k =
      >>=-Ensures (err_if (is_stranger d'.config env) _) _ _ λ _ hg.
        >>=-Ensures (update_rewards d' n) _ _ λ (d'', pool) h.
          let (only, supply, grows) =
            Ensures-ok _ (update_rewards d' n) (update_rewards-grows d' n) h in
          let quiet : Response = record { messages = []; log = []; answer = none } in
          let m =
            Ensures-ok (λ o. Moves d' o.0 quiet n 0 0) (update_rewards d' n)
              (update_rewards-Moves d' k.sound quiet (λ t. refl) n) h in
          record {
            sound = m.sound;
            config = ap (λ (y : Deps). y.config) only ∙ k.config;
            subscribers = ap (λ (y : Deps). y.subscribers) only ∙ k.subscribers;
            users = ap (λ (y : Deps). y.users) only ∙ k.users;
            supply = supply ∙ k.supply;
            grows = omega (arith, grows, k.grows);
          }

  module _ (x : Externals) where
    notify-IsNotified :
        (d' : Deps) (call : Env × ℕ)
        → IsNotified d d'
        → Ensures (λ o. IsNotified d o.0) (notify x d' call)
    unfolding handle handle_stopped handle_running
    notify-IsNotified d' (env, n) k =
        if-Ensures (λ o. IsNotified d o.0) d'.config.is_stopped _ _ tt
          (>>=-Ensures (notify_allocation d' env n) _ _ λ o ho.
            Ensures-ok (λ o. IsNotified d o.0) (notify_allocation d' env n)
              (notify_allocation-IsNotified d' env n k) ho)

    pub notifications-IsNotified :
        IsSound d → (notes : List (Env × ℕ)) → IsNotified d (run_calls (notify x) notes d)
    notifications-IsNotified s notes =
        run_calls-keeps (notify x) (IsNotified d) notify-IsNotified notes d (record {
          sound = s;
          config = refl;
          subscribers = refl;
          users = refl;
          supply = refl;
          grows = omega arith;
        })
