-- ===== src/LpStaking/Forecast.antt =====
-- The rewards that contracts/lp-staking answers to a query, against what its hooks pay.
use secret_finance_rewards.Common.{
  ℕ, ◌≡◌, ◌≢◌, refl, inl, inr, false, arith, ok, ◌>>=◌, Ensures, >>=-Ensures, Ensures-ok,
  Bool-cases, ◌==◌, u128, checked_add, checked_mul, checked_div,
}
use secret_finance_rewards.Scrt.Types.{HumanAddr, RewardPool}
use secret_finance_rewards.Scrt.LpStakingMsg.{LpStakingQueryAnswer}
use secret_finance_rewards.LpStaking.State.{Deps, load_user, reward_scale}
use secret_finance_rewards.LpStaking.Rewards.{pending_of, update_rewards}
use secret_finance_rewards.LpStaking.Query.{
  Querier, query_pending, projected_acc, query_pending_rewards,
}

nonzero : (n : ℕ) → n ≢ 0 → (n == 0) ≡ false
nonzero n h = ground arith

-- An allocation that is not empty leaves the share that the query reckons with.
update_rewards-projected :
    (d : Deps) (n : ℕ)
    → n ≢ 0
    → Ensures
        (λ (o : Deps × RewardPool). projected_acc d n ≡ ok (o.1.acc_reward_per_share))
        (update_rewards d n)
unfolding update_rewards projected_acc
update_rewards-projected d n h =
    let pool = d.reward_pool in
    rw (nonzero n h) (elim (Bool-cases (pool.inc_token_supply == 0)) [
      | inl empty ↦ rw empty (>>=-Ensures (checked_add u128 pool.residue n) _ _ λ r hr. refl)
      | inr staked ↦ rw staked (
          >>=-Ensures (checked_add u128 n pool.residue) _ _ λ amount ha.
            >>=-Ensures (checked_mul u128 amount reward_scale) _ _ λ scaled hm.
              >>=-Ensures (checked_div scaled pool.inc_token_supply) _ _ λ share hs.
                >>=-Ensures (checked_add u128 pool.acc_reward_per_share share) _ _
                  λ acc hc. rw (ha, hm, hs, hc))
    ])

-- If the reward sources answer with `n` new rewards, not zero, and an allocation of `n` goes
-- through, then the query answers what a hook right after that allocation would pay.
pub query_pending_rewards-pending_of :
    (q : Querier) (d : Deps) (address : HumanAddr) (block n : ℕ) {d' : Deps} {pool : RewardPool}
    → query_pending q d block ≡ ok n
    → n ≢ 0
    → update_rewards d n ≡ ok (d', pool)
    → query_pending_rewards q d address block ≡ (
        pending_of (load_user address d) pool.acc_reward_per_share >>= λ p.
        ok (LpStakingQueryAnswer.rewards p))
unfolding query_pending_rewards
query_pending_rewards-pending_of q d address block n asked some_new went =
    rw (asked, Ensures-ok _ (update_rewards d n) (update_rewards-projected d n some_new) went)
