-- ===== src/LpStaking/Allocation.antt =====
-- The balance sheet of an allocation, and of the calls that move nothing.
use mathlib.Core.Path.{subst}
use secret_finance_rewards.Common.{
  ℕ, ◌+◌, ◌*◌, ◌/◌, ◌≤◌, ◌≡◌, refl, inl, inr, arith, Ensures, >>=-Ensures, Ensures-ok,
  checked_mul-eq, checked_div-eq, checked_add-eq, checked_mul, checked_div, checked_add, u128, List,
  Dict, ◌∙◌, AllValues-mono, ◌==◌, Bool-cases, ap, err_if, true, err_if,
}
use secret_finance_rewards.Scrt.Types.{HumanAddr, Binary, UserInfo, SecretContract}
use secret_finance_rewards.Scrt.Chain.{Env, sent}
use secret_finance_rewards.LpStaking.State.{Config, Deps, Response, reward_scale}
use secret_finance_rewards.LpStaking.Rewards.{update_rewards}
use secret_finance_rewards.LpStaking.Admin.{notify_allocation, is_stranger}
use secret_finance_rewards.LpStaking.Amounts.{allot_arith}
use secret_finance_rewards.LpStaking.Accounting.{IsCovered, IsSound, Moves}

IsCovered-mono : (acc acc' : ℕ) (u : UserInfo) → acc ≤ acc' → IsCovered acc u → IsCovered acc' u
IsCovered-mono acc acc' u h c = grind arith

zero_of : (n : ℕ) → (n == 0) ≡ true → 0 ≡ n
zero_of n h = ground arith

module _ (d : Deps) (s : IsSound d) (r : Response)
    (quiet : (t : HumanAddr) → sent t r.messages ≡ 0) where
  -- A call that writes only the residue and what a share has earned.
  pool-Moves :
      (residue acc n : ℕ)
      → d.reward_pool.acc_reward_per_share ≤ acc
      → d.reward_pool.inc_token_supply * acc + reward_scale * residue
        ≤ d.reward_pool.inc_token_supply * d.reward_pool.acc_reward_per_share
          + reward_scale * d.reward_pool.residue
          + reward_scale * n
      → Moves d
          (record d {
            reward_pool = record (d.reward_pool) { residue = residue; acc_reward_per_share = acc };
          })
          r
          n
          0
          0
  pool-Moves residue acc n grows bound = record {
    reward_token_kept = refl;
    inc_token_kept = refl;
    sound = record {
      supply_is_sum = s.supply_is_sum;
      debts_covered =
          AllValues-mono _ _ d.users
            (λ u. IsCovered-mono d.reward_pool.acc_reward_per_share acc u grows) s.debts_covered;
    };
    principal = rw quiet (omega arith);
    rewards = rw quiet (omega arith);
  }

  -- A call that leaves the pool, the users and the tokens alone.
  pub idle-Moves :
      (config : Config) (subs : List SecretContract) (keys : Dict Binary)
      → config.reward_token ≡ d.config.reward_token
      → config.inc_token ≡ d.config.inc_token
      → Moves d (record d { config = config; subscribers = subs; viewing_keys = keys }) r 0 0 0
  idle-Moves config subs keys rt it = record {
    reward_token_kept = rt;
    inc_token_kept = it;
    sound = record { supply_is_sum = s.supply_is_sum; debts_covered = s.debts_covered };
    principal = rw quiet (omega arith);
    rewards = rw quiet (omega arith);
  }

  pub update_rewards-Moves : (n : ℕ) → Ensures (λ o. Moves d o.0 r n 0 0) (update_rewards d n)
  unfolding update_rewards
  update_rewards-Moves n = elim (Bool-cases (n == 0)) [
    | inl none_new ↦ rw none_new (
        subst (λ (x : ℕ). Moves d d r x 0 0) (zero_of n none_new)
          (idle-Moves d.config d.subscribers d.viewing_keys refl refl))
    | inr new ↦ elim (Bool-cases (d.reward_pool.inc_token_supply == 0)) [
      | inl empty ↦
          rw (new, empty)
            (>>=-Ensures (checked_add u128 d.reward_pool.residue n) _ _ λ residue hr.
              pool-Moves residue d.reward_pool.acc_reward_per_share n (omega arith)
                (omega (arith, checked_add-eq u128 d.reward_pool.residue n hr)))
      | inr staked ↦
          rw (new, staked)
            (>>=-Ensures (checked_add u128 n d.reward_pool.residue) _ _ λ amount ha.
              >>=-Ensures (checked_mul u128 amount reward_scale) _ _ λ scaled hm.
                >>=-Ensures (checked_div scaled d.reward_pool.inc_token_supply) _ _ λ share hs.
                  >>=-Ensures (checked_add u128 d.reward_pool.acc_reward_per_share share) _ _
                    λ acc hc.
                      let (ea, _) = checked_add-eq u128 n d.reward_pool.residue ha in
                      let (em, _) = checked_mul-eq u128 amount reward_scale hm in
                      let (es, _) = checked_div-eq scaled d.reward_pool.inc_token_supply hs in
                      let (ec, _) =
                        checked_add-eq u128 d.reward_pool.acc_reward_per_share share hc in
                      pool-Moves 0 acc n (omega arith) (
                        rw ec (
                          omega (
                            arith,
                            allot_arith d.reward_pool.inc_token_supply amount
                                d.reward_pool.acc_reward_per_share d.reward_pool.residue share n
                                (es ∙ ap (λ (x : ℕ). x / d.reward_pool.inc_token_supply) em) ea,
                          ))))
    ]
  ]

pub notify_allocation-Moves :
    (d : Deps) (s : IsSound d) (env : Env) (n : ℕ)
    → Ensures (λ o. Moves d o.0 o.1 n 0 0) (notify_allocation d env n)
unfolding notify_allocation
notify_allocation-Moves d s env n = >>=-Ensures (err_if (is_stranger d.config env) _) _ _ λ _ hg.
    >>=-Ensures (update_rewards d n) _ _ λ (d', pool) h.
      Ensures-ok (λ o. Moves d o.0 _ n 0 0) (update_rewards d n)
        (update_rewards-Moves d s _ (λ t. refl) n) h
