-- ===== src/LpStaking/Balance.antt =====
-- The balance sheet of each operation that moves tokens or rewards.
use secret_finance_rewards.Common.{
  ℕ, Option, ◌+◌, ◌*◌, ◌/◌, ◌≤◌, ◌≡◌, refl, ◌∷◌, map, arith, Ensures, >>=-Ensures, checked_sub-eq,
  checked_add-eq, checked_add, eq_refl, eq_iff, checked_sub, err_if, ltb, unwrap_or, ap, u128,
  insert, insert-AllValues, str_eq, false,
}
use secret_finance_rewards.Scrt.Types.{HumanAddr, UserInfo}
use secret_finance_rewards.Scrt.Chain.{Env, sent, CosmosMsg}
use secret_finance_rewards.LpStaking.State.{
  Deps, Response, load_user, reward_scale, response_block_size,
}
use secret_finance_rewards.LpStaking.Rewards.{
  redeem_hook, emergency_redeem, accrued, pending_of, deposit_pending, pay_pending,
  create_subscriber_msg, deposit_hook,
}
use secret_finance_rewards.LpStaking.Accounting.{
  IsCovered, IsSound, Moves, load_user-IsCovered, store_user_totals,
}
use secret_finance_rewards.LpStaking.Amounts.{
  accrued-eq, pending_of-eq, deposit_pending-le, sent-subscribers, sent-pay_pending, sent_both,
  deposit_arith, redeem_arith,
}

-- A call that writes one user's record and the supply, and sends `p` of the reward token and
-- `out` of the incentivized one.
module _ (d : Deps) (s : IsSound d) (addr : HumanAddr) (u : UserInfo) (t : ℕ) (r : Response) where
  abbrev stored : Deps
  stored = record d {
    users = insert addr u d.users;
    reward_pool = record (d.reward_pool) { inc_token_supply = t };
  }

  stored-IsSound :
      t + (load_user addr d).locked ≡ d.reward_pool.inc_token_supply + u.locked
      → IsCovered d.reward_pool.acc_reward_per_share u
      → IsSound stored
  stored-IsSound supply covered = record {
    supply_is_sum = omega (arith, s.supply_is_sum, (store_user_totals addr d u).0);
    debts_covered = insert-AllValues _ addr u d.users s.debts_covered covered;
  }

  stored-Moves :
      (p out deposited hooks : ℕ)
      → sent d.config.reward_token.address r.messages ≡ p
      → sent d.config.inc_token.address r.messages ≡ out
      → out + t ≡ d.reward_pool.inc_token_supply + deposited
      → t + (load_user addr d).locked ≡ d.reward_pool.inc_token_supply + u.locked
      → IsCovered d.reward_pool.acc_reward_per_share u
      → reward_scale * p
          + t * d.reward_pool.acc_reward_per_share
          + reward_scale * (load_user addr d).debt
        ≤ d.reward_pool.inc_token_supply * d.reward_pool.acc_reward_per_share
          + reward_scale * u.debt
          + reward_scale * hooks
      → Moves d stored r 0 deposited hooks
  stored-Moves p out deposited hooks paid returned principal supply covered rewards = record {
    reward_token_kept = refl;
    inc_token_kept = refl;
    sound = stored-IsSound supply covered;
    principal = omega arith;
    rewards = omega (arith, (store_user_totals addr d u).1);
  }

module _ (d : Deps) (env : Env)
    (apart : str_eq d.config.reward_token.address d.config.inc_token.address ≡ false)
    (s : IsSound d) where
  pub deposit_hook-Moves :
      (from : HumanAddr) (amount : ℕ)
      → Ensures
          (λ o. Moves d o.0 o.1 0 amount 1)
          (deposit_hook d env d.config d.reward_pool from amount)
  unfolding deposit_hook
  deposit_hook-Moves from amount =
      let user = load_user from d in
      let acc = d.reward_pool.acc_reward_per_share in
      >>=-Ensures (deposit_pending user acc) _ _ λ p hp.
        >>=-Ensures (checked_add u128 user.locked amount) _ _ λ l hl.
          >>=-Ensures (accrued l acc) _ _ λ e he.
            >>=-Ensures (checked_add u128 d.reward_pool.inc_token_supply amount) _ _ λ t ht.
              let ep : e ≡ l * acc / reward_scale = accrued-eq l acc he in
              let lp = checked_add-eq u128 user.locked amount hl in
              let tp = checked_add-eq u128 d.reward_pool.inc_token_supply amount ht in
              let pp =
                deposit_pending-le user acc (load_user-IsCovered from d acc s.debts_covered) hp in
              let subs = map (create_subscriber_msg from l) d.subscribers in
              stored-Moves d s from (record { locked = l; debt = e }) t _ p 0 amount 1
                (ground (
                  arith,
                  sent_both d.config.reward_token.address (pay_pending d.config from p) subs,
                  sent-pay_pending d.config.reward_token.address d.config from p,
                  sent-subscribers d.config.reward_token.address from l d.subscribers,
                  eq_refl d.config.reward_token.address,
                ))
                (ground (
                  arith,
                  sent_both d.config.inc_token.address (pay_pending d.config from p) subs,
                  sent-pay_pending d.config.inc_token.address d.config from p,
                  sent-subscribers d.config.inc_token.address from l d.subscribers,
                ))
                (omega arith) (omega arith) (omega arith)
                (deposit_arith user.locked amount acc d.reward_pool.inc_token_supply p user.debt e l
                  t lp.0 tp.0 ep pp)

  pub redeem_hook-Moves :
      (to : HumanAddr) (requested : Option ℕ)
      → Ensures (λ o. Moves d o.0 o.1 0 0 1) (redeem_hook d env d.config d.reward_pool to requested)
  unfolding redeem_hook
  redeem_hook-Moves to requested =
      let user = load_user to d in
      let acc = d.reward_pool.acc_reward_per_share in
      let amount : ℕ = unwrap_or requested user.locked in
      let supply = d.reward_pool.inc_token_supply in
      >>=-Ensures (err_if (ltb user.locked amount) _) _ _ λ _ hg.
        >>=-Ensures (pending_of user acc) _ _ λ p hp.
          >>=-Ensures (checked_sub user.locked amount) _ _ λ l hl.
            >>=-Ensures (accrued l acc) _ _ λ e he.
              >>=-Ensures (checked_sub supply amount) _ _ λ t ht.
                let ep : e ≡ l * acc / reward_scale = accrued-eq l acc he in
                let (el, al) = checked_sub-eq user.locked amount hl in
                let (et, at) = checked_sub-eq supply amount ht in
                let subs = map (create_subscriber_msg to l) d.subscribers in
                let paid = pay_pending d.config to p in
                let rest =
                  CosmosMsg.transfer to amount response_block_size d.config.inc_token ∷ subs in
                let rt = d.config.reward_token.address in
                let it = d.config.inc_token.address in
                stored-Moves d s to (record { locked = l; debt = e }) t _ p amount 0 1
                  (ground (
                    arith,
                    sent_both rt paid rest,
                    sent-pay_pending rt d.config to p,
                    sent-subscribers rt to l d.subscribers,
                    eq_refl rt,
                    eq_iff rt it,
                    eq_iff it rt,
                  ))
                  (ground (
                    arith,
                    sent_both it paid rest,
                    sent-pay_pending it d.config to p,
                    sent-subscribers it to l d.subscribers,
                    eq_refl it,
                  ))
                  (omega arith) (omega arith) (omega arith)
                  (redeem_arith user.locked amount acc supply p user.debt e l t (omega arith)
                    (omega arith) ep (pending_of-eq user acc hp))

  pub emergency_redeem-Moves : Ensures (λ o. Moves d o.0 o.1 0 0 0) (emergency_redeem d env)
  unfolding emergency_redeem
  emergency_redeem-Moves =
      let user = load_user env.sender d in
      let supply = d.reward_pool.inc_token_supply in
      let acc = d.reward_pool.acc_reward_per_share in
      let covered = load_user-IsCovered env.sender d acc s.debts_covered in
      let rt = d.config.reward_token.address in
      let it = d.config.inc_token.address in
      >>=-Ensures (checked_sub supply user.locked) _ _ λ t ht.
        let (et, at) = checked_sub-eq supply user.locked ht in
        let et' : t + user.locked ≡ supply = omega arith in
        stored-Moves d s env.sender (record { locked = 0; debt = 0 }) t _ 0 user.locked 0 0
          (ground (arith, eq_iff rt it, eq_iff it rt)) (ground (arith, eq_refl it)) (omega arith)
          (omega arith) (omega arith) (omega (arith, ap (λ (x : ℕ). x * acc) et'))
