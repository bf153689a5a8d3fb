-- ===== src/LpStaking/Accounting.antt =====
-- What the staking pool owes and holds: the invariant of the storage, and the balance sheet of one
-- call. It is about the records of contracts/lp-staking/src/contract.rs.
use secret_finance_rewards.Common.{
  ℕ, ◌+◌, ◌*◌, ◌≤◌, ◌≡◌, inl, inr, arith, Option-cases, total, total-insert, AllValues,
  lookup-AllValues, lookup, insert,
}
use secret_finance_rewards.Scrt.Types.{HumanAddr, UserInfo}
use secret_finance_rewards.Scrt.Chain.{sent}
use secret_finance_rewards.LpStaking.State.{Deps, Response, load_user, reward_scale}

abbrev pub locked_of : UserInfo → ℕ
locked_of u = u.locked

abbrev pub debt_of : UserInfo → ℕ
debt_of u = u.debt

abbrev pub total_locked : Deps → ℕ
total_locked d = total locked_of d.users

abbrev pub total_debt : Deps → ℕ
total_debt d = total debt_of d.users

-- The debt of a user is at most what the locked tokens have earned since the pool began.
abbrev pub IsCovered : ℕ → UserInfo → Type 0
IsCovered acc u = u.debt * reward_scale ≤ u.locked * acc

-- The supply of the pool is the sum of the users' locked tokens, and every debt is covered.
pub record IsSound (d : Deps) : Type 0 where
  pub supply_is_sum : d.reward_pool.inc_token_supply ≡ total_locked d
  pub debts_covered : AllValues (IsCovered d.reward_pool.acc_reward_per_share) d.users

-- The balance sheet of one call: `notified` and `deposited` come in, the response sends tokens
-- out, and what the pool owes changes by no more than that, up to one unit for each hook.
pub record Moves (d d' : Deps) (r : Response) (notified deposited hooks : ℕ) : Type 0 where
  pub reward_token_kept : d'.config.reward_token ≡ d.config.reward_token
  pub inc_token_kept : d'.config.inc_token ≡ d.config.inc_token
  pub sound : IsSound d'
  pub principal :
      sent d.config.inc_token.address r.messages + d'.reward_pool.inc_token_supply
      ≡ d.reward_pool.inc_token_supply + deposited
  pub rewards :
      reward_scale * sent d.config.reward_token.address r.messages
        + d'.reward_pool.inc_token_supply * d'.reward_pool.acc_reward_per_share
        + reward_scale * d'.reward_pool.residue
        + reward_scale * total_debt d
      ≤ d.reward_pool.inc_token_supply * d.reward_pool.acc_reward_per_share
        + reward_scale * d.reward_pool.residue
        + reward_scale * total_debt d'
        + reward_scale * notified
        + reward_scale * hooks

module _ (addr : HumanAddr) (d : Deps) where
  -- A user without a record counts as one with nothing.
  pub load_user-IsCovered :
      (acc : ℕ) → AllValues (IsCovered acc) d.users → IsCovered acc (load_user addr d)
  unfolding load_user
  load_user-IsCovered acc h = elim (Option-cases (lookup addr d.users)) [
    | inl missing ↦ rw missing (omega arith)
    | inr (u, found) ↦ rw found (lookup-AllValues (IsCovered acc) addr d.users h found)
  ]

  -- Writing one user's record moves the totals by the difference of the two records.
  pub store_user_totals :
      (u : UserInfo)
      → (total locked_of (insert addr u d.users) + (load_user addr d).locked
          ≡ total_locked d + u.locked)
        × (total debt_of (insert addr u d.users) + (load_user addr d).debt ≡ total_debt d + u.debt)
  unfolding load_user
  store_user_totals u =
      ground (arith, total-insert locked_of addr u d.users, total-insert debt_of addr u d.users)
