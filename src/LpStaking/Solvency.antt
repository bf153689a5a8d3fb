-- ===== src/LpStaking/Solvency.antt =====
-- A history of calls of contracts/lp-staking, with a ledger of what went in and out, and the
-- bound on what the contract pays and owes.
use secret_finance_rewards.Common.{
  ap, ℕ, ◌+◌, ◌-◌, ◌*◌, ◌/◌, ◌≤◌, ◌≡◌, refl, List, [], ◌∷◌, Dict, arith, Result, ok, err, Ensures,
  false, str_eq, total, AllValues,
}
use secret_finance_rewards.Scrt.Types.{UserInfo}
use secret_finance_rewards.Scrt.Chain.{Env, sent}
use secret_finance_rewards.Scrt.LpStakingMsg.{LpStakingInitMsg, LpStakingHandleMsg}
use secret_finance_rewards.LpStaking.State.{Deps, Response, Outcome, reward_scale}
use secret_finance_rewards.LpStaking.Handle.{Externals, init, handle}
use secret_finance_rewards.LpStaking.Accounting.{
  locked_of, debt_of, total_locked, total_debt, IsCovered, IsSound, Moves,
}
use secret_finance_rewards.LpStaking.Flows.{notified_by, deposited_by, hooks_of, handle-Moves}

-- What the calls that went through have brought in and sent out.
pub record Ledger : Type 0 where
  pub notified : ℕ
  pub deposited : ℕ
  pub hooks : ℕ
  pub rewards_paid : ℕ
  pub returned : ℕ

abbrev pub no_calls : Ledger
no_calls = record { notified = 0; deposited = 0; hooks = 0; rewards_paid = 0; returned = 0 }

abbrev pub account : Deps → LpStakingHandleMsg → Response → Ledger → Ledger
account d msg r g = record {
  notified = g.notified + notified_by msg;
  deposited = g.deposited + deposited_by msg;
  hooks = g.hooks + hooks_of msg;
  rewards_paid = g.rewards_paid + sent d.config.reward_token.address r.messages;
  returned = g.returned + sent d.config.inc_token.address r.messages;
}

-- A call that fails leaves the storage and the ledger as they were.
abbrev pub settle : Deps → LpStakingHandleMsg → Ledger → Result Outcome → Deps × Ledger
settle d msg g (ok (d', r)) = (d', account d msg r g)
settle d msg g (err e) = (d, g)

unfoldable pub run : Externals → List (Env × LpStakingHandleMsg) → Deps × Ledger → Deps × Ledger
run x [] s = s
run x ((env, msg) ∷ calls) (d, g) = run x calls (settle d msg g (handle x d env msg))

-- What a staker can claim: earned, and not yet paid or forgone.
abbrev pub claim : ℕ → UserInfo → ℕ
claim acc u = u.locked * acc / reward_scale - u.debt

abbrev pub total_claims : Deps → ℕ
total_claims d = total (claim d.reward_pool.acc_reward_per_share) d.users

record IsSolvent (d : Deps) (g : Ledger) : Type 0 where
  sound : IsSound d
  apart : str_eq d.config.reward_token.address d.config.inc_token.address ≡ false
  principal : g.returned + d.reward_pool.inc_token_supply ≡ g.deposited
  rewards :
      reward_scale * g.rewards_paid
        + d.reward_pool.inc_token_supply * d.reward_pool.acc_reward_per_share
        + reward_scale * d.reward_pool.residue
      ≤ reward_scale * total_debt d + reward_scale * g.notified + reward_scale * g.hooks

settle-IsSolvent :
    (d : Deps) (msg : LpStakingHandleMsg) (g : Ledger) (r : Result Outcome)
    → IsSolvent d g
    → Ensures (λ o. Moves d o.0 o.1 (notified_by msg) (deposited_by msg) (hooks_of msg)) r
    → let (d', g') = settle d msg g r in IsSolvent d' g'
settle-IsSolvent d msg g (ok (d', r)) s m = record {
  sound = m.sound;
  apart = rw (m.reward_token_kept, m.inc_token_kept) s.apart;
  principal = omega (arith, m.principal, s.principal);
  rewards = omega (arith, m.rewards, s.rewards);
}
settle-IsSolvent d msg g (err e) s m = s

-- Claims and debts are at most what all the locked tokens have earned.
claims-le :
    (acc : ℕ) (users : Dict UserInfo)
    → AllValues (IsCovered acc) users
    → reward_scale * total (claim acc) users + reward_scale * total debt_of users
      ≤ total locked_of users * acc
claims-le acc [] h = omega arith
claims-le acc ((k, u) ∷ users) h = omega (arith, claims-le acc users h.1)

IsSolvent-bounds :
    {d : Deps} {g : Ledger}
    → IsSolvent d g
    → g.rewards_paid + total_claims d + d.reward_pool.residue ≤ g.notified + g.hooks
IsSolvent-bounds {d} {g} s =
    let acc = d.reward_pool.acc_reward_per_share in
    omega (
      arith,
      claims-le acc d.users s.sound.debts_covered,
      ap (λ (t : ℕ). t * acc) s.sound.supply_is_sum,
      s.rewards,
    )

module _ (x : Externals)
    (keeps : (n : ℕ) (r : Response) → (x.pad_response n r).messages ≡ r.messages) where
  run-IsSolvent :
      (calls : List (Env × LpStakingHandleMsg)) (d : Deps) (g : Ledger)
      → IsSolvent d g
      → let (d', g') = run x calls (d, g) in IsSolvent d' g'
  unfolding run
  run-IsSolvent [] d g s = s
  run-IsSolvent ((env, msg) ∷ calls) d g s =
      let (d', g') = settle d msg g (handle x d env msg) in
      run-IsSolvent calls d' g' (
        settle-IsSolvent d msg g (handle x d env msg) s
          (handle-Moves x keeps d s.sound env s.apart msg))

  init-IsSolvent :
      (env : Env) (msg : LpStakingInitMsg)
      → str_eq msg.reward_token.address msg.inc_token.address ≡ false
      → IsSolvent (init x.crypto env msg).0 no_calls
  unfolding init
  init-IsSolvent env msg apart = record {
    sound = record { supply_is_sum = refl; debts_covered = tt };
    apart = apart;
    principal = refl;
    rewards = omega arith;
  }

  -- For a pool whose two tokens are different contracts, after `init` and any calls, in any order
  -- and by anyone: the rewards paid, the rewards that all stakers can still claim and the residue
  -- are together at most what the reward sources have notified, plus one unit for each hook that
  -- ran, where padding a response keeps its messages.
  pub rewards_bounded :
      (env : Env) (msg : LpStakingInitMsg) (calls : List (Env × LpStakingHandleMsg))
      → str_eq msg.reward_token.address msg.inc_token.address ≡ false
      → let (d, g) = run x calls ((init x.crypto env msg).0, no_calls) in
        g.rewards_paid + total_claims d + d.reward_pool.residue ≤ g.notified + g.hooks
  rewards_bounded env msg calls apart =
      IsSolvent-bounds (run-IsSolvent calls _ _ (init-IsSolvent env msg apart))

  -- For a pool whose two tokens are different contracts, after `init` and any calls, where padding
  -- a response keeps its messages, the locked tokens are exactly backed: what the users have locked
  -- in sum is the supply of the pool, and with what was sent back it makes up what was deposited.
  pub principal_backed :
      (env : Env) (msg : LpStakingInitMsg) (calls : List (Env × LpStakingHandleMsg))
      → str_eq msg.reward_token.address msg.inc_token.address ≡ false
      → let (d, g) = run x calls ((init x.crypto env msg).0, no_calls) in
        (d.reward_pool.inc_token_supply ≡ total_locked d)
        × (g.returned + total_locked d ≡ g.deposited)
  principal_backed env msg calls apart =
      let s = run-IsSolvent calls _ _ (init-IsSolvent env msg apart) in
      (s.sound.supply_is_sum, omega (arith, s.principal, s.sound.supply_is_sum))
