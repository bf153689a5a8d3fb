-- ===== src/LpStaking/Amounts.antt =====
-- The amounts that the handlers of contracts/lp-staking/src/contract.rs compute and send.
use native.Mathlib.Nat.{mul-div-le}
use secret_finance_rewards.Common.{
  ℕ, ◌+◌, ◌*◌, ◌/◌, ◌≤◌, ◌≡◌, refl, [], ◌∷◌, List, ◌++◌, map, ok, arith, checked_sub-eq,
  checked_mul, checked_div, ap, sum_by-append, str_eq, if◌then◌else◌,
}
use secret_finance_rewards.Scrt.Types.{HumanAddr, UserInfo, SecretContract}
use secret_finance_rewards.Scrt.Chain.{sent, sent_by, CosmosMsg}
use secret_finance_rewards.LpStaking.State.{Config, reward_scale}
use secret_finance_rewards.LpStaking.Rewards.{
  accrued, pending_of, deposit_pending, pay_pending, create_subscriber_msg,
}
use secret_finance_rewards.LpStaking.Accounting.{IsCovered}

pub accrued-eq :
    (locked acc : ℕ) {e : ℕ} → accrued locked acc ≡ ok e → e ≡ locked * acc / reward_scale
unfolding accrued checked_mul checked_div
accrued-eq locked acc h = ground arith

-- A pending reward and the debt make up what the locked tokens have earned.
pub pending_of-eq :
    (u : UserInfo) (acc : ℕ) {p : ℕ}
    → pending_of u acc ≡ ok p
    → p + u.debt ≡ u.locked * acc / reward_scale
unfolding pending_of
pending_of-eq u acc h = grind (arith, accrued-eq, checked_sub-eq)

pub deposit_pending-le :
    (u : UserInfo) (acc : ℕ) {p : ℕ}
    → IsCovered acc u
    → deposit_pending u acc ≡ ok p
    → p + u.debt ≤ u.locked * acc / reward_scale
unfolding deposit_pending
deposit_pending-le u acc {p = p} c h = ground (arith, pending_of-eq u acc {p = p})

pub sent-subscribers :
    (token user : HumanAddr) (power : ℕ) (subs : List SecretContract)
    → sent token (map (create_subscriber_msg user power) subs) ≡ 0
unfolding create_subscriber_msg
sent-subscribers token user power [] = refl
sent-subscribers token user power (s ∷ subs) = omega (arith, sent-subscribers token user power subs)

pub sent-pay_pending :
    (token : HumanAddr) (config : Config) (to : HumanAddr) (p : ℕ)
    → sent token (pay_pending config to p)
      ≡ (if str_eq config.reward_token.address token then p else 0)
unfolding pay_pending
sent-pay_pending token config to p = ground arith

pub sent_both :
    (token : HumanAddr) (ms ns : List CosmosMsg)
    → sent token (ms ++ ns) ≡ sent token ms + sent token ns
sent_both token ms ns = sum_by-append (sent_by token) ms ns

-- Debts are rounded down, so one hook may promise up to one unit more than has come in.
pub deposit_arith :
    (locked amount acc supply p debt e l t : ℕ)
    → l ≡ locked + amount
    → t ≡ supply + amount
    → e ≡ l * acc / reward_scale
    → p + debt ≤ locked * acc / reward_scale
    → reward_scale * p + t * acc + reward_scale * debt
      ≤ supply * acc + reward_scale * e + reward_scale * 1
deposit_arith locked amount acc supply p debt e l t el et ee ep =
    omega (arith, ap (λ (x : ℕ). x * acc) el, ap (λ (x : ℕ). x * acc) et)

pub redeem_arith :
    (locked amount acc supply p debt e l t : ℕ)
    → l + amount ≡ locked
    → t + amount ≡ supply
    → e ≡ l * acc / reward_scale
    → p + debt ≡ locked * acc / reward_scale
    → reward_scale * p + t * acc + reward_scale * debt
      ≤ supply * acc + reward_scale * e + reward_scale * 1
redeem_arith locked amount acc supply p debt e l t el et ee ep =
    omega (arith, ap (λ (x : ℕ). x * acc) el, ap (λ (x : ℕ). x * acc) et)

-- A new allocation raises what a share has earned by no more than it brings in.
pub allot_arith :
    (supply amount acc residue share n : ℕ)
    → share ≡ amount * reward_scale / supply
    → amount ≡ n + residue
    → supply * (acc + share) ≤ supply * acc + reward_scale * residue + reward_scale * n
allot_arith supply amount acc residue share n es ea =
    omega (arith, mul-div-le (amount * reward_scale) supply, ap (λ (x : ℕ). supply * x) es)
