-- ===== src/DevFund/Access.antt =====
-- Who may change what contracts/dev-fund/src/contract.rs stores.
use secret_finance_rewards.Common.{
  arith, eq_iff, Ensures-ok, ◌≡◌, refl, false, not, Ensures, >>=-Ensures, err_if, unauthorized,
  str_eq,
}
use secret_finance_rewards.Scrt.Types.{HumanAddr}
use secret_finance_rewards.Scrt.Chain.{Env}
use secret_finance_rewards.DevFund.Msg.{HandleMsg}
use secret_finance_rewards.DevFund.State.{Deps, Outcome}
use secret_finance_rewards.DevFund.Handle.{
  Externals, enforce_admin, notify_allocation, self_callback, update_allocation, redeem,
  change_admin, change_beneficiary, set_master, refresh_balance, handle_msg, handle,
}

module _ (x : Externals) (d : Deps) (env : Env) where
  handle_msg-outsider :
      (msg : HandleMsg)
      → str_eq d.config.admin env.sender ≡ false
      → str_eq env.sender d.config.admin ≡ false
      → str_eq env.sender d.config.master.address ≡ false
      → str_eq env.sender env.contract_address ≡ false
      → Ensures (λ o. o.0 ≡ d) (handle_msg x d env msg)
  unfolding handle_msg redeem update_allocation notify_allocation self_callback change_admin
      change_beneficiary set_master refresh_balance enforce_admin
  handle_msg-outsider (HandleMsg.redeem amount to) h a m c =
      >>=-Ensures (err_if (not (str_eq env.sender d.config.beneficiary)) unauthorized) _ _
        λ _ _. refl
  handle_msg-outsider (HandleMsg.change_admin address) h a m c = rw h tt
  handle_msg-outsider (HandleMsg.change_beneficiary address) h a m c = rw h tt
  handle_msg-outsider HandleMsg.refresh_balance h a m c = rw h tt
  handle_msg-outsider (HandleMsg.set_master contract) h a m c = rw h tt
  handle_msg-outsider (HandleMsg.notify_allocation amount) h a m c = rw (a, m) tt
  handle_msg-outsider (HandleMsg.self_callback message) h a m c = rw c tt

str_eq-swap : (a b : HumanAddr) → str_eq a b ≡ false → str_eq b a ≡ false
str_eq-swap a b h = ground (arith, eq_iff a b, eq_iff b a)

-- A call by anyone but the admin, the emission contract and the contract itself stores nothing: the
-- configuration and the rewards stay as they were, also when the beneficiary asks to redeem.
pub outsiders_change_nothing :
    (x : Externals) (d : Deps) (env : Env) (msg : HandleMsg)
    → str_eq env.sender d.config.admin ≡ false
    → str_eq env.sender d.config.master.address ≡ false
    → str_eq env.sender env.contract_address ≡ false
    → Ensures (λ o. o.0 ≡ d) (handle x d env msg)
unfolding handle
outsiders_change_nothing x d env msg a m c = >>=-Ensures (handle_msg x d env msg) _ _ λ o ho.
    Ensures-ok (λ (p : Outcome). p.0 ≡ d) (handle_msg x d env msg)
      (handle_msg-outsider x d env msg (str_eq-swap env.sender d.config.admin a) a m c) ho
