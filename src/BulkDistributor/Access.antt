-- ===== src/BulkDistributor/Access.antt =====
-- Who may change the configuration of contracts/bulk-distributor/src/contract.rs.
use secret_finance_rewards.Common.{
  ℕ, ◌≡◌, refl, false, not, Result, Ensures, Ensures-ok, >>=-Ensures, Bool-cases, inl, inr, ltb,
  str_eq, err_if, unauthorized, u64, checked_add, checked_div, filter,
}
use secret_finance_rewards.Scrt.Types.{HumanAddr, Binary}
use secret_finance_rewards.Scrt.Chain.{Env}
use secret_finance_rewards.BulkDistributor.Msg.{HandleMsg, ReceiveMsg}
use secret_finance_rewards.BulkDistributor.State.{Deps}
use secret_finance_rewards.BulkDistributor.Rewards.{get_spy_rewards}
use secret_finance_rewards.BulkDistributor.Owed.{updated_reward_bulks-eq}
use secret_finance_rewards.BulkDistributor.Handle.{
  enforce_admin, award, update_allocation, new_bulk_reward, change_admin, receive_msg, receive,
  handle,
}

-- The fields of the configuration that `init` sets.
abbrev pub SameConfig : Deps → Deps → Type 0
SameConfig d d' =
    (d'.state.admin ≡ d.state.admin)
    × (d'.state.reward_token ≡ d.state.reward_token)
    × (d'.state.spy_to_reward ≡ d.state.spy_to_reward)

module _ (d : Deps) (env : Env) where
  award-SameConfig : Ensures (λ a. SameConfig d a.0) (award d env)
  unfolding award
  award-SameConfig = elim (Bool-cases (ltb d.state.last_awarded_block env.height)) [
    | inl due ↦
        rw (due, updated_reward_bulks-eq d)
          (>>=-Ensures
            (get_spy_rewards (filter (λ b. ltb d.state.last_awarded_block b.end_block) d.bulks)
              d.state.last_awarded_block env.height)
            _ _ λ _ _. (refl, refl, refl))
    | inr done ↦ rw done (refl, refl, refl)
  ]

  update_allocation-SameConfig : Ensures (λ o. SameConfig d o.0) (update_allocation d env)
  unfolding update_allocation
  update_allocation-SameConfig =
      >>=-Ensures (award d env) _ _
        λ a ha. Ensures-ok (λ x. SameConfig d x.0) (award d env) award-SameConfig ha

  receive_msg-SameConfig :
      (from : HumanAddr) (amount : ℕ) (msg : ReceiveMsg)
      → Ensures (λ o. SameConfig d o.0) (receive_msg d env from amount msg)
  unfolding receive_msg new_bulk_reward
  receive_msg-SameConfig from amount (ReceiveMsg.new_bulk_reward over) =
      >>=-Ensures (err_if (not (str_eq from d.state.admin)) unauthorized) _ _ λ _ _.
        >>=-Ensures (update_allocation d env) _ _ λ u hu.
          let same =
            Ensures-ok (λ o. SameConfig d o.0) (update_allocation d env)
              update_allocation-SameConfig hu in
          >>=-Ensures (checked_add u64 env.height over) _ _
            λ e he. >>=-Ensures (checked_div amount over) _ _ λ r hr. same

-- A call by anyone but the admin leaves the admin, the reward token and the spy as they were.
config_guarded :
    (from_binary : Binary → Result ReceiveMsg) (d : Deps) (env : Env) (msg : HandleMsg)
    → str_eq d.state.admin env.sender ≡ false
    → Ensures (λ o. SameConfig d o.0) (handle from_binary d env msg)
unfolding handle receive change_admin enforce_admin
config_guarded from_binary d env (HandleMsg.update_allocation spy_addr spy_hash hook) other =
    update_allocation-SameConfig d env
config_guarded from_binary d env (HandleMsg.receive sender from amount msg) other =
    >>=-Ensures (from_binary msg) _ _ λ m _. receive_msg-SameConfig d env from amount m
config_guarded from_binary d env (HandleMsg.change_admin address) other = rw other tt
