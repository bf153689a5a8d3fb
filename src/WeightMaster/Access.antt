-- ===== src/WeightMaster/Access.antt =====
-- Who may change the state of contracts/weight-master/src/contract.rs, and what the reward query
-- foretells.
use secret_finance_rewards.Common.{
  ℕ, String, ◌≡◌, refl, true, false, [], ◌∷◌, ok, inl, inr, Result-cases, Bool-cases, Ensures,
  >>=-Ensures, str_eq, insert,
}
use secret_finance_rewards.Scrt.Types.{HumanAddr}
use secret_finance_rewards.Scrt.Chain.{Env}
use secret_finance_rewards.Scrt.MasterMsg.{MasterHandleMsg, MasterQueryAnswer}
use secret_finance_rewards.WeightMaster.State.{Deps, load_spy}
use secret_finance_rewards.WeightMaster.Emission.{get_spy_rewards}
use secret_finance_rewards.WeightMaster.Handle.{
  respond, enforce_admin, set_schedule, is_due, mint_to, notify_spy, set_weights, update_allocation,
  set_gov_token, change_admin, handle, query_pending_rewards,
}

update_allocation-state :
    (d : Deps) (env : Env) (addr : HumanAddr) (hash : String)
    → Ensures (λ o. o.0.state ≡ d.state) (update_allocation d env addr hash)
unfolding update_allocation
update_allocation-state d env addr hash =
    let spy = load_spy addr env.height d.spies in
    elim (Bool-cases (is_due env.height spy)) [
      | inl now ↦ rw now (
          >>=-Ensures (get_spy_rewards env.height d.state.total_weight d.state.minting_schedule spy)
            _ _ λ _ _. refl)
      | inr later ↦ rw later refl
    ]

-- A call by anyone but the admin leaves the admin, the token, the total weight and the schedule as
-- they were.
schedule_guarded :
    (d : Deps) (env : Env) (msg : MasterHandleMsg)
    → str_eq d.state.admin env.sender ≡ false
    → Ensures (λ o. o.0.state ≡ d.state) (handle d env msg)
unfolding handle set_schedule set_weights set_gov_token change_admin enforce_admin
schedule_guarded d env (MasterHandleMsg.update_allocation addr hash) other =
    update_allocation-state d env addr hash
schedule_guarded d env (MasterHandleMsg.set_weights weights) other = rw other tt
schedule_guarded d env (MasterHandleMsg.set_schedule schedule) other = rw other tt
schedule_guarded d env (MasterHandleMsg.set_gov_token addr hash) other = rw other tt
schedule_guarded d env (MasterHandleMsg.change_admin addr) other = rw other tt

-- Where the query answers `amount` for a contract that is due in a block, an update in that block
-- mints it that amount and notifies it, and stores the block.
pub query_pending_rewards-mints :
    (d : Deps) (env : Env) (addr : HumanAddr) (hash : String) (amount : ℕ)
    → is_due env.height (load_spy addr env.height d.spies) ≡ true
    → query_pending_rewards d addr env.height ≡ ok (MasterQueryAnswer.pending amount)
    → update_allocation d env addr hash
      ≡ ok (
        record d {
          spies =
              insert addr
                (record (load_spy addr env.height d.spies) { last_update_block = env.height })
                d.spies;
        },
        respond
            (mint_to d.state addr amount ∷ notify_spy addr hash amount ∷ [])
            (("update_allocation", addr) ∷ []),
      )
unfolding query_pending_rewards update_allocation
query_pending_rewards-mints d env addr hash amount due h =
    let spy = load_spy addr env.height d.spies in
    elim (Result-cases
      (get_spy_rewards env.height d.state.total_weight d.state.minting_schedule spy)) [
        | inl (e, failed) ↦ absurd (cc (rw failed at h))
        | inr (r, went) ↦ let same : r ≡ amount = cc (rw went at h) in rw (due, went, same) refl
      ]
