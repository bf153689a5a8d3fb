-- ===== src/GovToken/Stopped.antt =====
-- contracts/gov-token/src/contract.rs: a token that its admin has stopped.
use secret_finance_rewards.Common.{
  ◌≡◌, ◌≢◌, refl, false, List, ok, Ensures, >>=-Ensures, Ensures-ok, str_eq, All, run_calls,
  run_calls-keeps_among,
}
use secret_finance_rewards.Scrt.Chain.{Env}
use secret_finance_rewards.GovToken.Msg.{
  ContractStatusLevel, HandleMsg, status_level_to_u8, u8_to_status_level,
}
use secret_finance_rewards.GovToken.State.{Deps, contract_status, set_status}
use secret_finance_rewards.GovToken.Handle.{
  Externals, Outcome, check_if_admin, set_contract_status, handle_stopped, pad_response, handle_at,
  handle,
}
use secret_finance_rewards.GovToken.Accounts.{handle_call}

-- The stored byte reads as the level that was written.
pub contract_status-set_status :
    (d : Deps) (level : ContractStatusLevel) → contract_status (set_status d level) ≡ ok level
unfolding contract_status set_status status_level_to_u8 u8_to_status_level
contract_status-set_status d ContractStatusLevel.normal_run = refl
contract_status-set_status d ContractStatusLevel.stop_all_but_redeems = refl
contract_status-set_status d ContractStatusLevel.stop_all = refl

module _ (x : Externals) (d : Deps) (env : Env)
    (stranger : str_eq d.constants.admin env.sender ≡ false) where
  stopped_same : (msg : HandleMsg) → Ensures (λ o. o.0 ≡ d) (handle_stopped x d env msg)
  unfolding handle_stopped set_contract_status check_if_admin
  stopped_same (HandleMsg.set_contract_status level) = rw stranger tt
  stopped_same (HandleMsg.transfer recipient amount) = tt
  stopped_same (HandleMsg.send recipient amount msg) = tt
  stopped_same (HandleMsg.burn amount) = tt
  stopped_same (HandleMsg.register_receive code_hash) = tt
  stopped_same (HandleMsg.create_viewing_key entropy) = tt
  stopped_same (HandleMsg.set_viewing_key key) = tt
  stopped_same (HandleMsg.increase_allowance spender amount expiration) = tt
  stopped_same (HandleMsg.decrease_allowance spender amount expiration) = tt
  stopped_same (HandleMsg.transfer_from owner recipient amount) = tt
  stopped_same (HandleMsg.send_from owner recipient amount msg) = tt
  stopped_same (HandleMsg.burn_from owner amount) = tt
  stopped_same (HandleMsg.mint recipient amount) = tt
  stopped_same (HandleMsg.change_admin address) = tt
  stopped_same (HandleMsg.add_minters minters) = tt
  stopped_same (HandleMsg.remove_minters minters) = tt
  stopped_same (HandleMsg.set_minters minters) = tt

  handle_at-stopped :
      (level : ContractStatusLevel) (msg : HandleMsg)
      → level ≢ ContractStatusLevel.normal_run
      → Ensures (λ o. o.0 ≡ d) (handle_at x level d env msg)
  unfolding handle_at
  handle_at-stopped ContractStatusLevel.normal_run msg stopped = absurd (stopped refl)
  handle_at-stopped ContractStatusLevel.stop_all_but_redeems msg stopped = stopped_same msg
  handle_at-stopped ContractStatusLevel.stop_all msg stopped = stopped_same msg

admin_stays :
    (d : Deps) (level : ContractStatusLevel) (env : Env)
    → str_eq d.constants.admin env.sender ≡ false
    → str_eq (set_status d level).constants.admin env.sender ≡ false
unfolding set_status
admin_stays d level env h = h

handle-stopped :
    (x : Externals) (d d' : Deps) (level : ContractStatusLevel)
    → level ≢ ContractStatusLevel.normal_run
    → contract_status d ≡ ok level
    → (call : Env × HandleMsg) → str_eq d.constants.admin call.0.sender ≡ false
    → d' ≡ d
    → Ensures (λ o. o.0 ≡ d) (handle_call x d' call)
unfolding handle pad_response
handle-stopped x d d' level stopped status call stranger same =
    rw (same, status)
      (>>=-Ensures (handle_at x level d call.0 call.1) _ _ λ o ho.
        Ensures-ok (λ (o : Outcome). o.0 ≡ d) (handle_at x level d call.0 call.1)
          (handle_at-stopped x d call.0 stranger level call.1 stopped) ho)

-- Where the admin has stopped the token, at either level, the storage stays exactly as it is whatever
-- anyone but the admin calls, until the admin calls.
pub stop_holds :
    (x : Externals) (d : Deps) (env : Env) (level : ContractStatusLevel) {o : Outcome}
    → set_contract_status d env level ≡ ok o
    → level ≢ ContractStatusLevel.normal_run
    → (calls : List (Env × HandleMsg))
    → All (λ call. str_eq d.constants.admin call.0.sender ≡ false) calls
    → run_calls (handle_call x) calls o.0 ≡ o.0
unfolding set_contract_status
stop_holds x d env level {o} went stopped calls strangers =
    let same : o.0 ≡ set_status d level =
      Ensures-ok (λ (o : Outcome). o.0 ≡ set_status d level) (set_contract_status d env level)
        (>>=-Ensures (check_if_admin d env.sender) _ _ λ _ _. refl) went in
    rw same (
      run_calls-keeps_among (handle_call x) (λ d'. d' ≡ set_status d level)
        (λ call. str_eq d.constants.admin call.0.sender ≡ false)
        (λ d' call stranger e.
          handle-stopped x (set_status d level) d' level stopped
            (contract_status-set_status d level) call (admin_stays d level call.0 stranger) e)
        calls (set_status d level) strangers refl)
