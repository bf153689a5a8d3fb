-- ===== src/LpStaking/Flows.antt =====
-- The balance sheet of every message that contracts/lp-staking handles.
use secret_finance_rewards.Common.{
  ℕ, ◌≡◌, refl, false, not, List, [], ◌∷◌, ◌++◌, map, Option, none, some, arith, ◌>>=◌, Result, ok,
  if-Ensures, Ensures, >>=-Ensures, Ensures-ok, str_eq, err_if,
}
use secret_finance_rewards.Scrt.Types.{HumanAddr, SecretContract}
use secret_finance_rewards.Scrt.Chain.{Env, sent}
use secret_finance_rewards.Scrt.LpStakingMsg.{
  LpStakingHandleMsg, LpStakingHookMsg, LpStakingReceiveMsg,
}
use secret_finance_rewards.LpStaking.State.{Deps, Outcome, Response, response_block_size}
use secret_finance_rewards.LpStaking.Admin.{
  enforce_admin, create_viewing_key, set_viewing_key, stop_contract, resume_contract, change_admin,
  add_subscribers, remove_subscribers, add_reward_sources, remove_reward_sources,
}
use secret_finance_rewards.LpStaking.Handle.{
  Externals, ask_source, callback_msgs, call_self, update_allocation, deposit, redeem, run_hook,
  self_callback, receive_msg, receive, handle_stopped, handle_running, handle,
}
use secret_finance_rewards.LpStaking.Accounting.{IsSound, Moves}
use secret_finance_rewards.LpStaking.Balance.{
  deposit_hook-Moves, redeem_hook-Moves, emergency_redeem-Moves,
}
use secret_finance_rewards.LpStaking.Allocation.{idle-Moves, notify_allocation-Moves}

-- What a message brings in, if it goes through: an allocation of rewards, a deposit; and whether
-- it runs a hook.
abbrev pub notified_by : LpStakingHandleMsg → ℕ
notified_by (LpStakingHandleMsg.notify_allocation amount) = amount
notified_by _ = 0

abbrev hook_deposit : LpStakingHookMsg → ℕ
hook_deposit (LpStakingHookMsg.deposit from amount) = amount
hook_deposit (LpStakingHookMsg.redeem to amount) = 0

abbrev pub deposited_by : LpStakingHandleMsg → ℕ
deposited_by (LpStakingHandleMsg.self_callback hook) = hook_deposit hook
deposited_by _ = 0

abbrev pub hooks_of : LpStakingHandleMsg → ℕ
hooks_of (LpStakingHandleMsg.self_callback hook) = 1
hooks_of _ = 0

abbrev Sheet : Deps → LpStakingHandleMsg → Outcome → Type 0
Sheet d msg o = Moves d o.0 o.1 (notified_by msg) (deposited_by msg) (hooks_of msg)

sent-callback :
    (env : Env) (cb : Option LpStakingHookMsg) (sources : List SecretContract) (t : HumanAddr)
    → sent t (map (ask_source env) sources ++ callback_msgs env cb) ≡ 0
unfolding ask_source callback_msgs call_self
sent-callback env none [] t = refl
sent-callback env (some cb) [] t = omega arith
sent-callback env cb (s ∷ sources) t = omega (arith, sent-callback env cb sources t)

module _ (d : Deps) (s : IsSound d) (env : Env) where
  update_allocation-Moves :
      (cb : LpStakingHookMsg)
      → Ensures {A = Outcome}
          (λ o. Moves d o.0 o.1 0 0 0)
          (update_allocation env d.config (some cb) >>= λ r. ok (d, r))
  unfolding update_allocation
  update_allocation-Moves cb =
      idle-Moves d s _ (sent-callback env (some cb) d.config.reward_sources) d.config d.subscribers
        d.viewing_keys refl refl

  run_hook-Moves :
      (apart : str_eq d.config.reward_token.address d.config.inc_token.address ≡ false)
      (hook : LpStakingHookMsg)
      → Ensures (Sheet d (LpStakingHandleMsg.self_callback hook)) (run_hook d env hook)
  unfolding run_hook
  run_hook-Moves apart (LpStakingHookMsg.deposit from amount) =
      deposit_hook-Moves d env apart s from amount
  run_hook-Moves apart (LpStakingHookMsg.redeem to amount) =
      redeem_hook-Moves d env apart s to amount

  receive_msg-Moves :
      (from : HumanAddr) (amount : ℕ) (m : LpStakingReceiveMsg)
      → Ensures (λ o. Moves d o.0 o.1 0 0 0) (receive_msg d env from amount m)
  unfolding receive_msg deposit
  receive_msg-Moves from amount LpStakingReceiveMsg.deposit =
      >>=-Ensures (err_if (not (str_eq env.sender d.config.inc_token.address)) _) _ _
        λ _ _. update_allocation-Moves (LpStakingHookMsg.deposit from amount)

module _ (x : Externals)
    (keeps : (n : ℕ) (r : Response) → (x.pad_response n r).messages ≡ r.messages) (d : Deps)
    (s : IsSound d) (env : Env) where
  -- A handler of the admin that writes the configuration or the subscribers.
  admin-Moves :
      (f : Unit {0} → Result Outcome)
      → Ensures (λ o. Moves d o.0 o.1 0 0 0) (f tt)
      → Ensures (λ o. Moves d o.0 o.1 0 0 0) (enforce_admin d.config env >>= f)
  admin-Moves f h = >>=-Ensures (enforce_admin d.config env) f _ λ u _. h

  handle_running-Moves :
      (apart : str_eq d.config.reward_token.address d.config.inc_token.address ≡ false)
      (msg : LpStakingHandleMsg)
      → Ensures (Sheet d msg) (handle_running x d env msg)
  unfolding handle_running create_viewing_key set_viewing_key stop_contract resume_contract
      change_admin add_subscribers remove_subscribers add_reward_sources remove_reward_sources
      redeem receive self_callback
  handle_running-Moves apart (LpStakingHandleMsg.redeem amount) =
      update_allocation-Moves d s env (LpStakingHookMsg.redeem env.sender amount)
  handle_running-Moves apart (LpStakingHandleMsg.create_viewing_key entropy padding) =
      idle-Moves d s _ (λ t. refl) d.config d.subscribers _ refl refl
  handle_running-Moves apart (LpStakingHandleMsg.set_viewing_key key padding) =
      idle-Moves d s _ (λ t. refl) d.config d.subscribers _ refl refl
  handle_running-Moves apart LpStakingHandleMsg.emergency_redeem = tt
  handle_running-Moves apart (LpStakingHandleMsg.receive sender from amount msg) =
      >>=-Ensures (x.from_binary msg) _ _ λ m _. receive_msg-Moves d s env from amount m
  handle_running-Moves apart LpStakingHandleMsg.stop_contract =
      admin-Moves _ (idle-Moves d s _ (λ t. refl) _ d.subscribers d.viewing_keys refl refl)
  handle_running-Moves apart LpStakingHandleMsg.resume_contract = tt
  handle_running-Moves apart (LpStakingHandleMsg.change_admin address) =
      admin-Moves _ (idle-Moves d s _ (λ t. refl) _ d.subscribers d.viewing_keys refl refl)
  handle_running-Moves apart (LpStakingHandleMsg.add_subs contracts) =
      admin-Moves _ (idle-Moves d s _ (λ t. refl) d.config _ d.viewing_keys refl refl)
  handle_running-Moves apart (LpStakingHandleMsg.remove_subs contracts) =
      admin-Moves _ (idle-Moves d s _ (λ t. refl) d.config _ d.viewing_keys refl refl)
  handle_running-Moves apart (LpStakingHandleMsg.add_reward_sources contracts) =
      admin-Moves _ (idle-Moves d s _ (λ t. refl) _ d.subscribers d.viewing_keys refl refl)
  handle_running-Moves apart (LpStakingHandleMsg.remove_reward_sources contracts) =
      admin-Moves _ (idle-Moves d s _ (λ t. refl) _ d.subscribers d.viewing_keys refl refl)
  handle_running-Moves apart (LpStakingHandleMsg.notify_allocation amount) =
      notify_allocation-Moves d s env amount
  handle_running-Moves apart (LpStakingHandleMsg.self_callback message) =
      >>=-Ensures (err_if (not (str_eq env.sender env.contract_address)) _) _ _
        λ _ _. run_hook-Moves d s env apart message

  handle_stopped-Moves :
      (apart : str_eq d.config.reward_token.address d.config.inc_token.address ≡ false)
      (msg : LpStakingHandleMsg)
      → Ensures (Sheet d msg) (handle_stopped x d env msg)
  unfolding handle_stopped resume_contract
  handle_stopped-Moves apart LpStakingHandleMsg.emergency_redeem =
      emergency_redeem-Moves d env apart s
  handle_stopped-Moves apart LpStakingHandleMsg.resume_contract =
      admin-Moves _ (idle-Moves d s _ (λ t. refl) _ d.subscribers d.viewing_keys refl refl)
  handle_stopped-Moves apart _ = tt

  padded-Moves :
      {d' : Deps} (r r' : Response) (n p h : ℕ)
      → r'.messages ≡ r.messages
      → Moves d d' r n p h
      → Moves d d' r' n p h
  padded-Moves r r' n p h same m = record {
    reward_token_kept = m.reward_token_kept;
    inc_token_kept = m.inc_token_kept;
    sound = m.sound;
    principal = rw same m.principal;
    rewards = rw same m.rewards;
  }

  pub handle-Moves :
      (apart : str_eq d.config.reward_token.address d.config.inc_token.address ≡ false)
      (msg : LpStakingHandleMsg)
      → Ensures (Sheet d msg) (handle x d env msg)
  unfolding handle
  handle-Moves apart msg =
      if-Ensures (Sheet d msg) d.config.is_stopped _ _ (handle_stopped-Moves apart msg) (
        >>=-Ensures (handle_running x d env msg) _ _ λ (d', r) h.
          padded-Moves r _ _ _ _ (keeps response_block_size r) (
            Ensures-ok (Sheet d msg) (handle_running x d env msg) (handle_running-Moves apart msg)
              h))
