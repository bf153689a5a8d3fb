-- ===== src/LpStaking/Access.antt =====
-- Who may change what in contracts/lp-staking: the effect of one call, by its sender.
use secret_finance_rewards.Common.{
  ◌≡◌, true, false, not, ok, Ensures, >>=-Ensures, if-Ensures, Ensures-ok, err_if, str_eq, lookup,
}
use secret_finance_rewards.Scrt.Types.{HumanAddr}
use secret_finance_rewards.Scrt.Chain.{Env}
use secret_finance_rewards.Scrt.LpStakingMsg.{LpStakingHandleMsg, LpStakingHookMsg}
use secret_finance_rewards.LpStaking.State.{Deps, Outcome, Response}
use secret_finance_rewards.LpStaking.Admin.{
  is_stranger, create_viewing_key, set_viewing_key, stop_contract, resume_contract, change_admin,
  add_subscribers, remove_subscribers, add_reward_sources, remove_reward_sources,
}
use secret_finance_rewards.LpStaking.Handle.{
  Externals, redeem, self_callback, receive, handle_stopped, handle_running, handle,
}
use secret_finance_rewards.LpStaking.Effects.{
  Effect, passed, not-false, keys-Effect, admin-Effect, hook-Effect, emergency-Effect,
  notify-Effect, ask-Effect, receive_msg-Effect,
}

module _ (x : Externals) (d : Deps) (env : Env) where
  handle_running-Effect :
      (msg : LpStakingHandleMsg) → Ensures (Effect d env) (handle_running x d env msg)
  unfolding handle_running create_viewing_key set_viewing_key stop_contract resume_contract
      change_admin add_subscribers remove_subscribers add_reward_sources remove_reward_sources
      redeem receive self_callback
  handle_running-Effect (LpStakingHandleMsg.redeem amount) =
      ask-Effect d env (LpStakingHookMsg.redeem env.sender amount)
  handle_running-Effect (LpStakingHandleMsg.create_viewing_key entropy padding) =
      keys-Effect d env _ _
  handle_running-Effect (LpStakingHandleMsg.set_viewing_key key padding) = keys-Effect d env _ _
  handle_running-Effect LpStakingHandleMsg.emergency_redeem = tt
  handle_running-Effect (LpStakingHandleMsg.receive sender from amount msg) =
      >>=-Ensures (x.from_binary msg) _ _ λ m _. receive_msg-Effect d env from amount m
  handle_running-Effect LpStakingHandleMsg.stop_contract = admin-Effect d env _ d.subscribers _
  handle_running-Effect LpStakingHandleMsg.resume_contract = tt
  handle_running-Effect (LpStakingHandleMsg.change_admin address) =
      admin-Effect d env _ d.subscribers _
  handle_running-Effect (LpStakingHandleMsg.add_subs contracts) = admin-Effect d env d.config _ _
  handle_running-Effect (LpStakingHandleMsg.remove_subs contracts) = admin-Effect d env d.config _ _
  handle_running-Effect (LpStakingHandleMsg.add_reward_sources contracts) =
      admin-Effect d env _ d.subscribers _
  handle_running-Effect (LpStakingHandleMsg.remove_reward_sources contracts) =
      admin-Effect d env _ d.subscribers _
  handle_running-Effect (LpStakingHandleMsg.notify_allocation amount) = notify-Effect d env amount
  handle_running-Effect (LpStakingHandleMsg.self_callback message) =
      >>=-Ensures (err_if (not (str_eq env.sender env.contract_address)) _) _ _ λ _ h.
        hook-Effect d env message
          (not-false (str_eq env.sender env.contract_address) (passed _ _ h))

  handle_stopped-Effect :
      (msg : LpStakingHandleMsg) → Ensures (Effect d env) (handle_stopped x d env msg)
  unfolding handle_stopped resume_contract
  handle_stopped-Effect LpStakingHandleMsg.emergency_redeem = emergency-Effect d env
  handle_stopped-Effect LpStakingHandleMsg.resume_contract = admin-Effect d env _ d.subscribers _
  handle_stopped-Effect _ = tt

  padded-Effect : {d' : Deps} (r r' : Response) → Effect d env (d', r) → Effect d env (d', r')
  padded-Effect r r' e = record {
    config = e.config;
    subscribers = e.subscribers;
    users = e.users;
    share = e.share;
    residue = e.residue;
  }

  handle-Effect : (msg : LpStakingHandleMsg) → Ensures (Effect d env) (handle x d env msg)
  unfolding handle
  handle-Effect msg =
      if-Ensures (Effect d env) d.config.is_stopped _ _ (handle_stopped-Effect msg) (
        >>=-Ensures (handle_running x d env msg) _ _ λ (d', r) h.
          padded-Effect r _
            (Ensures-ok (Effect d env) (handle_running x d env msg) (handle_running-Effect msg) h))

  module _ (msg : LpStakingHandleMsg) {o : Outcome} (went : handle x d env msg ≡ ok o) where
    effect : Effect d env o
    effect = Ensures-ok (Effect d env) (handle x d env msg) (handle-Effect msg) went

    -- A call by anyone but the admin leaves the configuration (the admin, the tokens, the reward
    -- sources, whether the contract is stopped) and the subscribers as they were.
    pub admin_only :
        str_eq d.config.admin env.sender ≡ false
        → (o.0.config ≡ d.config) × (o.0.subscribers ≡ d.subscribers)
    admin_only n = (effect.config n, effect.subscribers n)

    -- A call by anyone but the contract itself leaves the records of all other users as they were.
    pub own_record_only :
        str_eq env.sender env.contract_address ≡ false
        → (a : HumanAddr) → str_eq env.sender a ≡ false
        → lookup a o.0.users ≡ lookup a d.users
    own_record_only n a ne = effect.users n a ne

    -- A call by anyone but the admin and the reward sources leaves what a share has earned, and
    -- the residue, as they were.
    pub sources_only :
        is_stranger d.config env ≡ true
        → (o.0.reward_pool.acc_reward_per_share ≡ d.reward_pool.acc_reward_per_share)
          × (o.0.reward_pool.residue ≡ d.reward_pool.residue)
    sources_only s = (effect.share s, effect.residue s)
