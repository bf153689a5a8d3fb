-- ===== src/LpStaking/Redemption.antt =====
-- A redemption from contracts/lp-staking, in the calls that it takes: the staker's, the notifications
-- of the reward sources that it asks, and the hook.
use secret_finance_rewards.Common.{
  ℕ, ◌-◌, ◌*◌, ◌≤◌, ◌<◌, ◌≡◌, refl, ◌∙◌, ap, true, false, Option, none, some, List, [], ◌∷◌, ◌++◌,
  map, arith, ok, str_eq, u128, unwrap_or, run_calls,
}
use secret_finance_rewards.Scrt.Types.{HumanAddr, SecretContract, UserInfo}
use secret_finance_rewards.Scrt.Chain.{Env, CosmosMsg}
use secret_finance_rewards.Scrt.LpStakingMsg.{
  LpStakingHandleMsg, LpStakingHookMsg, LpStakingHandleAnswer, LpStakingResponseStatus,
}
use secret_finance_rewards.LpStaking.State.{Config, Deps, Response, load_user, response_block_size}
use secret_finance_rewards.LpStaking.Rewards.{pay_pending, create_subscriber_msg}
use secret_finance_rewards.LpStaking.Handle.{
  Externals, ask_source, call_self, callback_msgs, update_allocation, redeem, run_hook,
  self_callback, handle_running, handle,
}
use secret_finance_rewards.LpStaking.Accounting.{IsSound}
use secret_finance_rewards.LpStaking.Solvency.{claim}
use secret_finance_rewards.LpStaking.Withdraw.{restaked, claim_at, redeem_hook_pays}
use secret_finance_rewards.LpStaking.Notified.{IsNotified, notify, notifications-IsNotified}

-- What the hook answers: the rewards and the amount, and what is left for every subscriber.
abbrev pub paid : Config → List SecretContract → HumanAddr → (amount left rewards : ℕ) → Response
paid config subscribers to amount left rewards = record {
  messages =
      pay_pending config to rewards
      ++ (CosmosMsg.transfer to amount response_block_size config.inc_token
          ∷ map (create_subscriber_msg to left) subscribers);
  log = [];
  answer = some (LpStakingHandleAnswer.redeem LpStakingResponseStatus.success);
}

claim-grows : (acc acc' : ℕ) (u : UserInfo) → acc ≤ acc' → claim acc u ≤ claim acc' u
claim-grows acc acc' u h = let more : u.locked * acc ≤ u.locked * acc' = grind arith in omega arith

load_user-same :
    (to : HumanAddr) (d d' : Deps) → d'.users ≡ d.users → load_user to d' ≡ load_user to d
unfolding load_user
load_user-same to d d' h = rw h refl

module _ (x : Externals) (d : Deps) (env : Env) (running : d.config.is_stopped ≡ false) where
  redeem-asks :
      (requested : Option ℕ)
      → handle x d env (LpStakingHandleMsg.redeem requested)
        ≡ ok (
          d,
          x.pad_response response_block_size (record {
            messages =
                map (ask_source env) d.config.reward_sources
                ++ (call_self env (LpStakingHookMsg.redeem env.sender requested) ∷ []);
            log = [];
            answer = none;
          }),
        )
  unfolding handle handle_running redeem update_allocation callback_msgs
  redeem-asks requested = simp running

  -- What is asked is delivered later, in the state `d'`, as the call `self`.
  module _ (d' : Deps) (self : Env) (requested : Option ℕ) (k : IsNotified d d') where
    -- The call by what the user has locked, the supply, the configuration and the subscribers.
    Delivers : ℕ → ℕ → Config → List SecretContract → Type 0
    Delivers locked supply config subscribers =
        let amount = unwrap_or requested locked in
        handle x d' self
          (LpStakingHandleMsg.self_callback (LpStakingHookMsg.redeem env.sender requested))
        ≡ ok (
          restaked d' env.sender (locked - amount) (supply - amount),
          x.pad_response response_block_size (
              paid config subscribers env.sender amount (locked - amount) (claim_at d' env.sender)),
        )

    delivered-Delivers :
        str_eq self.sender self.contract_address ≡ true
        → let locked = (load_user env.sender d').locked in
          unwrap_or requested locked ≤ locked
          → locked * d'.reward_pool.acc_reward_per_share < u128
          → Delivers locked d'.reward_pool.inc_token_supply d'.config d'.subscribers
    unfolding Delivers handle handle_running self_callback run_hook
    delivered-Delivers own within fits =
        let still : d'.config.is_stopped ≡ false = ap (λ c. c.is_stopped) k.config ∙ running in
        simp (still, own, redeem_hook_pays d' k.sound self env.sender requested within fits)

    hook-pays :
        str_eq self.sender self.contract_address ≡ true
        → let locked = (load_user env.sender d).locked in
          unwrap_or requested locked ≤ locked
          → locked * d'.reward_pool.acc_reward_per_share < u128
          → Delivers locked d.reward_pool.inc_token_supply d.config d.subscribers
    hook-pays own within fits =
        let same = ap (λ u. u.locked) (load_user-same env.sender d d' k.users) in
        rw (same, k.supply, k.config, k.subscribers) at
          (delivered-Delivers own (rw same within) (rw same fits))

-- A redemption completes, in a sound state of a running contract, in the calls that it takes. The
-- staker's call changes nothing, asks every reward source for its allocation, in order, and then
-- calls the contract itself with a hook. After any notifications, by anyone, that hook goes through
-- as a call by the contract, where the staker asks for at most the locked tokens (with no amount,
-- for all of them) and the earnings fit 128 bits: it pays the rewards pending by then, which are no
-- less than those pending before the call, sends the amount, and tells every subscriber what is
-- left, which it stores.
pub redeem_completes :
    (x : Externals) (d : Deps) (env self : Env) (requested : Option ℕ) (notes : List (Env × ℕ))
    → IsSound d
    → d.config.is_stopped ≡ false
    → str_eq self.sender self.contract_address ≡ true
    → let d' = run_calls (notify x) notes d in
      let locked = (load_user env.sender d).locked in
      let amount = unwrap_or requested locked in
      amount ≤ locked
      → locked * d'.reward_pool.acc_reward_per_share < u128
      → (hook : LpStakingHookMsg) × (handle x d env (LpStakingHandleMsg.redeem requested)
          ≡ ok (
            d,
            x.pad_response response_block_size (record {
              messages = map (ask_source env) d.config.reward_sources ++ (call_self env hook ∷ []);
              log = [];
              answer = none;
            }),
          ))
        × (handle x d' self (LpStakingHandleMsg.self_callback hook)
            ≡ ok (
              restaked d' env.sender (locked - amount) (d.reward_pool.inc_token_supply - amount),
              x.pad_response response_block_size (
                  paid d.config d.subscribers env.sender amount
                    (locked - amount)
                    (claim_at d' env.sender)),
            ))
        × (claim_at d env.sender ≤ claim_at d' env.sender)
unfolding Delivers
redeem_completes x d env self requested notes sound running own within fits =
    let d' = run_calls (notify x) notes d in
    let k = notifications-IsNotified d x sound notes in
    let same = load_user-same env.sender d d' k.users in
    (
      LpStakingHookMsg.redeem env.sender requested,
      redeem-asks x d env running requested,
      hook-pays x d env running d' self requested k own within fits,
      rw same (
          claim-grows d.reward_pool.acc_reward_per_share d'.reward_pool.acc_reward_per_share
            (load_user env.sender d) k.grows),
    )
