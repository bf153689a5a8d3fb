-- ===== src/LpStaking/Withdraw.antt =====
-- Hooks of contracts/lp-staking that cannot fail: a staker gets the locked tokens back.
use secret_finance_rewards.Common.{
  ℕ, ◌+◌, ◌-◌, ◌*◌, ◌/◌, ◌≤◌, ◌<◌, ◌≡◌, inl, inr, Option, some, List, [], ◌∷◌, ◌++◌, map, ok, err,
  arith, insert, ap, Bool-cases, generic_err, number, lt→ltb, if◌then◌else◌, unwrap_or, u128,
  checked_add-ok, checked_mul-ok, checked_sub-ok, checked_div-ok, le→ltb, false, ltb,
}
use secret_finance_rewards.Scrt.Types.{HumanAddr, UserInfo}
use secret_finance_rewards.Scrt.Chain.{Env, CosmosMsg}
use secret_finance_rewards.Scrt.LpStakingMsg.{
  LpStakingHandleMsg, LpStakingHandleAnswer, LpStakingResponseStatus,
}
use secret_finance_rewards.LpStaking.State.{Deps, load_user, reward_scale, response_block_size}
use secret_finance_rewards.LpStaking.Rewards.{
  accrued, pending_of, deposit_pending, pay_pending, create_subscriber_msg, deposit_hook,
  redeem_hook, emergency_redeem,
}
use secret_finance_rewards.LpStaking.Handle.{Externals, handle_stopped, handle_running, handle}
use secret_finance_rewards.LpStaking.Accounting.{
  IsCovered, IsSound, load_user-IsCovered, store_user_totals,
}
use secret_finance_rewards.LpStaking.Solvency.{claim}

-- No user has more locked than the pool holds.
locked-le-supply :
    (addr : HumanAddr) (d : Deps)
    → IsSound d
    → (load_user addr d).locked ≤ d.reward_pool.inc_token_supply
locked-le-supply addr d s =
    omega (arith, s.supply_is_sum, (store_user_totals addr d (record { locked = 0; debt = 0 })).0)

accrued-ok :
    (locked acc : ℕ) → locked * acc < u128 → accrued locked acc ≡ ok (locked * acc / reward_scale)
unfolding accrued
accrued-ok locked acc h =
    rw (checked_mul-ok u128 locked acc h) (checked_div-ok _ reward_scale (omega arith))

pending_of-ok :
    (u : UserInfo) (acc : ℕ)
    → u.locked * acc < u128
    → IsCovered acc u
    → pending_of u acc ≡ ok (claim acc u)
unfolding pending_of
pending_of-ok u acc h c = rw (accrued-ok u.locked acc h) (checked_sub-ok _ u.debt (omega arith))

zero_claim : (u : UserInfo) (acc : ℕ) → ltb 0 u.locked ≡ false → 0 ≡ claim acc u
zero_claim u acc h = let e : u.locked ≡ 0 = ground arith in omega (arith, ap (λ (x : ℕ). x * acc) e)

deposit_pending-ok :
    (u : UserInfo) (acc : ℕ)
    → u.locked * acc < u128
    → IsCovered acc u
    → deposit_pending u acc ≡ ok (claim acc u)
unfolding deposit_pending
deposit_pending-ok u acc h c = elim (Bool-cases (ltb 0 u.locked)) [
  | inl staked ↦ rw staked (pending_of-ok u acc h c)
  | inr idle ↦ rw idle (ap ok (zero_claim u acc idle))
]

-- The storage after a hook: the record of the user, with its debt at the current share, and the
-- supply.
abbrev pub restaked : Deps → HumanAddr → ℕ → ℕ → Deps
restaked d user locked supply = record d {
  users =
      insert user
        (record {
          locked = locked;
          debt = locked * d.reward_pool.acc_reward_per_share / reward_scale;
        })
        d.users;
  reward_pool = record (d.reward_pool) { inc_token_supply = supply };
}

-- The pending rewards of a user, as the state has them.
abbrev pub claim_at : Deps → HumanAddr → ℕ
claim_at d user = claim d.reward_pool.acc_reward_per_share (load_user user d)

abbrev pub tell_subscribers : Deps → HumanAddr → ℕ → List CosmosMsg
tell_subscribers d user locked = map (create_subscriber_msg user locked) d.subscribers

module _ (d : Deps) (s : IsSound d) (env : Env) where
  -- In a sound state, a staker whose earnings fit 128 bits and who asks for at most the locked
  -- tokens (with no amount, for all of them) gets them: the hook pays the pending rewards and
  -- sends the tokens, tells every subscriber what is left, and writes that staker's record and
  -- the supply alone.
  pub redeem_hook_pays :
      (to : HumanAddr) (requested : Option ℕ)
      → unwrap_or requested (load_user to d).locked ≤ (load_user to d).locked
      → (load_user to d).locked * d.reward_pool.acc_reward_per_share < u128
      → let amount : ℕ = unwrap_or requested (load_user to d).locked in
        let left : ℕ = (load_user to d).locked - amount in
        redeem_hook d env d.config d.reward_pool to requested
        ≡ ok (
          restaked d to left (d.reward_pool.inc_token_supply - amount),
          record {
            messages =
                pay_pending d.config to (claim_at d to)
                ++ (CosmosMsg.transfer to amount response_block_size d.config.inc_token
                    ∷ tell_subscribers d to left);
            log = [];
            answer = some (LpStakingHandleAnswer.redeem LpStakingResponseStatus.success);
          },
        )
  unfolding redeem_hook
  redeem_hook_pays to requested within fits =
      let user = load_user to d in
      let acc = d.reward_pool.acc_reward_per_share in
      let amount : ℕ = unwrap_or requested user.locked in
      let less : (user.locked - amount) * acc < u128 = grind arith in
      let held = locked-le-supply to d s in
      rw (
        le→ltb user.locked amount within,
        pending_of-ok user acc fits (load_user-IsCovered to d acc s.debts_covered),
        checked_sub-ok user.locked amount within,
        accrued-ok (user.locked - amount) acc less,
        checked_sub-ok d.reward_pool.inc_token_supply amount (omega arith),
      )

  -- A staker who asks for more than is locked is refused.
  redeem_hook_refuses :
      (to : HumanAddr) (amount : ℕ)
      → (load_user to d).locked < amount
      → redeem_hook d env d.config d.reward_pool to (some amount)
        ≡ err (
            generic_err "insufficient funds to redeem: balance={}, required={}"
              (number (load_user to d).locked ∷ number amount ∷ []))
  unfolding redeem_hook
  redeem_hook_refuses to amount over = rw (lt→ltb (load_user to d).locked amount over)

  -- In a sound state a deposit whose sums fit 128 bits goes through: the hook pays the pending
  -- rewards, adds the amount to the locked tokens and to the supply, and tells every subscriber.
  pub deposit_hook_pays :
      (from : HumanAddr) (amount : ℕ)
      → ((load_user from d).locked + amount) * d.reward_pool.acc_reward_per_share < u128
      → d.reward_pool.inc_token_supply + amount < u128
      → let locked : ℕ = (load_user from d).locked + amount in
        deposit_hook d env d.config d.reward_pool from amount
        ≡ ok (
          restaked d from locked (d.reward_pool.inc_token_supply + amount),
          record {
            messages =
                pay_pending d.config from (claim_at d from) ++ tell_subscribers d from locked;
            log = [];
            answer = some (LpStakingHandleAnswer.receive_deposit LpStakingResponseStatus.success);
          },
        )
  unfolding deposit_hook
  deposit_hook_pays from amount fits room =
      let user = load_user from d in
      let acc = d.reward_pool.acc_reward_per_share in
      let less : user.locked * acc < u128 = grind arith in
      let held = locked-le-supply from d s in
      rw (
        deposit_pending-ok user acc less (load_user-IsCovered from d acc s.debts_covered),
        checked_add-ok u128 user.locked amount (omega arith),
        accrued-ok (user.locked + amount) acc fits,
        checked_add-ok u128 d.reward_pool.inc_token_supply amount room,
      )

  emergency_redeem-ok :
      let user = load_user env.sender d in
      emergency_redeem d env
      ≡ ok (
        record d {
          users = insert env.sender (record { locked = 0; debt = 0 }) d.users;
          reward_pool = record (d.reward_pool) {
            inc_token_supply = d.reward_pool.inc_token_supply - user.locked;
          };
        },
        record {
          messages =
              if ltb 0 user.locked
              then CosmosMsg.transfer env.sender user.locked response_block_size d.config.inc_token
                ∷ []
              else [];
          log = [];
          answer = some (LpStakingHandleAnswer.emergency_redeem LpStakingResponseStatus.success);
        },
      )
  unfolding emergency_redeem
  emergency_redeem-ok = rw (
      checked_sub-ok d.reward_pool.inc_token_supply (load_user env.sender d).locked
        (locked-le-supply env.sender d s))

  -- In a sound state `EmergencyRedeem` by anyone: while the contract is stopped it cannot fail, with
  -- no bound on what the staker has earned, and it sends all the locked tokens, takes them from the
  -- supply, forgets the debt and tells no subscriber; while the contract runs it is refused.
  pub emergency_redeem_pays :
      (x : Externals)
      → let user = load_user env.sender d in
        handle x d env LpStakingHandleMsg.emergency_redeem ≡ (
          if d.config.is_stopped
          then ok (
            record d {
              users = insert env.sender (record { locked = 0; debt = 0 }) d.users;
              reward_pool = record (d.reward_pool) {
                inc_token_supply = d.reward_pool.inc_token_supply - user.locked;
              };
            },
            record {
              messages =
                  if ltb 0 user.locked
                  then CosmosMsg.transfer env.sender user.locked response_block_size
                      d.config.inc_token
                    ∷ []
                  else [];
              log = [];
              answer =
                  some (LpStakingHandleAnswer.emergency_redeem LpStakingResponseStatus.success);
            },
          )
          else err (generic_err "Unavailable or unknown action" []))
  unfolding handle handle_stopped handle_running
  emergency_redeem_pays x = elim (Bool-cases d.config.is_stopped) [
    | inl stopped ↦ rw emergency_redeem-ok (simp stopped)
    | inr running ↦ simp running
  ]
