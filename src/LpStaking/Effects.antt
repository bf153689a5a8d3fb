-- ===== src/LpStaking/Effects.antt =====
-- What each handler of contracts/lp-staking leaves alone, by who sent the call.
use secret_finance_rewards.Common.{
  ap, ◌∙◌, ℕ, ◌≡◌, refl, Bool, true, false, not, some, List, ok, arith, Ensures, >>=-Ensures,
  if-Ensures, Ensures-ok, ◌>>=◌, err_if, str_eq, lookup, lookup-insert, Dict, StdError, checked_add,
  checked_mul, checked_div, ◌==◌, checked_sub, u128, unwrap_or, ltb,
}
use secret_finance_rewards.Scrt.Types.{HumanAddr, Binary, SecretContract, RewardPool}
use secret_finance_rewards.Scrt.Chain.{Env}
use secret_finance_rewards.Scrt.LpStakingMsg.{LpStakingHookMsg, LpStakingReceiveMsg}
use secret_finance_rewards.LpStaking.State.{
  Config, Deps, Outcome, Response, load_user, reward_scale,
}
use secret_finance_rewards.LpStaking.Rewards.{
  accrued, pending_of, deposit_pending, update_rewards, deposit_hook, redeem_hook, emergency_redeem,
}
use secret_finance_rewards.LpStaking.Admin.{enforce_admin, is_stranger, notify_allocation}
use secret_finance_rewards.LpStaking.Handle.{update_allocation, deposit, run_hook, receive_msg}

-- What a call that went through left alone, by who sent it.
pub record Effect (d : Deps) (env : Env) (o : Outcome) : Type 0 where
  pub config : str_eq d.config.admin env.sender ≡ false → o.0.config ≡ d.config
  pub subscribers : str_eq d.config.admin env.sender ≡ false → o.0.subscribers ≡ d.subscribers
  pub users :
      str_eq env.sender env.contract_address ≡ false
      → (a : HumanAddr) → str_eq env.sender a ≡ false
      → lookup a o.0.users ≡ lookup a d.users
  pub share :
      is_stranger d.config env ≡ true
      → o.0.reward_pool.acc_reward_per_share ≡ d.reward_pool.acc_reward_per_share
  pub residue : is_stranger d.config env ≡ true → o.0.reward_pool.residue ≡ d.reward_pool.residue

enforce_admin-eq :
    (config : Config) (env : Env) {u : Unit {0}}
    → enforce_admin config env ≡ ok u
    → str_eq config.admin env.sender ≡ true
unfolding enforce_admin
enforce_admin-eq config env h = ground arith

pub passed : (b : Bool) (e : StdError) {u : Unit {0}} → err_if b e ≡ ok u → b ≡ false
passed b e h = ground arith

pub not-false : (b : Bool) → not b ≡ false → b ≡ true
not-false true h = refl
not-false false h = cc

module _ (d : Deps) (env : Env) where
  pub same-Effect : (r : Response) → Effect d env (d, r)
  same-Effect r = record {
    config = λ _. refl;
    subscribers = λ _. refl;
    users = λ _ a _. refl;
    share = λ _. refl;
    residue = λ _. refl;
  }

  pub keys-Effect :
      (keys : Dict Binary) (r : Response) → Effect d env (record d { viewing_keys = keys }, r)
  keys-Effect keys r = record {
    config = λ _. refl;
    subscribers = λ _. refl;
    users = λ _ a _. refl;
    share = λ _. refl;
    residue = λ _. refl;
  }

  pub admin-Effect :
      (config : Config) (subs : List SecretContract) (r : Response)
      → Ensures (Effect d env) (
          enforce_admin d.config env >>= λ _.
          ok (record d { config = config; subscribers = subs }, r))
  admin-Effect config subs r = >>=-Ensures (enforce_admin d.config env) _ _ λ u h.
      let e = enforce_admin-eq d.config env h in
      record {
        config = λ n. absurd (cc e);
        subscribers = λ n. absurd (cc e);
        users = λ _ a _. refl;
        share = λ _. refl;
        residue = λ _. refl;
      }

  pub hook-Effect :
      (hook : LpStakingHookMsg)
      → str_eq env.sender env.contract_address ≡ true
      → Ensures (Effect d env) (run_hook d env hook)
  unfolding run_hook deposit_hook redeem_hook
  hook-Effect (LpStakingHookMsg.deposit from amount) self =
      >>=-Ensures (deposit_pending (load_user from d) d.reward_pool.acc_reward_per_share) _ _
        λ p hp. >>=-Ensures (checked_add u128 (load_user from d).locked amount) _ _ λ l hl.
          >>=-Ensures (accrued l d.reward_pool.acc_reward_per_share) _ _ λ e he.
            >>=-Ensures (checked_add u128 d.reward_pool.inc_token_supply amount) _ _ λ t ht.
              record {
                config = λ _. refl;
                subscribers = λ _. refl;
                users = λ n a _. absurd (cc self);
                share = λ _. refl;
                residue = λ _. refl;
              }
  hook-Effect (LpStakingHookMsg.redeem to requested) self =
      let user = load_user to d in
      let amount : ℕ = unwrap_or requested user.locked in
      >>=-Ensures (err_if (ltb user.locked amount) _) _ _ λ _ hg.
        >>=-Ensures (pending_of user d.reward_pool.acc_reward_per_share) _ _ λ p hp.
          >>=-Ensures (checked_sub user.locked amount) _ _ λ l hl.
            >>=-Ensures (accrued l d.reward_pool.acc_reward_per_share) _ _ λ e he.
              >>=-Ensures (checked_sub d.reward_pool.inc_token_supply amount) _ _ λ t ht. record {
                config = λ _. refl;
                subscribers = λ _. refl;
                users = λ n a _. absurd (cc self);
                share = λ _. refl;
                residue = λ _. refl;
              }

  pub emergency-Effect : Ensures (Effect d env) (emergency_redeem d env)
  unfolding emergency_redeem
  emergency-Effect =
      >>=-Ensures (checked_sub d.reward_pool.inc_token_supply (load_user env.sender d).locked) _ _
        λ t ht. record {
          config = λ _. refl;
          subscribers = λ _. refl;
          users = λ n a ne. lookup-insert env.sender a _ d.users ∙ rw ne;
          share = λ _. refl;
          residue = λ _. refl;
        }

  -- Updating the rewards writes the pool alone.
  update_rewards-only :
      (n : ℕ)
      → Ensures
          (λ (o : Deps × RewardPool). o.0 ≡ record d { reward_pool = o.1 })
          (update_rewards d n)
  unfolding update_rewards
  update_rewards-only n =
      let pool = d.reward_pool in
      if-Ensures _ (n == 0) _ _ refl (
        if-Ensures _ (pool.inc_token_supply == 0) _ _
          (>>=-Ensures (checked_add u128 pool.residue n) _ _ λ residue hr. refl)
          (>>=-Ensures (checked_add u128 n pool.residue) _ _ λ amount ha.
            >>=-Ensures (checked_mul u128 amount reward_scale) _ _ λ scaled hm.
              >>=-Ensures (checked_div scaled pool.inc_token_supply) _ _ λ share hs.
                >>=-Ensures (checked_add u128 pool.acc_reward_per_share share) _ _ λ acc hc. refl))

  pub notify-Effect : (n : ℕ) → Ensures (Effect d env) (notify_allocation d env n)
  unfolding notify_allocation
  notify-Effect n = >>=-Ensures (err_if (is_stranger d.config env) _) _ _ λ _ hg.
      >>=-Ensures (update_rewards d n) _ _ λ (d', pool) h.
        let known = passed (is_stranger d.config env) _ hg in
        let only = Ensures-ok _ (update_rewards d n) (update_rewards-only n) h in
        record {
          config = λ _. ap (λ (y : Deps). y.config) only;
          subscribers = λ _. ap (λ (y : Deps). y.subscribers) only;
          users = λ _ a _. ap (λ (y : Deps). lookup a y.users) only;
          share = λ s. absurd (cc known);
          residue = λ s. absurd (cc known);
        }

  pub ask-Effect :
      (cb : LpStakingHookMsg)
      → Ensures (Effect d env) (update_allocation env d.config (some cb) >>= λ r. ok (d, r))
  unfolding update_allocation
  ask-Effect cb = same-Effect _

  pub receive_msg-Effect :
      (from : HumanAddr) (amount : ℕ) (m : LpStakingReceiveMsg)
      → Ensures (Effect d env) (receive_msg d env from amount m)
  unfolding receive_msg deposit
  receive_msg-Effect from amount LpStakingReceiveMsg.deposit =
      >>=-Ensures (err_if (not (str_eq env.sender d.config.inc_token.address)) _) _ _
        λ _ _. ask-Effect (LpStakingHookMsg.deposit from amount)
