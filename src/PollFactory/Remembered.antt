-- ===== src/PollFactory/Remembered.antt =====
-- contracts/poll-factory/src/contract.rs: dropping the polls that have ended is not seen by anyone.
use secret_finance_rewards.Common.{
  ℕ, ◌≤◌, ◌≡◌, refl, ◌∙◌, ap, Bool, not, List, [], ◌∷◌, ◌++◌, arith, Result, ok, ◌>>=◌, Ensures,
  >>=-Ensures, Ensures-ok, err_if, unauthorized, str_eq, ltb, leb, filter, All, unwrap_or, u64,
  u128, checked_add, run_calls, run_calls-keeps_among,
}
use secret_finance_rewards.Scrt.Chain.{Env}
use secret_finance_rewards.Scrt.VoteTypes.{PollConfig, PollMetadata, PollFactoryHandleMsg}
use secret_finance_rewards.PollFactory.Challenge.{
  Challenge, new_challenge, to_hashed, check_challenge,
}
use secret_finance_rewards.PollFactory.Msg.{InitMsg}
use secret_finance_rewards.PollFactory.State.{ActivePoll, Deps}
use secret_finance_rewards.PollFactory.Handle.{
  Externals, Response, Outcome, init, enforce_admin, prefix_of, load_challenge, get_active_polls,
  remove_inactive_polls, update_voting_power, update_default_poll_config, change_admin,
  update_config, new_poll, register_for_updates, handle,
}

-- The poll that an accepted call registers.
abbrev pub registering : Deps → Env → PollFactoryHandleMsg → List ActivePoll
registering d env (PollFactoryHandleMsg.register_for_updates challenge end_time) =
    record { address = env.sender; hash = d.config.poll_contract.code_hash; end_time = end_time }
    ∷ []
registering d env (PollFactoryHandleMsg.new_poll metadata config choices key) = []
registering d env (PollFactoryHandleMsg.update_voting_power voter power) = []
registering d env (PollFactoryHandleMsg.update_default_poll_config duration quorum threshold) = []
registering d env (PollFactoryHandleMsg.update_config code pool stake committee) = []
registering d env (PollFactoryHandleMsg.change_admin address) = []

-- The storage, and every poll that has ever registered.
abbrev pub Logged : Type 0
Logged = Deps × List ActivePoll

abbrev pub handle_logged :
    Externals → Logged → Env × PollFactoryHandleMsg → Result (Logged × Response)
handle_logged x (d, all_polls) (env, msg) =
    handle x d env msg >>= λ o. ok ((o.0, all_polls ++ registering d env msg), o.1)

abbrev pub lasts_until : ℕ → ActivePoll → Bool
lasts_until t p = leb t p.end_time

filter-++ {ℓ} :
    {A : Type ℓ} (p : A → Bool) (xs ys : List A) → filter p (xs ++ ys) ≡ filter p xs ++ filter p ys
unfolding filter
filter-++ p [] ys = refl
filter-++ p (x ∷ xs) ys = ground (arith, filter-++ p xs ys)

filter-filter :
    (s t : ℕ) (polls : List ActivePoll)
    → s ≤ t
    → filter (lasts_until t) (filter (lasts_until s) polls) ≡ filter (lasts_until t) polls
unfolding filter
filter-filter s t [] h = refl
filter-filter s t (p ∷ polls) h = ground (arith, filter-filter s t polls h)

-- The stored polls that last until a time are the registered ones that do.
abbrev IsRemembered : ℕ → Logged → Type 0
IsRemembered t (d, all_polls) =
    filter (lasts_until t) d.active_polls ≡ filter (lasts_until t) all_polls

++-[] {ℓ} : {A : Type ℓ} (xs : List A) → xs ++ [] ≡ xs
++-[] [] = refl
++-[] (x ∷ xs) = ap (λ r. x ∷ r) (++-[] xs)

module _ (x : Externals) (t : ℕ) (d : Deps) (all_polls : List ActivePoll) (env : Env)
    (h : IsRemembered t (d, all_polls)) where
  -- A call that leaves the polls, with nothing registered.
  unchanged : IsRemembered t (d, all_polls ++ [])
  unchanged = rw (++-[] all_polls) h

  register-IsRemembered :
      (response : Challenge) (end_time : ℕ)
      → Ensures
          (λ o. IsRemembered t (
            o.0,
            all_polls
                ++ registering d env (PollFactoryHandleMsg.register_for_updates response end_time),
          ))
          (register_for_updates x d env response end_time)
  unfolding register_for_updates
  register-IsRemembered response end_time =
      >>=-Ensures (load_challenge d.current_challenge) _ _ λ challenge hc.
        >>=-Ensures
          (err_if (not (check_challenge x.crypto response (to_hashed x.crypto challenge))) _) _ _
          λ _ _.
            rw (filter-++ (lasts_until t) d.active_polls, filter-++ (lasts_until t) all_polls, h)
              refl

  new_poll-IsRemembered :
      (metadata : PollMetadata) (config : PollConfig) (choices : _) (key : _)
      → Ensures
          (λ o. IsRemembered t (o.0, all_polls ++ []))
          (new_poll x d env metadata config choices key)
  unfolding new_poll
  new_poll-IsRemembered metadata config choices key =
      let c = new_challenge x.crypto env d.config.prng_seed in
      >>=-Ensures (x.balance_query env.sender key d.config.staking_pool) _ _ λ power hp.
        >>=-Ensures (err_if (ltb power d.config.min_staked) _) _ _ λ _ _.
          >>=-Ensures (checked_add u64 env.time config.duration) _ _ λ ending he.
            >>=-Ensures (prefix_of c) _ _
              λ front hf. >>=-Ensures (checked_add u128 d.config.id_counter 1) _ _ λ n hn. unchanged

  handle-IsRemembered :
      (msg : PollFactoryHandleMsg)
      → env.time ≤ t
      → Ensures (λ o. IsRemembered t (o.0, all_polls ++ registering d env msg)) (handle x d env msg)
  unfolding handle update_voting_power update_default_poll_config update_config change_admin
      remove_inactive_polls get_active_polls
  handle-IsRemembered (PollFactoryHandleMsg.new_poll metadata config choices key) early =
      new_poll-IsRemembered metadata (unwrap_or config d.default_poll_config) choices key
  handle-IsRemembered (PollFactoryHandleMsg.update_voting_power voter power) early =
      >>=-Ensures (err_if (not (str_eq env.sender d.config.staking_pool.address)) unauthorized) _ _
        λ _ _. filter-filter env.time t d.active_polls early ∙ unchanged
  handle-IsRemembered (PollFactoryHandleMsg.register_for_updates challenge end_time) early =
      register-IsRemembered challenge end_time
  handle-IsRemembered (PollFactoryHandleMsg.update_default_poll_config duration quorum threshold)
        early =
      >>=-Ensures (enforce_admin d env) _ _ λ _ _. unchanged
  handle-IsRemembered (PollFactoryHandleMsg.update_config code pool stake committee) early =
      >>=-Ensures (enforce_admin d env) _ _ λ _ _. unchanged
  handle-IsRemembered (PollFactoryHandleMsg.change_admin address) early =
      >>=-Ensures (enforce_admin d env) _ _ λ _ _. unchanged

  handle_logged-IsRemembered :
      (msg : PollFactoryHandleMsg)
      → env.time ≤ t
      → Ensures (λ o. IsRemembered t o.0) (handle_logged x (d, all_polls) (env, msg))
  handle_logged-IsRemembered msg early = >>=-Ensures (handle x d env msg) _ _ λ o ho.
      Ensures-ok (λ (o : Outcome). IsRemembered t (o.0, all_polls ++ registering d env msg))
        (handle x d env msg) (handle-IsRemembered msg early) ho

-- The factory is a list of all polls that ever registered: after `init` and any calls by anyone that
-- are not after a time, the active polls at that time are the registered polls that have not ended
-- then, in the order of their registrations, although updates have dropped polls on the way.
pub polls_remembered :
    (x : Externals) (env : Env) (msg : InitMsg) (calls : List (Env × PollFactoryHandleMsg)) (t : ℕ)
    → All (λ call. call.0.time ≤ t) calls
    → let (d, all_polls) = run_calls (handle_logged x) calls (init x.crypto env msg, []) in
      get_active_polls d t ≡ filter (λ p. leb t p.end_time) all_polls
unfolding init get_active_polls
polls_remembered x env msg calls t early =
    run_calls-keeps_among (handle_logged x) (IsRemembered t) (λ call. call.0.time ≤ t)
      (λ s call e h. handle_logged-IsRemembered x t s.0 s.1 call.0 h call.1 e) calls
      (init x.crypto env msg, []) early refl
