-- ===== src/PollFactory/Registered.antt =====
-- contracts/poll-factory/src/contract.rs: a poll registers once, with the challenge of its making.
use secret_finance_rewards.Common.{
  ℕ, ◌+◌, ◌≤◌, ◌≡◌, refl, String, Bool, not, List, [], ◌∷◌, ◌++◌, Option, none, some, arith, Result,
  Ensures, >>=-Ensures, err_if, unauthorized, str_eq, ltb, filter, length, unwrap_or, u64, u128,
  checked_add, checked_add-eq, run_calls, run_calls-keeps,
}
use secret_finance_rewards.Scrt.Chain.{Env}
use secret_finance_rewards.Scrt.VoteTypes.{PollConfig, PollMetadata, PollFactoryHandleMsg}
use secret_finance_rewards.PollFactory.Challenge.{
  Challenge, new_challenge, to_hashed, check_challenge,
}
use secret_finance_rewards.PollFactory.Msg.{InitMsg}
use secret_finance_rewards.PollFactory.State.{Deps}
use secret_finance_rewards.PollFactory.Handle.{
  Externals, Outcome, init, enforce_admin, prefix_of, get_active_polls, remove_inactive_polls,
  update_voting_power, update_default_poll_config, change_admin, update_config, new_poll,
  register_for_updates, handle,
}

-- A registration that is open.
abbrev pub awaiting : Option Challenge → ℕ
awaiting none = 0
awaiting (some challenge) = 1

length-filter {ℓ} : {A : Type ℓ} (p : A → Bool) (xs : List A) → length (filter p xs) ≤ length xs
unfolding filter
length-filter p [] = omega arith
length-filter p (x ∷ xs) = ground (arith, length-filter p xs)

length-push {ℓ} : {A : Type ℓ} (xs : List A) (x : A) → length (xs ++ (x ∷ [])) ≡ length xs + 1
length-push [] x = omega arith
length-push (y ∷ xs) x = omega (arith, length-push xs x)

-- The polls that are stored, with the registration that is open, are at most the polls that were
-- made.
abbrev IsRegistering : Deps → Type 0
IsRegistering d = length d.active_polls + awaiting d.current_challenge ≤ d.config.id_counter

module _ (x : Externals) (d : Deps) (env : Env) (h : IsRegistering d) where
  new_poll-IsRegistering :
      (metadata : PollMetadata) (config : PollConfig) (choices : List String) (key : String)
      → Ensures (λ o. IsRegistering o.0) (new_poll x d env metadata config choices key)
  unfolding new_poll
  new_poll-IsRegistering metadata config choices key =
      let c = new_challenge x.crypto env d.config.prng_seed in
      >>=-Ensures (x.balance_query env.sender key d.config.staking_pool) _ _ λ power hp.
        >>=-Ensures (err_if (ltb power d.config.min_staked) _) _ _ λ _ _.
          >>=-Ensures (checked_add u64 env.time config.duration) _ _ λ ending he.
            >>=-Ensures (prefix_of c) _ _ λ front hf.
              >>=-Ensures (checked_add u128 d.config.id_counter 1) _ _
                λ n hn. omega (arith, h, checked_add-eq u128 d.config.id_counter 1 hn)

  register-IsRegistering :
      (response : Challenge) (end_time : ℕ) (pending : Option Challenge)
      → d.current_challenge ≡ pending
      → Ensures (λ o. IsRegistering o.0) (register_for_updates x d env response end_time)
  unfolding register_for_updates
  register-IsRegistering response end_time none e = rw e tt
  register-IsRegistering response end_time (some challenge) e = rw e (
      >>=-Ensures
        (err_if (not (check_challenge x.crypto response (to_hashed x.crypto challenge))) _) _ _
        λ _ _. omega (arith, rw e at h, length-push d.active_polls))

  handle-IsRegistering :
      (msg : PollFactoryHandleMsg) → Ensures (λ o. IsRegistering o.0) (handle x d env msg)
  unfolding handle update_voting_power update_default_poll_config update_config change_admin
      remove_inactive_polls get_active_polls
  handle-IsRegistering (PollFactoryHandleMsg.new_poll metadata config choices key) =
      new_poll-IsRegistering metadata (unwrap_or config d.default_poll_config) choices key
  handle-IsRegistering (PollFactoryHandleMsg.update_voting_power voter power) =
      >>=-Ensures (err_if (not (str_eq env.sender d.config.staking_pool.address)) unauthorized) _ _
        λ _ _. omega (arith, h, length-filter _ d.active_polls)
  handle-IsRegistering (PollFactoryHandleMsg.register_for_updates challenge end_time) =
      register-IsRegistering challenge end_time d.current_challenge refl
  handle-IsRegistering (PollFactoryHandleMsg.update_default_poll_config duration quorum threshold) =
      >>=-Ensures (enforce_admin d env) _ _ λ _ _. h
  handle-IsRegistering (PollFactoryHandleMsg.update_config code pool stake committee) =
      >>=-Ensures (enforce_admin d env) _ _ λ _ _. h
  handle-IsRegistering (PollFactoryHandleMsg.change_admin address) =
      >>=-Ensures (enforce_admin d env) _ _ λ _ _. h

abbrev pub handle_call : Externals → Deps → Env × PollFactoryHandleMsg → Result Outcome
handle_call x d call = handle x d call.0 call.1

-- After `init` and any calls by anyone, with any challenges: the polls that are registered, with the
-- registration that is open, if one is, are at most as many as the polls that were made.
pub registrations_bounded :
    (x : Externals) (env : Env) (msg : InitMsg) (calls : List (Env × PollFactoryHandleMsg))
    → let d = run_calls (handle_call x) calls (init x.crypto env msg) in
      length d.active_polls + awaiting d.current_challenge ≤ d.config.id_counter
unfolding init
registrations_bounded x env msg calls =
    run_calls-keeps (handle_call x) IsRegistering
      (λ d call h. handle-IsRegistering x d call.0 h call.1) calls (init x.crypto env msg)
      (omega arith)
