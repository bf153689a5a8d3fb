-- ===== src/PollFactory/Fanout.antt =====
-- How a change of stake travels from contracts/poll-factory to contracts/secret-poll.
use mathlib.Core.List.{Memᴰ}
use mathlib.Core.List.Memᴰ
use secret_finance_rewards.Common.{
  ℕ, ◌+◌, ◌≤◌, ◌<◌, ◌≡◌, refl, ap, Bool, true, not, inl, inr, List, [], ◌∷◌, none, arith, ok,
  Ensures, >>=-Ensures, Ensures-ok, IsOk, err_if, unauthorized, str_eq, eq_refl, ltb, leb, le→leb,
  filter, map, All, unwrap_or, Bool-cases, u64, u128, checked_add, run_calls, run_calls-keeps_among,
}
use secret_finance_rewards.Scrt.Types.{HumanAddr}
use secret_finance_rewards.Scrt.Chain.{Env, CosmosMsg}
use secret_finance_rewards.Scrt.VoteTypes.{
  PollConfig, PollMetadata, PollInitMsg, PollHandleMsg, PollFactoryHandleMsg,
}
use secret_finance_rewards.SecretPoll.State.{Deps as PollDeps}
use secret_finance_rewards.SecretPoll.Handle.{
  Externals as PollExternals, init, handle as poll_handle,
}
use secret_finance_rewards.SecretPoll.Election.{run}
use secret_finance_rewards.SecretPoll.Stakes.{cast, update_voting_power_goes_through}
use secret_finance_rewards.PollFactory.Challenge.{new_challenge, to_hashed, check_challenge}
use secret_finance_rewards.PollFactory.State.{ActivePoll, Deps}
use secret_finance_rewards.PollFactory.Handle.{
  Externals, Outcome, enforce_admin, prefix_of, load_challenge, get_active_polls,
  remove_inactive_polls, notify_poll, update_voting_power, update_default_poll_config, change_admin,
  update_config, new_poll, register_for_updates, handle,
}
use secret_finance_rewards.PollFactory.Registered.{handle_call}
use secret_finance_rewards.PollFactory.Births.{IsBorn, init-IsBorn}

Memᴰ-filter {ℓ} :
    {A : Type ℓ} (p : A → Bool) {a : A} (xs : List A)
    → p a ≡ true
    → Memᴰ a xs
    → Memᴰ a (filter p xs)
unfolding filter
Memᴰ-filter p [] h m = elim m [ ]
Memᴰ-filter p {a} (x ∷ xs) h (Memᴰ.head e) = rw (← e, h) (Memᴰ.head refl)
Memᴰ-filter p {a} (x ∷ xs) h (Memᴰ.tail m) = elim (Bool-cases (p x)) [
  | inl passes ↦ rw passes (Memᴰ.tail (Memᴰ-filter p xs h m))
  | inr fails ↦ rw fails (Memᴰ-filter p xs h m)
]

Memᴰ-map {ℓ κ} :
    {A : Type ℓ} {B : Type κ} (f : A → B) {a : A} (xs : List A) → Memᴰ a xs → Memᴰ (f a) (map f xs)
Memᴰ-map f [] m = elim m [ ]
Memᴰ-map f (x ∷ xs) (Memᴰ.head e) = Memᴰ.head (ap f e)
Memᴰ-map f (x ∷ xs) (Memᴰ.tail m) = Memᴰ.tail (Memᴰ-map f xs m)

module _ (x : Externals) (poll : ActivePoll) (d : Deps) (env : Env)
    (early : env.time ≤ poll.end_time) (m : Memᴰ poll d.active_polls) where
  new_poll-keeps :
      (metadata : PollMetadata) (config : PollConfig) (choices : _) (key : _)
      → Ensures (λ o. Memᴰ poll o.0.active_polls) (new_poll x d env metadata config choices key)
  unfolding new_poll
  new_poll-keeps metadata config choices key =
      let c = new_challenge x.crypto env d.config.prng_seed in
      >>=-Ensures (x.balance_query env.sender key d.config.staking_pool) _ _ λ power hp.
        >>=-Ensures (err_if (ltb power d.config.min_staked) _) _ _ λ _ _.
          >>=-Ensures (checked_add u64 env.time config.duration) _ _ λ ending he.
            >>=-Ensures (prefix_of c) _ _
              λ front hf. >>=-Ensures (checked_add u128 d.config.id_counter 1) _ _ λ n hn. m

  -- A poll that has not ended stays among the stored ones.
  handle-keeps :
      (msg : PollFactoryHandleMsg) → Ensures (λ o. Memᴰ poll o.0.active_polls) (handle x d env msg)
  unfolding handle update_voting_power update_default_poll_config update_config change_admin
      remove_inactive_polls get_active_polls register_for_updates
  handle-keeps (PollFactoryHandleMsg.new_poll metadata config choices key) =
      new_poll-keeps metadata (unwrap_or config d.default_poll_config) choices key
  handle-keeps (PollFactoryHandleMsg.update_voting_power voter power) =
      >>=-Ensures (err_if (not (str_eq env.sender d.config.staking_pool.address)) unauthorized) _ _
        λ _ _. Memᴰ-filter _ d.active_polls (le→leb env.time poll.end_time early) m
  handle-keeps (PollFactoryHandleMsg.register_for_updates response end_time) =
      >>=-Ensures (load_challenge d.current_challenge) _ _ λ challenge hc.
        >>=-Ensures
          (err_if (not (check_challenge x.crypto response (to_hashed x.crypto challenge))) _) _ _
          λ _ _. Memᴰ.append_left _ m
  handle-keeps (PollFactoryHandleMsg.update_default_poll_config duration quorum threshold) =
      >>=-Ensures (enforce_admin d env) _ _ λ _ _. m
  handle-keeps (PollFactoryHandleMsg.update_config code pool stake committee) =
      >>=-Ensures (enforce_admin d env) _ _ λ _ _. m
  handle-keeps (PollFactoryHandleMsg.change_admin address) =
      >>=-Ensures (enforce_admin d env) _ _ λ _ _. m

  fans_out :
      (voter : HumanAddr) (power : ℕ)
      → env.sender ≡ d.config.staking_pool.address
      → (o : Outcome) × (update_voting_power d env voter power ≡ ok o)
        × Memᴰ (notify_poll voter power poll) o.1.messages
  unfolding update_voting_power remove_inactive_polls get_active_polls
  fans_out voter power pool = (
    (
      remove_inactive_polls d env,
      record {
        messages = map (notify_poll voter power) (get_active_polls d env.time);
        log = ("voting power update", voter) ∷ [];
        answer = none;
      },
    ),
    rw (pool, eq_refl d.config.staking_pool.address) refl,
    Memᴰ-map (notify_poll voter power) (filter (λ p. leb env.time p.end_time) d.active_polls)
        (Memᴰ-filter _ d.active_polls (le→leb env.time poll.end_time early) m),
  )

-- A change of stake arrives: for a poll that started with the factory as its maker, and that the
-- factory has stored with the end of the poll, and after any later calls of both contracts, where
-- those of the factory are not after that end. A change that the staking pool reports before the end
-- goes through at the factory, which sends it to the poll, and it goes through at the poll, where
-- the power that is cast and the new power fit 128 bits together.
pub stake_change_arrives :
    (x : Externals) (y : PollExternals) (d : Deps) (poll : ActivePoll)
    → Memᴰ poll d.active_polls
    → (start : Env) (msg : PollInitMsg) {o : PollDeps × List CosmosMsg} → init y start msg ≡ ok o
    → poll.end_time ≡ o.0.config.end_timestamp
    → (later : List (Env × PollFactoryHandleMsg)) → All (λ call. call.0.time ≤ poll.end_time) later
    → (votes : List (Env × PollHandleMsg)) (now : Env) (voter : HumanAddr) (power : ℕ)
    → now.time ≤ poll.end_time
    → now.sender ≡ (run_calls (handle_call x) later d).config.staking_pool.address
    → cast (run y msg.staking_pool votes (o.0, λ _. none)).0.votes + power < u128
    → ((r : Outcome) × (handle x
            (run_calls (handle_call x) later d)
            now
            (PollFactoryHandleMsg.update_voting_power voter power)
          ≡ ok r)
        × Memᴰ (notify_poll voter power poll) r.1.messages)
      × IsOk (
          poll_handle y
            (run y msg.staking_pool votes (o.0, λ _. none)).0
            (record now { sender = start.sender })
            (PollHandleMsg.update_voting_power voter power))
unfolding handle poll_handle
stake_change_arrives x y d poll m start msg {o} born ends later early votes now voter power before
      pool fits =
    let kept =
      run_calls-keeps_among (handle_call x) (λ d. Memᴰ poll d.active_polls)
        (λ call. call.0.time ≤ poll.end_time)
        (λ d call e m. handle-keeps x poll d call.0 e m call.1) later d early m in
    let b = Ensures-ok (IsBorn start msg) (init y start msg) (init-IsBorn y start msg) born in
    (
      fans_out x poll (run_calls (handle_call x) later d) now before kept voter power pool,
      update_voting_power_goes_through y start msg {o = o} born votes
          (record now { sender = start.sender }) voter power refl
          (omega (arith, before, ends, b.ending)) fits,
    )
