-- ===== src/PollFactory/Births.antt =====
-- How contracts/poll-factory and contracts/secret-poll meet: the poll that a factory makes, and its
-- registration.
use secret_finance_rewards.Common.{
  ℕ, ◌+◌, ◌≡◌, refl, sym, ◌∙◌, ap, String, List, [], ◌∷◌, ◌++◌, none, some, arith, ok, Ensures,
  >>=-Ensures, Ensures-ok, err_if, ltb, length, u64, u128, checked_add, checked_add-eq, FmtArg,
  words, number,
}
use secret_finance_rewards.Scrt.Chain.{Env, CosmosMsg, Payload}
use secret_finance_rewards.Scrt.VoteTypes.{
  PollConfig, PollMetadata, PollInitMsg, PollFactoryHandleMsg,
}
use secret_finance_rewards.SecretPoll.State.{Deps as PollDeps}
use secret_finance_rewards.SecretPoll.Handle.{Externals as PollExternals, hook_msgs, init}
use secret_finance_rewards.PollFactory.Challenge.{
  Challenge, new_challenge, check_challenge-to_hashed,
}
use secret_finance_rewards.PollFactory.State.{Deps}
use secret_finance_rewards.PollFactory.Handle.{
  Externals, Outcome, success, prefix_of, poll_init_msg, new_poll, register_for_updates, handle,
}

-- What a poll is when it is made.
pub record IsBorn (env : Env) (msg : PollInitMsg) (p : PollDeps × List CosmosMsg) : Type 0 where
  pub owner : p.0.owner ≡ env.sender
  pub ending : p.0.config.end_timestamp ≡ env.time + msg.config.duration
  pub hook : p.1 ≡ hook_msgs msg.init_hook

pub init-IsBorn :
    (y : PollExternals) (env : Env) (msg : PollInitMsg) → Ensures (IsBorn env msg) (init y env msg)
unfolding init
init-IsBorn y env msg = >>=-Ensures (err_if (ltb (length msg.choices) 2) _) _ _ λ _ _.
    >>=-Ensures (err_if (ltb (length (y.as_bytes msg.metadata.title)) 2) _) _ _ λ _ _.
      >>=-Ensures (err_if (ltb (length (y.as_bytes msg.metadata.description)) 10) _) _ _ λ _ _.
        >>=-Ensures (err_if (ltb (length (y.as_bytes msg.metadata.author_alias)) 3) _) _ _ λ _ _.
          >>=-Ensures (checked_add u64 env.time msg.config.duration) _ _ λ ending he. record {
            owner = refl;
            ending = (checked_add-eq u64 env.time msg.config.duration he).0;
            hook = refl;
          }

module _ (x : Externals) (d : Deps) (env : Env) (metadata : PollMetadata) (config : PollConfig)
    (choices : List String) (key : String) where
  ending : ℕ
  ending = env.time + config.duration

  challenge : Challenge
  challenge = new_challenge x.crypto env d.config.prng_seed

  made_with : PollInitMsg
  made_with = poll_init_msg x d.config env metadata config choices challenge ending

  -- A factory that has made a poll and waits for its registration.
  record IsWaiting (o : Outcome) : Type 0 where
    pub waits : o.0.current_challenge ≡ some challenge
    pub polls : o.0.active_polls ≡ d.active_polls
    pub contract : o.0.config.poll_contract ≡ d.config.poll_contract
    pub label : List FmtArg
    pub message :
        o.1.messages
        ≡ CosmosMsg.instantiate d.config.poll_contract.code_id d.config.poll_contract.code_hash
            (Payload.poll_init made_with)
            label
          ∷ []

  new_poll-IsWaiting : Ensures IsWaiting (new_poll x d env metadata config choices key)
  unfolding new_poll made_with challenge ending
  new_poll-IsWaiting =
      >>=-Ensures (x.balance_query env.sender key d.config.staking_pool) _ _ λ power hp.
        >>=-Ensures (err_if (ltb power d.config.min_staked) _) _ _ λ _ _.
          >>=-Ensures (checked_add u64 env.time config.duration) _ _ λ end he.
            >>=-Ensures (prefix_of (new_challenge x.crypto env d.config.prng_seed)) _ _ λ front hf.
              >>=-Ensures (checked_add u128 d.config.id_counter 1) _ _ λ n hn. record {
                waits = refl;
                polls = refl;
                contract = refl;
                label = words "secret-poll" ∷ number d.config.id_counter ∷ words front ∷ [];
                message = rw ((checked_add-eq u64 env.time config.duration he).0) refl;
              }

  -- The factory accepts the registration with the challenge, from anyone who has it.
  register-waiting :
      (o : Outcome) (at : Env) (end_time : ℕ)
      → IsWaiting o
      → register_for_updates x o.0 at challenge end_time
        ≡ ok (
          record (o.0) {
            current_challenge = none;
            active_polls =
                d.active_polls
                ++ (record {
                  address = at.sender;
                  hash = d.config.poll_contract.code_hash;
                  end_time = end_time;
                }
                    ∷ []);
          },
          success (("new_poll", at.sender) ∷ []),
        )
  unfolding register_for_updates
  register-waiting o at end_time w =
      rw (w.waits, check_challenge-to_hashed x.crypto challenge, w.polls, w.contract) refl

-- A poll that the factory makes in a call, and that starts in the same block with the factory as its
-- maker, has the factory as its owner and asks it for a registration with its own end as the end
-- time; the factory accepts it, once, and stores the poll with the code hash that it was made with.
pub new_poll_registers :
    (x : Externals) (y : PollExternals) (d : Deps) (env : Env) (metadata : PollMetadata)
    (config : PollConfig) (choices : List String) (key : String) {o : Outcome}
    → new_poll x d env metadata config choices key ≡ ok o
    → (code_id : ℕ) (code_hash : String) (msg : PollInitMsg) (label : List FmtArg)
    → o.1.messages ≡ CosmosMsg.instantiate code_id code_hash (Payload.poll_init msg) label ∷ []
    → (start : Env) {p : PollDeps × List CosmosMsg} → init y start msg ≡ ok p
    → start.sender ≡ env.contract_address
    → start.time ≡ env.time
    → (at : Env)
    → (p.0.owner ≡ env.contract_address)
      × ((hook : PollFactoryHandleMsg) × (p.1
            ≡ CosmosMsg.execute env.contract_address env.contract_code_hash
                (Payload.binary (x.to_binary hook))
              ∷ [])
          × (handle x o.0 at hook
              ≡ ok (
                record (o.0) {
                  current_challenge = none;
                  active_polls =
                      d.active_polls
                      ++ (record {
                        address = at.sender;
                        hash = code_hash;
                        end_time = p.0.config.end_timestamp;
                      }
                          ∷ []);
                },
                success (("new_poll", at.sender) ∷ []),
              )))
unfolding handle ending challenge made_with poll_init_msg hook_msgs
new_poll_registers x y d env metadata config choices key {o} made code_id code_hash msg label sent
      start {p} born own now at =
    let w =
      Ensures-ok (IsWaiting x d env metadata config choices key)
        (new_poll x d env metadata config choices key)
        (new_poll-IsWaiting x d env metadata config choices key) made in
    let same : made_with x d env metadata config choices key ≡ msg = cc (w.message, sent) in
    let hashes : d.config.poll_contract.code_hash ≡ code_hash = cc (w.message, sent) in
    let b = Ensures-ok (IsBorn start msg) (init y start msg) (init-IsBorn y start msg) born in
    let duration : msg.config.duration ≡ config.duration = ap (λ m. m.config.duration) (sym same) in
    let ends : p.0.config.end_timestamp ≡ env.time + config.duration =
      omega (arith, b.ending, now, duration) in
    let c = new_challenge x.crypto env d.config.prng_seed in
    (
      b.owner ∙ own,
      (
        PollFactoryHandleMsg.register_for_updates c (env.time + config.duration),
        b.hook ∙ ap (λ m. hook_msgs m.init_hook) (sym same),
        rw (← hashes, ends)
            (register-waiting x d env metadata config choices key o at (env.time + config.duration)
              w),
      ),
    )
