-- ===== src/SecretPoll/Election.antt =====
-- contracts/secret-poll as an election: every accepted call replaces one ballot at most, and the
-- tally counts the ballots.
use secret_finance_rewards.Common.{
  arith, ℕ, ◌+◌, ◌<◌, StdError, checked_add-eq, zero, suc, AllValues, ◌≡◌, refl, ◌∙◌, ap, String,
  Bool, true, not, List, [], ◌∷◌, Option, none, some, inl, inr, Result, ok, err, Bool-cases,
  Ensures, >>=-Ensures, Ensures-intro, Ensures-ok, err_if, unauthorized, generic_err, str_eq, ltb,
  u64, checked_add, lookup, length,
}
use secret_finance_rewards.Scrt.Types.{HumanAddr, SecretContract}
use secret_finance_rewards.Scrt.Chain.{Env, CosmosMsg}
use secret_finance_rewards.Scrt.VoteTypes.{PollInitMsg, PollHandleMsg}
use secret_finance_rewards.SecretPoll.State.{Vote, Deps, StoredRevealConfig, read_vote}
use secret_finance_rewards.SecretPoll.Tally.{update_vote}
use secret_finance_rewards.SecretPoll.Counts.{
  tally_at, votes_for, IsChoiceOf, IsCounted, update_vote-IsCounted,
}
use secret_finance_rewards.SecretPoll.Handle.{
  Externals, Outcome, repeat_zero, require_vote_ongoing, init, vote, reweigh, update_voting_power,
  reveal, validate, conclude, finalize, handle,
}
use secret_finance_rewards.SecretPoll.Ballots.{
  Ballots, reweigh_ballot, elect, IsRecast, update_vote-IsRecast,
}

-- What `init` sets for good.
pub record Terms : Type 0 where
  pub pool : SecretContract
  pub owner : HumanAddr
  pub end_timestamp : ℕ

-- The stored votes read as the ballots, the tally counts them, and the terms hold.
pub record Represents (terms : Terms) (d : Deps) (b : Ballots) : Type 0 where
  pub counted : IsCounted d
  pub some_choice : 0 < length d.config.choices
  pub same_pool : d.staking_pool ≡ terms.pool
  pub same_owner : d.owner ≡ terms.owner
  pub same_end : d.config.end_timestamp ≡ terms.end_timestamp
  pub ballots : (who : HumanAddr) → read_vote d who ≡ b who

module _ (x : Externals) (terms : Terms) (d : Deps) (b : Ballots) (env : Env)
    (r : Represents terms d b) where
  vote-Represents :
      (choice : ℕ) (key salt : String)
      → Ensures
          (λ o.
            Represents terms o.0 (elect x terms.pool env (PollHandleMsg.vote choice key salt) b))
          (vote x d env choice key salt)
  unfolding vote read_vote
  vote-Represents choice key salt = >>=-Ensures (require_vote_ongoing env d.config) _ _ λ _ _.
      >>=-Ensures (x.balance_query env.sender key d.staking_pool) _ _ λ power hp.
        let ballot : Vote = record { choice = choice; voting_power = power } in
        >>=-Ensures (update_vote d env.sender (read_vote d env.sender) ballot) _ _ λ d' hd.
          let c =
            Ensures-ok IsCounted (update_vote d env.sender (read_vote d env.sender) ballot)
              (update_vote-IsCounted d env.sender ballot r.counted) hd in
          let f =
            Ensures-ok (IsRecast d env.sender ballot)
              (update_vote d env.sender (read_vote d env.sender) ballot)
              (update_vote-IsRecast d env.sender (read_vote d env.sender) ballot) hd in
          record {
            counted = record {
              counts = c.counts;
              known = c.known;
              voters = c.voters;
              choices = c.choices ∙ ap (λ k. length k.choices) f.config;
            };
            some_choice = r.some_choice;
            same_pool = f.pool ∙ r.same_pool;
            same_owner = f.owner ∙ r.same_owner;
            same_end = r.same_end;
            ballots = λ who. rw (← r.same_pool, hp) (rw (r.ballots who) at (f.ballots who));
          }

  reweigh-Represents :
      (voter : HumanAddr) (power : ℕ) (previous : Option Vote)
      → read_vote d voter ≡ previous
      → Ensures
          (λ d'. Represents terms d' (reweigh_ballot voter power previous b))
          (reweigh d voter power previous)
  unfolding reweigh
  reweigh-Represents voter power none h = r
  reweigh-Represents voter power (some v) h =
      let ballot : Vote = record v { voting_power = power } in
      Ensures-intro _ (update_vote d voter (some v) ballot) λ d' hd.
        let c =
          Ensures-ok IsCounted (update_vote d voter (some v) ballot)
            (rw h at (update_vote-IsCounted d voter ballot r.counted)) hd in
        let f =
          Ensures-ok (IsRecast d voter ballot) (update_vote d voter (some v) ballot)
            (update_vote-IsRecast d voter (some v) ballot) hd in
        record {
          counted = c;
          some_choice = rw f.config r.some_choice;
          same_pool = f.pool ∙ r.same_pool;
          same_owner = f.owner ∙ r.same_owner;
          same_end = ap (λ k. k.end_timestamp) f.config ∙ r.same_end;
          ballots = λ who. rw (r.ballots who) at (f.ballots who);
        }

  update_voting_power-Represents :
      (voter : HumanAddr) (power : ℕ)
      → Ensures
          (λ o. Represents terms o.0 (reweigh_ballot voter power (b voter) b))
          (update_voting_power d env voter power)
  unfolding update_voting_power
  update_voting_power-Represents voter power =
      >>=-Ensures (require_vote_ongoing env d.config) _ _ λ _ _.
        >>=-Ensures (err_if (not (str_eq env.sender d.owner)) unauthorized) _ _ λ _ _.
          >>=-Ensures (reweigh d voter power (read_vote d voter)) _ _ λ d' hd.
            rw (← r.ballots voter) (
              Ensures-ok
                (λ d'. Represents terms d' (reweigh_ballot voter power (read_vote d voter) b))
                (reweigh d voter power (read_vote d voter))
                (reweigh-Represents voter power (read_vote d voter) refl) hd)

  -- Revealing touches neither the ballots nor the tally.
  still :
      (conf : StoredRevealConfig) (finalized valid : Bool)
      → Represents terms
          (record d {
            reveal_config = conf;
            config = record (d.config) { finalized = finalized; valid = valid };
          })
          b
  unfolding read_vote
  still conf finalized valid = record {
    counted = record {
      counts = r.counted.counts;
      known = r.counted.known;
      voters = r.counted.voters;
      choices = r.counted.choices;
    };
    some_choice = r.some_choice;
    same_pool = r.same_pool;
    same_owner = r.same_owner;
    same_end = r.same_end;
    ballots = r.ballots;
  }

  conclude-Represents :
      (conf : StoredRevealConfig)
      → Ensures (λ o. Represents terms o.0 b) (conclude x (record d { reveal_config = conf }))
  unfolding conclude
  conclude-Represents conf =
      let revealed = still conf d.config.finalized d.config.valid in
      elim (Bool-cases (ltb conf.committee.n conf.num_revealed)) [
        | inl past ↦ rw past revealed
        | inr not_past ↦ elim (Bool-cases (ltb conf.num_revealed conf.committee.n)) [
          | inl few ↦ rw (not_past, few) revealed
          | inr enough ↦
              rw (not_past, enough)
                (>>=-Ensures (validate x (record d { reveal_config = conf })) _ _
                  λ valid hv. still conf true valid)
        ]
      ]

  finalize-Represents :
      (hash : String) → Ensures (λ o. Represents terms o.0 b) (finalize x d env hash)
  unfolding finalize read_vote
  finalize-Represents hash =
      >>=-Ensures
        (err_if (ltb env.time d.config.end_timestamp) (generic_err "vote has not ended yet" [])) _ _
        λ _ _.
          >>=-Ensures
            (err_if (not (str_eq (x.hex_encode d.config.rolling_hash) hash))
              (generic_err "incorrect rolling hash" []))
            _ _
            λ _ _.
              >>=-Ensures (reveal x d.reveal_config env.sender) _ _
                λ conf hc. conclude-Represents conf

  handle-Represents :
      (msg : PollHandleMsg)
      → Ensures (λ o. Represents terms o.0 (elect x terms.pool env msg b)) (handle x d env msg)
  unfolding handle
  handle-Represents (PollHandleMsg.vote choice key salt) = vote-Represents choice key salt
  handle-Represents (PollHandleMsg.update_voting_power voter power) =
      update_voting_power-Represents voter power
  handle-Represents (PollHandleMsg.finalize hash) = finalize-Represents hash

-- The storage and the ballots after a call; one that fails changes neither.
abbrev pub settle :
    Externals
    → SecretContract
    → Env
    → PollHandleMsg
    → Ballots
    → Deps
    → Result Outcome
    → Deps × Ballots
settle x pool env msg b d (ok (d', r)) = (d', elect x pool env msg b)
settle x pool env msg b d (err e) = (d, b)

module _ (x : Externals) (pool : SecretContract) where
  unfoldable pub run : List (Env × PollHandleMsg) → Deps × Ballots → Deps × Ballots
  run [] s = s
  run ((env, msg) ∷ calls) (d, b) = run calls (settle x pool env msg b d (handle x d env msg))

module _ (x : Externals) (terms : Terms) where
  settle-Represents :
      (env : Env) (msg : PollHandleMsg) (b : Ballots) (d : Deps) (o : Result Outcome)
      → Represents terms d b
      → Ensures (λ o. Represents terms o.0 (elect x terms.pool env msg b)) o
      → let (d', b') = settle x terms.pool env msg b d o in Represents terms d' b'
  settle-Represents env msg b d (ok (d', r)) h step = step
  settle-Represents env msg b d (err e) h step = h

  run-Represents :
      (calls : List (Env × PollHandleMsg)) (d : Deps) (b : Ballots)
      → Represents terms d b
      → let (d', b') = run x terms.pool calls (d, b) in Represents terms d' b'
  unfolding run
  run-Represents [] d b h = h
  run-Represents ((env, msg) ∷ calls) d b h =
      let (d', b') = settle x terms.pool env msg b d (handle x d env msg) in
      run-Represents calls d' b' (
        settle-Represents env msg b d (handle x d env msg) h
          (handle-Represents x terms d b env h msg))

repeat_zero-tally_at : (n i : ℕ) → tally_at (repeat_zero n) i ≡ 0
repeat_zero-tally_at zero i = refl
repeat_zero-tally_at (suc n) zero = refl
repeat_zero-tally_at (suc n) (suc i) = repeat_zero-tally_at n i

length-repeat_zero : (n : ℕ) → length (repeat_zero n) ≡ n
length-repeat_zero zero = refl
length-repeat_zero (suc n) = ap suc (length-repeat_zero n)

-- The terms of a poll that is made in `env`.
abbrev pub terms_of : Env → PollInitMsg → Terms
terms_of env msg = record {
  pool = msg.staking_pool;
  owner = env.sender;
  end_timestamp = env.time + msg.config.duration;
}

two_choices : (n : ℕ) (e : StdError) → err_if (ltb n 2) e ≡ ok tt → 0 < n
two_choices zero e h = absurd (cc)
two_choices (suc n) e h = omega arith

init-Represents :
    (x : Externals) (env : Env) (msg : PollInitMsg)
    → Ensures (λ o. Represents (terms_of env msg) o.0 (λ _. none)) (init x env msg)
unfolding init read_vote lookup
init-Represents x env msg = >>=-Ensures (err_if (ltb (length msg.choices) 2) _) _ _ λ _ many.
    >>=-Ensures (err_if (ltb (length (x.as_bytes msg.metadata.title)) 2) _) _ _ λ _ _.
      >>=-Ensures (err_if (ltb (length (x.as_bytes msg.metadata.description)) 10) _) _ _ λ _ _.
        >>=-Ensures (err_if (ltb (length (x.as_bytes msg.metadata.author_alias)) 3) _) _ _ λ _ _.
          >>=-Ensures (checked_add u64 env.time msg.config.duration) _ _ λ ending he. record {
            counted = record {
              counts = repeat_zero-tally_at (length msg.choices);
              known = tt;
              voters = refl;
              choices = length-repeat_zero (length msg.choices);
            };
            some_choice = two_choices (length msg.choices) _ many;
            same_pool = refl;
            same_owner = refl;
            same_end = (checked_add-eq u64 env.time msg.config.duration he).0;
            ballots = λ who. refl;
          }

module _ (x : Externals) (env : Env) (msg : PollInitMsg) {o : Deps × List CosmosMsg}
    (made : init x env msg ≡ ok o) (calls : List (Env × PollHandleMsg)) where
  pub reached-Represents :
      let (d, b) = run x msg.staking_pool calls (o.0, λ _. none) in
      Represents (terms_of env msg) d b
  reached-Represents =
      run-Represents x (terms_of env msg) calls o.0 (λ _. none)
        (Ensures-ok (λ (o : Deps × List CosmosMsg). Represents (terms_of env msg) o.0 (λ _. none))
          (init x env msg) (init-Represents x env msg) made)

  -- A poll is an election: after `init` and any calls by anyone, the stored votes read as the
  -- ballots of an election in which each accepted vote replaces the caller's ballot by one with the
  -- caller's stake, each accepted change of stake weighs a ballot anew, and nothing else matters.
  pub poll_refines :
      let (d, b) = run x msg.staking_pool calls (o.0, λ _. none) in
      (voter : HumanAddr) → read_vote d voter ≡ b voter
  poll_refines = reached-Represents.ballots

  -- After `init` and any calls by anyone: the count of every choice is the sum of the stored votes
  -- for it, no vote is stored for a choice that does not exist, and the number of voters is the
  -- number of stored votes.
  pub tally_counts :
      let d = (run x msg.staking_pool calls (o.0, λ _. none)).0 in
      ((i : ℕ) → tally_at d.tally i ≡ votes_for i d.votes)
      × AllValues (IsChoiceOf (length d.config.choices)) d.votes
      × (d.num_of_voters ≡ length d.votes)
  tally_counts = let c = reached-Represents.counted in (c.counts, rw c.choices at c.known, c.voters)
