-- ===== src/SecretPoll/Reveal.antt =====
-- contracts/secret-poll/src/contract.rs: the committee that reveals the result, and what stands
-- once it has.
use secret_finance_rewards.Common.{
  ℕ, ◌+◌, ◌≤◌, ◌≡◌, refl, sym, ◌∙◌, ap, true, false, not, inl, inr, String, List, [], ◌∷◌, ◌++◌,
  Option, some, none, arith, ok, Result, run_calls, run_calls-keeps, Ensures, >>=-Ensures,
  Ensures-ok, Ensures-mono, Bool-cases, err_if, unauthorized, generic_err, str_eq, ltb, length, All,
  contains, Distinct, Distinct-push, All-push, u64, checked_add, checked_add-eq,
}
use secret_finance_rewards.Scrt.Types.{HumanAddr}
use secret_finance_rewards.Scrt.Chain.{Env, CosmosMsg}
use secret_finance_rewards.Scrt.VoteTypes.{PollInitMsg, PollHandleMsg, RevealCommittee}
use secret_finance_rewards.SecretPoll.State.{Vote, Deps, StoredRevealConfig, read_vote}
use secret_finance_rewards.SecretPoll.Tally.{update_vote}
use secret_finance_rewards.SecretPoll.Ballots.{IsRecast, update_vote-IsRecast}
use secret_finance_rewards.SecretPoll.Handle.{
  Externals, Outcome, require_vote_ongoing, init, vote, reweigh, update_voting_power, reveal,
  validate, conclude, finalize, handle,
}

abbrev pub IsMember : RevealCommittee → HumanAddr → Type 0
IsMember committee who = contains committee.revealers who ≡ true

-- The calls that are counted are those of different members; a decided poll has heard enough, and
-- one that is not decided is not valid.
pub record IsRevealing (committee : RevealCommittee) (d : Deps) : Type 0 where
  pub same_committee : d.reveal_config.committee ≡ committee
  pub counted : d.reveal_config.num_revealed ≡ length d.reveal_config.revealed
  pub different : Distinct d.reveal_config.revealed
  pub members : All (IsMember committee) d.reveal_config.revealed
  pub enough : d.config.finalized ≡ true → committee.n ≤ d.reveal_config.num_revealed
  pub undecided : d.config.finalized ≡ false → d.config.valid ≡ false

length-push : (xs : List String) (x : String) → length (xs ++ (x ∷ [])) ≡ length xs + 1
length-push [] x = omega arith
length-push (y ∷ xs) x = omega (arith, length-push xs x)

module _ (x : Externals) (committee : RevealCommittee) (d : Deps) (env : Env)
    (r : IsRevealing committee d) where
  -- A vote or a change of stake leaves the reveals and the decision.
  keep-IsRevealing :
      (d' : Deps)
      → d'.reveal_config ≡ d.reveal_config
      → d'.config.finalized ≡ d.config.finalized
      → d'.config.valid ≡ d.config.valid
      → IsRevealing committee d'
  keep-IsRevealing d' same decided valid = record {
    same_committee = rw same r.same_committee;
    counted = rw same r.counted;
    different = rw same r.different;
    members = rw same r.members;
    enough = rw (same, decided) r.enough;
    undecided = λ pending. valid ∙ r.undecided (sym decided ∙ pending);
  }

  vote-IsRevealing :
      (choice : ℕ) (key salt : String)
      → Ensures (λ o. IsRevealing committee o.0) (vote x d env choice key salt)
  unfolding vote
  vote-IsRevealing choice key salt = >>=-Ensures (require_vote_ongoing env d.config) _ _ λ _ _.
      >>=-Ensures (x.balance_query env.sender key d.staking_pool) _ _ λ power hp.
        let ballot : Vote = record { choice = choice; voting_power = power } in
        let old = read_vote d env.sender in
        >>=-Ensures (update_vote d env.sender old ballot) _ _ λ d' hd.
          let f =
            Ensures-ok (IsRecast d env.sender ballot) (update_vote d env.sender old ballot)
              (update_vote-IsRecast d env.sender old ballot) hd in
          keep-IsRevealing _ f.reveals refl refl

  reweigh-IsRevealing :
      (voter : HumanAddr) (power : ℕ) (previous : Option Vote)
      → Ensures (IsRevealing committee) (reweigh d voter power previous)
  unfolding reweigh
  reweigh-IsRevealing voter power none = r
  reweigh-IsRevealing voter power (some v) =
      let ballot : Vote = record v { voting_power = power } in
      Ensures-mono (IsRecast d voter ballot) (IsRevealing committee)
        (update_vote d voter (some v) ballot)
        (λ d' f.
          keep-IsRevealing d' f.reveals (ap (λ k. k.finalized) f.config)
            (ap (λ k. k.valid) f.config))
        (update_vote-IsRecast d voter (some v) ballot)

  -- A counted call is of a member that was not counted before.
  reveal-IsRevealing :
      Ensures
        (λ conf.
          IsRevealing committee (record d { reveal_config = conf })
          × (conf.num_revealed ≡ d.reveal_config.num_revealed + 1))
        (reveal x d.reveal_config env.sender)
  unfolding reveal
  reveal-IsRevealing =
      let conf = d.reveal_config in
      >>=-Ensures (err_if (not (contains conf.committee.revealers env.sender)) unauthorized) _ _
        λ _ h1.
          >>=-Ensures
            (err_if (contains conf.revealed env.sender)
              (generic_err "already finalized the vote" []))
            _ _
            λ _ h2. >>=-Ensures (checked_add u64 conf.num_revealed 1) _ _ λ n hn.
              let is_member : contains conf.committee.revealers env.sender ≡ true =
                ground (arith, h1) in
              let more = (checked_add-eq u64 conf.num_revealed 1 hn).0 in
              (
                record {
                  same_committee = r.same_committee;
                  counted = omega (arith, more, r.counted, length-push conf.revealed env.sender);
                  different =
                      Distinct-push conf.revealed env.sender r.different (ground (arith, h2));
                  members =
                      All-push (IsMember committee) conf.revealed env.sender r.members
                        (rw r.same_committee at is_member);
                  enough = λ done. omega (arith, more, r.enough done);
                  undecided = r.undecided;
                },
                more,
              )

  conclude-IsRevealing :
      (conf : StoredRevealConfig)
      → IsRevealing committee (record d { reveal_config = conf })
      → Ensures (λ o. IsRevealing committee o.0) (conclude x (record d { reveal_config = conf }))
  unfolding conclude
  conclude-IsRevealing conf i = elim (Bool-cases (ltb conf.committee.n conf.num_revealed)) [
    | inl past ↦ rw past i
    | inr not_past ↦ elim (Bool-cases (ltb conf.num_revealed conf.committee.n)) [
      | inl few ↦ rw (not_past, few) i
      | inr heard ↦
          rw (not_past, heard)
            (>>=-Ensures (validate x (record d { reveal_config = conf })) _ _ λ valid hv.
              let n : conf.committee.n ≤ conf.num_revealed = ground arith in
              record {
                same_committee = i.same_committee;
                counted = i.counted;
                different = i.different;
                members = i.members;
                enough = λ done. rw i.same_committee at n;
                undecided = λ pending. absurd (cc);
              })
    ]
  ]

  handle-IsRevealing :
      (msg : PollHandleMsg) → Ensures (λ o. IsRevealing committee o.0) (handle x d env msg)
  unfolding handle update_voting_power finalize
  handle-IsRevealing (PollHandleMsg.vote choice key salt) = vote-IsRevealing choice key salt
  handle-IsRevealing (PollHandleMsg.update_voting_power voter power) =
      >>=-Ensures (require_vote_ongoing env d.config) _ _ λ _ _.
        >>=-Ensures (err_if (not (str_eq env.sender d.owner)) unauthorized) _ _ λ _ _.
          >>=-Ensures (reweigh d voter power (read_vote d voter)) _ _ λ d' hd.
            Ensures-ok (IsRevealing committee) (reweigh d voter power (read_vote d voter))
              (reweigh-IsRevealing voter power (read_vote d voter)) hd
  handle-IsRevealing (PollHandleMsg.finalize hash) =
      >>=-Ensures
        (err_if (ltb env.time d.config.end_timestamp) (generic_err "vote has not ended yet" [])) _ _
        λ _ _.
          >>=-Ensures
            (err_if (not (str_eq (x.hex_encode d.config.rolling_hash) hash))
              (generic_err "incorrect rolling hash" []))
            _ _
            λ _ _. >>=-Ensures (reveal x d.reveal_config env.sender) _ _ λ conf hc.
              conclude-IsRevealing conf
                (Ensures-ok
                  (λ conf.
                    IsRevealing committee (record d { reveal_config = conf })
                    × (conf.num_revealed ≡ d.reveal_config.num_revealed + 1))
                  (reveal x d.reveal_config env.sender) reveal-IsRevealing hc).0

-- The calls of a poll, each in the environment of its caller.
abbrev pub handle_call : Externals → Deps → Env × PollHandleMsg → Result Outcome
handle_call x d call = handle x d call.0 call.1

init-IsRevealing :
    (x : Externals) (env : Env) (msg : PollInitMsg)
    → Ensures (λ o. IsRevealing msg.reveal_com o.0) (init x env msg)
unfolding init
init-IsRevealing x env msg = >>=-Ensures (err_if (ltb (length msg.choices) 2) _) _ _ λ _ _.
    >>=-Ensures (err_if (ltb (length (x.as_bytes msg.metadata.title)) 2) _) _ _ λ _ _.
      >>=-Ensures (err_if (ltb (length (x.as_bytes msg.metadata.description)) 10) _) _ _ λ _ _.
        >>=-Ensures (err_if (ltb (length (x.as_bytes msg.metadata.author_alias)) 3) _) _ _ λ _ _.
          >>=-Ensures (checked_add u64 env.time msg.config.duration) _ _ λ ending he. record {
            same_committee = refl;
            counted = refl;
            different = tt;
            members = tt;
            enough = λ done. absurd (cc);
            undecided = λ pending. refl;
          }

-- What holds of the committee after `init` and any calls.
pub reached-IsRevealing :
    (x : Externals) (env : Env) (msg : PollInitMsg) {o : Deps × List CosmosMsg}
    → init x env msg ≡ ok o
    → (calls : List (Env × PollHandleMsg))
    → IsRevealing msg.reveal_com (run_calls (handle_call x) calls o.0)
reached-IsRevealing x env msg {o} made calls =
    run_calls-keeps (handle_call x) (IsRevealing msg.reveal_com)
      (λ d c r. handle-IsRevealing x msg.reveal_com d c.0 r c.1) calls o.0
      (Ensures-ok (λ (o : Deps × List CosmosMsg). IsRevealing msg.reveal_com o.0) (init x env msg)
        (init-IsRevealing x env msg) made)
