-- ===== src/SecretPoll/Decided.antt =====
-- contracts/secret-poll/src/contract.rs: a poll that the committee has decided.
use secret_finance_rewards.Common.{
  ◌+◌, ◌≤◌, ◌<◌, ◌≡◌, refl, true, not, String, List, [], arith, ok, Ensures, >>=-Ensures,
  Ensures-ok, err_if, unauthorized, generic_err, str_eq, ltb, lt→ltb, length, All, contains,
  Distinct, run_calls, run_calls-keeps_among, u64, checked_add, checked_add-eq,
}
use secret_finance_rewards.Scrt.Types.{HumanAddr}
use secret_finance_rewards.Scrt.Chain.{Env, CosmosMsg}
use secret_finance_rewards.Scrt.VoteTypes.{PollInitMsg, PollHandleMsg}
use secret_finance_rewards.SecretPoll.State.{Deps, StoredRevealConfig}
use secret_finance_rewards.SecretPoll.Handle.{
  Externals, require_vote_ongoing, init, vote, update_voting_power, reveal, conclude, finalize,
  handle,
}
use secret_finance_rewards.SecretPoll.Reveal.{reached-IsRevealing, handle_call}

-- A decided poll after a late call: the configuration, the tally and the votes as they were.
record Stands (d d' : Deps) : Type 0 where
  pub config : d'.config ≡ d.config
  pub tally : d'.tally ≡ d.tally
  pub votes : d'.votes ≡ d.votes
  pub heard : d'.reveal_config.committee.n ≤ d'.reveal_config.num_revealed

reveal-counts :
    (x : Externals) (conf : StoredRevealConfig) (who : HumanAddr)
    → Ensures
        (λ c. (c.committee.n ≡ conf.committee.n) × (c.num_revealed ≡ conf.num_revealed + 1))
        (reveal x conf who)
unfolding reveal
reveal-counts x conf who =
    >>=-Ensures (err_if (not (contains conf.committee.revealers who)) unauthorized) _ _ λ _ _.
      >>=-Ensures
        (err_if (contains conf.revealed who) (generic_err "already finalized the vote" [])) _ _
        λ _ _.
          >>=-Ensures (checked_add u64 conf.num_revealed 1) _ _
            λ n hn. (refl, (checked_add-eq u64 conf.num_revealed 1 hn).0)

late_reveal :
    (x : Externals) (d d' : Deps) (env : Env) (hash : String)
    → Stands d d'
    → Ensures (λ o. Stands d o.0) (finalize x d' env hash)
unfolding finalize conclude
late_reveal x d d' env hash s =
    let conf = d'.reveal_config in
    >>=-Ensures
      (err_if (ltb env.time d'.config.end_timestamp) (generic_err "vote has not ended yet" [])) _ _
      λ _ _.
        >>=-Ensures
          (err_if (not (str_eq (x.hex_encode d'.config.rolling_hash) hash))
            (generic_err "incorrect rolling hash" []))
          _ _
          λ _ _. >>=-Ensures (reveal x conf env.sender) _ _ λ c hc.
            let h =
              Ensures-ok
                (λ c. (c.committee.n ≡ conf.committee.n) × (c.num_revealed ≡ conf.num_revealed + 1))
                (reveal x conf env.sender) (reveal-counts x conf env.sender) hc in
            let past = lt→ltb c.committee.n c.num_revealed (omega (arith, h, s.heard)) in
            rw past (record {
              config = s.config;
              tally = s.tally;
              votes = s.votes;
              heard = omega (arith, h, s.heard);
            })

late_call :
    (x : Externals) (d d' : Deps) (env : Env) (msg : PollHandleMsg)
    → d.config.end_timestamp < env.time
    → Stands d d'
    → Ensures (λ o. Stands d o.0) (handle x d' env msg)
unfolding handle vote update_voting_power require_vote_ongoing
late_call x d d' env (PollHandleMsg.vote choice key salt) late s =
    rw (s.config, lt→ltb d.config.end_timestamp env.time late) tt
late_call x d d' env (PollHandleMsg.update_voting_power voter power) late s =
    rw (s.config, lt→ltb d.config.end_timestamp env.time late) tt
late_call x d d' env (PollHandleMsg.finalize hash) late s = late_reveal x d d' env hash s

module _ (x : Externals) (env : Env) (msg : PollInitMsg) {o : Deps × List CosmosMsg}
    (made : init x env msg ≡ ok o) (calls : List (Env × PollHandleMsg))
    (decided : (run_calls (handle_call x) calls o.0).config.finalized ≡ true) where
  -- A poll that has been decided, after `init` and any calls by anyone, has heard as many members
  -- of its committee as it asks for: all of them different, and all of them members.
  pub committee_decides :
      let revealed = (run_calls (handle_call x) calls o.0).reveal_config.revealed in
      (msg.reveal_com.n ≤ length revealed)
      × Distinct revealed
      × All (λ who. contains msg.reveal_com.revealers who ≡ true) revealed
  committee_decides =
      let reached = reached-IsRevealing x env msg {o = o} made calls in
      (omega (arith, reached.enough decided, reached.counted), reached.different, reached.members)

  -- A poll that has been decided stands: calls after its end change neither the configuration,
  -- with the decision and whether the poll is valid, nor the tally, nor any vote.
  pub result_stands :
      (later : List (Env × PollHandleMsg))
      → All (λ c. (run_calls (handle_call x) calls o.0).config.end_timestamp < c.0.time) later
      → let d = run_calls (handle_call x) calls o.0 in
        let d' = run_calls (handle_call x) later d in
        (d'.config ≡ d.config) × (d'.tally ≡ d.tally) × (d'.votes ≡ d.votes)
  result_stands later after =
      let d = run_calls (handle_call x) calls o.0 in
      let s =
        run_calls-keeps_among (handle_call x) (Stands d) (λ c. d.config.end_timestamp < c.0.time)
          (λ d' c late s. late_call x d d' c.0 c.1 late s) later d after
          (record {
            config = refl;
            tally = refl;
            votes = refl;
            heard =
                let reached = reached-IsRevealing x env msg {o = o} made calls in
                rw reached.same_committee (reached.enough decided);
          }) in
      (s.config, s.tally, s.votes)
