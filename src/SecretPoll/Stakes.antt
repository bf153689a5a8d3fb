-- ===== src/SecretPoll/Stakes.antt =====
-- contracts/secret-poll/src/contract.rs: a change of stake that the factory passes on goes through.
use secret_finance_rewards.Common.{
  ℕ, >>=-IsOk, eq_refl, zero, suc, ◌+◌, ◌≤◌, ◌<◌, ◌≡◌, refl, sym, ◌∙◌, ap, inl, inr, List, [], ◌∷◌,
  Option, none, some, arith, Result, ok, StdError, generic_err, number, IsOk, Bool-cases, str_eq,
  le→ltb, length, Ensures-ok, u128, checked_add, checked_sub, checked_add-ok, checked_sub-ok, Dict,
  lookup, total, lookup-AllValues,
}
use secret_finance_rewards.Scrt.Types.{HumanAddr}
use secret_finance_rewards.Scrt.Chain.{Env, CosmosMsg}
use secret_finance_rewards.Scrt.VoteTypes.{PollInitMsg, PollHandleMsg}
use secret_finance_rewards.SecretPoll.State.{Vote, Deps, store_vote, read_vote}
use secret_finance_rewards.SecretPoll.Tally.{modify_at, discard_vote, update_vote}
use secret_finance_rewards.SecretPoll.Counts.{
  tally_at, votes_for, IsChoiceOf, IsCounted, Modifies, Without, modify_at-Without, Without-at,
}
use secret_finance_rewards.SecretPoll.Handle.{
  Externals, require_vote_ongoing, init, reweigh, update_voting_power,
}
use secret_finance_rewards.SecretPoll.Election.{run, reached-Represents}

modify_at-ok :
    (f : ℕ → Result ℕ) (e : StdError) (ts : List ℕ) (i : ℕ) {t' : ℕ}
    → i < length ts
    → f (tally_at ts i) ≡ ok t'
    → IsOk (modify_at ts i f e)
unfolding modify_at
modify_at-ok f e [] i h k = absurd (omega arith)
modify_at-ok f e (t ∷ ts) zero {t'} h k = (t' ∷ ts, rw k refl)
modify_at-ok f e (t ∷ ts) (suc i) h k =
    let (ts', went) = modify_at-ok f e ts i (omega arith) k in (t ∷ ts', rw went refl)

power_of : Vote → ℕ
power_of v = v.voting_power

-- All the power that has been cast.
abbrev pub cast : Dict Vote → ℕ
cast = total (λ v. v.voting_power)

votes_for-cast : (i : ℕ) (votes : Dict Vote) → votes_for i votes ≤ cast votes
votes_for-cast i [] = omega arith
votes_for-cast i ((k, v) ∷ votes) = ground (arith, votes_for-cast i votes)

lookup-votes_for :
    (voter : HumanAddr) (votes : Dict Vote) {v : Vote}
    → lookup voter votes ≡ some v
    → v.voting_power ≤ votes_for v.choice votes
unfolding lookup
lookup-votes_for voter [] h = absurd (cc)
lookup-votes_for voter ((k, w) ∷ votes) {v} h = elim (Bool-cases (str_eq k voter)) [
  | inl same ↦
      let p : w ≡ v = ground arith in
      let a : w.voting_power ≡ v.voting_power = ap (λ u. u.voting_power) p in
      let c : w.choice ≡ v.choice = ap (λ u. u.choice) p in ground (arith, a, c)
  | inr other ↦ omega (arith, lookup-votes_for voter votes {v = v} (rw other at h))
]

update_vote-IsOk :
    (d : Deps) (voter : HumanAddr) (v : Vote) (power : ℕ)
    → IsCounted d
    → read_vote d voter ≡ some v
    → cast d.votes + power < u128
    → IsOk (update_vote d voter (some v) (record v { voting_power = power }))
unfolding update_vote discard_vote read_vote
update_vote-IsOk d voter v power c h fits =
    let e1 = generic_err "previous choice {} does not exist in this poll" (number v.choice ∷ []) in
    let f : ℕ → Result ℕ = λ t. checked_sub t v.voting_power in
    let g : ℕ → Result ℕ = λ t. checked_add u128 t power in
    let e2 = generic_err "choice {} does not exist in this poll" (number v.choice ∷ []) in
    let known = lookup-AllValues (IsChoiceOf (length d.tally)) voter d.votes {v = v} c.known h in
    let covered = lookup-votes_for voter d.votes {v = v} h in
    let (ts, went) = modify_at-ok f e1 d.tally v.choice known (
      checked_sub-ok (tally_at d.tally v.choice) v.voting_power
        (omega (arith, covered, c.counts v.choice))) in
    let m =
      Ensures-ok (λ ts'. Modifies (Without v) d.tally v.choice ts')
        (modify_at d.tally v.choice f e1) (modify_at-Without v d.tally e1) went in
    let (ts', went') = modify_at-ok g e2 ts v.choice (omega (arith, known, m.same_length)) (
      checked_add-ok u128 (tally_at ts v.choice) power (
        omega (
          arith,
          Without-at v d.tally ts m v.choice,
          c.counts v.choice,
          votes_for-cast v.choice d.votes,
        ))) in
    (store_vote (record d { tally = ts' }) voter v.choice power, rw (went, went') refl)

reweigh-IsOk :
    (d : Deps) (voter : HumanAddr) (power : ℕ) (previous : Option Vote)
    → IsCounted d
    → read_vote d voter ≡ previous
    → cast d.votes + power < u128
    → IsOk (reweigh d voter power previous)
unfolding reweigh
reweigh-IsOk d voter power none c h fits = (d, refl)
reweigh-IsOk d voter power (some v) c h fits = update_vote-IsOk d voter v power c h fits

update_voting_power-IsOk :
    (d : Deps) (now : Env) (voter : HumanAddr) (power : ℕ)
    → IsCounted d
    → now.sender ≡ d.owner
    → now.time ≤ d.config.end_timestamp
    → cast d.votes + power < u128
    → IsOk (update_voting_power d now voter power)
unfolding update_voting_power require_vote_ongoing
update_voting_power-IsOk d now voter power c own early fits =
    rw (le→ltb d.config.end_timestamp now.time early, own, eq_refl d.owner)
      (>>=-IsOk (reweigh d voter power (read_vote d voter)) _
        (reweigh-IsOk d voter power (read_vote d voter) c refl fits) λ d' went. (_, refl))

-- After `init` and any calls: a change of stake that the maker of the poll passes on before its end
-- goes through, whoever the voter is and whether or not there is a vote, where the power that is
-- cast and the new power fit 128 bits together.
pub update_voting_power_goes_through :
    (x : Externals) (env : Env) (msg : PollInitMsg) {o : Deps × List CosmosMsg}
    → init x env msg ≡ ok o
    → (calls : List (Env × PollHandleMsg)) (now : Env) (voter : HumanAddr) (power : ℕ)
    → now.sender ≡ env.sender
    → now.time ≤ env.time + msg.config.duration
    → cast (run x msg.staking_pool calls (o.0, λ _. none)).0.votes + power < u128
    → IsOk (update_voting_power (run x msg.staking_pool calls (o.0, λ _. none)).0 now voter power)
update_voting_power_goes_through x env msg {o} made calls now voter power own early fits =
    let d = (run x msg.staking_pool calls (o.0, λ _. none)).0 in
    let r = reached-Represents x env msg {o = o} made calls in
    update_voting_power-IsOk d now voter power r.counted (own ∙ sym r.same_owner)
      (omega (arith, r.same_end, early)) fits
