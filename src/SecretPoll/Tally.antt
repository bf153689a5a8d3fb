-- ===== src/SecretPoll/Tally.antt =====
-- contracts/secret-poll/src/contract.rs: `update_vote`.
use secret_finance_rewards.Common.{
  ℕ, zero, suc, List, [], ◌∷◌, Option, none, some, Result, ok, err, ◌>>=◌, StdError, generic_err,
  number, u64, u128, checked_add, checked_sub,
}
use secret_finance_rewards.Scrt.Types.{HumanAddr}
use secret_finance_rewards.SecretPoll.State.{Vote, Deps, store_vote}

-- `if let Some(x) = tally.get_mut(i) { *x = f(*x) } else { return Err(e) }`
unfoldable pub modify_at : List ℕ → ℕ → (ℕ → Result ℕ) → StdError → Result (List ℕ)
modify_at [] i f e = err e
modify_at (t ∷ ts) zero f e = do t' ← f t; ok (t' ∷ ts)
modify_at (t ∷ ts) (suc i) f e = do ts' ← modify_at ts i f e; ok (t ∷ ts')

-- The tally without the previous vote, and the number of voters.
unfoldable pub discard_vote : Deps → Option Vote → Result (List ℕ × ℕ)
discard_vote d (some previous) = do
  tally ←
      modify_at d.tally previous.choice (λ t. checked_sub t previous.voting_power)
        (generic_err "previous choice {} does not exist in this poll" (number previous.choice ∷ []))
  ok (tally, d.num_of_voters)
discard_vote d none = do n ← checked_add u64 d.num_of_voters 1; ok (d.tally, n)

unfoldable pub update_vote : Deps → HumanAddr → Option Vote → Vote → Result Deps
update_vote d voter previous_vote new_vote = do
  left ← discard_vote d previous_vote
  tally ←
      modify_at left.0 new_vote.choice (λ t. checked_add u128 t new_vote.voting_power)
        (generic_err "choice {} does not exist in this poll" (number new_vote.choice ∷ []))
  let counted = record d { tally = tally; num_of_voters = left.1 }
  ok (store_vote counted voter new_vote.choice new_vote.voting_power)
