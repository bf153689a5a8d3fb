-- ===== src/SecretPoll/Counts.antt =====
-- The tally of contracts/secret-poll against the votes that are stored: what `update_vote` keeps.
use secret_finance_rewards.Common.{
  ℕ, zero, suc, ◌+◌, ◌<◌, ◌≡◌, refl, false, List, [], ◌∷◌, Option, none, some, arith, Result,
  StdError, generic_err, number, Ensures, >>=-Ensures, Ensures-intro, Ensures-ok, inl, inr,
  Bool-cases, ◌==◌, if◌then◌else◌, length, u64, u128, checked_add, checked_sub, checked_add-eq,
  checked_sub-eq, Dict, lookup, insert, total, total-insert, at_or_zero, AllValues,
  insert-AllValues,
}
use secret_finance_rewards.Scrt.Types.{HumanAddr}
use secret_finance_rewards.SecretPoll.State.{Vote, Deps, store_vote, read_vote}
use secret_finance_rewards.SecretPoll.Tally.{modify_at, discard_vote, update_vote}

-- The count of a choice; 0 where there is no such choice.
abbrev pub tally_at : List ℕ → ℕ → ℕ
tally_at [] i = 0
tally_at (t ∷ ts) zero = t
tally_at (t ∷ ts) (suc i) = tally_at ts i

-- What a ballot counts for a choice.
abbrev pub power_for : ℕ → Vote → ℕ
power_for i v = if v.choice == i then v.voting_power else 0

abbrev pub votes_for : ℕ → Dict Vote → ℕ
votes_for i votes = total (power_for i) votes

abbrev pub IsChoiceOf : ℕ → Vote → Type 0
IsChoiceOf n v = v.choice < n

-- Every count is the sum of the stored ballots for that choice, every ballot is for one of the
-- choices, and there are as many voters as ballots.
pub record IsCounted (d : Deps) : Type 0 where
  pub counts : (i : ℕ) → tally_at d.tally i ≡ votes_for i d.votes
  pub known : AllValues (IsChoiceOf (length d.tally)) d.votes
  pub voters : d.num_of_voters ≡ length d.votes
  pub choices : length d.tally ≡ length d.config.choices

-- `modify_at` changes one count, by `f`, and keeps the others and the length.
pub record Modifies (P : ℕ → ℕ → Type 0) (ts : List ℕ) (i : ℕ) (ts' : List ℕ) : Type 0 where
  pub same_length : length ts' ≡ length ts
  pub within : i < length ts
  pub changed : P (tally_at ts i) (tally_at ts' i)
  pub others : (j : ℕ) → (i == j) ≡ false → tally_at ts' j ≡ tally_at ts j

others_head :
    (t t' : ℕ) (ts : List ℕ) (j : ℕ)
    → (zero == j) ≡ false
    → tally_at (t' ∷ ts) j ≡ tally_at (t ∷ ts) j
others_head t t' ts zero h = absurd (ground arith)
others_head t t' ts (suc j) h = refl

others_tail :
    (t : ℕ) (ts ts' : List ℕ) (i : ℕ)
    → ((j : ℕ) → (i == j) ≡ false → tally_at ts' j ≡ tally_at ts j)
    → (j : ℕ) → (suc i == j) ≡ false
    → tally_at (t ∷ ts') j ≡ tally_at (t ∷ ts) j
others_tail t ts ts' i h zero n = refl
others_tail t ts ts' i h (suc j) n = h j (ground arith)

modify_at-Modifies :
    (P : ℕ → ℕ → Type 0) (f : ℕ → Result ℕ) (e : StdError)
    → ((t : ℕ) → Ensures (P t) (f t))
    → (ts : List ℕ) (i : ℕ) → Ensures (Modifies P ts i) (modify_at ts i f e)
unfolding modify_at
modify_at-Modifies P f e h [] i = tt
modify_at-Modifies P f e h (t ∷ ts) zero = >>=-Ensures (f t) _ _ λ t' ht. record {
  same_length = refl;
  within = omega arith;
  changed = Ensures-ok (P t) (f t) (h t) ht;
  others = others_head t t' ts;
}
modify_at-Modifies P f e h (t ∷ ts) (suc i) = >>=-Ensures (modify_at ts i f e) _ _ λ ts' hts.
    let m =
      Ensures-ok (Modifies P ts i) (modify_at ts i f e) (modify_at-Modifies P f e h ts i) hts in
    record {
      same_length = omega (arith, m.same_length);
      within = omega (arith, m.within);
      changed = m.changed;
      others = others_tail t ts ts' i m.others;
    }

-- The count of a choice after a ballot is taken out, and after one is put in.
abbrev pub Without : Vote → ℕ → ℕ → Type 0
Without v t t' = t' + v.voting_power ≡ t

abbrev With : Vote → ℕ → ℕ → Type 0
With v t t' = t' ≡ t + v.voting_power

pub modify_at-Without :
    (v : Vote) (ts : List ℕ) (e : StdError)
    → Ensures
        (λ ts'. Modifies (Without v) ts v.choice ts')
        (modify_at ts v.choice (λ t. checked_sub t v.voting_power) e)
modify_at-Without v ts e =
    modify_at-Modifies (Without v) (λ t. checked_sub t v.voting_power) e
      (λ t.
        Ensures-intro (Without v t) (checked_sub t v.voting_power)
          λ t' h. omega (arith, checked_sub-eq t v.voting_power h))
      ts v.choice

modify_at-With :
    (v : Vote) (ts : List ℕ) (e : StdError)
    → Ensures
        (λ ts'. Modifies (With v) ts v.choice ts')
        (modify_at ts v.choice (λ t. checked_add u128 t v.voting_power) e)
modify_at-With v ts e =
    modify_at-Modifies (With v) (λ t. checked_add u128 t v.voting_power) e
      (λ t.
        Ensures-intro (With v t) (checked_add u128 t v.voting_power)
          λ t' h. omega (arith, checked_add-eq u128 t v.voting_power h))
      ts v.choice

pub Without-at :
    (v : Vote) (ts ts' : List ℕ)
    → Modifies (Without v) ts v.choice ts'
    → (i : ℕ) → tally_at ts' i + power_for i v ≡ tally_at ts i
Without-at v ts ts' m i = elim (Bool-cases (v.choice == i)) [
  | inl here ↦ let e : v.choice ≡ i = ground arith in rw here (rw (← e) (omega (arith, m.changed)))
  | inr there ↦ rw there (omega (arith, m.others i there))
]

With-at :
    (v : Vote) (ts ts' : List ℕ)
    → Modifies (With v) ts v.choice ts'
    → (i : ℕ) → tally_at ts' i ≡ tally_at ts i + power_for i v
With-at v ts ts' m i = elim (Bool-cases (v.choice == i)) [
  | inl here ↦ let e : v.choice ≡ i = ground arith in rw here (rw (← e) (omega (arith, m.changed)))
  | inr there ↦ rw there (omega (arith, m.others i there))
]

-- What `discard_vote` leaves: the counts without the previous ballot, and the voters with this one.
record IsDiscarded (d : Deps) (previous : Option Vote) (left : List ℕ × ℕ) : Type 0 where
  pub same_length : length left.0 ≡ length d.tally
  pub counts : (i : ℕ) → tally_at left.0 i + at_or_zero (power_for i) previous ≡ tally_at d.tally i
  pub voters : left.1 + at_or_zero (λ v. 1) previous ≡ d.num_of_voters + 1

discard_vote-IsDiscarded :
    (d : Deps) (previous : Option Vote) → Ensures (IsDiscarded d previous) (discard_vote d previous)
unfolding discard_vote
discard_vote-IsDiscarded d none = >>=-Ensures (checked_add u64 d.num_of_voters 1) _ _ λ n hn.
    record {
      same_length = refl;
      counts = λ i. omega arith;
      voters = omega (arith, checked_add-eq u64 d.num_of_voters 1 hn);
    }
discard_vote-IsDiscarded d (some v) =
    let e = generic_err "previous choice {} does not exist in this poll" (number v.choice ∷ []) in
    let f : ℕ → Result ℕ = λ t. checked_sub t v.voting_power in
    >>=-Ensures (modify_at d.tally v.choice f e) _ _ λ ts hts.
      let m =
        Ensures-ok (λ ts'. Modifies (Without v) d.tally v.choice ts')
          (modify_at d.tally v.choice f e) (modify_at-Without v d.tally e) hts in
      record {
        same_length = m.same_length;
        counts = Without-at v d.tally ts m;
        voters = omega arith;
      }

total_one : (m : Dict Vote) → total (λ v. 1) m ≡ length m
total_one [] = refl
total_one ((k, v) ∷ m) = omega (arith, total_one m)

-- A ballot that takes the place of the voter's previous one keeps the tally counted.
pub update_vote-IsCounted :
    (d : Deps) (voter : HumanAddr) (new : Vote)
    → IsCounted d
    → Ensures IsCounted (update_vote d voter (read_vote d voter) new)
unfolding update_vote store_vote read_vote
update_vote-IsCounted d voter new c =
    let previous = lookup voter d.votes in
    let e = generic_err "choice {} does not exist in this poll" (number new.choice ∷ []) in
    let f : ℕ → Result ℕ = λ t. checked_add u128 t new.voting_power in
    >>=-Ensures (discard_vote d previous) _ _ λ left hl.
      let l =
        Ensures-ok (IsDiscarded d previous) (discard_vote d previous)
          (discard_vote-IsDiscarded d previous) hl in
      >>=-Ensures (modify_at left.0 new.choice f e) _ _ λ ts hts.
        let m =
          Ensures-ok (λ ts'. Modifies (With new) left.0 new.choice ts')
            (modify_at left.0 new.choice f e) (modify_at-With new left.0 e) hts in
        let longer : length ts ≡ length d.tally = omega (arith, m.same_length, l.same_length) in
        record {
          counts = λ i. omega (
            arith,
            With-at new left.0 ts m i,
            l.counts i,
            c.counts i,
            total-insert (power_for i) voter new d.votes,
          );
          known = rw longer (
              insert-AllValues (IsChoiceOf (length d.tally)) voter new d.votes c.known
                (omega (arith, m.within, l.same_length)));
          voters = omega (
            arith,
            l.voters,
            c.voters,
            total_one d.votes,
            total_one (insert voter new d.votes),
            total-insert (λ v. 1) voter new d.votes,
          );
          choices = omega (arith, longer, c.choices);
        }
