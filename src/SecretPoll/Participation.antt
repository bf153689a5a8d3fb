-- ===== src/SecretPoll/Participation.antt =====
-- contracts/secret-poll/src/contract.rs: `validate`, by the votes that are stored.
use secret_finance_rewards.Common.{
  ℕ, zero, suc, ◌+◌, ◌*◌, ◌/◌, ◌≤◌, ◌<◌, ◌≡◌, refl, ◌∙◌, ap, Bool, true, false, ◌&&◌, List, [], ◌∷◌,
  some, inl, inr, arith, ok, Bool-cases, ltb, if◌then◌else◌, length, u128, checked_add-ok,
  checked_mul-ok, checked_div-ok, Dict, AllValues,
}
use secret_finance_rewards.SecretPoll.State.{Vote, Deps}
use secret_finance_rewards.SecretPoll.Counts.{tally_at, power_for, votes_for, IsChoiceOf, IsCounted}
use secret_finance_rewards.SecretPoll.Handle.{
  Externals, max_of, sum_of, query_staking_balance, validate,
}
use secret_finance_rewards.SecretPoll.Stakes.{cast}

-- The sum of `f` below `n`.
abbrev below : ℕ → (ℕ → ℕ) → ℕ
below zero f = 0
below (suc n) f = below n f + f n

below-add : (n : ℕ) (f g : ℕ → ℕ) → below n (λ i. f i + g i) ≡ below n f + below n g
below-add zero f g = omega arith
below-add (suc n) f g = omega (arith, below-add n f g)

below-same : (n : ℕ) (f g : ℕ → ℕ) → ((i : ℕ) → f i ≡ g i) → below n f ≡ below n g
below-same zero f g h = refl
below-same (suc n) f g h = omega (arith, below-same n f g h, h n)

below-shift : (n : ℕ) (f : ℕ → ℕ) → below (suc n) f ≡ f 0 + below n (λ i. f (suc i))
below-shift zero f = omega arith
below-shift (suc n) f = omega (arith, below-shift n f)

-- A vote counts below `n` for its own choice alone.
below-power_for :
    (n : ℕ) (v : Vote)
    → below n (λ i. power_for i v) ≡ (if ltb v.choice n then v.voting_power else 0)
below-power_for zero v = ground arith
below-power_for (suc n) v = ground (arith, below-power_for n v)

below-zero : (n : ℕ) → below n (λ i. 0) ≡ 0
below-zero zero = refl
below-zero (suc n) = omega (arith, below-zero n)

below-votes_for :
    (n : ℕ) (votes : Dict Vote)
    → AllValues (IsChoiceOf n) votes
    → below n (λ i. votes_for i votes) ≡ cast votes
below-votes_for n [] h = below-zero n
below-votes_for n ((k, v) ∷ votes) h = ground (
  arith,
  below-add n (λ i. power_for i v) (λ i. votes_for i votes),
  below-power_for n v,
  below-votes_for n votes h.1,
  h.0,
)

abbrev sum : List ℕ → ℕ
sum [] = 0
sum (t ∷ ts) = t + sum ts

below-tally_at : (ts : List ℕ) → below (length ts) (tally_at ts) ≡ sum ts
below-tally_at [] = refl
below-tally_at (t ∷ ts) =
    omega (arith, below-shift (length ts) (tally_at (t ∷ ts)), below-tally_at ts)

sum_of-sum : (acc : ℕ) (ts : List ℕ) → acc + sum ts < u128 → sum_of acc ts ≡ ok (acc + sum ts)
unfolding sum_of
sum_of-sum acc [] h = ap ok (omega arith)
sum_of-sum acc (t ∷ ts) h =
    rw (checked_add-ok u128 acc t (omega (arith, h)))
      (sum_of-sum (acc + t) ts (omega (arith, h)) ∙ ap ok (omega arith))

-- A strongest choice.
pub record IsStrongest (n : ℕ) (f : ℕ → ℕ) (i : ℕ) : Type 0 where
  pub known : i < n
  pub most : (j : ℕ) → f j ≤ f i

cons_most :
    (t bound : ℕ) (ts : List ℕ)
    → t ≤ bound
    → ((j : ℕ) → tally_at ts j ≤ bound)
    → (j : ℕ) → tally_at (t ∷ ts) j ≤ bound
cons_most t bound ts h k zero = h
cons_most t bound ts h k (suc j) = k j

max_of-IsStrongest :
    (t : ℕ) (ts : List ℕ)
    → (i : ℕ) × IsStrongest (length (t ∷ ts)) (tally_at (t ∷ ts)) i
      × (max_of (t ∷ ts) ≡ some (tally_at (t ∷ ts) i))
unfolding max_of
max_of-IsStrongest t [] = (
  0,
  record { known = omega arith; most = cons_most t t [] (omega arith) (λ j. omega arith) },
  refl,
)
max_of-IsStrongest t (u ∷ ts) =
    let (i, s, e) = max_of-IsStrongest u ts in
    let best = tally_at (u ∷ ts) i in
    elim (Bool-cases (ltb best t)) [
      | inl higher ↦ (
        0,
        record {
          known = omega arith;
          most = cons_most t t (u ∷ ts) (omega arith) (λ j. ground (arith, s.most j, higher));
        },
        rw (e, higher) refl,
      )
      | inr lower ↦ (
        suc i,
        record {
          known = omega (arith, s.known);
          most = cons_most t best (u ∷ ts) (ground (arith, lower)) s.most;
        },
        rw (e, lower) refl,
      )
    ]

strongest :
    (ts : List ℕ)
    → 0 < length ts
    → (i : ℕ) × IsStrongest (length ts) (tally_at ts) i × (max_of ts ≡ some (tally_at ts i))
strongest [] h = absurd (omega (arith, h))
strongest (t ∷ ts) h = max_of-IsStrongest t ts

if_id : (b : Bool) → (if b then true else false) ≡ b
if_id true = refl
if_id false = refl

pub validate-counted :
    (x : Externals) (d : Deps) (staked : ℕ)
    → IsCounted d
    → 0 < length d.config.choices
    → d.config.valid ≡ false
    → query_staking_balance x d ≡ ok staked
    → 0 < staked
    → 100 * cast d.votes < u128
    → (i : ℕ) × IsStrongest (length d.config.choices) (λ j. votes_for j d.votes) i
      × (validate x d
          ≡ ok (
              ltb d.config.quorum (100 * cast d.votes / staked)
              && ltb d.config.min_threshold (votes_for i d.votes)))
unfolding validate
validate-counted x d staked c some_choice undecided asked positive fits =
    let n = length d.tally in
    let (i, s, e) = strongest d.tally (omega (arith, c.choices, some_choice)) in
    let sums : sum d.tally ≡ cast d.votes = omega (
      arith,
      below-tally_at d.tally,
      below-same n (tally_at d.tally) (λ i. votes_for i d.votes) c.counts,
      below-votes_for n d.votes c.known,
    ) in
    let total_is : sum_of 0 d.tally ≡ ok (cast d.votes) =
      sum_of-sum 0 d.tally (omega (arith, sums, fits)) ∙ ap ok (omega (arith, sums)) in
    (
      i,
      record {
        known = omega (arith, s.known, c.choices);
        most = λ j. omega (arith, s.most j, c.counts j, c.counts i);
      },
      rw
          (
            asked,
            total_is,
            checked_mul-ok u128 100 (cast d.votes) fits,
            checked_div-ok (100 * cast d.votes) staked positive,
            e,
            undecided,
            c.counts i,
          )
          (ap (λ b. ok (b && ltb d.config.min_threshold (votes_for i d.votes)))
            (if_id (ltb d.config.quorum (100 * cast d.votes / staked)))),
    )
