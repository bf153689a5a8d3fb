-- ===== src/BulkDistributor/Owed.antt =====
-- What the bulks of contracts/bulk-distributor have left to pay: an award moves it into rewards, and
-- the bulks that have ended can be dropped.
use secret_finance_rewards.Common.{
  ℕ, ◌+◌, ◌-◌, ◌*◌, ◌≤◌, ◌≡◌, refl, ap, List, [], ◌∷◌, arith, Bool-cases, inl, inr, ltb, ◌==◌, sym,
  length, filter, sum_by,
}
use secret_finance_rewards.BulkDistributor.State.{RewardBulk, Deps, updated_reward_bulks}
use secret_finance_rewards.BulkDistributor.Blocks.{paid_blocks, share, shares}

-- What a bulk has left to pay after the block `last`.
abbrev pub left_of : ℕ → RewardBulk → ℕ
left_of last b = (b.end_block - last) * b.amount_per_block

abbrev pub owed : Deps → ℕ
owed d = sum_by (left_of d.state.last_awarded_block) d.bulks

share-left_of :
    (last height : ℕ) (b : RewardBulk)
    → last ≤ height
    → share last height b + left_of height b ≡ left_of last b
share-left_of last height b h =
    let p : paid_blocks last height b + (b.end_block - height) ≡ b.end_block - last =
      ground arith in
    omega (arith, ap (λ x. x * b.amount_per_block) p)

pub shares-left_of :
    (last height : ℕ) (bulks : List RewardBulk)
    → last ≤ height
    → shares last height bulks + sum_by (left_of height) bulks ≡ sum_by (left_of last) bulks
shares-left_of last height [] h = refl
shares-left_of last height (b ∷ bulks) h =
    omega (arith, share-left_of last height b h, shares-left_of last height bulks h)

-- The bulks that have ended owe nothing.
pub left_of-filter :
    (last : ℕ) (bulks : List RewardBulk)
    → sum_by (left_of last) (filter (λ b. ltb last b.end_block) bulks) ≡ sum_by (left_of last) bulks
unfolding filter
left_of-filter last [] = refl
left_of-filter last (b ∷ bulks) = elim (Bool-cases (ltb last b.end_block)) [
  | inl open_ ↦ rw open_ (omega (arith, left_of-filter last bulks))
  | inr ended ↦
      let z : b.end_block - last ≡ 0 = ground arith in
      rw (ended, z) (omega (arith, left_of-filter last bulks))
]

length-filter :
    (last : ℕ) (bulks : List RewardBulk)
    → length (filter (λ b. ltb last b.end_block) bulks) ≤ length bulks
unfolding filter
length-filter last [] = omega arith
length-filter last (b ∷ bulks) = ground (arith, length-filter last bulks)

-- A filter that takes nothing away leaves the list.
filter-same :
    (last : ℕ) (bulks : List RewardBulk)
    → length (filter (λ b. ltb last b.end_block) bulks) ≡ length bulks
    → filter (λ b. ltb last b.end_block) bulks ≡ bulks
unfolding filter
filter-same last [] h = refl
filter-same last (b ∷ bulks) h = elim (Bool-cases (ltb last b.end_block)) [
  | inl open_ ↦ rw open_ (ap (λ bs. b ∷ bs) (filter-same last bulks (omega (arith, rw open_ at h))))
  | inr ended ↦ absurd (omega (arith, rw ended at h, length-filter last bulks))
]

-- The stored list is the filtered one, written or not.
pub updated_reward_bulks-eq :
    (d : Deps)
    → updated_reward_bulks d d.state ≡ (
      record d { bulks = filter (λ b. ltb d.state.last_awarded_block b.end_block) d.bulks },
      filter (λ b. ltb d.state.last_awarded_block b.end_block) d.bulks,
    )
unfolding updated_reward_bulks
updated_reward_bulks-eq d =
    let last = d.state.last_awarded_block in
    let updated = filter (λ b. ltb last b.end_block) d.bulks in
    elim (Bool-cases (length updated == length d.bulks)) [
      | inl same ↦ rw same (
          ap (λ (bs : List RewardBulk). (record d { bulks = bs }, updated))
            (sym (filter-same last d.bulks (ground arith))))
      | inr other ↦ rw other refl
    ]
