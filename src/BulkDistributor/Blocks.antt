-- ===== src/BulkDistributor/Blocks.antt =====
-- `get_spy_rewards` of contracts/bulk-distributor/src/contract.rs against an award block by block.
use secret_finance_rewards.Common.{
  ℕ, zero, suc, ◌+◌, ◌-◌, ◌*◌, ◌≤◌, ◌<◌, ◌≡◌, refl, ap, List, [], ◌∷◌, arith, ok, leb, ltb,
  if◌then◌else◌, sum_by, u128, Bool-cases, inl, inr, checked_add-ok, checked_mul-ok, checked_sub-ok,
  checked_add-eq, checked_mul-eq, checked_sub-eq, Ensures, >>=-Ensures, Ensures-ok, Ensures-mono,
  Ensures-intro, checked_add, checked_mul, checked_sub,
}
use secret_finance_rewards.BulkDistributor.State.{RewardBulk}
use secret_finance_rewards.BulkDistributor.Rewards.{
  add_blocks, add_bulk, bulks_loop, get_spy_rewards,
}

-- What a bulk pays for one block: its rate, up to its last block.
abbrev pub rate_at : ℕ → RewardBulk → ℕ
rate_at block b = if leb block b.end_block then b.amount_per_block else 0

-- What the bulks pay for the `n` blocks after `from`.
unfoldable pub awarded : List RewardBulk → ℕ → ℕ → ℕ
awarded bulks from zero = 0
awarded bulks from (suc n) = sum_by (rate_at (suc from)) bulks + awarded bulks (suc from) n

-- The blocks after `last` up to `current` in which a bulk pays.
abbrev pub paid_blocks : ℕ → ℕ → RewardBulk → ℕ
paid_blocks last current b = if ltb current b.end_block then current - last else b.end_block - last

abbrev pub share : ℕ → ℕ → RewardBulk → ℕ
share last current b = paid_blocks last current b * b.amount_per_block

abbrev pub shares : ℕ → ℕ → List RewardBulk → ℕ
shares last current = sum_by (share last current)

add_blocks-ok :
    (amount to from : ℕ) (b : RewardBulk)
    → from ≤ to
    → amount + (to - from) * b.amount_per_block < u128
    → add_blocks amount to from b ≡ ok (amount + (to - from) * b.amount_per_block)
unfolding add_blocks
add_blocks-ok amount to from b h fits =
    rw
      (
        checked_sub-ok to from h,
        checked_mul-ok u128 (to - from) b.amount_per_block (omega arith),
        checked_add-ok u128 amount ((to - from) * b.amount_per_block) fits,
      )
      refl

add_blocks-Ensures :
    (amount to from : ℕ) (b : RewardBulk)
    → Ensures
        (λ s. (s ≡ amount + (to - from) * b.amount_per_block) × (from ≤ to))
        (add_blocks amount to from b)
unfolding add_blocks
add_blocks-Ensures amount to from b = >>=-Ensures (checked_sub to from) _ _ λ n hn.
    >>=-Ensures (checked_mul u128 n b.amount_per_block) _ _ λ p hp.
      Ensures-intro _ (checked_add u128 amount p) λ s hs. (
        rw (checked_add-eq u128 amount p hs).0 (
            rw (checked_mul-eq u128 n b.amount_per_block hp).0
              (rw (checked_sub-eq to from hn).0 refl)),
        (checked_sub-eq to from hn).1,
      )

add_bulk-ok :
    (last current amount : ℕ) (b : RewardBulk)
    → last ≤ current
    → amount + share last current b < u128
    → add_bulk last current amount b ≡ ok (amount + share last current b)
unfolding add_bulk
add_bulk-ok last current amount b h fits = elim (Bool-cases (ltb current b.end_block)) [
  | inl open_ ↦ rw open_ (add_blocks-ok amount current last b h (rw open_ at fits))
  | inr ended ↦ elim (Bool-cases (ltb last b.end_block)) [
    | inl some_ ↦
        rw (ended, some_)
          (add_blocks-ok amount b.end_block last b (ground arith) (rw ended at fits))
    | inr none_ ↦
        let z : b.end_block - last ≡ 0 = ground arith in rw (ended, none_, z) (ap ok (omega arith))
  ]
]

bulks_loop-ok :
    (last current amount : ℕ) (bulks : List RewardBulk)
    → last ≤ current
    → amount + shares last current bulks < u128
    → bulks_loop last current amount bulks ≡ ok (amount + shares last current bulks)
unfolding bulks_loop
bulks_loop-ok last current amount [] h fits = ap ok (omega arith)
bulks_loop-ok last current amount (b ∷ bulks) h fits =
    rw
      (
        add_bulk-ok last current amount b h (omega arith),
        bulks_loop-ok last current (amount + share last current b) bulks h (omega arith),
      )
      (ap ok (omega arith))

paid_blocks-next :
    (from n : ℕ) (b : RewardBulk)
    → paid_blocks from (from + suc n) b
      ≡ (if leb (suc from) b.end_block then 1 else 0) + paid_blocks (suc from) (suc from + n) b
paid_blocks-next from n b = ground arith

share-next :
    (from n : ℕ) (b : RewardBulk)
    → share from (from + suc n) b ≡ rate_at (suc from) b + share (suc from) (suc from + n) b
share-next from n b = elim (Bool-cases (leb (suc from) b.end_block)) [
  | inl paid ↦
      rw paid
        (omega (arith, ap (λ x. x * b.amount_per_block) (rw paid at (paid_blocks-next from n b))))
  | inr ended ↦
      rw ended
        (omega (arith, ap (λ x. x * b.amount_per_block) (rw ended at (paid_blocks-next from n b))))
]

shares-next :
    (from n : ℕ) (bulks : List RewardBulk)
    → shares from (from + suc n) bulks
      ≡ sum_by (rate_at (suc from)) bulks + shares (suc from) (suc from + n) bulks
shares-next from n [] = refl
shares-next from n (b ∷ bulks) = omega (arith, share-next from n b, shares-next from n bulks)

shares-none : (from : ℕ) (bulks : List RewardBulk) → shares from (from + 0) bulks ≡ 0
shares-none from [] = refl
shares-none from (b ∷ bulks) =
    let z : paid_blocks from (from + 0) b ≡ 0 = ground arith in
    rw (z, shares-none from bulks) (omega arith)

pub shares-awarded :
    (from n : ℕ) (bulks : List RewardBulk) → shares from (from + n) bulks ≡ awarded bulks from n
unfolding awarded
shares-awarded from zero bulks = shares-none from bulks
shares-awarded from (suc n) bulks =
    omega (arith, shares-next from n bulks, shares-awarded (suc from) n bulks)

-- Where the rewards fit 128 bits and the block is not before the last award, the rewards are what
-- the bulks pay for the blocks after the last award, each bulk up to its own last block.
pub get_spy_rewards-awarded :
    (bulks : List RewardBulk) (last current : ℕ)
    → last ≤ current
    → awarded bulks last (current - last) < u128
    → get_spy_rewards bulks last current ≡ ok (awarded bulks last (current - last))
unfolding get_spy_rewards
get_spy_rewards-awarded bulks last current h fits =
    let whole : last + (current - last) ≡ current = omega arith in
    let same : shares last current bulks ≡ awarded bulks last (current - last) =
      rw whole at (shares-awarded last (current - last) bulks) in
    rw (bulks_loop-ok last current 0 bulks h (omega (arith, same))) (ap ok (omega (arith, same)))

add_bulk-Ensures :
    (last current amount : ℕ) (b : RewardBulk)
    → Ensures (λ s. s ≡ amount + share last current b) (add_bulk last current amount b)
unfolding add_bulk
add_bulk-Ensures last current amount b = elim (Bool-cases (ltb current b.end_block)) [
  | inl open_ ↦ rw open_ (
      Ensures-mono _ _ (add_blocks amount current last b) (λ s h. h.0)
        (add_blocks-Ensures amount current last b))
  | inr ended ↦ elim (Bool-cases (ltb last b.end_block)) [
    | inl some_ ↦
        rw (ended, some_)
          (Ensures-mono _ _ (add_blocks amount b.end_block last b) (λ s h. h.0)
            (add_blocks-Ensures amount b.end_block last b))
    | inr none_ ↦
        let z : b.end_block - last ≡ 0 = ground arith in rw (ended, none_, z) (omega arith)
  ]
]

bulks_loop-Ensures :
    (last current amount : ℕ) (bulks : List RewardBulk)
    → Ensures (λ s. s ≡ amount + shares last current bulks) (bulks_loop last current amount bulks)
unfolding bulks_loop
bulks_loop-Ensures last current amount [] = omega arith
bulks_loop-Ensures last current amount (b ∷ bulks) =
    >>=-Ensures (add_bulk last current amount b) _ _ λ s hs.
      Ensures-mono (λ t. t ≡ s + shares last current bulks) _ (bulks_loop last current s bulks)
        (λ t ht. omega (
          arith,
          ht,
          Ensures-ok _ (add_bulk last current amount b) (add_bulk-Ensures last current amount b) hs,
        ))
        (bulks_loop-Ensures last current s bulks)

-- The rewards that a call returns.
pub get_spy_rewards-eq :
    (bulks : List RewardBulk) (last current : ℕ) {rewards : ℕ}
    → get_spy_rewards bulks last current ≡ ok rewards
    → rewards ≡ shares last current bulks
unfolding get_spy_rewards
get_spy_rewards-eq bulks last current h = omega (
  arith,
  Ensures-ok (λ s. s ≡ 0 + shares last current bulks) (bulks_loop last current 0 bulks)
      (bulks_loop-Ensures last current 0 bulks) h,
)
