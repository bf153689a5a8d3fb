-- ===== src/WeightMaster/Minted.antt =====
-- `get_spy_rewards` of contracts/weight-master/src/contract.rs against an emission block by block.
use native.Mathlib.Nat.{add-suc, add-zero, suc-add, zero-add}
use secret_finance_rewards.Common.{
  ℕ, zero, suc, ◌+◌, ◌-◌, ◌*◌, ◌/◌, ◌≤◌, ◌<◌, ◌≡◌, refl, ap, ◌∙◌, inl, inr, [], ◌∷◌, arith, ok,
  Bool-cases, leb, ltb, if◌then◌else◌, u128, checked_add-ok, checked_mul-ok, checked_sub-ok,
  checked_div-ok,
}
use secret_finance_rewards.Scrt.Types.{Schedule, ScheduleUnit, SpySettings}
use secret_finance_rewards.WeightMaster.Emission.{add_blocks, schedule_loop, get_spy_rewards}

-- What is minted for one block: the rate of the first unit that has not ended before it.
unfoldable pub rate_at : Schedule → ℕ → ℕ
rate_at [] block = 0
rate_at (u ∷ s) block = if leb block u.end_block then u.mint_per_block else rate_at s block

-- What is minted for the `n` blocks after `from`.
unfoldable pub minted : Schedule → ℕ → ℕ → ℕ
minted s from zero = 0
minted s from (suc n) = rate_at s (suc from) + minted s (suc from) n

pub minted-append :
    (s : Schedule) (from m n : ℕ) → minted s from (m + n) ≡ minted s from m + minted s (from + m) n
unfolding minted
minted-append s from zero n = simp (zero-add, add-zero)
minted-append s from (suc m) n =
    simp (suc-add, add-suc) (rw (minted-append s (suc from) m n, suc-add) (omega arith))

minted-nil : (from n : ℕ) → minted [] from n ≡ 0
unfolding minted rate_at
minted-nil from zero = refl
minted-nil from (suc n) = omega (arith, minted-nil (suc from) n)

-- Blocks up to the end of the first unit are minted at its rate.
minted-within :
    (u : ScheduleUnit) (s : Schedule) (from n : ℕ)
    → from + n ≤ u.end_block
    → minted (u ∷ s) from n ≡ n * u.mint_per_block
unfolding minted rate_at
minted-within u s from zero h = omega arith
minted-within u s from (suc n) h = ground (arith, minted-within u s (suc from) n (omega arith))

-- Blocks after the end of the first unit are minted by the others.
minted-beyond :
    (u : ScheduleUnit) (s : Schedule) (from n : ℕ)
    → u.end_block ≤ from
    → minted (u ∷ s) from n ≡ minted s from n
unfolding minted rate_at
minted-beyond u s from zero h = refl
minted-beyond u s from (suc n) h = ground (arith, minted-beyond u s (suc from) n (omega arith))

add_blocks-ok :
    (m to from rate : ℕ)
    → from ≤ to
    → m + (to - from) * rate < u128
    → add_blocks m to from rate ≡ ok (m + (to - from) * rate)
unfolding add_blocks
add_blocks-ok m to from rate h fits = rw (
  checked_sub-ok to from h,
  checked_mul-ok u128 (to - from) rate (omega arith),
  checked_add-ok u128 m ((to - from) * rate) fits,
)

-- A span that passes the end of the first unit.
minted-across :
    (u : ScheduleUnit) (s : Schedule) (from to : ℕ)
    → from ≤ u.end_block
    → u.end_block ≤ to
    → minted (u ∷ s) from (to - from)
      ≡ (u.end_block - from) * u.mint_per_block + minted s u.end_block (to - u.end_block)
minted-across u s from to h k =
    let e : to - from ≡ (u.end_block - from) + (to - u.end_block) = omega arith in
    let f : from + (u.end_block - from) ≡ u.end_block = omega arith in
    rw e (
      omega (
        arith,
        minted-append (u ∷ s) from (u.end_block - from) (to - u.end_block),
        minted-within u s from (u.end_block - from) (omega arith),
        ap (λ (x : ℕ). minted (u ∷ s) x (to - u.end_block)) f,
        minted-beyond u s u.end_block (to - u.end_block) (omega arith),
      ))

schedule_loop-minted :
    (s : Schedule) (current last m : ℕ)
    → last ≤ current
    → m + minted s last (current - last) < u128
    → schedule_loop current last m s ≡ ok (m + minted s last (current - last))
unfolding schedule_loop
schedule_loop-minted [] current last m h fits =
    ap ok (omega (arith, minted-nil last (current - last)))
schedule_loop-minted (u ∷ s) current last m h fits = elim (Bool-cases (ltb last u.end_block)) [
  | inl live ↦ elim (Bool-cases (ltb u.end_block current)) [
    | inl over ↦
        let l : last ≤ u.end_block = ground arith in
        let c : u.end_block ≤ current = ground arith in
        let split = minted-across u s last current l c in
        let m' : ℕ = m + (u.end_block - last) * u.mint_per_block in
        rw (live, over, add_blocks-ok m u.end_block last u.mint_per_block l (omega arith))
          (schedule_loop-minted s current u.end_block m' c (omega arith) ∙ ap ok (omega arith))
    | inr inside ↦
        let c : current ≤ u.end_block = ground arith in
        let all_of = minted-within u s last (current - last) (omega arith) in
        rw (live, inside, add_blocks-ok m current last u.mint_per_block h (omega arith))
          (ap ok (omega arith))
  ]
  | inr ended ↦
      let e : u.end_block ≤ last = ground arith in
      let same = minted-beyond u s last (current - last) e in
      rw ended (schedule_loop-minted s current last m h (omega arith) ∙ ap ok (omega arith))
]

-- For any schedule, and a block that is not before the last update: where the amounts fit 128
-- bits and the total weight is not zero, the reward of a contract is its share, rounded down, of
-- what the schedule mints for the blocks after the last update.
pub get_spy_rewards-minted :
    (current total_weight : ℕ) (s : Schedule) (spy : SpySettings)
    → let emitted : ℕ = minted s spy.last_update_block (current - spy.last_update_block) in
      spy.last_update_block ≤ current
      → 0 < total_weight
      → emitted < u128
      → emitted * spy.weight < u128
      → get_spy_rewards current total_weight s spy ≡ ok (emitted * spy.weight / total_weight)
unfolding get_spy_rewards
get_spy_rewards-minted current total_weight s spy h w fits room =
    let last = spy.last_update_block in
    let e : 0 + minted s last (current - last) ≡ minted s last (current - last) = omega arith in
    rw (
      schedule_loop-minted s current last 0 h (omega arith),
      e,
      checked_mul-ok u128 _ spy.weight room,
      checked_div-ok _ total_weight w,
    )
