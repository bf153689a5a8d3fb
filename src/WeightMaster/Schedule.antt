-- ===== src/WeightMaster/Schedule.antt =====
-- `sort_schedule` of packages/scrt-finance/src/types.rs: what a sorted schedule mints for a block.
use secret_finance_rewards.Common.{
  ℕ, ◌≤◌, ◌≡◌, refl, inl, inr, [], ◌∷◌, Option, none, some, arith, Bool-cases, leb, ltb,
  if◌then◌else◌, All, All-map_of,
}
use secret_finance_rewards.Scrt.Types.{Schedule, ScheduleUnit, insert_unit, sort_schedule}
use secret_finance_rewards.WeightMaster.Minted.{rate_at}

-- Of two units that have not ended before the block, the one that ends first; the earlier listed
-- of two that end together.
pub sooner : ScheduleUnit → Option ScheduleUnit → ScheduleUnit
sooner u none = u
sooner u (some v) = if ltb v.end_block u.end_block then v else u

-- The unit of a schedule, in any order, that is due at a block.
pub due : Schedule → ℕ → Option ScheduleUnit
due [] block = none
due (u ∷ s) block = if leb block u.end_block then some (sooner u (due s block)) else due s block

pub rate_of : Option ScheduleUnit → ℕ
rate_of none = 0
rate_of (some u) = u.mint_per_block

first_live : Schedule → ℕ → Option ScheduleUnit
first_live [] block = none
first_live (u ∷ s) block = if leb block u.end_block then some u else first_live s block

rate_at-first_live : (s : Schedule) (block : ℕ) → rate_at s block ≡ rate_of (first_live s block)
unfolding rate_at rate_of first_live
rate_at-first_live [] block = refl
rate_at-first_live (u ∷ s) block = ground (arith, rate_at-first_live s block)

-- Each unit ends no later than those behind it.
abbrev pub IsSorted : Schedule → Type 0
IsSorted [] = Unit
IsSorted (u ∷ s) = All (λ v. u.end_block ≤ v.end_block) s × IsSorted s

insert_unit-All :
    (k : ℕ) (u : ScheduleUnit) (s : Schedule)
    → k ≤ u.end_block
    → All (λ v. k ≤ v.end_block) s
    → All (λ v. k ≤ v.end_block) (insert_unit u s)
unfolding insert_unit
insert_unit-All k u [] h a = (h, tt)
insert_unit-All k u (v ∷ s) h a = elim (Bool-cases (ltb v.end_block u.end_block)) [
  | inl after ↦ rw after (a.0, insert_unit-All k u s h a.1)
  | inr before ↦ rw before (h, a)
]

insert_unit-IsSorted : (u : ScheduleUnit) (s : Schedule) → IsSorted s → IsSorted (insert_unit u s)
unfolding insert_unit
insert_unit-IsSorted u [] h = (tt, tt)
insert_unit-IsSorted u (v ∷ s) h = elim (Bool-cases (ltb v.end_block u.end_block)) [
  | inl after ↦
      rw after (insert_unit-All v.end_block u s (ground arith) h.0, insert_unit-IsSorted u s h.1)
  | inr before ↦
      let le : u.end_block ≤ v.end_block = ground arith in
      rw before (
        (
          le,
          All-map_of _ _ (λ (w : ScheduleUnit) (p : v.end_block ≤ w.end_block). omega arith) s h.0,
        ),
        h,
      )
]

pub sort_schedule-IsSorted : (s : Schedule) → IsSorted (sort_schedule s)
unfolding sort_schedule
sort_schedule-IsSorted [] = tt
sort_schedule-IsSorted (u ∷ s) = insert_unit-IsSorted u (sort_schedule s) (sort_schedule-IsSorted s)

first_live-ge :
    (k block : ℕ) (s : Schedule) {w : ScheduleUnit}
    → All (λ v. k ≤ v.end_block) s
    → first_live s block ≡ some w
    → k ≤ w.end_block
unfolding first_live
first_live-ge k block [] a h = absurd (cc)
first_live-ge k block (v ∷ s) {w} a h = elim (Bool-cases (leb block v.end_block)) [
  | inl live ↦ ground arith
  | inr ended ↦ first_live-ge k block s a.1 (rw ended at h)
]

pub pick : ScheduleUnit → ℕ → Option ScheduleUnit → Option ScheduleUnit
pick u block o = if leb block u.end_block then some (sooner u o) else o

-- In front of units that end no earlier, a unit is the one to pick.
pick-front :
    (u : ScheduleUnit) (block : ℕ) (o : Option ScheduleUnit)
    → ((w : ScheduleUnit) → o ≡ some w → u.end_block ≤ w.end_block)
    → (if leb block u.end_block then some u else o) ≡ pick u block o
unfolding pick sooner
pick-front u block none h = refl
pick-front u block (some w) h = let le : u.end_block ≤ w.end_block = h w refl in ground arith

first_live-insert_unit :
    (u : ScheduleUnit) (s : Schedule) (block : ℕ)
    → IsSorted s
    → first_live (insert_unit u s) block ≡ pick u block (first_live s block)
unfolding first_live insert_unit pick sooner
first_live-insert_unit u [] block h = refl
first_live-insert_unit u (v ∷ s) block h = elim (Bool-cases (ltb v.end_block u.end_block)) [
  | inl after ↦ rw after (ground (arith, first_live-insert_unit u s block h.1))
  | inr before ↦
      let le : u.end_block ≤ v.end_block = ground arith in
      rw before (
        pick-front u block (first_live (v ∷ s) block) λ w e.
          first_live-ge u.end_block block (v ∷ s)
            (
              le,
              All-map_of _ _ (λ (x : ScheduleUnit) (p : v.end_block ≤ x.end_block). omega arith) s
                  h.0,
            )
            e)
]

first_live-sort_schedule :
    (s : Schedule) (block : ℕ) → first_live (sort_schedule s) block ≡ due s block
unfolding sort_schedule due first_live pick
first_live-sort_schedule [] block = refl
first_live-sort_schedule (u ∷ s) block = rw (
  first_live-insert_unit u (sort_schedule s) block (sort_schedule-IsSorted s),
  first_live-sort_schedule s block,
)

-- For every block, the schedule as it is stored mints at the rate of the unit that is due in the
-- list as it was given, in whatever order that was; and nothing where every unit has ended.
pub rate_at-sort_schedule :
    (s : Schedule) (block : ℕ) → rate_at (sort_schedule s) block ≡ rate_of (due s block)
rate_at-sort_schedule s block = rw (rate_at-first_live, first_live-sort_schedule)
