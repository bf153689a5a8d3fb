-- ===== src/WeightMaster/Shares.antt =====
-- contracts/weight-master/src/contract.rs: what `get_spy_rewards` gives all the staking contracts in
-- one block, against the schedule.
use native.Mathlib.Nat.{div-mul-le_self}
use native.Mathlib.Decide.{dec_le}
use secret_finance_rewards.Common.{
  ap, ℕ, ◌+◌, ◌-◌, ◌*◌, ◌/◌, ◌≤◌, ◌<◌, ◌≡◌, List, [], ◌∷◌, Dict, AllValues, arith, ok, total, u128,
}
use secret_finance_rewards.Scrt.Types.{Schedule, SpySettings}
use secret_finance_rewards.Scrt.Chain.{Env}
use secret_finance_rewards.Scrt.MasterMsg.{MasterInitMsg, MasterHandleMsg}
use secret_finance_rewards.WeightMaster.Emission.{get_spy_rewards}
use secret_finance_rewards.WeightMaster.Handle.{init}
use secret_finance_rewards.WeightMaster.Minted.{minted, minted-append, get_spy_rewards-minted}
use secret_finance_rewards.WeightMaster.Weights.{stored_weight, run, total_weight_tallied}

-- A contract that was last updated in a span of blocks.
abbrev pub IsUpdatedIn : (from to : ℕ) → SpySettings → Type 0
IsUpdatedIn from to spy = (from ≤ spy.last_update_block) × (spy.last_update_block ≤ to)

-- A later start mints no more.
minted-le :
    (s : Schedule) (from last to : ℕ)
    → from ≤ last
    → last ≤ to
    → minted s last (to - last) ≤ minted s from (to - from)
minted-le s from last to h k =
    let e : to - from ≡ (last - from) + (to - last) = omega arith in
    let f : from + (last - from) ≡ last = omega arith in
    omega (
      arith,
      ap (minted s from) e,
      minted-append s from (last - from) (to - last),
      ap (λ (x : ℕ). minted s x (to - last)) f,
    )

le_of_scaled : (a e w t : ℕ) → t ≡ 1 + w → a * t ≤ e * w → a ≤ e
le_of_scaled a e w t h k = elim (dec_le a e) [
  | yes p ↦ p
  | no p ↦
      let more : (e + 1) * t ≤ a * t = grind arith in
      absurd (omega (arith, more, ap (λ (x : ℕ). e * x) h))
]

module _ (s : Schedule) (from to total_weight : ℕ) (some_weight : 0 < total_weight)
    (fits : minted s from (to - from) * total_weight < u128) where
  emitted : ℕ
  emitted = minted s from (to - from)

  -- The share of one contract in what was minted since its last update.
  abbrev pub share : SpySettings → ℕ
  share spy =
      minted s spy.last_update_block (to - spy.last_update_block) * spy.weight / total_weight

  share-within :
      (spy : SpySettings)
      → IsUpdatedIn from to spy
      → minted s spy.last_update_block (to - spy.last_update_block) * spy.weight
        ≤ emitted * spy.weight
  unfolding emitted
  share-within spy h = let lower = minted-le s from spy.last_update_block to h.0 h.1 in grind arith

  shares-le :
      (spies : Dict SpySettings)
      → AllValues (IsUpdatedIn from to) spies
      → total share spies * total_weight ≤ emitted * stored_weight spies
  shares-le [] h = omega arith
  shares-le ((k, spy) ∷ spies) h = omega (
    arith,
    shares-le spies h.1,
    share-within spy h.0,
    div-mul-le_self (minted s spy.last_update_block (to - spy.last_update_block) * spy.weight)
        total_weight,
  )

  shares-rewards :
      (spies : Dict SpySettings)
      → AllValues (IsUpdatedIn from to) spies
      → stored_weight spies < total_weight
      → AllValues (λ spy. get_spy_rewards to total_weight s spy ≡ ok (share spy)) spies
  unfolding emitted
  shares-rewards [] h below = tt
  shares-rewards ((k, spy) ∷ spies) h below =
      let lower = minted-le s from spy.last_update_block to h.0.0 h.0.1 in
      let weighted : emitted * spy.weight ≤ emitted * total_weight = grind arith in
      let all_fit : emitted ≤ emitted * total_weight = grind arith in
      (
        get_spy_rewards-minted to total_weight s spy h.0.1 some_weight (omega arith)
            (omega (arith, share-within spy h.0)),
        shares-rewards spies h.1 (omega arith),
      )

-- After `init` and any calls by anyone: if every stored contract was last updated in the blocks
-- `from` to `to`, and what the schedule mints for the blocks after `from` up to `to`, multiplied by
-- the total weight, fits 128 bits, then `get_spy_rewards` at block `to` goes through for each of
-- them, and the rewards that it gives them at the present weights are together at most what the
-- schedule mints for those blocks. What they were minted at other weights before does not count.
pub get_spy_rewards-bounded :
    (env : Env) (msg : MasterInitMsg) (calls : List (Env × MasterHandleMsg)) (from to : ℕ)
    → let d = run calls (init env msg) in
      let s = d.state.minting_schedule in
      AllValues (IsUpdatedIn from to) d.spies
      → minted s from (to - from) * d.state.total_weight < u128
      → (reward : SpySettings → ℕ) × AllValues
          (λ spy. get_spy_rewards to d.state.total_weight s spy ≡ ok (reward spy))
          d.spies
        × (total reward d.spies ≤ minted s from (to - from))
unfolding emitted
get_spy_rewards-bounded env msg calls from to updated fits =
    let d = run calls (init env msg) in
    let s = d.state.minting_schedule in
    let tallied = total_weight_tallied env msg calls in
    let some_weight : 0 < d.state.total_weight = omega arith in
    let weigh = shares-le s from to d.state.total_weight some_weight fits d.spies updated in
    (
      share s from to d.state.total_weight some_weight fits,
      shares-rewards s from to d.state.total_weight some_weight fits d.spies updated (omega arith),
      le_of_scaled _ (minted s from (to - from)) (stored_weight d.spies) d.state.total_weight
          tallied weigh,
    )
