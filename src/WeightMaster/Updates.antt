-- ===== src/WeightMaster/Updates.antt =====
-- Updates of one staking contract by contracts/weight-master/src/contract.rs: what a second
-- update finds, and what updates in two steps mint.
use native.Mathlib.Nat.{div-mul-le_self, le-div_iff_mul-le, lt-div-mul-add, div-lt_iff_lt-mul}
use secret_finance_rewards.Common.{
  ℕ, ◌+◌, ◌-◌, ◌*◌, ◌/◌, ◌≤◌, ◌<◌, ◌≡◌, refl, inl, inr, false, [], ◌∷◌, String, arith, ok, Ensures,
  >>=-Ensures, Ensures-ok, ap, Dict, le→ltb, insert, lookup-insert, eq_refl, u128, Bool-cases,
}
use secret_finance_rewards.Scrt.Types.{HumanAddr, Schedule, SpySettings}
use secret_finance_rewards.Scrt.Chain.{Env}
use secret_finance_rewards.WeightMaster.State.{Deps, Outcome, load_spy}
use secret_finance_rewards.WeightMaster.Emission.{get_spy_rewards}
use secret_finance_rewards.WeightMaster.Handle.{respond, is_due, notify_spy, update_allocation}
use secret_finance_rewards.WeightMaster.Minted.{minted, minted-append, get_spy_rewards-minted}

stored_now :
    (addr : HumanAddr) (height : ℕ) (spy : SpySettings) (spies : Dict SpySettings)
    → is_due height
        (load_spy addr height (insert addr (record spy { last_update_block = height }) spies))
      ≡ false
unfolding is_due load_spy
stored_now addr height spy spies = rw (
  lookup-insert addr addr (record spy { last_update_block = height }) spies,
  eq_refl addr,
  le→ltb height height (omega arith),
)

-- In the storage that an update leaves, the contract is not due in the same block.
update_allocation-done :
    (d : Deps) (env : Env) (addr : HumanAddr) (hash : String)
    → Ensures
        (λ o. is_due env.height (load_spy addr env.height o.0.spies) ≡ false)
        (update_allocation d env addr hash)
unfolding update_allocation
update_allocation-done d env addr hash =
    let spy = load_spy addr env.height d.spies in
    elim (Bool-cases (is_due env.height spy)) [
      | inl now ↦ rw now (
          >>=-Ensures (get_spy_rewards env.height d.state.total_weight d.state.minting_schedule spy)
            _ _ λ r hr. stored_now addr env.height spy d.spies)
      | inr later ↦ rw later later
    ]

again :
    (d : Deps) (env : Env) (addr : HumanAddr) (hash : String)
    → is_due env.height (load_spy addr env.height d.spies) ≡ false
    → update_allocation d env addr hash
      ≡ ok (d, respond (notify_spy addr hash 0 ∷ []) (("update_allocation", addr) ∷ []))
unfolding update_allocation
again d env addr hash h = rw h

-- After an update that went through, a second one in the same block mints nothing, tells the
-- contract of an allocation of 0, and leaves the storage as it is.
update_allocation_once :
    (d : Deps) (env : Env) (addr : HumanAddr) (hash : String) {o : Outcome}
    → update_allocation d env addr hash ≡ ok o
    → update_allocation o.0 env addr hash
      ≡ ok (o.0, respond (notify_spy addr hash 0 ∷ []) (("update_allocation", addr) ∷ []))
update_allocation_once d env addr hash {o} went =
    let settled =
      Ensures-ok _ (update_allocation d env addr hash) (update_allocation-done d env addr hash)
        went in
    again o.0 env addr hash settled

div-add-bounds :
    (a b t : ℕ) → 0 < t → (a / t + b / t ≤ (a + b) / t) × ((a + b) / t ≤ a / t + b / t + 1)
div-add-bounds a b t h =
    let x = div-mul-le_self a t in
    let y = div-mul-le_self b t in
    let u = lt-div-mul-add {a = a} h in
    let v = lt-div-mul-add {a = b} h in
    let lt : (a + b) / t < a / t + b / t + 2 = (div-lt_iff_lt-mul h).1 (omega arith) in
    ((le-div_iff_mul-le h).1 (omega arith), omega arith)

abbrev pub spy_with : (weight last_update_block : ℕ) → SpySettings
spy_with weight last = record { weight = weight; last_update_block = last }

-- Updates at a block in between and at the end mint together what one update at the end mints, or
-- one unit less: where the total weight and the weight stay the same, no block is before the last
-- update, and the amounts fit 128 bits.
pub get_spy_rewards-split :
    (s : Schedule) (total_weight weight from mid to : ℕ)
    → from ≤ mid
    → mid ≤ to
    → 0 < total_weight
    → minted s from (to - from) < u128
    → minted s from (to - from) * weight < u128
    → (first second once : ℕ) × (get_spy_rewards mid total_weight s (spy_with weight from)
        ≡ ok first)
      × (get_spy_rewards to total_weight s (spy_with weight mid) ≡ ok second)
      × (get_spy_rewards to total_weight s (spy_with weight from) ≡ ok once)
      × (first + second ≤ once)
      × (once ≤ first + second + 1)
get_spy_rewards-split s total_weight weight from mid to h k w fits room =
    let e : to - from ≡ (mid - from) + (to - mid) = omega arith in
    let f : from + (mid - from) ≡ mid = omega arith in
    let a : ℕ = minted s from (mid - from) in
    let b : ℕ = minted s mid (to - mid) in
    let ab : minted s from (to - from) ≡ a + b =
      rw (e, minted-append s from (mid - from) (to - mid), f) refl in
    let weighted : a * weight + b * weight < u128 = omega (arith, ap (λ (x : ℕ). x * weight) ab) in
    let sum : minted s from (to - from) * weight ≡ a * weight + b * weight =
      omega (arith, ap (λ (x : ℕ). x * weight) ab) in
    let bounds = div-add-bounds (a * weight) (b * weight) total_weight w in
    (
      a * weight / total_weight,
      b * weight / total_weight,
      minted s from (to - from) * weight / total_weight,
      get_spy_rewards-minted mid total_weight s (spy_with weight from) h w (omega arith)
          (omega arith),
      get_spy_rewards-minted to total_weight s (spy_with weight mid) k w (omega arith)
          (omega arith),
      get_spy_rewards-minted to total_weight s (spy_with weight from) (omega arith) w fits room,
      rw sum bounds.0,
      rw sum bounds.1,
    )
