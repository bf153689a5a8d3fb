-- ===== src/Common/Dicts.antt =====
-- A keyed store of the contract's storage, by address: a map as an association list.
use Prim.Native.Nat.{ℕ, ◌+◌}
use Prim.Native.String.{String}
use mathlib.Core.Path.{◌≡◌, refl, subst}
use mathlib.Core.Logic.{inl, inr}
use mathlib.Core.Option.{Option, none, some}
use mathlib.Core.List.{List, [], ◌∷◌}
use native.Mathlib.Omega.{arith}
use text.Mathlib.Text.{◌==◌ as str_eq}
use text.Mathlib.TextEquality.{eq_iff}
use secret_finance_rewards.Common.Tests.{Bool-cases, if◌then◌else◌}

abbrev pub Dict {ℓ} : (V : Type ℓ) → Type ℓ
Dict V = List (String × V)

module _ {ℓ} {V : Type ℓ} where
  -- `load` of a key, and `store`, which replaces a value in its place.
  unfoldable pub lookup : String → Dict V → Option V
  lookup key [] = none
  lookup key ((here, val) ∷ rest) = if str_eq here key then some val else lookup key rest

  unfoldable pub insert : String → V → Dict V → Dict V
  insert key new [] = (key, new) ∷ []
  insert key new ((here, val) ∷ rest) =
      if str_eq here key then (key, new) ∷ rest else (here, val) ∷ insert key new rest

  unfoldable pub remove : String → Dict V → Dict V
  remove key [] = []
  remove key ((here, val) ∷ rest) =
      let others = remove key rest in if str_eq here key then others else (here, val) ∷ others

  pub lookup-insert :
      (key asked : String) (new : V) (m : Dict V)
      → lookup asked (insert key new m) ≡ (if str_eq key asked then some new else lookup asked m)
  unfolding lookup insert
  lookup-insert key asked new [] = refl
  lookup-insert key asked new ((here, val) ∷ rest) = ground (
    arith,
    lookup-insert key asked new rest,
    eq_iff here asked,
    eq_iff here key,
    eq_iff key asked,
  )

  -- A measure of the entry, 0 where there is none.
  abbrev pub at_or_zero : (V → ℕ) → Option V → ℕ
  at_or_zero f none = 0
  at_or_zero f (some v) = f v

  abbrev pub total : (V → ℕ) → Dict V → ℕ
  total f [] = 0
  total f ((k, v) ∷ m) = f v + total f m

  pub total-insert :
      (f : V → ℕ) (k : String) (v : V) (m : Dict V)
      → total f (insert k v m) + at_or_zero f (lookup k m) ≡ total f m + f v
  unfolding lookup insert
  total-insert f k v [] = omega arith
  total-insert f k v ((j, w) ∷ m) = ground (arith, total-insert f k v m)

module _ {ℓ κ} {V : Type ℓ} where
  abbrev pub AllValues : (V → Type κ) → Dict V → Type κ
  AllValues P [] = Unit
  AllValues P ((k, v) ∷ m) = P v × AllValues P m

  pub lookup-AllValues :
      (P : V → Type κ) (k : String) (m : Dict V) {v : V} → AllValues P m → lookup k m ≡ some v → P v
  unfolding lookup
  lookup-AllValues P k [] h e = absurd (cc)
  lookup-AllValues P k ((j, w) ∷ m) {v} h e = elim (Bool-cases (str_eq j k)) [
    | inl same ↦ let p : w ≡ v = ground arith in subst P p h.0
    | inr other ↦ lookup-AllValues P k m h.1 (rw other at e)
  ]

  pub insert-AllValues :
      (P : V → Type κ) (k : String) (v : V) (m : Dict V)
      → AllValues P m
      → P v
      → AllValues P (insert k v m)
  unfolding insert
  insert-AllValues P k v [] h p = (p, tt)
  insert-AllValues P k v ((j, w) ∷ m) h p = elim (Bool-cases (str_eq j k)) [
    | inl same ↦ rw same (p, h.1)
    | inr other ↦ rw other (h.0, insert-AllValues P k v m h.1 p)
  ]

  pub AllValues-mono :
      (P Q : V → Type κ) (m : Dict V) → ((v : V) → P v → Q v) → AllValues P m → AllValues Q m
  AllValues-mono P Q [] f h = tt
  AllValues-mono P Q ((k, v) ∷ m) f h = (f v h.0, AllValues-mono P Q m f h.1)

  -- What holds of every key that has an entry.
  abbrev pub AllKeys : (String → Type κ) → Dict V → Type κ
  AllKeys P [] = Unit
  AllKeys P ((k, v) ∷ m) = P k × AllKeys P m

  pub insert-AllKeys :
      (P : String → Type κ) (k : String) (v : V) (m : Dict V)
      → AllKeys P m
      → P k
      → AllKeys P (insert k v m)
  unfolding insert
  insert-AllKeys P k v [] h p = (p, tt)
  insert-AllKeys P k v ((j, w) ∷ m) h p = elim (Bool-cases (str_eq j k)) [
    | inl same ↦ rw same (p, h.1)
    | inr other ↦ rw other (h.0, insert-AllKeys P k v m h.1 p)
  ]

  pub remove-AllKeys :
      (P : String → Type κ) (k : String) (m : Dict V) → AllKeys P m → AllKeys P (remove k m)
  unfolding remove
  remove-AllKeys P k [] h = tt
  remove-AllKeys P k ((j, w) ∷ m) h = elim (Bool-cases (str_eq j k)) [
    | inl same ↦ rw same (remove-AllKeys P k m h.1)
    | inr other ↦ rw other (h.0, remove-AllKeys P k m h.1)
  ]

  pub lookup-AllKeys :
      (P : String → Type κ) (k : String) (m : Dict V) {v : V}
      → AllKeys P m
      → lookup k m ≡ some v
      → P k
  unfolding lookup
  lookup-AllKeys P k [] h e = absurd (cc)
  lookup-AllKeys P k ((j, w) ∷ m) {v} h e = elim (Bool-cases (str_eq j k)) [
    | inl same ↦ subst P ((eq_iff j k).0 same) h.0
    | inr other ↦ lookup-AllKeys P k m h.1 (rw other at e)
  ]
