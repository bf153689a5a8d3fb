-- ===== src/Common/Members.antt =====
-- `Vec::contains` on texts, and lists without repetitions.
use Prim.Native.String.{String}
use mathlib.Core.Path.{◌≡◌}
use mathlib.Core.Bool.{Bool, false, ◌||◌}
use mathlib.Core.List.{List, [], ◌∷◌, ◌++◌}
use native.Mathlib.Omega.{arith}
use text.Mathlib.Text.{◌==◌ as str_eq}
use text.Mathlib.TextEquality.{eq_iff}
use secret_finance_rewards.Common.Lists.{any, All}

abbrev pub contains : List String → String → Bool
contains xs a = any (λ x. str_eq x a) xs

abbrev pub Distinct : List String → Type 0
Distinct [] = Unit
Distinct (x ∷ xs) = (contains xs x ≡ false) × Distinct xs

contains-push :
    (xs : List String) (a b : String) → contains (xs ++ (a ∷ [])) b ≡ (contains xs b || str_eq a b)
unfolding any
contains-push [] a b = ground arith
contains-push (x ∷ xs) a b = ground (arith, contains-push xs a b)

pub Distinct-push :
    (xs : List String) (a : String)
    → Distinct xs
    → contains xs a ≡ false
    → Distinct (xs ++ (a ∷ []))
unfolding any
Distinct-push [] a d h = ground arith
Distinct-push (x ∷ xs) a d h = (
  ground (arith, contains-push xs a x, eq_iff a x, eq_iff x a, d.0),
  Distinct-push xs a d.1 (ground arith),
)

pub All-push :
    (P : String → Type 0) (xs : List String) (a : String) → All P xs → P a → All P (xs ++ (a ∷ []))
All-push P [] a h p = (p, tt)
All-push P (x ∷ xs) a h p = (h.0, All-push P xs a h.1 p)
