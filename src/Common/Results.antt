-- ===== src/Common/Results.antt =====
-- `StdResult`: a value, or the way a call ends without one. A call that returns an error or
-- panics leaves the chain's storage as it was, so no state comes with an error.
use Prim.Native.Nat.{ℕ}
use Prim.Native.String.{String}
use mathlib.Core.Path.{◌≡◌, refl, subst}
use mathlib.Core.Logic.{◌⊎◌, inl, inr}
use mathlib.Core.Bool.{Bool, true, false}
use mathlib.Core.List.{List}
use secret_finance_rewards.Common.Tests.{if◌then◌else◌}

-- An argument of `format!`.
pub data FmtArg : Type 0 where
  words : String → FmtArg
  number : ℕ → FmtArg

-- The errors of the source, and the panics of checked arithmetic and of explicit `panic!`.
-- A formatted message is kept as its template and its arguments.
pub data StdError : Type 0 where
  generic_err : String → List FmtArg → StdError
  unauthorized : StdError
  not_found : StdError
  parse_err : StdError
  overflow : StdError
  div_by_zero : StdError
  panicked : StdError

pub data Result {ℓ} (A : Type ℓ) : Type ℓ where
  err : StdError → Result A
  ok : A → Result A

-- The `?` of the source: the rest runs on the value, and an error ends the call.
infixl 5 ◌>>=◌ ◌>>◌
abbrev pub ◌>>=◌ {ℓ κ} :
    {A : Type ℓ} {B : Type κ} (step : Result A) (rest : A → Result B) → Result B
err e >>= rest = err e
ok value >>= rest = rest value

abbrev pub ◌>>◌ {ℓ} : {B : Type ℓ} (check : Result (Unit {0})) (rest : Result B) → Result B
check >> rest = check >>= λ _. rest

-- `if b { return Err(e); }`
abbrev pub err_if : Bool → StdError → Result (Unit {0})
err_if true e = err e
err_if false e = ok tt

abbrev pub IsOk {ℓ} : {A : Type ℓ} → Result A → Type ℓ
IsOk {A} r = (a : A) × (r ≡ ok a)

-- What holds of every value that the call returns.
abbrev pub Ensures {ℓ κ} : {A : Type ℓ} → (A → Type κ) → Result A → Type κ
Ensures P (ok a) = P a
Ensures P (err e) = Unit

pub Result-cases {ℓ} : {A : Type ℓ} (r : Result A) → ((e : StdError) × (r ≡ err e)) ⊎ IsOk r
Result-cases (ok a) = inr (a, refl)
Result-cases (err e) = inl (e, refl)

-- A step that returns hands its value, with the equation, to the rest of the block.
pub >>=-Ensures {ℓ κ} :
    {A B : Type ℓ} (m : Result A) (f : A → Result B) (P : B → Type κ)
    → ((a : A) → m ≡ ok a → Ensures P (f a))
    → Ensures P (m >>= f)
>>=-Ensures (ok a) f P h = h a refl
>>=-Ensures (err e) f P h = tt

pub Ensures-mono {ℓ κ} :
    {A : Type ℓ} (P Q : A → Type κ) (m : Result A)
    → ((a : A) → P a → Q a)
    → Ensures P m
    → Ensures Q m
Ensures-mono P Q (ok a) f h = f a h
Ensures-mono P Q (err e) f h = tt

pub if-Ensures {ℓ κ} :
    {A : Type ℓ} (P : A → Type κ) (b : Bool) (m n : Result A)
    → Ensures P m
    → Ensures P n
    → Ensures P (if b then m else n)
if-Ensures P true m n h k = h
if-Ensures P false m n h k = k

pub Ensures-ok {ℓ κ} :
    {A : Type ℓ} (P : A → Type κ) (m : Result A) {a : A} → Ensures P m → m ≡ ok a → P a
Ensures-ok P (ok x) {a} h e = let p : x ≡ a = cc in subst P p h
Ensures-ok P (err x) h e = absurd (cc)

pub Ensures-intro {ℓ κ} :
    {A : Type ℓ} (P : A → Type κ) (m : Result A) → ((a : A) → m ≡ ok a → P a) → Ensures P m
Ensures-intro P (ok a) h = h a refl
Ensures-intro P (err e) h = tt

pub >>=-IsOk {ℓ κ} :
    {A : Type ℓ} {B : Type κ} (m : Result A) (f : A → Result B)
    → IsOk m
    → ((a : A) → m ≡ ok a → IsOk (f a))
    → IsOk (m >>= f)
>>=-IsOk (ok a) f h k = k a refl
>>=-IsOk (err e) f h k = absurd (cc (h.1))
