-- ===== src/Common/Runs.antt =====
-- A contract over a sequence of calls. A call that fails leaves the storage as it was.
use mathlib.Core.List.{List, [], ◌∷◌}
use secret_finance_rewards.Common.Lists.{All}
use secret_finance_rewards.Common.Results.{Result, ok, err, Ensures}

-- The storage after a call.
abbrev pub left_by {ℓ κ} : {S : Type ℓ} {R : Type κ} → S → Result (S × R) → S
left_by s (ok (s', r)) = s'
left_by s (err e) = s

module _ {ℓ κ μ} {S : Type ℓ} {R : Type κ} {M : Type μ} (handle : S → M → Result (S × R)) where
  unfoldable pub run_calls : List M → S → S
  run_calls [] s = s
  run_calls (m ∷ calls) s = run_calls calls (left_by s (handle s m))

left_by-keeps {ℓ κ ι} :
    {S : Type ℓ} {R : Type κ} (P : S → Type ι) (s : S) (r : Result (S × R))
    → P s
    → Ensures (λ o. P o.0) r
    → P (left_by s r)
left_by-keeps P s (ok (s', r)) p h = h
left_by-keeps P s (err e) p h = p

-- What every call of some kind keeps holds after any calls of that kind.
pub run_calls-keeps_among {ℓ κ μ ι ν} :
    {S : Type ℓ} {R : Type κ} {M : Type μ} (handle : S → M → Result (S × R)) (P : S → Type ι)
    (Q : M → Type ν)
    → ((s : S) (m : M) → Q m → P s → Ensures (λ o. P o.0) (handle s m))
    → (calls : List M) (s : S) → All Q calls
    → P s
    → P (run_calls handle calls s)
unfolding run_calls
run_calls-keeps_among handle P Q keeps [] s q p = p
run_calls-keeps_among handle P Q keeps (m ∷ calls) s q p =
    run_calls-keeps_among handle P Q keeps calls (left_by s (handle s m)) q.1
      (left_by-keeps P s (handle s m) p (keeps s m q.0 p))

All-any {μ} : {M : Type μ} (ms : List M) → All (λ m. Unit {0}) ms
All-any [] = tt
All-any (m ∷ ms) = (tt, All-any ms)

-- What every call keeps holds after any calls.
pub run_calls-keeps {ℓ κ μ ι} :
    {S : Type ℓ} {R : Type κ} {M : Type μ} (handle : S → M → Result (S × R)) (P : S → Type ι)
    → ((s : S) (m : M) → P s → Ensures (λ o. P o.0) (handle s m))
    → (calls : List M) (s : S) → P s
    → P (run_calls handle calls s)
run_calls-keeps handle P keeps calls s p =
    run_calls-keeps_among handle P (λ m. Unit {0}) (λ s m q p. keeps s m p) calls s (All-any calls)
      p
