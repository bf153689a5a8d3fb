-- ===== src/Common/Checked.antt =====
-- Unsigned machine arithmetic. The release profile of the workspace sets `overflow-checks`, so a
-- result out of range, a subtraction below zero and a division by zero panic.
use Prim.Native.Nat.{ℕ, ◌+◌, ◌-◌, ◌*◌, ◌/◌, ◌^◌, ◌≤◌, ◌<◌}
use mathlib.Core.Path.{◌≡◌}
use native.Mathlib.Omega.{arith}
use secret_finance_rewards.Common.Tests.{ltb, leb, ◌==◌, if◌then◌else◌}
use secret_finance_rewards.Common.Results.{Result, ok, err, overflow, div_by_zero}

-- The number of values of a `u32`, a `u64` and a `u128`.
abbrev pub u32 : ℕ
u32 = 2 ^ 32

abbrev pub u64 : ℕ
u64 = 2 ^ 64

abbrev pub u128 : ℕ
u128 = 2 ^ 128

-- `a + b` in the type with `w` values.
unfoldable pub checked_add : ℕ → ℕ → ℕ → Result ℕ
checked_add w a b = if ltb (a + b) w then ok (a + b) else err overflow

unfoldable pub checked_mul : ℕ → ℕ → ℕ → Result ℕ
checked_mul w a b = if ltb (a * b) w then ok (a * b) else err overflow

unfoldable pub checked_sub : ℕ → ℕ → Result ℕ
checked_sub a b = if leb b a then ok (a - b) else err overflow

unfoldable pub checked_div : ℕ → ℕ → Result ℕ
checked_div a b = if b == 0 then err div_by_zero else ok (a / b)

pub checked_add-ok : (w a b : ℕ) → a + b < w → checked_add w a b ≡ ok (a + b)
unfolding checked_add
checked_add-ok w a b h = ground arith

pub checked_mul-ok : (w a b : ℕ) → a * b < w → checked_mul w a b ≡ ok (a * b)
unfolding checked_mul
checked_mul-ok w a b h = ground arith

pub checked_sub-ok : (a b : ℕ) → b ≤ a → checked_sub a b ≡ ok (a - b)
unfolding checked_sub
checked_sub-ok a b h = ground arith

pub checked_div-ok : (a b : ℕ) → 0 < b → checked_div a b ≡ ok (a / b)
unfolding checked_div
checked_div-ok a b h = ground arith

-- What a call that returns has computed.
pub checked_add-eq : (w a b : ℕ) {c : ℕ} → checked_add w a b ≡ ok c → (c ≡ a + b) × (a + b < w)
unfolding checked_add
checked_add-eq w a b h = ground arith

pub checked_mul-eq : (w a b : ℕ) {c : ℕ} → checked_mul w a b ≡ ok c → (c ≡ a * b) × (a * b < w)
unfolding checked_mul
checked_mul-eq w a b h = ground arith

pub checked_sub-eq : (a b : ℕ) {c : ℕ} → checked_sub a b ≡ ok c → (c ≡ a - b) × (b ≤ a)
unfolding checked_sub
checked_sub-eq a b h = ground arith

pub checked_div-eq : (a b : ℕ) {c : ℕ} → checked_div a b ≡ ok c → (c ≡ a / b) × (0 < b)
unfolding checked_div
checked_div-eq a b h = ground arith
