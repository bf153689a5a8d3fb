-- ===== src/Scrt/Bytes.antt =====
-- The comparison of bytes, which a constant-time comparison computes.
use secret_finance_rewards.Common.{◌≡◌, ◌↔◌, refl, Bool, true, false, ◌&&◌, [], ◌∷◌, arith, ◌==◌}
use secret_finance_rewards.Scrt.Types.{Binary}

unfoldable pub same_bytes : Binary → Binary → Bool
same_bytes [] [] = true
same_bytes (a ∷ s) (b ∷ t) = (a == b) && same_bytes s t
same_bytes _ _ = false

pub same_bytes_iff : (s t : Binary) → (same_bytes s t ≡ true) ↔ (s ≡ t)
unfolding same_bytes
same_bytes_iff [] [] = (λ _. refl, λ _. refl)
same_bytes_iff [] (b ∷ t) = (λ h. cc, λ h. cc)
same_bytes_iff (a ∷ s) [] = (λ h. cc, λ h. cc)
same_bytes_iff (a ∷ s) (b ∷ t) =
    (λ h. ground (arith, (same_bytes_iff s t).0), λ h. ground (arith, (same_bytes_iff s t).1))
