-- ===== src/Scrt/ViewingKey.antt =====
-- packages/scrt-finance/src/viewing_key.rs and utils.rs: viewing keys. The hash, the generator,
-- the encoding and the comparison come from other packages and are parameters.
use Prim.Native.String.{◌++◌ as ◌++ₛ◌}
use secret_finance_rewards.Common.{
  ℕ, zero, suc, ◌/◌, ◌%◌, ◌≡◌, ◌↔◌, String, Bool, true, [], ◌∷◌, ◌++◌,
}
use secret_finance_rewards.Scrt.Types.{Binary}
use secret_finance_rewards.Scrt.Chain.{Env}

pub record Crypto : Type 0 where
  pub sha_256 : Binary → Binary
  -- `Prng::new(seed, entropy).rand_bytes()`
  pub rand_bytes : Binary → Binary → Binary
  pub base64_encode : Binary → String
  -- `str::as_bytes`
  pub as_bytes : String → Binary
  pub ct_eq : Binary → Binary → Bool
  pub ct_eq_iff : (a b : Binary) → (ct_eq a b ≡ true) ↔ (a ≡ b)

-- `u64::to_be_bytes`, the lowest byte last: `n` bytes of `v` in front of `rest`.
unfoldable pub to_be_bytes : ℕ → ℕ → Binary → Binary
to_be_bytes zero v rest = rest
to_be_bytes (suc n) v rest = to_be_bytes n (v / 256) (v % 256 ∷ rest)

abbrev pub viewing_key_prefix : String
viewing_key_prefix = "api_key_"

abbrev pub ViewingKey : Type 0
ViewingKey = String

module _ (c : Crypto) where
  unfoldable pub create_hashed_password : String → Binary
  create_hashed_password s = c.sha_256 (c.as_bytes s)

  unfoldable pub to_hashed : ViewingKey → Binary
  unfolding create_hashed_password
  to_hashed key = create_hashed_password key

  unfoldable pub check_viewing_key : ViewingKey → Binary → Bool
  unfolding create_hashed_password
  check_viewing_key key hashed_pw = c.ct_eq (create_hashed_password key) hashed_pw

  -- `ViewingKey::new`
  unfoldable pub new_viewing_key : Env → Binary → Binary → ViewingKey
  unfolding to_be_bytes
  new_viewing_key env seed entropy =
      let rng_entropy =
        to_be_bytes 8 env.height []
        ++ (to_be_bytes 8 env.time [] ++ (c.as_bytes env.sender ++ entropy)) in
      viewing_key_prefix ++ₛ c.base64_encode (c.sha_256 (c.rand_bytes seed rng_entropy))
