-- ===== src/GovToken/ViewingKey.antt =====
-- contracts/gov-token/src/viewing_key.rs, rand.rs and utils.rs: viewing keys. The hash, the
-- generator, the encoding and the comparison come from other packages and are parameters.
use Prim.Native.String.{◌++◌ as ◌++ₛ◌}
use secret_finance_rewards.Common.{◌≡◌, ◌↔◌, refl, String, Bool, true, [], ◌++◌}
use secret_finance_rewards.Scrt.Types.{Binary}
use secret_finance_rewards.Scrt.Chain.{Env}
use secret_finance_rewards.Scrt.ViewingKey.{to_be_bytes}

pub record Crypto : Type 0 where
  -- `Sha256::digest`
  pub sha_256 : Binary → Binary
  -- The first 32 bytes of `ChaChaRng::from_seed`.
  pub chacha : Binary → Binary
  pub base64_encode : Binary → String
  -- `str::as_bytes`
  pub as_bytes : String → Binary
  pub ct_eq : Binary → Binary → Bool
  pub ct_eq_iff : (a b : Binary) → (ct_eq a b ≡ true) ↔ (a ≡ b)

abbrev pub viewing_key_prefix : String
viewing_key_prefix = "api_key_"

abbrev pub ViewingKey : Type 0
ViewingKey = String

module _ (c : Crypto) where
  -- `Prng::new(seed, entropy).rand_bytes()`
  rand_bytes : Binary → Binary → Binary
  rand_bytes seed entropy = c.chacha (c.sha_256 (seed ++ entropy))

  create_hashed_password : String → Binary
  create_hashed_password s = c.sha_256 (c.as_bytes s)

  -- `ViewingKey::new`
  unfoldable pub new_viewing_key : Env → Binary → Binary → ViewingKey
  unfolding rand_bytes
  new_viewing_key env seed entropy =
      let rng_entropy =
        to_be_bytes 8 env.height []
        ++ (to_be_bytes 8 env.time [] ++ (c.as_bytes env.sender ++ entropy)) in
      viewing_key_prefix ++ₛ c.base64_encode (c.sha_256 (rand_bytes seed rng_entropy))

  unfoldable pub to_hashed : ViewingKey → Binary
  unfolding create_hashed_password
  to_hashed key = create_hashed_password key

  unfoldable pub check_viewing_key : ViewingKey → Binary → Bool
  unfolding create_hashed_password
  check_viewing_key key hashed_pw = c.ct_eq (create_hashed_password key) hashed_pw

  pub check_viewing_key-to_hashed :
      (key : ViewingKey) → check_viewing_key key (to_hashed key) ≡ true
  unfolding to_hashed check_viewing_key
  check_viewing_key-to_hashed key =
      (c.ct_eq_iff (create_hashed_password key) (create_hashed_password key)).1 refl
