-- ===== src/PollFactory/Challenge.antt =====
-- contracts/poll-factory/src/challenge.rs: the secret that a new poll registers with. The hash, the
-- generator, the encoding and the comparison come from other packages and are parameters.
use secret_finance_rewards.Common.{◌≡◌, ◌↔◌, refl, String, Bool, true, [], ◌++◌}
use secret_finance_rewards.Scrt.Types.{Binary}
use secret_finance_rewards.Scrt.Chain.{Env}
use secret_finance_rewards.Scrt.ViewingKey.{to_be_bytes}

pub record Crypto : Type 0 where
  -- `Sha256::digest`
  pub sha_256 : Binary → Binary
  -- The first 32 bytes of `ChaChaRng::from_seed`.
  pub chacha : Binary → Binary
  pub base64_encode : Binary → String
  -- `str::as_bytes`
  pub as_bytes : String → Binary
  pub ct_eq : Binary → Binary → Bool
  pub ct_eq_iff : (a b : Binary) → (ct_eq a b ≡ true) ↔ (a ≡ b)

abbrev pub Challenge : Type 0
Challenge = String

module _ (c : Crypto) where
  -- `Prng::new(seed, entropy).rand_bytes()`
  rand_bytes : Binary → Binary → Binary
  rand_bytes seed entropy = c.chacha (c.sha_256 (seed ++ entropy))

  create_hashed_password : String → Binary
  create_hashed_password s = c.sha_256 (c.as_bytes s)

  -- `Challenge::new`
  unfoldable pub new_challenge : Env → Binary → Challenge
  unfolding rand_bytes
  new_challenge env seed =
      let rng_entropy =
        to_be_bytes 8 env.height [] ++ (to_be_bytes 8 env.time [] ++ c.as_bytes env.sender) in
      c.base64_encode (c.sha_256 (rand_bytes seed rng_entropy))

  unfoldable pub to_hashed : Challenge → Binary
  unfolding create_hashed_password
  to_hashed challenge = create_hashed_password challenge

  unfoldable pub check_challenge : Challenge → Binary → Bool
  unfolding create_hashed_password
  check_challenge challenge hashed_pw = c.ct_eq (create_hashed_password challenge) hashed_pw

  pub check_challenge-to_hashed :
      (challenge : Challenge) → check_challenge challenge (to_hashed challenge) ≡ true
  unfolding to_hashed check_challenge
  check_challenge-to_hashed challenge =
      (c.ct_eq_iff (create_hashed_password challenge) (create_hashed_password challenge)).1 refl
