-- ===== src/LpStaking/Admin.antt =====
-- contracts/lp-staking/src/contract.rs: the handlers of the admin, of the reward sources and of
-- viewing keys.
use secret_finance_rewards.Common.{
  Bool, ℕ, true, false, not, ◌&&◌, String, List, [], ◌∷◌, ◌++◌, none, some, Result, ok, ◌>>=◌, ◌>>◌,
  err_if, generic_err, words, str_eq, all, any, filter, insert,
}
use secret_finance_rewards.Scrt.Types.{HumanAddr, SecretContract}
use secret_finance_rewards.Scrt.Chain.{Env}
use secret_finance_rewards.Scrt.ViewingKey.{Crypto, to_hashed, new_viewing_key}
use secret_finance_rewards.Scrt.LpStakingMsg.{LpStakingHandleAnswer, LpStakingResponseStatus}
use secret_finance_rewards.LpStaking.State.{Config, Deps, Response, Outcome}
use secret_finance_rewards.LpStaking.Rewards.{update_rewards}

unfoldable pub enforce_admin : Config → Env → Result (Unit {0})
enforce_admin config env =
    err_if (not (str_eq config.admin env.sender))
      (generic_err "not an admin: {}" (words env.sender ∷ []))

-- A response with no message and no log.
abbrev pub respond : LpStakingHandleAnswer → Response
respond a = record { messages = []; log = []; answer = some a }

abbrev success : LpStakingResponseStatus
success = LpStakingResponseStatus.success

-- The sender is no reward source, and not the admin.
unfoldable pub is_stranger : Config → Env → Bool
is_stranger config env =
    all (λ s. not (str_eq s.address env.sender)) config.reward_sources
    && not (str_eq env.sender config.admin)

unfoldable pub notify_allocation : Deps → Env → ℕ → Result Outcome
notify_allocation d env amount = do
  err_if (is_stranger d.config env) (generic_err "you are not allowed to call this function" [])
  (d', pool) ← update_rewards d amount
  ok (d', record { messages = []; log = ("notify_allocation", env.sender) ∷ []; answer = none })

unfoldable pub create_viewing_key : Crypto → Deps → Env → String → Result Outcome
create_viewing_key c d env entropy =
    let key = new_viewing_key c env d.config.prng_seed (c.as_bytes entropy) in
    ok (
      record d { viewing_keys = insert env.sender (to_hashed c key) d.viewing_keys },
      respond (LpStakingHandleAnswer.create_viewing_key key),
    )

unfoldable pub set_viewing_key : Crypto → Deps → Env → String → Result Outcome
set_viewing_key c d env key = ok (
  record d { viewing_keys = insert env.sender (to_hashed c key) d.viewing_keys },
  respond (LpStakingHandleAnswer.set_viewing_key success),
)

unfoldable pub stop_contract : Deps → Env → Result Outcome
stop_contract d env = do
  enforce_admin d.config env
  ok (
    record d { config = record (d.config) { is_stopped = true } },
    respond (LpStakingHandleAnswer.stop_contract success),
  )

unfoldable pub resume_contract : Deps → Env → Result Outcome
resume_contract d env = do
  enforce_admin d.config env
  ok (
    record d { config = record (d.config) { is_stopped = false } },
    respond (LpStakingHandleAnswer.resume_contract success),
  )

unfoldable pub change_admin : Deps → Env → HumanAddr → Result Outcome
change_admin d env address = do
  enforce_admin d.config env
  ok (
    record d { config = record (d.config) { admin = address } },
    respond (LpStakingHandleAnswer.change_admin success),
  )

unfoldable pub add_subscribers : Deps → Env → List SecretContract → Result Outcome
add_subscribers d env new_subs = do
  enforce_admin d.config env
  ok (
    record d { subscribers = d.subscribers ++ new_subs },
    respond (LpStakingHandleAnswer.add_subs success),
  )

-- `into_iter().filter(|s| !removed.contains(&s.address)).collect()`
unfoldable pub without : List HumanAddr → List SecretContract → List SecretContract
without removed = filter (λ s. not (any (λ a. str_eq a s.address) removed))

unfoldable pub remove_subscribers : Deps → Env → List HumanAddr → Result Outcome
remove_subscribers d env subs_to_remove = do
  enforce_admin d.config env
  ok (
    record d { subscribers = without subs_to_remove d.subscribers },
    respond (LpStakingHandleAnswer.remove_subs success),
  )

unfoldable pub add_reward_sources : Deps → Env → List SecretContract → Result Outcome
add_reward_sources d env new_sources = do
  enforce_admin d.config env
  ok (
    record d {
      config = record (d.config) { reward_sources = d.config.reward_sources ++ new_sources };
    },
    respond (LpStakingHandleAnswer.add_reward_sources success),
  )

unfoldable pub remove_reward_sources : Deps → Env → List HumanAddr → Result Outcome
remove_reward_sources d env sources_to_remove = do
  enforce_admin d.config env
  ok (
    record d {
      config = record (d.config) {
        reward_sources = without sources_to_remove d.config.reward_sources;
      };
    },
    respond (LpStakingHandleAnswer.remove_reward_sources success),
  )
