-- ===== src/LpStaking/Inputs.antt =====
-- Concrete inputs for contracts/lp-staking: a pool, its environment and calls of it.
use secret_finance_rewards.Common.{
  ℕ, refl, true, false, none, some, List, [], ◌∷◌, ◌++◌, String, ok, err, parse_err, arith,
}
use secret_finance_rewards.Scrt.Types.{SecretContract}
use secret_finance_rewards.Scrt.Chain.{Env, CosmosMsg}
use secret_finance_rewards.Scrt.Bytes.{same_bytes, same_bytes_iff}
use secret_finance_rewards.Scrt.ViewingKey.{Crypto}
use secret_finance_rewards.Scrt.MasterMsg.{MasterQueryAnswer}
use secret_finance_rewards.Scrt.LpStakingMsg.{
  LpStakingInitMsg, LpStakingHandleMsg, LpStakingHookMsg, LpStakingHandleAnswer,
  LpStakingResponseStatus,
}
use secret_finance_rewards.LpStaking.State.{Deps, Outcome}
use secret_finance_rewards.LpStaking.Handle.{Externals, init}
use secret_finance_rewards.LpStaking.Query.{Querier}
use secret_finance_rewards.LpStaking.Accounting.{IsSound}

abbrev pub crypto : Crypto
crypto = record {
  sha_256 = λ b. b;
  rand_bytes = λ seed entropy. seed ++ entropy;
  base64_encode = λ b. "key";
  as_bytes = λ s. [];
  ct_eq = same_bytes;
  ct_eq_iff = same_bytes_iff;
}

abbrev pub externals : Externals
externals = record { crypto = crypto; from_binary = λ b. err parse_err; pad_response = λ n r. r }

abbrev pub contract_at : String → SecretContract
contract_at a = record { address = a; contract_hash = "hash" }

abbrev pub env_of : String → Env
env_of sender = record {
  sender = sender;
  height = 7;
  time = 70;
  contract_address = "pool";
  contract_code_hash = "code";
}

abbrev pub init_msg : LpStakingInitMsg
init_msg = record {
  reward_token = contract_at "reward_t";
  inc_token = contract_at "inc_t";
  reward_sources = contract_at "master" ∷ [];
  viewing_key = "123";
  token_info = record { name = ""; symbol = "" };
  prng_seed = [];
  subscribers = some (contract_at "sub_a" ∷ contract_at "sub_b" ∷ []);
}

abbrev pub deposit_of : String → ℕ → Env × LpStakingHandleMsg
deposit_of user amount =
    (env_of "pool", LpStakingHandleMsg.self_callback (LpStakingHookMsg.deposit user amount))

abbrev pub redeem_of : String → Env × LpStakingHandleMsg
redeem_of user =
    (env_of "pool", LpStakingHandleMsg.self_callback (LpStakingHookMsg.redeem user none))

abbrev pub notify_of : ℕ → Env × LpStakingHandleMsg
notify_of n = (env_of "master", LpStakingHandleMsg.notify_allocation n)

-- Three stakers of 3 tokens each; the second and the third come in when a share has earned just
-- under a third of a unit.
abbrev pub rounding_calls : List (Env × LpStakingHandleMsg)
rounding_calls =
    deposit_of "a" 3
    ∷ notify_of 1
    ∷ deposit_of "b" 3
    ∷ deposit_of "c" 3
    ∷ notify_of 1
    ∷ redeem_of "a"
    ∷ redeem_of "b"
    ∷ redeem_of "c"
    ∷ []

abbrev pub start : Deps
start = (init crypto (env_of "admin") init_msg).0

-- A pool with two stakers.
abbrev pub staked : Deps
staked = record {
  config = record {
    admin = "admin";
    reward_token = contract_at "reward_t";
    inc_token = contract_at "inc_t";
    reward_sources = contract_at "master" ∷ [];
    viewing_key = "123";
    prng_seed = [];
    is_stopped = false;
    own_addr = "pool";
  };
  reward_pool = record {
    residue = 4;
    inc_token_supply = 8;
    acc_reward_per_share = 1_500_000_000_000_000_000;
  };
  token_info = record { name = ""; symbol = "" };
  subscribers = contract_at "sub_a" ∷ contract_at "sub_b" ∷ [];
  users = ("a", record { locked = 5; debt = 2 }) ∷ ("b", record { locked = 3; debt = 4 }) ∷ [];
  viewing_keys = [];
}

pub staked-IsSound : IsSound staked
staked-IsSound = record { supply_is_sum = refl; debts_covered = omega arith }

-- The exit of a staker from a contract that is stopped.
abbrev pub stopped : Deps
stopped = record staked { config = record (staked.config) { is_stopped = true } }

abbrev pub exited : Outcome
exited = (
  record stopped {
    users = ("a", record { locked = 0; debt = 0 }) ∷ ("b", record { locked = 3; debt = 4 }) ∷ [];
    reward_pool = record (staked.reward_pool) { inc_token_supply = 3 };
  },
  record {
    messages = CosmosMsg.transfer "a" 5 256 (contract_at "inc_t") ∷ [];
    log = [];
    answer = some (LpStakingHandleAnswer.emergency_redeem LpStakingResponseStatus.success);
  },
)

-- A reward source that has 12 new rewards.
abbrev pub answering : Querier
answering rs msg = ok (MasterQueryAnswer.pending 12)

abbrev pub allotted : Deps
allotted = record staked {
  reward_pool = record {
    residue = 0;
    inc_token_supply = 8;
    acc_reward_per_share = 3_500_000_000_000_000_000;
  };
}
