-- ===== src/PollFactory/Handle.antt =====
-- contracts/poll-factory/src/contract.rs: `init`, and `handle` with the handlers that it calls.
use text.Mathlib.Text.{get?}
use secret_finance_rewards.Common.{
  ℕ, ◌/◌, String, not, List, [], ◌∷◌, ◌++◌, Option, none, some, Result, ok, err, ◌>>=◌, ◌>>◌,
  err_if, generic_err, unauthorized, not_found, panicked, words, number, str_eq, ltb, leb, filter,
  map, unwrap_or, u64, u128, checked_add,
}
use secret_finance_rewards.Scrt.Types.{HumanAddr, Binary, SecretContract}
use secret_finance_rewards.Scrt.Chain.{Env, CosmosMsg, Payload, HandleResponse}
use secret_finance_rewards.Scrt.VoteTypes.{
  PollContract, PollConfig, PollMetadata, RevealCommittee, PollInitMsg, PollHandleMsg,
  PollFactoryHandleMsg,
}
use secret_finance_rewards.PollFactory.Challenge.{
  Crypto, Challenge, new_challenge, to_hashed, check_challenge,
}
use secret_finance_rewards.PollFactory.Msg.{InitMsg, ResponseStatus}
use secret_finance_rewards.PollFactory.State.{Config, ActivePoll, Deps}

abbrev pub Response : Type 0
Response = HandleResponse ResponseStatus

abbrev pub Outcome : Type 0
Outcome = Deps × Response

-- What the contract calls of other packages and contracts.
pub record Externals : Type 0 where
  pub crypto : Crypto
  -- `snip20::balance_query`: the holder, its viewing key, and the token.
  pub balance_query : HumanAddr → String → SecretContract → Result ℕ
  -- `to_binary` of the message in an `InitHook`.
  pub to_binary : PollFactoryHandleMsg → Binary

abbrev pub success : List (String × String) → Response
success log = record { messages = []; log = log; answer = some ResponseStatus.success }

unfoldable pub init : Crypto → Env → InitMsg → Deps
init c env msg = record {
  admin = env.sender;
  default_poll_config = msg.default_poll_config;
  config = record {
    poll_contract = msg.poll_contract;
    staking_pool = msg.staking_pool;
    id_counter = 0;
    prng_seed = c.sha_256 msg.prng_seed;
    min_staked = msg.min_staked;
    reveal_com = msg.reveal_com;
  };
  current_challenge = none;
  active_polls = [];
}

unfoldable pub enforce_admin : Deps → Env → Result (Unit {0})
enforce_admin d env = err_if (not (str_eq d.admin env.sender)) unauthorized

-- `&key.to_string()[0..8]`
unfoldable pub prefix_of : Challenge → Result String
prefix_of key = elim (get? key 0 8) [ none ↦ err panicked | some front ↦ ok front ]

-- A value that is loaded and may be missing.
abbrev pub load_challenge : Option Challenge → Result Challenge
load_challenge none = err not_found
load_challenge (some challenge) = ok challenge

unfoldable pub get_active_polls : Deps → ℕ → List ActivePoll
get_active_polls d current_time = filter (λ p. leb current_time p.end_time) d.active_polls

unfoldable pub remove_inactive_polls : Deps → Env → Deps
remove_inactive_polls d env = record d { active_polls = get_active_polls d env.time }

abbrev pub notify_poll : HumanAddr → ℕ → ActivePoll → CosmosMsg
notify_poll voter new_power p =
    CosmosMsg.execute p.address p.hash
      (Payload.poll (PollHandleMsg.update_voting_power voter new_power))

unfoldable pub update_voting_power : Deps → Env → HumanAddr → ℕ → Result Outcome
unfolding remove_inactive_polls
update_voting_power d env voter new_power = do
  err_if (not (str_eq env.sender d.config.staking_pool.address)) unauthorized
  let d' = remove_inactive_polls d env
  ok (
    d',
    record {
      messages = map (notify_poll voter new_power) d'.active_polls;
      log = ("voting power update", voter) ∷ [];
      answer = none;
    },
  )

unfoldable pub update_default_poll_config :
    Deps → Env → Option ℕ → Option ℕ → Option ℕ → Result Outcome
update_default_poll_config d env duration quorum min_threshold = do
  enforce_admin d env
  let default : PollConfig = record {
    duration = unwrap_or duration d.default_poll_config.duration;
    quorum = unwrap_or quorum d.default_poll_config.quorum;
    min_threshold = unwrap_or min_threshold d.default_poll_config.min_threshold;
  }
  ok (record d { default_poll_config = default }, success [])

unfoldable pub change_admin : Deps → Env → HumanAddr → Result Outcome
change_admin d env address = do enforce_admin d env; ok (record d { admin = address }, success [])

unfoldable pub update_config :
    Deps
    → Env
    → Option PollContract
    → Option SecretContract
    → Option ℕ
    → Option RevealCommittee
    → Result Outcome
update_config d env new_poll_code new_staking_pool new_min_stake_amount new_reveal_com = do
  enforce_admin d env
  let config : Config = record (d.config) {
    poll_contract = unwrap_or new_poll_code d.config.poll_contract;
    staking_pool = unwrap_or new_staking_pool d.config.staking_pool;
    min_staked = unwrap_or new_min_stake_amount d.config.min_staked;
    reveal_com = unwrap_or new_reveal_com d.config.reveal_com;
  }
  ok (record d { config = config }, success [])

module _ (x : Externals) where
  -- What a new poll is made with.
  unfoldable pub poll_init_msg :
      Config → Env → PollMetadata → PollConfig → List String → Challenge → ℕ → PollInitMsg
  poll_init_msg config env poll_metadata poll_config poll_choices key end_time = record {
    metadata = record poll_metadata { author_addr = some env.sender };
    config = poll_config;
    reveal_com = config.reveal_com;
    choices = poll_choices;
    staking_pool = config.staking_pool;
    init_hook = some (record {
      contract_addr = env.contract_address;
      code_hash = env.contract_code_hash;
      msg = x.to_binary (PollFactoryHandleMsg.register_for_updates key end_time);
    });
  }

  unfoldable pub new_poll :
      Deps → Env → PollMetadata → PollConfig → List String → String → Result Outcome
  new_poll d env poll_metadata poll_config poll_choices pool_vk = do
    voting_power ← x.balance_query env.sender pool_vk d.config.staking_pool
    err_if (ltb voting_power d.config.min_staked) (
        generic_err "insufficient staked amount. Minimum staked SEFI to create a poll is {}"
          (number (d.config.min_staked / 1000000) ∷ []))
    let key = new_challenge x.crypto env d.config.prng_seed
    end_time ← checked_add u64 env.time poll_config.duration
    let msg = poll_init_msg d.config env poll_metadata poll_config poll_choices key end_time
    front ← prefix_of key
    id_counter ← checked_add u128 d.config.id_counter 1
    ok (
      record d {
        current_challenge = some key;
        config = record (d.config) { id_counter = id_counter };
      },
      record {
        messages =
            CosmosMsg.instantiate d.config.poll_contract.code_id d.config.poll_contract.code_hash
              (Payload.poll_init msg)
              (words "secret-poll" ∷ number d.config.id_counter ∷ words front ∷ [])
            ∷ [];
        log = [];
        answer = none;
      },
    )

  unfoldable pub register_for_updates : Deps → Env → Challenge → ℕ → Result Outcome
  register_for_updates d env response end_time = do
    challenge ← load_challenge d.current_challenge
    err_if (not (check_challenge x.crypto response (to_hashed x.crypto challenge))) (
        generic_err
          "challenge did not match. This function can be called only as a callback from a new poll contract"
          [])
    let poll : ActivePoll = record {
      address = env.sender;
      hash = d.config.poll_contract.code_hash;
      end_time = end_time;
    }
    ok (
      record d { current_challenge = none; active_polls = d.active_polls ++ (poll ∷ []) },
      success (("new_poll", env.sender) ∷ []),
    )

  unfoldable pub handle : Deps → Env → PollFactoryHandleMsg → Result Outcome
  handle d env (PollFactoryHandleMsg.new_poll metadata config choices key) =
      new_poll d env metadata (unwrap_or config d.default_poll_config) choices key
  handle d env (PollFactoryHandleMsg.update_voting_power voter new_power) =
      update_voting_power d env voter new_power
  handle d env (PollFactoryHandleMsg.register_for_updates challenge end_time) =
      register_for_updates d env challenge end_time
  handle d env (PollFactoryHandleMsg.update_default_poll_config duration quorum min_threshold) =
      update_default_poll_config d env duration quorum min_threshold
  handle d env (PollFactoryHandleMsg.update_config poll_code pool min_stake reveal_com) =
      update_config d env poll_code pool min_stake reveal_com
  handle d env (PollFactoryHandleMsg.change_admin new_admin) = change_admin d env new_admin
