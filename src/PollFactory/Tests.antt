-- ===== src/PollFactory/Tests.antt =====
-- Runs of contracts/poll-factory, alone and with a poll, at concrete inputs, and the theorems at
-- inputs that meet their hypotheses.
use mathlib.Core.List.{Memᴰ}
use Prim.Native.String.{len}
use secret_finance_rewards.Common.{
  ℕ, ◌+◌, ◌≤◌, ◌≡◌, refl, sym, String, false, List, [], ◌∷◌, ◌++◌, none, some, arith, ok, IsOk, All,
  any, filter, leb, length, run_calls, checked_add, checked_sub, lookup, insert, words, number,
}
use secret_finance_rewards.Scrt.Bytes.{same_bytes, same_bytes_iff}
use secret_finance_rewards.Scrt.Chain.{Env, CosmosMsg, Payload}
use secret_finance_rewards.Scrt.ViewingKey.{to_be_bytes}
use secret_finance_rewards.Scrt.VoteTypes.{
  PollMetadata, PollInitMsg, PollHandleMsg, PollFactoryHandleMsg,
}
use secret_finance_rewards.Scrt.LpStakingMsg.{LpStakingQueryAnswer}
use secret_finance_rewards.SecretPoll.State.{Deps as PollDeps, store_vote, read_vote}
use secret_finance_rewards.SecretPoll.Tally.{modify_at, discard_vote, update_vote}
use secret_finance_rewards.SecretPoll.Handle.{
  Externals as PollExternals, repeat_zero, to_le_bytes, require_vote_ongoing, init as poll_init,
  roll_hash, vote, reweigh, update_voting_power as poll_update, handle as poll_handle,
}
use secret_finance_rewards.SecretPoll.Election.{run}
use secret_finance_rewards.SecretPoll.Stakes.{cast}
use secret_finance_rewards.PollFactory.Challenge.{Crypto, new_challenge, to_hashed, check_challenge}
use secret_finance_rewards.PollFactory.Msg.{InitMsg, QueryMsg, QueryAnswer}
use secret_finance_rewards.PollFactory.State.{ActivePoll, Deps}
use secret_finance_rewards.PollFactory.Handle.{
  Externals, Outcome, success, init, enforce_admin, prefix_of, get_active_polls,
  remove_inactive_polls, notify_poll, update_voting_power, update_default_poll_config, change_admin,
  update_config, poll_init_msg, new_poll, register_for_updates, handle,
}
use secret_finance_rewards.PollFactory.Query.{query}
use secret_finance_rewards.PollFactory.Registered.{awaiting, handle_call, registrations_bounded}
use secret_finance_rewards.PollFactory.Remembered.{handle_logged, polls_remembered}
use secret_finance_rewards.PollFactory.Births.{new_poll_registers}
use secret_finance_rewards.PollFactory.Fanout.{stake_change_arrives}

program : Unit {0}
unfolding checked_add checked_sub lookup insert store_vote read_vote modify_at discard_vote
    update_vote to_le_bytes require_vote_ongoing poll_init roll_hash vote reweigh poll_update
    poll_handle run run_calls filter any same_bytes to_be_bytes new_challenge to_hashed
    check_challenge init enforce_admin prefix_of get_active_polls remove_inactive_polls
    update_voting_power update_default_poll_config change_admin update_config poll_init_msg new_poll
    register_for_updates handle query
program = tt

abbrev crypto : Crypto
crypto = record {
  sha_256 = λ bytes. bytes;
  chacha = λ bytes. bytes;
  base64_encode = λ bytes. "challenge";
  as_bytes = λ text. len text ∷ [];
  ct_eq = same_bytes;
  ct_eq_iff = same_bytes_iff;
}

-- Everyone has staked 30 tokens.
abbrev externals : Externals
externals = record {
  crypto = crypto;
  balance_query = λ holder key token. ok 30;
  to_binary = λ msg. 1 ∷ [];
}

abbrev poll_externals : PollExternals
poll_externals = record {
  sha_256 = λ bytes. bytes;
  hex_encode = λ bytes. "hash";
  as_bytes = λ text. repeat_zero 10;
  balance_query = λ holder key token. ok 30;
  staking_query = λ pool msg. ok (LpStakingQueryAnswer.total_locked 100);
}

abbrev env_of : String → ℕ → String → Env
env_of sender time contract = record {
  sender = sender;
  height = 7;
  time = time;
  contract_address = contract;
  contract_code_hash = "code";
}

abbrev init_msg : InitMsg
init_msg = record {
  prng_seed = 1 ∷ 2 ∷ [];
  poll_contract = record { code_id = 3; code_hash = "poll code" };
  staking_pool = record { address = "pool"; contract_hash = "pool code" };
  default_poll_config = record { duration = 50; quorum = 33; min_threshold = 20 };
  min_staked = 20;
  reveal_com = record { n = 1; revealers = "r" ∷ [] };
}

abbrev metadata : PollMetadata
metadata = record {
  title = "title";
  description = "description";
  vote_type = "type";
  author_addr = none;
  author_alias = "author";
}

abbrev choices : List String
choices = "yes" ∷ "no" ∷ []

abbrev start : Deps
start = init crypto (env_of "admin" 90 "factory") init_msg

abbrev making : Env × PollFactoryHandleMsg
making = (env_of "alice" 100 "factory", PollFactoryHandleMsg.new_poll metadata none choices "key")

abbrev registering_of : String → String → ℕ → Env × PollFactoryHandleMsg
registering_of who challenge end_time =
    (env_of who 100 "factory", PollFactoryHandleMsg.register_for_updates challenge end_time)

abbrev staking_of : String → ℕ → Env × PollFactoryHandleMsg
staking_of who time =
    (env_of who time "factory", PollFactoryHandleMsg.update_voting_power "alice" 12)

-- A poll, a registration with a guess, one with the challenge, the same again, and updates by a
-- stranger and by the staking pool.
abbrev calls : List (Env × PollFactoryHandleMsg)
calls =
    making
    ∷ registering_of "eve" "guess" 999
    ∷ registering_of "poll" "challenge" 150
    ∷ registering_of "eve" "challenge" 999
    ∷ staking_of "eve" 120
    ∷ staking_of "pool" 140
    ∷ []

abbrev poll : ActivePoll
poll = record { address = "poll"; hash = "poll code"; end_time = 150 }

abbrev registered : Deps
registered = record start {
  config = record (start.config) { id_counter = 1 };
  active_polls = poll ∷ [];
}

calls_register : run_calls (handle_call externals) calls start ≡ registered
unfolding program
calls_register = refl

-- After the end of the poll an update drops it.
late_update_drops :
    run_calls (handle_call externals) (staking_of "pool" 151 ∷ []) registered
    ≡ record registered { active_polls = [] }
unfolding program
late_update_drops = refl

query_active_polls_ended :
    query registered (QueryMsg.active_polls 151) ≡ ok (QueryAnswer.active_polls [])
unfolding program
query_active_polls_ended = refl

registrations_bounded_example :
    let d = run_calls (handle_call externals) calls start in
    length d.active_polls + awaiting d.current_challenge ≤ d.config.id_counter
registrations_bounded_example =
    registrations_bounded externals (env_of "admin" 90 "factory") init_msg calls

calls_early : All (λ call. call.0.time ≤ 150) calls
calls_early =
    (omega arith, (omega arith, (omega arith, (omega arith, (omega arith, (omega arith, tt))))))

polls_remembered_example :
    let (d, all_polls) = run_calls (handle_logged externals) calls (start, []) in
    get_active_polls d 150 ≡ filter (λ p. leb 150 p.end_time) all_polls
polls_remembered_example =
    polls_remembered externals (env_of "admin" 90 "factory") init_msg calls 150 calls_early

-- The poll that the call makes.
abbrev poll_msg : PollInitMsg
poll_msg =
    poll_init_msg externals start.config making.0 metadata start.default_poll_config choices
      "challenge" 150

abbrev made : Outcome
made = (
  record start {
    current_challenge = some "challenge";
    config = record (start.config) { id_counter = 1 };
  },
  record {
    messages =
        CosmosMsg.instantiate 3 "poll code" (Payload.poll_init poll_msg)
          (words "secret-poll" ∷ number 0 ∷ words "challeng" ∷ [])
        ∷ [];
    log = [];
    answer = none;
  },
)

made_by_call :
    new_poll externals start making.0 metadata start.default_poll_config choices "key" ≡ ok made
unfolding program
made_by_call = refl

abbrev poll_start : Env
poll_start = env_of "factory" 100 "poll"

abbrev born : PollDeps × List CosmosMsg
born = (
  record {
    owner = "factory";
    tally = 0 ∷ 0 ∷ [];
    metadata = record metadata { author_addr = some "alice" };
    config = record {
      end_timestamp = 150;
      quorum = 33;
      min_threshold = 20;
      choices = choices;
      finalized = false;
      valid = false;
      rolling_hash = repeat_zero 32;
    };
    staking_pool = init_msg.staking_pool;
    num_of_voters = 0;
    reveal_config = record { committee = init_msg.reveal_com; num_revealed = 0; revealed = [] };
    votes = [];
  },
  CosmosMsg.execute "factory" "code" (Payload.binary (1 ∷ [])) ∷ [],
)

born_of_message : poll_init poll_externals poll_start poll_msg ≡ ok born
unfolding program
born_of_message = refl

new_poll_registers_example :
    (born.0.owner ≡ "factory")
    × ((hook : PollFactoryHandleMsg) × (born.1
          ≡ CosmosMsg.execute "factory" "code" (Payload.binary (externals.to_binary hook)) ∷ [])
        × (handle externals made.0 (env_of "poll" 100 "factory") hook
            ≡ ok (
              record (made.0) { current_challenge = none; active_polls = [] ++ (poll ∷ []) },
              success (("new_poll", "poll") ∷ []),
            )))
unfolding program
new_poll_registers_example =
    new_poll_registers externals poll_externals start making.0 metadata start.default_poll_config
      choices "key" {o = made} made_by_call 3 "poll code" poll_msg
      (words "secret-poll" ∷ number 0 ∷ words "challeng" ∷ []) refl poll_start {p = born}
      born_of_message refl refl (env_of "poll" 100 "factory")

abbrev votes : List (Env × PollHandleMsg)
votes = (env_of "alice" 110 "poll", PollHandleMsg.vote 1 "key" "salt") ∷ []

votes_cast : cast (run poll_externals poll_msg.staking_pool votes (born.0, λ _. none)).0.votes ≡ 30
unfolding program
votes_cast = refl

abbrev later : List (Env × PollFactoryHandleMsg)
later = staking_of "pool" 149 ∷ []

later_pool :
    (run_calls (handle_call externals) later registered).config.staking_pool.address ≡ "pool"
unfolding program
later_pool = refl

stake_change_arrives_example :
    ((r : Outcome) × (handle externals
          (run_calls (handle_call externals) later registered)
          (env_of "pool" 150 "factory")
          (PollFactoryHandleMsg.update_voting_power "alice" 77)
        ≡ ok r)
      × Memᴰ (notify_poll "alice" 77 poll) r.1.messages)
    × IsOk (
        poll_handle poll_externals
          (run poll_externals poll_msg.staking_pool votes (born.0, λ _. none)).0
          (env_of "factory" 150 "factory")
          (PollHandleMsg.update_voting_power "alice" 77))
stake_change_arrives_example =
    stake_change_arrives externals poll_externals registered poll (Memᴰ.head refl) poll_start
      poll_msg {o = born} born_of_message refl later (omega arith, tt) votes
      (env_of "pool" 150 "factory") "alice" 77 (omega arith) (sym later_pool)
      (omega (arith, votes_cast))
