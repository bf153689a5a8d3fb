-- ===== src/SecretPoll/Tests.antt =====
-- Runs of contracts/secret-poll at concrete inputs, and the theorems at inputs that meet their
-- hypotheses.
use secret_finance_rewards.Common.{
  ℕ, ◌+◌, ◌≤◌, ◌<◌, ◌≡◌, refl, String, true, false, List, [], ◌∷◌, none, arith, ok, err,
  generic_err, IsOk, All, AllValues, any, length, contains, Distinct, run_calls, u128, checked_add,
  checked_sub, checked_mul, checked_div, lookup, insert,
}
use secret_finance_rewards.Scrt.Types.{SecretContract}
use secret_finance_rewards.Scrt.Chain.{Env}
use secret_finance_rewards.Scrt.VoteTypes.{PollInitMsg, PollHandleMsg}
use secret_finance_rewards.Scrt.LpStakingMsg.{LpStakingQueryAnswer}
use secret_finance_rewards.SecretPoll.Msg.{QueryMsg, QueryAnswer}
use secret_finance_rewards.SecretPoll.State.{Vote, Deps, store_vote, read_vote}
use secret_finance_rewards.SecretPoll.Tally.{modify_at, discard_vote, update_vote}
use secret_finance_rewards.SecretPoll.Handle.{
  Externals, repeat_zero, to_le_bytes, require_vote_ongoing, max_of, sum_of, total_locked_of, init,
  roll_hash, vote, query_staking_balance, validate, reveal, conclude, finalize, reweigh,
  update_voting_power, handle,
}
use secret_finance_rewards.SecretPoll.Query.{query}
use secret_finance_rewards.SecretPoll.Counts.{tally_at, votes_for, IsChoiceOf}
use secret_finance_rewards.SecretPoll.Election.{run, poll_refines, tally_counts}
use secret_finance_rewards.SecretPoll.Reveal.{handle_call}
use secret_finance_rewards.SecretPoll.Decided.{committee_decides, result_stands}
use secret_finance_rewards.SecretPoll.Stakes.{cast, update_voting_power_goes_through}

program : Unit {0}
unfolding checked_add checked_sub checked_mul checked_div lookup insert store_vote read_vote
    modify_at discard_vote update_vote to_le_bytes require_vote_ongoing max_of sum_of
    total_locked_of init roll_hash vote query_staking_balance validate reveal conclude finalize
    reweigh update_voting_power handle run run_calls query any
program = tt

-- A staking pool with 100 tokens, of which every voter has 30.
abbrev externals : Externals
externals = record {
  sha_256 = λ bytes. bytes;
  hex_encode = λ bytes. "hash";
  as_bytes = λ text. repeat_zero 10;
  balance_query = λ holder key token. ok 30;
  staking_query = λ pool msg. ok (LpStakingQueryAnswer.total_locked 100);
}

abbrev pool : SecretContract
pool = record { address = "pool"; contract_hash = "pool code" }

abbrev init_msg : PollInitMsg
init_msg = record {
  metadata = record {
    title = "title";
    description = "description";
    vote_type = "type";
    author_addr = none;
    author_alias = "author";
  };
  config = record { duration = 50; quorum = 33; min_threshold = 20 };
  reveal_com = record { n = 2; revealers = "r" ∷ "s" ∷ "t" ∷ [] };
  choices = "yes" ∷ "no" ∷ [];
  staking_pool = pool;
  init_hook = none;
}

abbrev env_of : String → ℕ → Env
env_of sender time = record {
  sender = sender;
  height = 7;
  time = time;
  contract_address = "poll";
  contract_code_hash = "code";
}

abbrev vote_of : String → ℕ → ℕ → Env × PollHandleMsg
vote_of sender time choice = (env_of sender time, PollHandleMsg.vote choice "key" "salt")

abbrev reveal_of : String → ℕ → Env × PollHandleMsg
reveal_of sender time = (env_of sender time, PollHandleMsg.finalize "hash")

start : PollInitMsg → Deps
unfolding program
start msg = elim (init externals (env_of "factory" 100) msg) [
  | ok o ↦ o.0
  | err e ↦ record {
    owner = "";
    tally = [];
    metadata = msg.metadata;
    config = record {
      end_timestamp = 0;
      quorum = 0;
      min_threshold = 0;
      choices = [];
      finalized = false;
      valid = false;
      rolling_hash = [];
    };
    staking_pool = pool;
    num_of_voters = 0;
    reveal_config = record { committee = msg.reveal_com; num_revealed = 0; revealed = [] };
    votes = [];
  }
]

started : init externals (env_of "factory" 100) init_msg ≡ ok (start init_msg, [])
unfolding program start
started = refl

-- Two voters, of whom one changes the choice, a choice that does not exist, a change of stake, and
-- one that a stranger makes up.
abbrev ballots : List (Env × PollHandleMsg)
ballots =
    vote_of "alice" 110 0
    ∷ vote_of "bob" 120 1
    ∷ vote_of "alice" 121 1
    ∷ vote_of "eve" 122 5
    ∷ (env_of "factory" 130, PollHandleMsg.update_voting_power "bob" 12)
    ∷ (env_of "eve" 131, PollHandleMsg.update_voting_power "alice" 90)
    ∷ []

-- A reveal before the end, one by a stranger, one twice, and two that decide.
abbrev reveals : List (Env × PollHandleMsg)
reveals =
    reveal_of "r" 149
    ∷ reveal_of "eve" 151
    ∷ reveal_of "r" 152
    ∷ reveal_of "r" 153
    ∷ reveal_of "s" 154
    ∷ []

abbrev voted : Deps
voted = run_calls (handle_call externals) ballots (start init_msg)

abbrev decided : Deps
decided = run_calls (handle_call externals) reveals voted

ballots_counted : (voted.tally ≡ 0 ∷ 42 ∷ []) × (voted.num_of_voters ≡ 2)
unfolding program start
ballots_counted = (refl, refl)

reveals_decide :
    (decided.config.finalized ≡ true)
    × (decided.config.valid ≡ true)
    × (decided.reveal_config.revealed ≡ "r" ∷ "s" ∷ [])
unfolding program start
reveals_decide = (refl, refl, refl)

query_tally_decided :
    query externals decided QueryMsg.tally
    ≡ ok (QueryAnswer.tally ("yes" ∷ "no" ∷ []) (0 ∷ 42 ∷ []))
unfolding program start
query_tally_decided = refl

query_tally_undecided :
    query externals voted QueryMsg.tally ≡ err (generic_err "vote hasn't been finalized yet" [])
unfolding program start
query_tally_undecided = refl

poll_refines_example :
    let (d, b) = run externals pool ballots (start init_msg, λ _. none) in
    read_vote d "alice" ≡ b "alice"
poll_refines_example =
    poll_refines externals (env_of "factory" 100) init_msg {o = (start init_msg, [])} started
      ballots "alice"

tally_counts_example :
    let d = (run externals pool ballots (start init_msg, λ _. none)).0 in
    ((i : ℕ) → tally_at d.tally i ≡ votes_for i d.votes)
    × AllValues (IsChoiceOf (length d.config.choices)) d.votes
    × (d.num_of_voters ≡ length d.votes)
tally_counts_example =
    tally_counts externals (env_of "factory" 100) init_msg {o = (start init_msg, [])} started
      ballots

abbrev all_calls : List (Env × PollHandleMsg)
all_calls = vote_of "alice" 110 0 ∷ reveals

abbrev at_end : Deps
at_end = run_calls (handle_call externals) all_calls (start init_msg)

at_end_decided : at_end.config.finalized ≡ true
unfolding program start
at_end_decided = refl

committee_decides_example :
    let revealed = at_end.reveal_config.revealed in
    (2 ≤ length revealed)
    × Distinct revealed
    × All (λ who. contains ("r" ∷ "s" ∷ "t" ∷ []) who ≡ true) revealed
committee_decides_example =
    committee_decides externals (env_of "factory" 100) init_msg {o = (start init_msg, [])} started
      all_calls at_end_decided

abbrev late_calls : List (Env × PollHandleMsg)
late_calls = vote_of "alice" 160 1 ∷ reveal_of "t" 161 ∷ []

late_calls_late : All (λ c. at_end.config.end_timestamp < c.0.time) late_calls
unfolding program start
late_calls_late = (omega arith, (omega arith, tt))

result_stands_example :
    let d = run_calls (handle_call externals) late_calls at_end in
    (d.config ≡ at_end.config) × (d.tally ≡ at_end.tally) × (d.votes ≡ at_end.votes)
result_stands_example =
    result_stands externals (env_of "factory" 100) init_msg {o = (start init_msg, [])} started
      all_calls at_end_decided late_calls late_calls_late

power_cast : cast (run externals pool ballots (start init_msg, λ _. none)).0.votes ≡ 42
unfolding program start
power_cast = refl

voted_cast : cast (run externals pool ballots (start init_msg, λ _. none)).0.votes + 77 < u128
voted_cast = omega (arith, power_cast)

update_voting_power_goes_through_example : IsOk (
    update_voting_power
      (run externals pool ballots (start init_msg, λ _. none)).0
      (env_of "factory" 150)
      "bob"
      77)
update_voting_power_goes_through_example =
    update_voting_power_goes_through externals (env_of "factory" 100) init_msg
      {o = (start init_msg, [])} started ballots (env_of "factory" 150) "bob" 77 refl (omega arith)
      voted_cast

-- The voters' calls, and the first member of the two that the committee asks for.
abbrev one_heard : List (Env × PollHandleMsg)
one_heard =
    vote_of "alice" 110 0
    ∷ vote_of "bob" 120 1
    ∷ (env_of "factory" 130, PollHandleMsg.update_voting_power "bob" 12)
    ∷ reveal_of "r" 152
    ∷ []

-- The hash does not depend on the hash before.
roll_hash_forgets :
    (old older : List ℕ) (v : Vote)
    → roll_hash externals old "alice" v "salt" ≡ roll_hash externals older "alice" v "salt"
unfolding program
roll_hash_forgets old older v = refl

-- A vote in the block whose time is the end of the poll changes the tally that was revealed in it.
abbrev boundary_calls : List (Env × PollHandleMsg)
boundary_calls =
    vote_of "alice" 110 0 ∷ reveal_of "r" 150 ∷ reveal_of "s" 150 ∷ vote_of "alice" 150 1 ∷ []

boundary_vote_changes_tally :
    let d = run_calls (handle_call externals) boundary_calls (start init_msg) in
    (at_end.tally ≡ 30 ∷ 0 ∷ []) × (d.config.finalized ≡ true) × (d.tally ≡ 0 ∷ 30 ∷ [])
unfolding program start
boundary_vote_changes_tally = (refl, refl, refl)

-- A committee of which no member has to reveal never decides.
abbrev no_quorum : PollInitMsg
no_quorum = record init_msg { reveal_com = record { n = 0; revealers = "r" ∷ [] } }

no_quorum_undecided :
    (run_calls (handle_call externals) reveals (start no_quorum)).config.finalized ≡ false
unfolding program start
no_quorum_undecided = refl
