-- ===== src/SecretPoll/Handle.antt =====
-- contracts/secret-poll/src/contract.rs and querier.rs: `init`, and `handle` with the handlers that
-- it calls.
use secret_finance_rewards.Common.{
  ℕ, zero, suc, ◌/◌, ◌%◌, String, Bool, true, false, not, ◌&&◌, List, [], ◌∷◌, ◌++◌, Option, none,
  some, Result, ok, err, ◌>>=◌, ◌>>◌, err_if, generic_err, unauthorized, str_eq, ltb, if◌then◌else◌,
  length, contains, u64, u128, checked_add, checked_mul, checked_div,
}
use secret_finance_rewards.Scrt.Types.{HumanAddr, Binary, SecretContract}
use secret_finance_rewards.Scrt.Chain.{Env, CosmosMsg, Payload, HandleResponse}
use secret_finance_rewards.Scrt.VoteTypes.{InitHook, PollInitMsg, PollHandleMsg}
use secret_finance_rewards.Scrt.LpStakingMsg.{LpStakingQueryMsg, LpStakingQueryAnswer}
use secret_finance_rewards.SecretPoll.Msg.{ResponseStatus, HandleAnswer}
use secret_finance_rewards.SecretPoll.State.{
  Vote, StoredPollConfig, StoredRevealConfig, Deps, read_vote,
}
use secret_finance_rewards.SecretPoll.Tally.{update_vote}

abbrev pub Response : Type 0
Response = HandleResponse HandleAnswer

abbrev pub Outcome : Type 0
Outcome = Deps × Response

-- What the contract calls of other packages and contracts.
pub record Externals : Type 0 where
  pub sha_256 : Binary → Binary
  -- `hex::encode`
  pub hex_encode : Binary → String
  -- `str::as_bytes`
  pub as_bytes : String → Binary
  -- `snip20::balance_query`: the holder, its viewing key, and the token.
  pub balance_query : HumanAddr → String → SecretContract → Result ℕ
  -- `deps.querier.query` at the staking contract.
  pub staking_query : SecretContract → LpStakingQueryMsg → Result LpStakingQueryAnswer

abbrev pub respond : List (String × String) → HandleAnswer → Response
respond log answer = record { messages = []; log = log; answer = some answer }

abbrev pub repeat_zero : ℕ → List ℕ
repeat_zero zero = []
repeat_zero (suc n) = 0 ∷ repeat_zero n

-- `to_le_bytes` of a number of `n` bytes.
unfoldable pub to_le_bytes : ℕ → ℕ → Binary
to_le_bytes zero v = []
to_le_bytes (suc n) v = v % 256 ∷ to_le_bytes n (v / 256)

unfoldable pub require_vote_ongoing : Env → StoredPollConfig → Result (Unit {0})
require_vote_ongoing env config =
    err_if (ltb config.end_timestamp env.time) (generic_err "vote has ended" [])

unfoldable pub max_of : List ℕ → Option ℕ
max_of [] = none
max_of (t ∷ ts) = elim (max_of ts) [ none ↦ some t | some m ↦ some (if ltb m t then t else m) ]

-- `iter().sum()`
unfoldable pub sum_of : ℕ → List ℕ → Result ℕ
sum_of acc [] = ok acc
sum_of acc (t ∷ ts) = do s ← checked_add u128 acc t; sum_of s ts

unfoldable pub hook_msgs : Option InitHook → List CosmosMsg
hook_msgs none = []
hook_msgs (some hook) =
    CosmosMsg.execute hook.contract_addr hook.code_hash (Payload.binary hook.msg) ∷ []

unfoldable pub total_locked_of : LpStakingQueryAnswer → Result ℕ
total_locked_of (LpStakingQueryAnswer.total_locked amount) = ok amount
total_locked_of _ = err (generic_err "something is wrong with the lp staking contract.." [])

module _ (x : Externals) where
  unfoldable pub init : Env → PollInitMsg → Result (Deps × List CosmosMsg)
  unfolding hook_msgs
  init env msg = do
    err_if (ltb (length msg.choices) 2) (generic_err "you have to provide at least two choices" [])
    err_if (ltb (length (x.as_bytes msg.metadata.title)) 2)
        (generic_err "poll title must be at least 2 characters long" [])
    err_if (ltb (length (x.as_bytes msg.metadata.description)) 10)
        (generic_err "poll description must be at least 10 characters long" [])
    err_if (ltb (length (x.as_bytes msg.metadata.author_alias)) 3)
        (generic_err "poll author alias must be at least 3 characters long" [])
    ending ← checked_add u64 env.time msg.config.duration
    ok (
      record {
        owner = env.sender;
        tally = repeat_zero (length msg.choices);
        metadata = msg.metadata;
        config = record {
          end_timestamp = ending;
          quorum = msg.config.quorum;
          min_threshold = msg.config.min_threshold;
          choices = msg.choices;
          finalized = false;
          valid = false;
          rolling_hash = repeat_zero 32;
        };
        staking_pool = msg.staking_pool;
        num_of_voters = 0;
        reveal_config = record { committee = msg.reveal_com; num_revealed = 0; revealed = [] };
        votes = [];
      },
      hook_msgs msg.init_hook,
    )

  -- The bytes that are hashed; the first argument, the hash before, is not among them.
  unfoldable pub roll_hash : Binary → HumanAddr → Vote → String → Binary
  roll_hash hash voter vote salt = x.sha_256 (
      x.as_bytes voter
      ++ (to_le_bytes 1 vote.choice ++ (to_le_bytes 16 vote.voting_power ++ x.as_bytes salt)))

  unfoldable pub vote : Deps → Env → ℕ → String → String → Result Outcome
  vote d env choice key salt = do
    require_vote_ongoing env d.config
    voting_power ← x.balance_query env.sender key d.staking_pool
    let ballot : Vote = record { choice = choice; voting_power = voting_power }
    counted ← update_vote d env.sender (read_vote d env.sender) ballot
    let new_hash = roll_hash d.config.rolling_hash env.sender ballot salt
    ok (
      record counted { config = record (d.config) { rolling_hash = new_hash } },
      respond (("voted", env.sender) ∷ []) (HandleAnswer.status ResponseStatus.success),
    )

  unfoldable pub query_staking_balance : Deps → Result ℕ
  query_staking_balance d = do
    response ← x.staking_query d.staking_pool LpStakingQueryMsg.total_locked
    total_locked_of response

  -- Whether the votes are enough, by the participation in percent and the strongest choice.
  unfoldable pub validate : Deps → Result Bool
  validate d = do
    sefi_balance ← query_staking_balance d
    total_vote_count ← sum_of 0 d.tally
    scaled ← checked_mul u128 100 total_vote_count
    participation ← checked_div scaled sefi_balance
    elim (max_of d.tally) [
      | none ↦ err (generic_err "storage is corrupted" [])
      | some winning_choice ↦ ok (
          (if ltb d.config.quorum participation then true else d.config.valid)
          && ltb d.config.min_threshold winning_choice)
    ]

  unfoldable pub answer_of : StoredPollConfig → List ℕ → HandleAnswer
  answer_of config tally = HandleAnswer.finalize (record {
    finalized = config.finalized;
    valid = some config.valid;
    choices = some config.choices;
    tally = some tally;
  })

  pending_answer : HandleAnswer
  pending_answer =
      HandleAnswer.finalize
        (record { finalized = false; valid = none; choices = none; tally = none })

  -- The call of a member, counted.
  unfoldable pub reveal : StoredRevealConfig → HumanAddr → Result StoredRevealConfig
  reveal conf member = do
    err_if (not (contains conf.committee.revealers member)) unauthorized
    err_if (contains conf.revealed member) (generic_err "already finalized the vote" [])
    num_revealed ← checked_add u64 conf.num_revealed 1
    ok (record conf { revealed = conf.revealed ++ (member ∷ []); num_revealed = num_revealed })

  -- The answer to a member whose call is counted; the one that makes up the committee's number
  -- decides the poll.
  unfoldable pub conclude : Deps → Result Outcome
  unfolding answer_of pending_answer
  conclude d =
      let reveal_conf = d.reveal_config in
      if ltb reveal_conf.committee.n reveal_conf.num_revealed
      then ok (d, respond [] (answer_of d.config d.tally))
      else if ltb reveal_conf.num_revealed reveal_conf.committee.n
      then ok (d, respond [] pending_answer)
      else (do
        valid ← validate d
        let config : StoredPollConfig = record (d.config) { finalized = true; valid = valid }
        ok (record d { config = config }, respond [] (answer_of config d.tally)))

  unfoldable pub finalize : Deps → Env → String → Result Outcome
  finalize d env rolling_hash = do
    err_if (ltb env.time d.config.end_timestamp) (generic_err "vote has not ended yet" [])
    err_if (not (str_eq (x.hex_encode d.config.rolling_hash) rolling_hash))
        (generic_err "incorrect rolling hash" [])
    reveal_conf ← reveal d.reveal_config env.sender
    conclude (record d { reveal_config = reveal_conf })

power_logs : Option Vote → HumanAddr → List (String × String)
power_logs none voter = []
power_logs (some prev_vote) voter = ("voting_power_updated", voter) ∷ []

-- The ballot of a voter with a new power, where there is one.
unfoldable pub reweigh : Deps → HumanAddr → ℕ → Option Vote → Result Deps
reweigh d voter new_power none = ok d
reweigh d voter new_power (some prev_vote) =
    update_vote d voter (some prev_vote) (record prev_vote { voting_power = new_power })

unfoldable pub update_voting_power : Deps → Env → HumanAddr → ℕ → Result Outcome
unfolding power_logs reweigh
update_voting_power d env voter new_power = do
  require_vote_ongoing env d.config
  err_if (not (str_eq env.sender d.owner)) unauthorized
  d' ← reweigh d voter new_power (read_vote d voter)
  ok (
    d',
    respond (power_logs (read_vote d voter) voter) (HandleAnswer.status ResponseStatus.success),
  )

module _ (x : Externals) where
  unfoldable pub handle : Deps → Env → PollHandleMsg → Result Outcome
  handle d env (PollHandleMsg.vote choice key salt) = vote x d env choice key salt
  handle d env (PollHandleMsg.update_voting_power voter new_power) =
      update_voting_power d env voter new_power
  handle d env (PollHandleMsg.finalize rolling_hash) = finalize x d env rolling_hash
