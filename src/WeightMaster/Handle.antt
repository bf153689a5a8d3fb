-- ===== src/WeightMaster/Handle.antt =====
-- contracts/weight-master/src/contract.rs: `init`, the handlers and the queries.
use secret_finance_rewards.Common.{
  ℕ, Bool, not, ◌&&◌, String, List, [], ◌∷◌, ◌++◌, Dict, some, Result, ok, ◌>>=◌, ◌>>◌, err_if,
  generic_err, words, str_eq, ltb, if◌then◌else◌, insert, u64, checked_add, checked_sub,
}
use secret_finance_rewards.Scrt.Types.{HumanAddr, Schedule, SpySettings, WeightInfo, sort_schedule}
use secret_finance_rewards.Scrt.Chain.{Env, CosmosMsg, Payload}
use secret_finance_rewards.Scrt.LpStakingMsg.{LpStakingHandleMsg}
use secret_finance_rewards.Scrt.MasterMsg.{
  MasterInitMsg, MasterHandleMsg, MasterHandleAnswer, MasterQueryMsg, MasterQueryAnswer,
}
use secret_finance_rewards.WeightMaster.State.{State, Deps, Response, Outcome, load_spy}
use secret_finance_rewards.WeightMaster.Emission.{get_spy_rewards}

unfoldable pub init : Env → MasterInitMsg → Deps
init env msg = record {
  state = record {
    admin = env.sender;
    gov_token_addr = msg.gov_token_addr;
    gov_token_hash = msg.gov_token_hash;
    total_weight = 1;
    minting_schedule = sort_schedule msg.minting_schedule;
  };
  spies = [];
}

unfoldable pub enforce_admin : State → Env → Result (Unit {0})
enforce_admin config env =
    err_if (not (str_eq config.admin env.sender))
      (generic_err "not an admin: {}" (words env.sender ∷ []))

abbrev pub respond : List CosmosMsg → List (String × String) → Response
respond messages log = record {
  messages = messages;
  log = log;
  answer = some MasterHandleAnswer.success;
}

unfoldable pub set_schedule : Deps → Env → Schedule → Result Outcome
set_schedule d env schedule = do
  enforce_admin d.state env
  ok (
    record d { state = record (d.state) { minting_schedule = sort_schedule schedule } },
    respond [] [],
  )

-- A contract is updated at most once in a block, and not at all while it has no weight.
unfoldable pub is_due : ℕ → SpySettings → Bool
is_due height spy = ltb spy.last_update_block height && ltb 0 spy.weight

unfoldable pub mint_to : State → HumanAddr → ℕ → CosmosMsg
mint_to state spy amount =
    CosmosMsg.mint spy amount 1
      (record { address = state.gov_token_addr; contract_hash = state.gov_token_hash })

unfoldable pub notify_spy : HumanAddr → String → ℕ → CosmosMsg
notify_spy spy hash amount =
    CosmosMsg.execute spy hash (Payload.lp_staking (LpStakingHandleMsg.notify_allocation amount))

-- What one contract is minted and told before its weight changes.
unfoldable pub reward_messages : Deps → Env → WeightInfo → SpySettings → Result (List CosmosMsg)
reward_messages d env to_update spy =
    if is_due env.height spy
    then (do
      rewards ← get_spy_rewards env.height d.state.total_weight d.state.minting_schedule spy
      ok (
          mint_to d.state to_update.address rewards
          ∷ notify_spy to_update.address to_update.hash rewards
          ∷ []))
    else ok []

-- The variables of the loop of `set_weights`.
pub record Batch : Type 0 where
  pub spies : Dict SpySettings
  pub messages : List CosmosMsg
  pub logs : List (String × String)
  pub new_weight_counter : ℕ
  pub old_weight_counter : ℕ

unfoldable pub update_weight : Deps → Env → Batch → WeightInfo → Result Batch
update_weight d env b to_update = do
  let spy = load_spy to_update.address env.height b.spies
  messages ← reward_messages d env to_update spy
  new_counter ← checked_add u64 b.new_weight_counter to_update.weight
  old_counter ← checked_add u64 b.old_weight_counter spy.weight
  ok (record {
    spies =
        insert to_update.address
          (record { weight = to_update.weight; last_update_block = env.height }) b.spies;
    messages = b.messages ++ messages;
    logs = b.logs ++ (("weight_update", to_update.address) ∷ []);
    new_weight_counter = new_counter;
    old_weight_counter = old_counter;
  })

unfoldable pub weights_loop : Deps → Env → Batch → List WeightInfo → Result Batch
weights_loop d env b [] = ok b
weights_loop d env b (w ∷ weights) = do b' ← update_weight d env b w; weights_loop d env b' weights

unfoldable pub set_weights : Deps → Env → List WeightInfo → Result Outcome
set_weights d env weights = do
  enforce_admin d.state env
  b ←
      weights_loop d env
        (record {
          spies = d.spies;
          messages = [];
          logs = [];
          new_weight_counter = 0;
          old_weight_counter = 0;
        })
        weights
  without_old ← checked_sub d.state.total_weight b.old_weight_counter
  total ← checked_add u64 without_old b.new_weight_counter
  ok (
    record { state = record (d.state) { total_weight = total }; spies = b.spies },
    respond b.messages b.logs,
  )

unfoldable pub update_allocation : Deps → Env → HumanAddr → String → Result Outcome
update_allocation d env spy_address spy_hash =
    let spy = load_spy spy_address env.height d.spies in
    if is_due env.height spy
    then (do
      rewards ← get_spy_rewards env.height d.state.total_weight d.state.minting_schedule spy
      ok (
        record d {
          spies = insert spy_address (record spy { last_update_block = env.height }) d.spies;
        },
        respond (mint_to d.state spy_address rewards ∷ notify_spy spy_address spy_hash rewards ∷ [])
            (("update_allocation", spy_address) ∷ []),
      ))
    else ok (
      d,
      respond (notify_spy spy_address spy_hash 0 ∷ []) (("update_allocation", spy_address) ∷ []),
    )

unfoldable pub set_gov_token : Deps → Env → HumanAddr → String → Result Outcome
set_gov_token d env gov_addr gov_hash = do
  enforce_admin d.state env
  ok (
    record d { state = record (d.state) { gov_token_addr = gov_addr; gov_token_hash = gov_hash } },
    respond [] (("set_gov_token", gov_addr) ∷ []),
  )

unfoldable pub change_admin : Deps → Env → HumanAddr → Result Outcome
change_admin d env admin_addr = do
  enforce_admin d.state env
  ok (record d { state = record (d.state) { admin = admin_addr } }, respond [] [])

unfoldable pub handle : Deps → Env → MasterHandleMsg → Result Outcome
handle d env (MasterHandleMsg.update_allocation spy_addr spy_hash) =
    update_allocation d env spy_addr spy_hash
handle d env (MasterHandleMsg.set_weights weights) = set_weights d env weights
handle d env (MasterHandleMsg.set_schedule schedule) = set_schedule d env schedule
handle d env (MasterHandleMsg.set_gov_token addr hash) = set_gov_token d env addr hash
handle d env (MasterHandleMsg.change_admin addr) = change_admin d env addr

unfoldable pub query_pending_rewards : Deps → HumanAddr → ℕ → Result MasterQueryAnswer
query_pending_rewards d spy_addr block = do
  amount ←
      get_spy_rewards block d.state.total_weight d.state.minting_schedule
        (load_spy spy_addr block d.spies)
  ok (MasterQueryAnswer.pending amount)

query_admin : Deps → Result MasterQueryAnswer
query_admin d = ok (MasterQueryAnswer.admin d.state.admin)

query_gov_token : Deps → Result MasterQueryAnswer
query_gov_token d = ok (MasterQueryAnswer.gov_token d.state.gov_token_addr d.state.gov_token_hash)

query_schedule : Deps → Result MasterQueryAnswer
query_schedule d = ok (MasterQueryAnswer.schedule d.state.minting_schedule)

query_spy_weight : Deps → HumanAddr → Result MasterQueryAnswer
query_spy_weight d spy_address =
    let spy = load_spy spy_address 0 d.spies in ok (MasterQueryAnswer.spy_weight spy.weight)

unfoldable pub query : Deps → MasterQueryMsg → Result MasterQueryAnswer
unfolding query_admin query_gov_token query_schedule query_spy_weight
query d MasterQueryMsg.admin = query_admin d
query d MasterQueryMsg.gov_token = query_gov_token d
query d MasterQueryMsg.schedule = query_schedule d
query d (MasterQueryMsg.spy_weight addr) = query_spy_weight d addr
query d (MasterQueryMsg.pending spy_addr block) = query_pending_rewards d spy_addr block
