-- ===== src/BulkDistributor/Handle.antt =====
-- contracts/bulk-distributor/src/contract.rs: `init`, the handlers and the queries.
use secret_finance_rewards.Common.{
  ℕ, not, List, [], ◌∷◌, ◌++◌, some, Result, ok, ◌>>=◌, ◌>>◌, err_if, generic_err, unauthorized,
  words, str_eq, ltb, if◌then◌else◌, u64, checked_add, checked_div,
}
use secret_finance_rewards.Scrt.Types.{HumanAddr, Binary}
use secret_finance_rewards.Scrt.Chain.{Env, CosmosMsg, Payload}
use secret_finance_rewards.Scrt.LpStakingMsg.{LpStakingHandleMsg}
use secret_finance_rewards.BulkDistributor.Msg.{
  InitMsg, HandleMsg, HandleAnswer, ResponseStatus, ReceiveMsg, QueryMsg, QueryAnswer,
}
use secret_finance_rewards.BulkDistributor.State.{
  State, RewardBulk, Deps, Outcome, updated_reward_bulks,
}
use secret_finance_rewards.BulkDistributor.Rewards.{get_spy_rewards}

unfoldable pub init : Env → InitMsg → Deps × List CosmosMsg
init env msg = (
  record {
    state = record {
      admin = env.sender;
      reward_token = msg.reward_token;
      spy_to_reward = msg.spy_to_reward;
      last_awarded_block = 0;
    };
    bulks = [];
  },
  CosmosMsg.register_receive env.contract_code_hash 1 msg.reward_token ∷ [],
)

unfoldable pub enforce_admin : State → Env → Result (Unit {0})
enforce_admin config env =
    err_if (not (str_eq config.admin env.sender))
      (generic_err "not an admin: {}" (words env.sender ∷ []))

-- The transfer of the rewards, if there are any.
unfoldable pub pay_spy : State → ℕ → List CosmosMsg
pay_spy state rewards =
    if ltb 0 rewards
    then CosmosMsg.transfer state.spy_to_reward.address rewards 1 state.reward_token ∷ []
    else []

-- The storage with the blocks up to this one awarded, and the rewards: at most once in a block.
unfoldable pub award : Deps → Env → Result (Deps × ℕ)
award d env =
    if ltb d.state.last_awarded_block env.height
    then (do
      let updated = updated_reward_bulks d d.state
      rewards ← get_spy_rewards updated.1 d.state.last_awarded_block env.height
      ok (
        record updated.0 { state = record (d.state) { last_awarded_block = env.height } },
        rewards,
      ))
    else ok (d, 0)

unfoldable pub update_allocation : Deps → Env → Result Outcome
update_allocation d env = do
  awarded ← award d env
  let spy = d.state.spy_to_reward
  ok (
    awarded.0,
    record {
      messages =
          pay_spy d.state awarded.1
          ++ (CosmosMsg.execute spy.address spy.contract_hash
                (Payload.lp_staking (LpStakingHandleMsg.notify_allocation awarded.1))
              ∷ []);
      log = ("update_allocation", spy.address) ∷ [];
      answer = some (HandleAnswer.update_allocation ResponseStatus.success);
    },
  )

-- The result of `update_allocation` is kept, and returned at the end. No storage is written where
-- it is an error.
unfoldable pub new_bulk_reward : Deps → Env → HumanAddr → ℕ → ℕ → Result Outcome
new_bulk_reward d env from distribute_over amount = do
  err_if (not (str_eq from d.state.admin)) unauthorized
  updated ← update_allocation d env
  end_block ← checked_add u64 env.height distribute_over
  amount_per_block ← checked_div amount distribute_over
  let new_bulk : RewardBulk = record { end_block = end_block; amount_per_block = amount_per_block }
  ok (record (updated.0) { bulks = updated.0.bulks ++ (new_bulk ∷ []) }, updated.1)

unfoldable pub change_admin : Deps → Env → HumanAddr → Result Outcome
change_admin d env admin_addr = do
  enforce_admin d.state env
  ok (
    record d { state = record (d.state) { admin = admin_addr } },
    record {
      messages = [];
      log = [];
      answer = some (HandleAnswer.change_admin ResponseStatus.success);
    },
  )

unfoldable pub receive_msg : Deps → Env → HumanAddr → ℕ → ReceiveMsg → Result Outcome
receive_msg d env from amount (ReceiveMsg.new_bulk_reward distribute_over) =
    new_bulk_reward d env from distribute_over amount

-- `from_binary::<ReceiveMsg>` is a parameter.
module _ (from_binary : Binary → Result ReceiveMsg) where
  unfoldable pub receive : Deps → Env → HumanAddr → ℕ → Binary → Result Outcome
  receive d env from amount msg = do m ← from_binary msg; receive_msg d env from amount m

  unfoldable pub handle : Deps → Env → HandleMsg → Result Outcome
  handle d env (HandleMsg.update_allocation spy_addr spy_hash hook) = update_allocation d env
  handle d env (HandleMsg.receive sender from amount msg) = receive d env from amount msg
  handle d env (HandleMsg.change_admin address) = change_admin d env address

unfoldable pub query_admin : Deps → Result QueryAnswer
query_admin d = ok (QueryAnswer.admin d.state.admin)

unfoldable pub query_reward_token : Deps → Result QueryAnswer
query_reward_token d = ok (
    QueryAnswer.reward_token (record {
      address = d.state.reward_token.address;
      contract_hash = d.state.reward_token.contract_hash;
    }))

unfoldable pub query_spy : Deps → Result QueryAnswer
query_spy d = ok (
    QueryAnswer.spy (record {
      address = d.state.spy_to_reward.address;
      contract_hash = d.state.spy_to_reward.contract_hash;
    }))

unfoldable pub query_pending_rewards : Deps → ℕ → Result QueryAnswer
query_pending_rewards d block = do
  amount ← get_spy_rewards d.bulks d.state.last_awarded_block block
  ok (QueryAnswer.pending amount)

unfoldable pub query : Deps → QueryMsg → Result QueryAnswer
query d QueryMsg.admin = query_admin d
query d QueryMsg.reward_token = query_reward_token d
query d QueryMsg.spy = query_spy d
query d (QueryMsg.pending block) = query_pending_rewards d block
