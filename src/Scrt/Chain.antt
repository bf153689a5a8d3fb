-- ===== src/Scrt/Chain.antt =====
-- What the contracts see of the chain, and the messages that they emit. A message is kept as the
-- value that the source serialises; a message of the token interface (`snip20::…_msg`) as the
-- name of the call and its arguments.
use secret_finance_rewards.Common.{ℕ, String, List, Option, FmtArg}
use secret_finance_rewards.Common.{str_eq, if◌then◌else◌, sum_by}
use secret_finance_rewards.Scrt.Types.{HumanAddr, Binary, SecretContract}
use secret_finance_rewards.Scrt.LpStakingMsg.{LpStakingHandleMsg}
use secret_finance_rewards.Scrt.MasterMsg.{MasterHandleMsg}
use secret_finance_rewards.Scrt.VoteTypes.{PollInitMsg, PollHandleMsg, PollFactoryHandleMsg}
use secret_finance_rewards.DevFund.Msg.{HandleMsg}

-- The fields of `Env` that the contracts read.
pub record Env : Type 0 where
  pub sender : HumanAddr
  pub height : ℕ
  pub time : ℕ
  pub contract_address : HumanAddr
  pub contract_code_hash : String

-- The value that `to_binary` serialises for another contract.
pub data Payload : Type 0 where
  lp_staking : LpStakingHandleMsg → Payload
  master : MasterHandleMsg → Payload
  poll_factory : PollFactoryHandleMsg → Payload
  poll : PollHandleMsg → Payload
  poll_init : PollInitMsg → Payload
  dev_fund : HandleMsg → Payload
  binary : Binary → Payload

-- The token contract that a `snip20` call addresses stands last in each.
pub data CosmosMsg : Type 0 where
  transfer :
      (recipient : HumanAddr) (amount : ℕ) (block_size : ℕ) (token : SecretContract) → CosmosMsg
  mint : (recipient : HumanAddr) (amount : ℕ) (block_size : ℕ) (token : SecretContract) → CosmosMsg
  register_receive : (code_hash : String) (block_size : ℕ) (token : SecretContract) → CosmosMsg
  set_viewing_key : (key : String) (block_size : ℕ) (token : SecretContract) → CosmosMsg
  execute : (contract_addr : HumanAddr) (callback_code_hash : String) (msg : Payload) → CosmosMsg
  -- The label is kept as the arguments of its `format!`.
  instantiate :
      (code_id : ℕ) (callback_code_hash : String) (msg : Payload) (label : List FmtArg) → CosmosMsg

-- `HandleResponse`, its `data` before it is serialised.
pub record HandleResponse (A : Type 0) : Type 0 where
  pub messages : List CosmosMsg
  pub log : List (String × String)
  pub answer : Option A

-- The tokens that a message sends from the contract's account with the token at `token`.
abbrev pub sent_by : HumanAddr → CosmosMsg → ℕ
sent_by token (CosmosMsg.transfer to amount size t) = if str_eq t.address token then amount else 0
sent_by token (CosmosMsg.mint to amount size t) = 0
sent_by token (CosmosMsg.register_receive h size t) = 0
sent_by token (CosmosMsg.set_viewing_key k size t) = 0
sent_by token (CosmosMsg.execute a h m) = 0
sent_by token (CosmosMsg.instantiate c h m l) = 0

abbrev pub sent : HumanAddr → List CosmosMsg → ℕ
sent token = sum_by (sent_by token)
