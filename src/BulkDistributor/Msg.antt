-- ===== src/BulkDistributor/Msg.antt =====
-- contracts/bulk-distributor/src/msg.rs: the messages and answers.
use secret_finance_rewards.Common.{ℕ, String, Option}
use secret_finance_rewards.Scrt.Types.{HumanAddr, Binary, SecretContract}

pub record InitMsg : Type 0 where
  pub reward_token : SecretContract
  pub spy_to_reward : SecretContract

pub data HandleMsg : Type 0 where
  update_allocation : (spy_addr : HumanAddr) (spy_hash : String) (hook : Option Binary) → HandleMsg
  receive : (sender : HumanAddr) (from : HumanAddr) (amount : ℕ) (msg : Binary) → HandleMsg
  change_admin : (address : HumanAddr) → HandleMsg

pub data ResponseStatus : Type 0 where
  success failure : ResponseStatus

pub data HandleAnswer : Type 0 where
  update_allocation : (status : ResponseStatus) → HandleAnswer
  change_admin : (status : ResponseStatus) → HandleAnswer

pub data ReceiveMsg : Type 0 where
  new_bulk_reward : (distribute_over : ℕ) → ReceiveMsg

pub data QueryMsg : Type 0 where
  admin reward_token spy : QueryMsg
  pending : (block : ℕ) → QueryMsg

pub data QueryAnswer : Type 0 where
  admin : (address : HumanAddr) → QueryAnswer
  reward_token : (contract : SecretContract) → QueryAnswer
  spy : (contract : SecretContract) → QueryAnswer
  pending : (amount : ℕ) → QueryAnswer
