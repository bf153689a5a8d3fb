-- ===== src/DevFund/Msg.antt =====
-- contracts/dev-fund/src/msg.rs: the messages and answers.
use secret_finance_rewards.Common.{ℕ, String, Option}
use secret_finance_rewards.Scrt.Types.{HumanAddr, SecretContract}

pub record InitMsg : Type 0 where
  pub sefi : SecretContract
  pub master : SecretContract
  pub viewing_key : String
  pub beneficiary : Option HumanAddr

pub data HookMsg : Type 0 where
  redeem : (to : HumanAddr) (amount : Option ℕ) → HookMsg

pub data HandleMsg : Type 0 where
  redeem : (amount : Option ℕ) (to : Option HumanAddr) → HandleMsg
  change_admin : (address : HumanAddr) → HandleMsg
  change_beneficiary : (address : HumanAddr) → HandleMsg
  refresh_balance : HandleMsg
  set_master : (contract : SecretContract) → HandleMsg
  notify_allocation : (amount : ℕ) → HandleMsg
  self_callback : (message : HookMsg) → HandleMsg

pub data ResponseStatus : Type 0 where
  success failure : ResponseStatus

pub data HandleAnswer : Type 0 where
  redeem : (status : ResponseStatus) → HandleAnswer
  change_admin : (status : ResponseStatus) → HandleAnswer
  change_beneficiary : (status : ResponseStatus) → HandleAnswer
  refresh_balance : (status : ResponseStatus) → HandleAnswer
  notify_allocation : (status : ResponseStatus) → HandleAnswer
  set_master : (status : ResponseStatus) → HandleAnswer

pub data QueryMsg : Type 0 where
  sefi admin beneficiary : QueryMsg
  balance : (block : ℕ) → QueryMsg

pub data QueryAnswer : Type 0 where
  balance : (amount : ℕ) → QueryAnswer
  sefi : (contract : SecretContract) → QueryAnswer
  admin : (address : HumanAddr) → QueryAnswer
  beneficiary : (address : HumanAddr) → QueryAnswer
