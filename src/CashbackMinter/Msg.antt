-- ===== src/CashbackMinter/Msg.antt =====
-- contracts/cashback-minter/src/msg.rs: the messages and answers.
use secret_finance_rewards.Common.{String, Bool, List, Option}
use secret_finance_rewards.Scrt.Types.{HumanAddr, SecretContract}
use secret_finance_rewards.CashbackMinter.Asset.{Asset}

pub record InitMsg : Type 0 where
  pub sscrt_addr : HumanAddr
  pub pairs : Option (List HumanAddr)
  pub pair_contract_hash : Option String
  pub cashback : SecretContract

pub data HandleMsg : Type 0 where
  receive_swap_data : (asset_in asset_out : Asset) (account : HumanAddr) → HandleMsg
  add_pairs : (pairs : List HumanAddr) (pair_contract_hash : String) → HandleMsg
  remove_pairs : (pairs : List HumanAddr) → HandleMsg
  set_admin : (address : HumanAddr) → HandleMsg

pub data QueryMsg : Type 0 where
  is_supported : (pair : HumanAddr) → QueryMsg
  cashback admin : QueryMsg

pub data QueryAnswer : Type 0 where
  is_supported : (is_supported : Bool) → QueryAnswer
  cashback : (address : HumanAddr) → QueryAnswer
  admin : (address : HumanAddr) → QueryAnswer

pub data ResponseStatus : Type 0 where
  success failure : ResponseStatus
