-- ===== src/GovToken/Msg.antt =====
-- contracts/gov-token/src/msg.rs: the messages and answers, the status levels and the padding. The
-- `padding` of a message, which no handler reads, is left out.
use secret_finance_rewards.Common.{
  ℕ, zero, suc, ◌-◌, ◌%◌, ◌==◌, String, Bool, List, [], ◌∷◌, ◌++◌, Option, Result, ok, err,
  generic_err, if◌then◌else◌, length,
}
use secret_finance_rewards.Scrt.Types.{HumanAddr, Binary}

pub record InitialBalance : Type 0 where
  pub address : HumanAddr
  pub amount : ℕ

pub record InitConfig : Type 0 where
  pub public_total_supply : Option Bool

pub record InitMsg : Type 0 where
  pub name : String
  pub admin : Option HumanAddr
  pub symbol : String
  pub decimals : ℕ
  pub initial_balances : Option (List InitialBalance)
  pub prng_seed : Binary
  pub config : Option InitConfig

pub data ContractStatusLevel : Type 0 where
  normal_run stop_all_but_redeems stop_all : ContractStatusLevel

pub data HandleMsg : Type 0 where
  transfer : (recipient : HumanAddr) (amount : ℕ) → HandleMsg
  send : (recipient : HumanAddr) (amount : ℕ) (msg : Option Binary) → HandleMsg
  burn : (amount : ℕ) → HandleMsg
  register_receive : (code_hash : String) → HandleMsg
  create_viewing_key : (entropy : String) → HandleMsg
  set_viewing_key : (key : String) → HandleMsg
  increase_allowance : (spender : HumanAddr) (amount : ℕ) (expiration : Option ℕ) → HandleMsg
  decrease_allowance : (spender : HumanAddr) (amount : ℕ) (expiration : Option ℕ) → HandleMsg
  transfer_from : (owner recipient : HumanAddr) (amount : ℕ) → HandleMsg
  send_from : (owner recipient : HumanAddr) (amount : ℕ) (msg : Option Binary) → HandleMsg
  burn_from : (owner : HumanAddr) (amount : ℕ) → HandleMsg
  mint : (recipient : HumanAddr) (amount : ℕ) → HandleMsg
  add_minters : (minters : List HumanAddr) → HandleMsg
  remove_minters : (minters : List HumanAddr) → HandleMsg
  set_minters : (minters : List HumanAddr) → HandleMsg
  change_admin : (address : HumanAddr) → HandleMsg
  set_contract_status : (level : ContractStatusLevel) → HandleMsg

pub data ResponseStatus : Type 0 where
  success failure : ResponseStatus

pub data HandleAnswer : Type 0 where
  deposit redeem transfer send burn register_receive set_viewing_key : ResponseStatus → HandleAnswer
  create_viewing_key : (key : String) → HandleAnswer
  increase_allowance : (spender owner : HumanAddr) (allowance : ℕ) → HandleAnswer
  decrease_allowance : (spender owner : HumanAddr) (allowance : ℕ) → HandleAnswer
  transfer_from send_from burn_from mint : ResponseStatus → HandleAnswer
  add_minters remove_minters set_minters : ResponseStatus → HandleAnswer
  change_admin set_contract_status : ResponseStatus → HandleAnswer

pub data QueryMsg : Type 0 where
  token_info exchange_rate minters : QueryMsg
  allowance : (owner spender : HumanAddr) (key : String) → QueryMsg
  balance : (address : HumanAddr) (key : String) → QueryMsg
  transfer_history :
      (address : HumanAddr) (key : String) (page : Option ℕ) (page_size : ℕ) → QueryMsg

unfoldable pub status_level_to_u8 : ContractStatusLevel → ℕ
status_level_to_u8 ContractStatusLevel.normal_run = 0
status_level_to_u8 ContractStatusLevel.stop_all_but_redeems = 1
status_level_to_u8 ContractStatusLevel.stop_all = 2

unfoldable pub u8_to_status_level : ℕ → Result ContractStatusLevel
u8_to_status_level n =
    if n == 0
    then ok ContractStatusLevel.normal_run
    else if n == 1
    then ok ContractStatusLevel.stop_all_but_redeems
    else if n == 2
    then ok ContractStatusLevel.stop_all
    else err (generic_err "Invalid state level" [])

-- `std::iter::repeat(b' ').take(n)`
unfoldable pub spaces : ℕ → Binary
spaces zero = []
spaces (suc n) = 32 ∷ spaces n

unfoldable pub space_pad : ℕ → Binary → Binary
space_pad block_size message =
    let surplus = length message % block_size in
    if surplus == 0 then message else message ++ spaces (block_size - surplus)
