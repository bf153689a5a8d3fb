-- ===== src/GovToken/Handle/Steps.antt =====
-- contracts/gov-token/src/contract.rs: the steps that the handlers share, and the handlers of the admin.
use secret_finance_rewards.Common.{
  ℕ, ◌+◌, ◌-◌, String, Bool, false, not, List, [], ◌∷◌, ◌++◌, Option, none, some, Result, ok, err,
  StdError, ◌>>=◌, ◌>>◌, err_if, generic_err, number, str_eq, ltb, if◌then◌else◌, u128,
}
use secret_finance_rewards.Scrt.Types.{HumanAddr, Binary}
use secret_finance_rewards.Scrt.Chain.{Env, CosmosMsg, HandleResponse}
use secret_finance_rewards.GovToken.ViewingKey.{Crypto}
use secret_finance_rewards.GovToken.Msg.{ContractStatusLevel, ResponseStatus, HandleAnswer}
use secret_finance_rewards.GovToken.State.{
  CanonicalAddr, Api, Allowance, Deps, set_status, without_minters, account_amount,
  set_account_balance, read_allowance, write_allowance, set_receiver_hash,
}

abbrev pub Response : Type 0
Response = HandleResponse HandleAnswer

abbrev pub Outcome : Type 0
Outcome = Deps × Response

-- A response whose answer is serialised.
abbrev pub Padded : Type 0
Padded = Deps × HandleResponse Binary

-- `Snip20ReceiveMsg`
pub record Snip20ReceiveMsg : Type 0 where
  pub sender : HumanAddr
  pub from : HumanAddr
  pub amount : ℕ
  pub msg : Option Binary

-- What the contract calls of other packages.
pub record Externals : Type 0 where
  pub crypto : Crypto
  pub api : Api
  -- `to_binary` of an answer, and of a `ReceiverHandleMsg`.
  pub to_binary : HandleAnswer → Binary
  pub receive_to_binary : Snip20ReceiveMsg → Binary

-- `RESPONSE_BLOCK_SIZE`
abbrev pub response_block_size : ℕ
response_block_size = 256

abbrev pub respond : List CosmosMsg → HandleAnswer → Response
respond messages answer = record { messages = messages; log = []; answer = some answer }

-- `checked_sub` and `checked_add`, with the error of a result that does not fit.
unfoldable pub sub_or : StdError → ℕ → ℕ → Result ℕ
sub_or e a b = if ltb a b then err e else ok (a - b)

unfoldable pub add_or : StdError → ℕ → ℕ → Result ℕ
add_or e a b = if ltb (a + b) u128 then ok (a + b) else err e

unfoldable pub check_if_admin : Deps → HumanAddr → Result (Unit {0})
check_if_admin d account =
    err_if (not (str_eq d.constants.admin account))
      (generic_err "This is an admin command. Admin commands can only be run from admin address" [])

unfoldable pub insufficient_allowance : ℕ → ℕ → StdError
insufficient_allowance allowance required =
    generic_err "insufficient allowance: allowance={}, required={}"
      (number allowance ∷ number required ∷ [])

unfoldable pub perform_transfer : Deps → CanonicalAddr → CanonicalAddr → ℕ → Result Deps
perform_transfer d from to amount = do
  from_balance ←
      sub_or
        (generic_err "insufficient funds: balance={}, required={}"
          (number (account_amount d from) ∷ number amount ∷ []))
        (account_amount d from) amount
  let taken = set_account_balance d from from_balance
  to_balance ←
      add_or (generic_err "This tx will literally make them too rich. Try transferring less" [])
        (account_amount taken to) amount
  ok (set_account_balance taken to to_balance)

abbrev pub has_expired : Env → Allowance → Bool
has_expired env allowance = elim allowance.expiration [ none ↦ false | some ex ↦ ltb ex env.time ]

-- What the spender may still spend; an allowance that has expired is 0.
unfoldable pub spend_allowance : Deps → Env → CanonicalAddr → CanonicalAddr → ℕ → Result Deps
spend_allowance d env owner spender amount = do
  let allowance = read_allowance d owner spender
  err_if (has_expired env allowance) (insufficient_allowance 0 amount)
  left ← sub_or (insufficient_allowance allowance.amount amount) allowance.amount amount
  ok (write_allowance d owner spender (record allowance { amount = left }))

-- The tokens taken from an account and from the supply.
unfoldable pub burn_of : Deps → CanonicalAddr → ℕ → Result Deps
burn_of d account amount = do
  account_balance ←
      sub_or
        (generic_err "insufficient funds to burn: balance={}, required={}"
          (number (account_amount d account) ∷ number amount ∷ []))
        (account_amount d account) amount
  total_supply ←
      sub_or (generic_err "You're trying to burn more than is available in the total supply" [])
        d.total_supply amount
  ok (record (set_account_balance d account account_balance) { total_supply = total_supply })

unfoldable pub change_admin : Deps → Env → HumanAddr → Result Outcome
change_admin d env address = do
  check_if_admin d env.sender
  ok (
    record d { constants = record (d.constants) { admin = address } },
    respond [] (HandleAnswer.change_admin ResponseStatus.success),
  )

unfoldable pub set_contract_status : Deps → Env → ContractStatusLevel → Result Outcome
set_contract_status d env level = do
  check_if_admin d env.sender
  ok (set_status d level, respond [] (HandleAnswer.set_contract_status ResponseStatus.success))

unfoldable pub add_minters : Deps → Env → List HumanAddr → Result Outcome
add_minters d env minters = do
  check_if_admin d env.sender
  ok (
    record d { minters = d.minters ++ minters },
    respond [] (HandleAnswer.add_minters ResponseStatus.success),
  )

unfoldable pub remove_minters : Deps → Env → List HumanAddr → Result Outcome
remove_minters d env minters = do
  check_if_admin d env.sender
  ok (
    record d { minters = without_minters d.minters minters },
    respond [] (HandleAnswer.remove_minters ResponseStatus.success),
  )

unfoldable pub set_minters : Deps → Env → List HumanAddr → Result Outcome
set_minters d env minters = do
  check_if_admin d env.sender
  ok (record d { minters = minters }, respond [] (HandleAnswer.set_minters ResponseStatus.success))

unfoldable pub try_register_receive : Deps → Env → String → Result Outcome
try_register_receive d env code_hash = ok (
  set_receiver_hash d env.sender code_hash,
  record {
    messages = [];
    log = ("register_status", "success") ∷ [];
    answer = some (HandleAnswer.register_receive ResponseStatus.success);
  },
)
