-- ===== src/DevFund/Handle.antt =====
-- contracts/dev-fund/src/contract.rs: `init` and `handle` with the handlers that it calls.
use secret_finance_rewards.Common.{
  ℕ, String, not, ◌&&◌, List, [], ◌∷◌, Option, none, some, Result, ok, ◌>>=◌, ◌>>◌, err_if,
  generic_err, unauthorized, words, number, str_eq, ltb, unwrap_or, u128, checked_add, checked_sub,
}
use secret_finance_rewards.Scrt.Types.{HumanAddr, SecretContract}
use secret_finance_rewards.Scrt.Chain.{Env, CosmosMsg, Payload}
use secret_finance_rewards.Scrt.MasterMsg.{MasterHandleMsg}
use secret_finance_rewards.DevFund.Msg.{InitMsg, HookMsg, HandleMsg, HandleAnswer, ResponseStatus}
use secret_finance_rewards.DevFund.State.{
  Config, Deps, load_balance, Response, Outcome, response_block_size,
}

-- What the contract calls of other packages.
pub record Externals : Type 0 where
  -- `snip20::balance_query`: the holder, its viewing key, and the token.
  pub balance_query : HumanAddr → String → SecretContract → Result ℕ
  -- `pad_handle_result` with its block size, on the response of a call that returns.
  pub pad_response : ℕ → Response → Response

unfoldable pub init : Env → InitMsg → Deps × List CosmosMsg
init env msg = (
  record {
    config = record {
      admin = env.sender;
      beneficiary = unwrap_or msg.beneficiary env.sender;
      sefi = msg.sefi;
      master = msg.master;
      viewing_key = msg.viewing_key;
      own_addr = env.contract_address;
    };
    accumulated_rewards = none;
  },
  CosmosMsg.set_viewing_key msg.viewing_key response_block_size msg.sefi ∷ [],
)

unfoldable pub enforce_admin : Config → Env → Result (Unit {0})
enforce_admin config env =
    err_if (not (str_eq config.admin env.sender))
      (generic_err "not an admin: {}" (words env.sender ∷ []))

abbrev pub respond : List CosmosMsg → HandleAnswer → Response
respond messages answer = record { messages = messages; log = []; answer = some answer }

unfoldable pub notify_allocation : Deps → Env → ℕ → Result Outcome
notify_allocation d env amount = do
  err_if (not (str_eq env.sender d.config.master.address) && not (str_eq env.sender d.config.admin))
      unauthorized
  balance ← checked_add u128 (load_balance d) amount
  ok (
    record d { accumulated_rewards = some balance },
    respond [] (HandleAnswer.notify_allocation ResponseStatus.success),
  )

unfoldable pub run_hook : Deps → HookMsg → Result Outcome
run_hook d (HookMsg.redeem to requested) = do
  let amount = unwrap_or requested (load_balance d)
  err_if (ltb (load_balance d) amount) (
      generic_err "insufficient funds to redeem: balance={}, required={}"
        (number (load_balance d) ∷ number amount ∷ []))
  balance ← checked_sub (load_balance d) amount
  ok (
    record d { accumulated_rewards = some balance },
    respond (CosmosMsg.transfer to amount response_block_size d.config.sefi ∷ [])
        (HandleAnswer.redeem ResponseStatus.success),
  )

unfoldable pub self_callback : Deps → Env → HookMsg → Result Outcome
self_callback d env message = do
  err_if (not (str_eq env.sender env.contract_address)) unauthorized
  run_hook d message

unfoldable pub callback_msgs : Env → Option HookMsg → List CosmosMsg
callback_msgs env none = []
callback_msgs env (some cb) =
    CosmosMsg.execute env.contract_address env.contract_code_hash
      (Payload.dev_fund (HandleMsg.self_callback cb))
    ∷ []

unfoldable pub update_allocation : Env → Config → Option HookMsg → Result Response
update_allocation env config self_callback = ok (record {
  messages =
      CosmosMsg.execute config.master.address config.master.contract_hash (
        Payload.master
          (MasterHandleMsg.update_allocation env.contract_address env.contract_code_hash))
      ∷ callback_msgs env self_callback;
  log = [];
  answer = none;
})

unfoldable pub redeem : Deps → Env → Option ℕ → Option HumanAddr → Result Outcome
redeem d env amount to = do
  err_if (not (str_eq env.sender d.config.beneficiary)) unauthorized
  r ← update_allocation env d.config (some (HookMsg.redeem (unwrap_or to env.sender) amount))
  ok (d, r)

unfoldable pub change_admin : Deps → Env → HumanAddr → Result Outcome
change_admin d env address = do
  enforce_admin d.config env
  ok (
    record d { config = record (d.config) { admin = address } },
    respond [] (HandleAnswer.change_admin ResponseStatus.success),
  )

unfoldable pub change_beneficiary : Deps → Env → HumanAddr → Result Outcome
change_beneficiary d env address = do
  enforce_admin d.config env
  ok (
    record d { config = record (d.config) { beneficiary = address } },
    respond [] (HandleAnswer.change_beneficiary ResponseStatus.success),
  )

unfoldable pub set_master : Deps → Env → SecretContract → Result Outcome
set_master d env new_master = do
  enforce_admin d.config env
  ok (
    record d { config = record (d.config) { master = new_master } },
    respond [] (HandleAnswer.set_master ResponseStatus.success),
  )

module _ (x : Externals) where
  unfoldable pub refresh_balance : Deps → Env → Result Outcome
  refresh_balance d env = do
    enforce_admin d.config env
    balance ← x.balance_query env.contract_address d.config.viewing_key d.config.sefi
    ok (
      record d { accumulated_rewards = some balance },
      respond [] (HandleAnswer.refresh_balance ResponseStatus.success),
    )

  unfoldable pub handle_msg : Deps → Env → HandleMsg → Result Outcome
  handle_msg d env (HandleMsg.redeem amount to) = redeem d env amount to
  handle_msg d env (HandleMsg.change_admin address) = change_admin d env address
  handle_msg d env (HandleMsg.change_beneficiary address) = change_beneficiary d env address
  handle_msg d env HandleMsg.refresh_balance = refresh_balance d env
  handle_msg d env (HandleMsg.set_master contract) = set_master d env contract
  handle_msg d env (HandleMsg.notify_allocation amount) = notify_allocation d env amount
  handle_msg d env (HandleMsg.self_callback message) = self_callback d env message

  unfoldable pub handle : Deps → Env → HandleMsg → Result Outcome
  handle d env msg = do o ← handle_msg d env msg; ok (o.0, x.pad_response response_block_size o.1)
