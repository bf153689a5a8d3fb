-- ===== src/GovToken/Handle.antt =====
-- contracts/gov-token/src/contract.rs: `handle`, with minting, viewing keys and allowances.
mod Steps
mod Start
mod Transfers
unfoldable pub use Steps.*
unfoldable pub use Start.*
unfoldable pub use Transfers.*
use secret_finance_rewards.Common.{
  ◌>>=◌, ◌>>◌, ℕ, ◌+◌, ◌-◌, String, not, [], Option, none, some, Result, ok, err, err_if,
  generic_err, ltb, if◌then◌else◌, contains, u128,
}
use secret_finance_rewards.Scrt.Types.{HumanAddr, Binary}
use secret_finance_rewards.Scrt.Chain.{Env}
use secret_finance_rewards.GovToken.ViewingKey.{new_viewing_key, to_hashed}
use secret_finance_rewards.GovToken.Msg.{
  ContractStatusLevel, HandleMsg, ResponseStatus, HandleAnswer, space_pad,
}
use secret_finance_rewards.GovToken.State.{
  Allowance, Deps, contract_status, account_amount, set_account_balance, read_allowance,
  write_allowance, write_viewing_key,
}

module _ (x : Externals) where
  unfoldable pub try_mint : Deps → Env → HumanAddr → ℕ → Result Outcome
  try_mint d env address amount = do
    err_if (not (contains d.minters env.sender))
        (generic_err "Minting is allowed to minter accounts only" [])
    total_supply ←
        add_or
          (generic_err
            "This mint attempt would increase the total supply above the supported maximum" [])
          d.total_supply amount
    recipient_account ← x.api.canonical_address address
    account_balance ←
        add_or
          (generic_err
            "This mint attempt would increase the account's balance above the supported maximum" [])
          (account_amount d recipient_account) amount
    ok (
      record (set_account_balance d recipient_account account_balance) {
        total_supply = total_supply;
      },
      respond [] (HandleAnswer.mint ResponseStatus.success),
    )

  unfoldable pub try_set_key : Deps → Env → String → Result Outcome
  try_set_key d env key = do
    message_sender ← x.api.canonical_address env.sender
    ok (
      write_viewing_key d message_sender (to_hashed x.crypto key),
      respond [] (HandleAnswer.set_viewing_key ResponseStatus.success),
    )

  unfoldable pub try_create_key : Deps → Env → String → Result Outcome
  try_create_key d env entropy = do
    let key = new_viewing_key x.crypto env d.constants.prng_seed (x.crypto.as_bytes entropy)
    message_sender ← x.api.canonical_address env.sender
    ok (
      write_viewing_key d message_sender (to_hashed x.crypto key),
      respond [] (HandleAnswer.create_viewing_key key),
    )

  unfoldable pub try_increase_allowance : Deps → Env → HumanAddr → ℕ → Option ℕ → Result Outcome
  try_increase_allowance d env spender amount expiration = do
    owner_address ← x.api.canonical_address env.sender
    spender_address ← x.api.canonical_address spender
    let old = read_allowance d owner_address spender_address
    let new_amount = if ltb (old.amount + amount) u128 then old.amount + amount else u128 - 1
    let new : Allowance = record {
      amount = new_amount;
      expiration = elim expiration [ none ↦ old.expiration | some ex ↦ some ex ];
    }
    ok (
      write_allowance d owner_address spender_address new,
      respond [] (HandleAnswer.increase_allowance spender env.sender new_amount),
    )

  unfoldable pub try_decrease_allowance : Deps → Env → HumanAddr → ℕ → Option ℕ → Result Outcome
  try_decrease_allowance d env spender amount expiration = do
    owner_address ← x.api.canonical_address env.sender
    spender_address ← x.api.canonical_address spender
    let old = read_allowance d owner_address spender_address
    let new_amount = old.amount - amount
    let new : Allowance = record {
      amount = new_amount;
      expiration = elim expiration [ none ↦ old.expiration | some ex ↦ some ex ];
    }
    ok (
      write_allowance d owner_address spender_address new,
      respond [] (HandleAnswer.decrease_allowance spender env.sender new_amount),
    )

  unfoldable pub handle_running : Deps → Env → HandleMsg → Result Outcome
  handle_running d env (HandleMsg.transfer recipient amount) = try_transfer x d env recipient amount
  handle_running d env (HandleMsg.send recipient amount msg) = try_send x d env recipient amount msg
  handle_running d env (HandleMsg.burn amount) = try_burn x d env amount
  handle_running d env (HandleMsg.register_receive code_hash) = try_register_receive d env code_hash
  handle_running d env (HandleMsg.create_viewing_key entropy) = try_create_key d env entropy
  handle_running d env (HandleMsg.set_viewing_key key) = try_set_key d env key
  handle_running d env (HandleMsg.increase_allowance spender amount expiration) =
      try_increase_allowance d env spender amount expiration
  handle_running d env (HandleMsg.decrease_allowance spender amount expiration) =
      try_decrease_allowance d env spender amount expiration
  handle_running d env (HandleMsg.transfer_from owner recipient amount) =
      try_transfer_from x d env owner recipient amount
  handle_running d env (HandleMsg.send_from owner recipient amount msg) =
      try_send_from x d env owner recipient amount msg
  handle_running d env (HandleMsg.burn_from owner amount) = try_burn_from x d env owner amount
  handle_running d env (HandleMsg.mint recipient amount) = try_mint d env recipient amount
  handle_running d env (HandleMsg.change_admin address) = change_admin d env address
  handle_running d env (HandleMsg.set_contract_status level) = set_contract_status d env level
  handle_running d env (HandleMsg.add_minters minters) = add_minters d env minters
  handle_running d env (HandleMsg.remove_minters minters) = remove_minters d env minters
  handle_running d env (HandleMsg.set_minters minters) = set_minters d env minters

  unfoldable pub handle_stopped : Deps → Env → HandleMsg → Result Outcome
  handle_stopped d env (HandleMsg.set_contract_status level) = set_contract_status d env level
  handle_stopped d env _ =
      err (generic_err "This contract is stopped and this action is not allowed" [])

  -- The answer serialised, and padded.
  unfoldable pub pad_answer : Option HandleAnswer → Option Binary
  pad_answer none = none
  pad_answer (some answer) = some (space_pad response_block_size (x.to_binary answer))

  unfoldable pub pad_response : Result Outcome → Result Padded
  pad_response response = do
    o ← response
    ok (o.0, record { messages = o.1.messages; log = o.1.log; answer = pad_answer o.1.answer })

  unfoldable pub handle_at : ContractStatusLevel → Deps → Env → HandleMsg → Result Outcome
  handle_at ContractStatusLevel.normal_run d env msg = handle_running d env msg
  handle_at ContractStatusLevel.stop_all_but_redeems d env msg = handle_stopped d env msg
  handle_at ContractStatusLevel.stop_all d env msg = handle_stopped d env msg

  unfoldable pub handle : Deps → Env → HandleMsg → Result Padded
  handle d env msg = do level ← contract_status d; pad_response (handle_at level d env msg)
