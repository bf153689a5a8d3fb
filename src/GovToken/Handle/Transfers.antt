-- ===== src/GovToken/Handle/Transfers.antt =====
-- contracts/gov-token/src/contract.rs and receiver.rs: the handlers that move and burn tokens.
use secret_finance_rewards.Common.{ℕ, String, List, [], ◌∷◌, Option, none, some, Result, ok, ◌>>=◌}
use secret_finance_rewards.Scrt.Types.{HumanAddr, Binary}
use secret_finance_rewards.Scrt.Chain.{Env, CosmosMsg, Payload}
use secret_finance_rewards.GovToken.Msg.{ResponseStatus, HandleAnswer, space_pad}
use secret_finance_rewards.GovToken.State.{Deps, store_transfer, get_receiver_hash}
use secret_finance_rewards.GovToken.Handle.Steps.{
  Outcome, Snip20ReceiveMsg, Externals, response_block_size, respond, perform_transfer,
  spend_allowance, burn_of,
}

module _ (x : Externals) where
  unfoldable pub try_transfer_impl : Deps → Env → HumanAddr → ℕ → Result Deps
  try_transfer_impl d env recipient amount = do
    sender_address ← x.api.canonical_address env.sender
    recipient_address ← x.api.canonical_address recipient
    d' ← perform_transfer d sender_address recipient_address amount
    store_transfer d' sender_address sender_address recipient_address amount d.constants.symbol

  unfoldable pub try_transfer : Deps → Env → HumanAddr → ℕ → Result Outcome
  try_transfer d env recipient amount = do
    d' ← try_transfer_impl d env recipient amount
    ok (d', respond [] (HandleAnswer.transfer ResponseStatus.success))

  -- `Snip20ReceiveMsg::into_cosmos_msg`
  unfoldable pub into_cosmos_msg : Snip20ReceiveMsg → String → HumanAddr → CosmosMsg
  into_cosmos_msg msg callback_code_hash contract_addr =
      CosmosMsg.execute contract_addr callback_code_hash
        (Payload.binary (space_pad response_block_size (x.receive_to_binary msg)))

  -- The messages of `try_add_receiver_api_callback`.
  unfoldable pub callback_of :
      Deps → HumanAddr → Option Binary → HumanAddr → HumanAddr → ℕ → List CosmosMsg
  callback_of d recipient msg sender from amount = elim (get_receiver_hash d recipient) [
    | none ↦ []
    | some receiver_hash ↦
        into_cosmos_msg (record { sender = sender; from = from; amount = amount; msg = msg })
          receiver_hash recipient
        ∷ []
  ]

  unfoldable pub try_send : Deps → Env → HumanAddr → ℕ → Option Binary → Result Outcome
  try_send d env recipient amount msg = do
    d' ← try_transfer_impl d env recipient amount
    ok (
      d',
      respond (callback_of d' recipient msg env.sender env.sender amount)
          (HandleAnswer.send ResponseStatus.success),
    )

  unfoldable pub try_transfer_from_impl : Deps → Env → HumanAddr → HumanAddr → ℕ → Result Deps
  try_transfer_from_impl d env owner recipient amount = do
    spender_address ← x.api.canonical_address env.sender
    owner_address ← x.api.canonical_address owner
    recipient_address ← x.api.canonical_address recipient
    spent ← spend_allowance d env owner_address spender_address amount
    d' ← perform_transfer spent owner_address recipient_address amount
    store_transfer d' owner_address spender_address recipient_address amount d.constants.symbol

  unfoldable pub try_transfer_from : Deps → Env → HumanAddr → HumanAddr → ℕ → Result Outcome
  try_transfer_from d env owner recipient amount = do
    d' ← try_transfer_from_impl d env owner recipient amount
    ok (d', respond [] (HandleAnswer.transfer_from ResponseStatus.success))

  unfoldable pub try_send_from :
      Deps → Env → HumanAddr → HumanAddr → ℕ → Option Binary → Result Outcome
  try_send_from d env owner recipient amount msg = do
    d' ← try_transfer_from_impl d env owner recipient amount
    ok (
      d',
      respond (callback_of d' recipient msg env.sender owner amount)
          (HandleAnswer.send_from ResponseStatus.success),
    )

  unfoldable pub try_burn_from : Deps → Env → HumanAddr → ℕ → Result Outcome
  try_burn_from d env owner amount = do
    spender_address ← x.api.canonical_address env.sender
    owner_address ← x.api.canonical_address owner
    spent ← spend_allowance d env owner_address spender_address amount
    d' ← burn_of spent owner_address amount
    ok (d', respond [] (HandleAnswer.burn_from ResponseStatus.success))

  unfoldable pub try_burn : Deps → Env → ℕ → Result Outcome
  try_burn d env amount = do
    sender_address ← x.api.canonical_address env.sender
    d' ← burn_of d sender_address amount
    ok (d', respond [] (HandleAnswer.burn ResponseStatus.success))
