-- ===== src/GovToken/Query.antt =====
-- contracts/gov-token/src/contract.rs and msg.rs: the queries.
use secret_finance_rewards.Common.{
  ℕ, String, Bool, false, List, [], ◌∷◌, Option, none, some, Result, ok, err, ◌>>=◌, panicked,
  if◌then◌else◌, unwrap_or,
}
use secret_finance_rewards.Scrt.Types.{HumanAddr, Binary}
use secret_finance_rewards.GovToken.ViewingKey.{ViewingKey, check_viewing_key}
use secret_finance_rewards.GovToken.Msg.{QueryMsg}
use secret_finance_rewards.GovToken.State.{
  Tx, Deps, get_transfers, account_amount, read_allowance, read_viewing_key,
}
use secret_finance_rewards.GovToken.Handle.{Externals}

pub data QueryAnswer : Type 0 where
  token_info : (name symbol : String) (decimals : ℕ) (total_supply : Option ℕ) → QueryAnswer
  exchange_rate : (rate : ℕ) (denom : String) → QueryAnswer
  allowance : (spender owner : HumanAddr) (allowance : ℕ) (expiration : Option ℕ) → QueryAnswer
  balance : (amount : ℕ) → QueryAnswer
  transfer_history : (txs : List Tx) → QueryAnswer
  viewing_key_error : (msg : String) → QueryAnswer
  minters : (minters : List HumanAddr) → QueryAnswer

get_validation_params : QueryMsg → Result (List HumanAddr × ViewingKey)
get_validation_params (QueryMsg.balance address key) = ok (address ∷ [], key)
get_validation_params (QueryMsg.transfer_history address key page page_size) =
    ok (address ∷ [], key)
get_validation_params (QueryMsg.allowance owner spender key) = ok (owner ∷ spender ∷ [], key)
get_validation_params QueryMsg.token_info = err panicked
get_validation_params QueryMsg.exchange_rate = err panicked
get_validation_params QueryMsg.minters = err panicked

query_token_info : Deps → Result QueryAnswer
query_token_info d = ok (
    QueryAnswer.token_info d.constants.name d.constants.symbol d.constants.decimals
      (if d.constants.total_supply_is_public then some d.total_supply else none))

query_exchange_rate : Result QueryAnswer
query_exchange_rate = ok (QueryAnswer.exchange_rate 1 "uscrt")

query_minters : Deps → Result QueryAnswer
query_minters d = ok (QueryAnswer.minters d.minters)

module _ (x : Externals) where
  query_transactions : Deps → HumanAddr → ℕ → ℕ → Result QueryAnswer
  query_transactions d account page page_size = do
    address ← elim (x.api.canonical_address account) [ ok a ↦ ok a | err e ↦ err panicked ]
    txs ← get_transfers x.api d address page page_size
    ok (QueryAnswer.transfer_history txs)

  query_balance : Deps → HumanAddr → Result QueryAnswer
  query_balance d account = do
    address ← x.api.canonical_address account
    ok (QueryAnswer.balance (account_amount d address))

  try_check_allowance : Deps → HumanAddr → HumanAddr → Result QueryAnswer
  try_check_allowance d owner spender = do
    owner_address ← x.api.canonical_address owner
    spender_address ← x.api.canonical_address spender
    let found = read_allowance d owner_address spender_address
    ok (QueryAnswer.allowance spender owner found.amount found.expiration)

  -- The answer to one who has the key.
  unfoldable pub authenticated : Deps → QueryMsg → Result QueryAnswer
  unfolding query_transactions query_balance try_check_allowance
  authenticated d (QueryMsg.balance address key) = query_balance d address
  authenticated d (QueryMsg.transfer_history address key page page_size) =
      query_transactions d address (unwrap_or page 0) page_size
  authenticated d (QueryMsg.allowance owner spender key) = try_check_allowance d owner spender
  authenticated d QueryMsg.token_info = err panicked
  authenticated d QueryMsg.exchange_rate = err panicked
  authenticated d QueryMsg.minters = err panicked

  -- Where no key is stored, the source checks one nevertheless, for the time that it takes.
  unfoldable pub key_opens : Option Binary → ViewingKey → Bool
  key_opens none key = false
  key_opens (some expected_key) key = check_viewing_key x.crypto key expected_key

  unfoldable pub addresses_loop : Deps → QueryMsg → ViewingKey → List HumanAddr → Result QueryAnswer
  addresses_loop d msg key [] =
      ok (QueryAnswer.viewing_key_error "Wrong viewing key for this address or viewing key not set")
  addresses_loop d msg key (address ∷ rest) =
      let others = addresses_loop d msg key rest in
      (x.api.canonical_address address >>= λ canonical_addr.
      if key_opens (read_viewing_key d canonical_addr) key then authenticated d msg else others)

  authenticated_queries : Deps → QueryMsg → Result QueryAnswer
  unfolding get_validation_params
  authenticated_queries d msg = do
    params ← get_validation_params msg
    addresses_loop d msg params.1 params.0

  unfoldable pub query : Deps → QueryMsg → Result QueryAnswer
  unfolding query_token_info query_exchange_rate query_minters authenticated_queries
  query d QueryMsg.token_info = query_token_info d
  query d QueryMsg.exchange_rate = query_exchange_rate
  query d QueryMsg.minters = query_minters d
  query d (QueryMsg.balance address key) = authenticated_queries d (QueryMsg.balance address key)
  query d (QueryMsg.transfer_history address key page page_size) =
      authenticated_queries d (QueryMsg.transfer_history address key page page_size)
  query d (QueryMsg.allowance owner spender key) =
      authenticated_queries d (QueryMsg.allowance owner spender key)
