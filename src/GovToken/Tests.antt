-- ===== src/GovToken/Tests.antt =====
-- Runs of contracts/gov-token at concrete inputs, and the theorems at inputs that meet their
-- hypotheses.
use Prim.Native.String.{len}
use secret_finance_rewards.Common.{
  ℕ, zero, suc, ◌+◌, ◌%◌, ◌<◌, ◌≤◌, ◌≡◌, ◌≢◌, refl, String, false, List, [], ◌∷◌, ◌++◌, none, some,
  ok, err, generic_err, Ensures, all, any, filter, length, run_calls, checked_add, checked_mul,
  lookup, insert,
}
use secret_finance_rewards.Scrt.Types.{HumanAddr, Binary}
use secret_finance_rewards.Scrt.Bytes.{same_bytes, same_bytes_iff}
use secret_finance_rewards.Scrt.Chain.{Env}
use secret_finance_rewards.Scrt.ViewingKey.{to_be_bytes}
use secret_finance_rewards.GovToken.ViewingKey.{new_viewing_key, to_hashed, check_viewing_key}
use secret_finance_rewards.GovToken.Msg.{
  InitialBalance, InitMsg, ContractStatusLevel, HandleMsg, ResponseStatus, HandleAnswer, QueryMsg,
  spaces, space_pad, status_level_to_u8, u8_to_status_level,
}
use secret_finance_rewards.GovToken.State.{
  Deps, append_tx, store_transfer, into_humanized, rev_onto, skip, take, collect, get_transfers,
  contract_status, set_status, without_minters, load_or, account_amount, set_account_balance,
  read_allowance, write_allowance, write_viewing_key, read_viewing_key, set_receiver_hash,
  get_receiver_hash,
}
use secret_finance_rewards.GovToken.Handle.{
  Externals, Outcome, Padded, sub_or, add_or, check_if_admin, perform_transfer, spend_allowance,
  burn_of, change_admin, set_contract_status, add_minters, remove_minters, set_minters,
  try_register_receive, initial_loop, is_valid_name, is_valid_symbol, fresh, init, try_mint,
  try_set_key, try_create_key, try_transfer_impl, try_transfer, into_cosmos_msg, callback_of,
  try_send, try_transfer_from_impl, try_transfer_from, try_send_from, try_burn_from, try_burn,
  try_increase_allowance, try_decrease_allowance, handle_running, handle_stopped, pad_answer,
  pad_response, handle_at, handle,
}
use secret_finance_rewards.GovToken.Query.{
  QueryAnswer, authenticated, key_opens, addresses_loop, query,
}
use secret_finance_rewards.GovToken.Books.{held, allowed}
use secret_finance_rewards.GovToken.Accounts.{handle_call, supply_covers, spending_guarded}
use secret_finance_rewards.GovToken.Stopped.{stop_holds}
use secret_finance_rewards.GovToken.Keys.{set_key_reads, answers_padded}

program : Unit {0}
unfolding all any filter run_calls checked_add checked_mul lookup insert same_bytes to_be_bytes
    new_viewing_key to_hashed check_viewing_key spaces space_pad status_level_to_u8
    u8_to_status_level append_tx store_transfer into_humanized rev_onto skip take collect
    get_transfers contract_status set_status without_minters load_or account_amount
    set_account_balance read_allowance write_allowance write_viewing_key read_viewing_key
    set_receiver_hash get_receiver_hash sub_or add_or check_if_admin perform_transfer
    spend_allowance burn_of change_admin set_contract_status add_minters remove_minters set_minters
    try_register_receive initial_loop is_valid_name is_valid_symbol fresh init try_mint try_set_key
    try_create_key try_transfer_impl try_transfer into_cosmos_msg callback_of try_send
    try_transfer_from_impl try_transfer_from try_send_from try_burn_from try_burn
    try_increase_allowance try_decrease_allowance handle_running handle_stopped pad_answer
    pad_response handle_at handle authenticated key_opens addresses_loop query
program = tt

-- The bytes of a text are its length, that many times an `A`.
abbrev as_of : ℕ → Binary
as_of zero = []
as_of (suc n) = 65 ∷ as_of n

abbrev externals : Externals
externals = record {
  crypto = record {
    sha_256 = λ bytes. bytes;
    chacha = λ bytes. bytes;
    base64_encode = λ bytes. "key";
    as_bytes = λ text. as_of (len text);
    ct_eq = same_bytes;
    ct_eq_iff = same_bytes_iff;
  };
  api = record { canonical_address = λ a. ok a; human_address = λ a. ok a };
  to_binary = λ answer. 1 ∷ 2 ∷ [];
  receive_to_binary = λ msg. 3 ∷ [];
}

abbrev env_of : String → Env
env_of sender = record {
  sender = sender;
  height = 7;
  time = 70;
  contract_address = "token";
  contract_code_hash = "code";
}

abbrev given : HumanAddr → ℕ → InitialBalance
given address amount = record { address = address; amount = amount }

abbrev init_of : List InitialBalance → InitMsg
init_of balances = record {
  name = "governance";
  admin = none;
  symbol = "SEFI";
  decimals = 6;
  initial_balances = some balances;
  prng_seed = 1 ∷ [];
  config = none;
}

abbrev start_of : ℕ → Deps
start_of supply = record {
  constants = record {
    name = "governance";
    admin = "admin";
    symbol = "SEFI";
    decimals = 6;
    prng_seed = 1 ∷ [];
    total_supply_is_public = false;
  };
  total_supply = supply;
  contract_status = 0;
  minters = "admin" ∷ [];
  tx_count = 0;
  balances = ("alice", 30) ∷ ("bob", 12) ∷ [];
  allowances = [];
  transfers = [];
  viewing_keys = [];
  receivers = [];
}

abbrev balances : List InitialBalance
balances = given "alice" 30 ∷ given "bob" 12 ∷ []

init_sums : init externals (env_of "admin") (init_of balances) ≡ ok (start_of 42)
unfolding program
init_sums = refl

-- An address that is given twice counts twice in the supply, and keeps its last amount.
init_repeated :
    init externals (env_of "admin") (init_of (given "alice" 8 ∷ balances)) ≡ ok (start_of 50)
unfolding program
init_repeated = refl

-- A transfer, an allowance, two uses of it of which the second is too large, a mint by a stranger,
-- and one by the admin.
abbrev calls : List (Env × HandleMsg)
calls =
    (env_of "alice", HandleMsg.transfer "bob" 10)
    ∷ (env_of "bob", HandleMsg.increase_allowance "eve" 5 none)
    ∷ (env_of "eve", HandleMsg.transfer_from "bob" "eve" 3)
    ∷ (env_of "eve", HandleMsg.burn_from "bob" 3)
    ∷ (env_of "eve", HandleMsg.mint "eve" 99)
    ∷ (env_of "admin", HandleMsg.mint "bob" 1)
    ∷ []

calls_balances :
    (run_calls (handle_call externals) calls (start_of 42)).balances
    ≡ ("alice", 20) ∷ ("bob", 20) ∷ ("eve", 3) ∷ []
unfolding program
calls_balances = refl

-- The level that leaves redemptions on leaves nothing on: the token has no redemption.
redeems_stopped :
    handle externals
      (record (start_of 42) { contract_status = 1 })
      (env_of "alice")
      (HandleMsg.transfer "bob" 10)
    ≡ err (generic_err "This contract is stopped and this action is not allowed" [])
unfolding program
redeems_stopped = refl

-- The newest transfer comes first.
abbrev history : QueryMsg
history = QueryMsg.transfer_history "alice" "opens" none 1

abbrev transfers : List (Env × HandleMsg)
transfers =
    (env_of "alice", HandleMsg.set_viewing_key "opens")
    ∷ (env_of "alice", HandleMsg.transfer "bob" 10)
    ∷ (env_of "bob", HandleMsg.transfer "alice" 4)
    ∷ []

newest_transfer_first :
    query externals (run_calls (handle_call externals) transfers (start_of 42)) history
    ≡ ok (
        QueryAnswer.transfer_history (
          record {
            id = 2;
            from = "bob";
            sender = "bob";
            receiver = "alice";
            coins = record { denom = "SEFI"; amount = 4 };
          }
          ∷ []))
unfolding program
newest_transfer_first = refl

supply_covers_example :
    let d = run_calls (handle_call externals) calls (start_of 42) in
    (held d ≤ d.total_supply) × (held d + 42 ≡ held (start_of 42) + d.total_supply)
supply_covers_example =
    supply_covers externals (env_of "admin") (init_of balances) {d0 = start_of 42} init_sums calls

abbrev allowing : Deps
allowing = record (start_of 42) {
  allowances = ("bob", ("eve", record { amount = 5; expiration = none }) ∷ []) ∷ [];
}

spending_guarded_example :
    Ensures
      (λ o.
        account_amount allowing "bob" + allowed o.0 "bob" "eve"
        ≤ account_amount o.0 "bob" + allowed allowing "bob" "eve")
      (handle externals allowing (env_of "eve") (HandleMsg.transfer_from "bob" "eve" 3))
spending_guarded_example =
    spending_guarded externals allowing (env_of "eve") (HandleMsg.transfer_from "bob" "eve" 3) "eve"
      "bob" refl refl

abbrev stopped : Outcome
stopped = (
  record (start_of 42) { contract_status = 2 },
  record {
    messages = [];
    log = [];
    answer = some (HandleAnswer.set_contract_status ResponseStatus.success);
  },
)

stopped_by_admin :
    set_contract_status (start_of 42) (env_of "admin") ContractStatusLevel.stop_all ≡ ok stopped
unfolding program
stopped_by_admin = refl

stop_is_not_normal : ContractStatusLevel.stop_all ≢ ContractStatusLevel.normal_run
stop_is_not_normal e = absurd (cc)

stop_holds_example :
    run_calls (handle_call externals) ((env_of "alice", HandleMsg.transfer "bob" 10) ∷ []) stopped.0
    ≡ stopped.0
stop_holds_example =
    stop_holds externals (start_of 42) (env_of "admin") ContractStatusLevel.stop_all {o = stopped}
      stopped_by_admin stop_is_not_normal ((env_of "alice", HandleMsg.transfer "bob" 10) ∷ [])
      (refl, tt)

start_runs : contract_status (start_of 42) ≡ ok ContractStatusLevel.normal_run
unfolding program
start_runs = refl

set_key_reads_example :
    (o : Padded) × (handle externals
        (start_of 42)
        (env_of "alice")
        (HandleMsg.set_viewing_key "opens")
      ≡ ok o)
    × (query externals o.0 (QueryMsg.balance "alice" "opens")
        ≡ ok (QueryAnswer.balance (account_amount (start_of 42) "alice")))
set_key_reads_example =
    set_key_reads externals (start_of 42) (env_of "alice") "opens" "alice" start_runs refl

answers_padded_example :
    Ensures
      (λ o.
        (bytes : Binary)
        → o.1.answer ≡ some bytes
        → (length bytes % 256 ≡ 0)
          × ((answer : HandleAnswer) × ((n : ℕ) × (n < 256)
                × (bytes ≡ externals.to_binary answer ++ spaces n))))
      (handle externals (start_of 42) (env_of "alice") (HandleMsg.burn 3))
answers_padded_example = answers_padded externals (start_of 42) (env_of "alice") (HandleMsg.burn 3)
