-- ===== src/GovToken/State.antt =====
-- contracts/gov-token/src/state.rs: the stored values, one field for each key or prefix. A number is
-- kept as such where the source stores its bytes. An allowance is found by its owner, then its
-- spender; the history of an account is its transfers from the first.
use secret_finance_rewards.Common.{
  ℕ, zero, suc, String, Bool, not, List, [], ◌∷◌, ◌++◌, Option, none, some, Result, ok, err, ◌>>=◌,
  panicked, str_eq, filter, unwrap_or, u32, u64, checked_add, checked_mul, Dict, lookup, insert,
  if◌then◌else◌,
}
use secret_finance_rewards.Scrt.Types.{HumanAddr, Binary}
use secret_finance_rewards.GovToken.Msg.{
  ContractStatusLevel, status_level_to_u8, u8_to_status_level,
}

-- `CanonicalAddr`, which the stores compare and nothing takes apart.
abbrev pub CanonicalAddr : Type 0
CanonicalAddr = String

-- `Api`: addresses and their canonical forms.
pub record Api : Type 0 where
  pub canonical_address : HumanAddr → Result CanonicalAddr
  pub human_address : CanonicalAddr → Result HumanAddr

pub record Coin : Type 0 where
  pub denom : String
  pub amount : ℕ

pub record Tx : Type 0 where
  pub id : ℕ
  pub from : HumanAddr
  pub sender : HumanAddr
  pub receiver : HumanAddr
  pub coins : Coin

pub record StoredTx : Type 0 where
  pub id : ℕ
  pub from : CanonicalAddr
  pub sender : CanonicalAddr
  pub receiver : CanonicalAddr
  pub coins : Coin

pub record Constants : Type 0 where
  pub name : String
  pub admin : HumanAddr
  pub symbol : String
  pub decimals : ℕ
  pub prng_seed : Binary
  pub total_supply_is_public : Bool

pub record Allowance : Type 0 where
  pub amount : ℕ
  pub expiration : Option ℕ

-- The storage after `init`.
pub record Deps : Type 0 where
  pub constants : Constants
  pub total_supply : ℕ
  pub contract_status : ℕ
  pub minters : List HumanAddr
  pub tx_count : ℕ
  pub balances : Dict ℕ
  pub allowances : Dict (Dict Allowance)
  pub transfers : Dict (List StoredTx)
  pub viewing_keys : Dict Binary
  pub receivers : Dict String

unfoldable pub into_humanized : Api → StoredTx → Result Tx
into_humanized api tx = do
  from ← api.human_address tx.from
  sender ← api.human_address tx.sender
  receiver ← api.human_address tx.receiver
  ok (record { id = tx.id; from = from; sender = sender; receiver = receiver; coins = tx.coins })

-- The entry of an address, or a default.
unfoldable pub load_or {ℓ} : {V : Type ℓ} → V → String → Dict V → V
load_or default key m = unwrap_or (lookup key m) default

unfoldable pub append_tx : Deps → StoredTx → CanonicalAddr → Deps
append_tx d tx for_address = record d {
  transfers = insert for_address (load_or [] for_address d.transfers ++ (tx ∷ [])) d.transfers;
}

unfoldable pub store_transfer :
    Deps → CanonicalAddr → CanonicalAddr → CanonicalAddr → ℕ → String → Result Deps
store_transfer d owner sender receiver amount denom = do
  id ← checked_add u64 d.tx_count 1
  let tx : StoredTx = record {
    id = id;
    from = owner;
    sender = sender;
    receiver = receiver;
    coins = record { denom = denom; amount = amount };
  }
  let counted = record d { tx_count = id }
  let of_owner = if not (str_eq owner sender) then append_tx counted tx owner else counted
  ok (append_tx (append_tx of_owner tx sender) tx receiver)

-- `iter().rev()`, `skip(n)` and `take(n)`
unfoldable pub rev_onto {ℓ} : {A : Type ℓ} → List A → List A → List A
rev_onto [] acc = acc
rev_onto (x ∷ xs) acc = rev_onto xs (x ∷ acc)

unfoldable pub skip {ℓ} : {A : Type ℓ} → ℕ → List A → List A
skip zero xs = xs
skip (suc n) [] = []
skip (suc n) (x ∷ xs) = skip n xs

unfoldable pub take {ℓ} : {A : Type ℓ} → ℕ → List A → List A
take zero xs = []
take (suc n) [] = []
take (suc n) (x ∷ xs) = x ∷ take n xs

-- `collect()` of results.
unfoldable pub collect {ℓ} : {A B : Type ℓ} → (A → Result B) → List A → Result (List B)
collect f [] = ok []
collect f (x ∷ xs) = do y ← f x; ys ← collect f xs; ok (y ∷ ys)

unfoldable pub get_transfers : Api → Deps → CanonicalAddr → ℕ → ℕ → Result (List Tx)
get_transfers api d for_address page page_size = elim (lookup for_address d.transfers) [
  | none ↦ ok []
  | some txs ↦ do
    skipped ← checked_mul u32 page page_size
    collect (into_humanized api) (take page_size (skip skipped (rev_onto txs [])))
]

-- `contract_status`, whose stored byte was written by `set_contract_status`.
unfoldable pub contract_status : Deps → Result ContractStatusLevel
contract_status d = elim (u8_to_status_level d.contract_status) [
  | ok level ↦ ok level
  | err e ↦ err panicked
]

unfoldable pub set_status : Deps → ContractStatusLevel → Deps
set_status d level = record d { contract_status = status_level_to_u8 level }

unfoldable pub without_minters : List HumanAddr → List HumanAddr → List HumanAddr
without_minters minters [] = minters
without_minters minters (minter ∷ rest) =
    without_minters (filter (λ x. not (str_eq x minter)) minters) rest

unfoldable pub account_amount : Deps → CanonicalAddr → ℕ
account_amount d account = load_or 0 account d.balances

unfoldable pub set_account_balance : Deps → CanonicalAddr → ℕ → Deps
set_account_balance d account amount = record d { balances = insert account amount d.balances }

unfoldable pub read_allowance : Deps → CanonicalAddr → CanonicalAddr → Allowance
read_allowance d owner spender =
    load_or (record { amount = 0; expiration = none }) spender (load_or [] owner d.allowances)

unfoldable pub write_allowance : Deps → CanonicalAddr → CanonicalAddr → Allowance → Deps
write_allowance d owner spender allowance = record d {
  allowances = insert owner (insert spender allowance (load_or [] owner d.allowances)) d.allowances;
}

unfoldable pub write_viewing_key : Deps → CanonicalAddr → Binary → Deps
write_viewing_key d owner hashed = record d { viewing_keys = insert owner hashed d.viewing_keys }

unfoldable pub read_viewing_key : Deps → CanonicalAddr → Option Binary
read_viewing_key d owner = lookup owner d.viewing_keys

unfoldable pub set_receiver_hash : Deps → HumanAddr → String → Deps
set_receiver_hash d account code_hash = record d {
  receivers = insert account code_hash d.receivers;
}

unfoldable pub get_receiver_hash : Deps → HumanAddr → Option String
get_receiver_hash d account = lookup account d.receivers
