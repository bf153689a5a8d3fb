-- ===== src/CashbackMinter/Handle.antt =====
-- contracts/cashback-minter/src/contract.rs and state.rs: `init`, `handle` with the handlers that it
-- calls, and the queries.
use secret_finance_rewards.Common.{
  ℕ, String, Bool, true, false, not, ◌&&◌, List, [], ◌∷◌, Option, none, some, Result, ok, err,
  ◌>>=◌, ◌>>◌, err_if, generic_err, str_eq, ltb, if◌then◌else◌, Dict, lookup, insert, remove,
}
use secret_finance_rewards.Scrt.Types.{HumanAddr, Binary, SecretContract}
use secret_finance_rewards.Scrt.Chain.{Env, CosmosMsg, HandleResponse}
use secret_finance_rewards.CashbackMinter.Asset.{AssetInfo, Asset, PairInfo}
use secret_finance_rewards.CashbackMinter.Msg.{
  InitMsg, HandleMsg, QueryMsg, QueryAnswer, ResponseStatus,
}

-- The storage after `init`.
pub record Deps : Type 0 where
  pub sscrt : HumanAddr
  pub cashback : SecretContract
  pub admin : HumanAddr
  pub paired_tokens : Dict Binary

abbrev pub Response : Type 0
Response = HandleResponse ResponseStatus

abbrev pub Outcome : Type 0
Outcome = Deps × Response

-- What the contract calls of the language's Unicode tables and of the pairs.
pub record Externals : Type 0 where
  -- `str::to_lowercase`
  pub to_lowercase : String → String
  -- `query_pair`: the pair, and its code hash.
  pub query_pair : HumanAddr → String → Result PairInfo

abbrev pub success : List CosmosMsg → Response
success messages = record { messages = messages; log = []; answer = some ResponseStatus.success }

unfoldable pub enforce_admin : Deps → Env → Result (Unit {0})
enforce_admin d env = err_if (not (str_eq d.admin env.sender)) (generic_err "not an admin!" [])

unfoldable pub remove_pairs_from_storage : List HumanAddr → Deps → Deps
remove_pairs_from_storage [] d = d
remove_pairs_from_storage (pair ∷ pairs) d =
    remove_pairs_from_storage pairs (record d { paired_tokens = remove pair d.paired_tokens })

unfoldable pub remove_pairs : Deps → Env → List HumanAddr → Result Outcome
remove_pairs d env pairs = do
  enforce_admin d env
  ok (remove_pairs_from_storage pairs d, success [])

unfoldable pub set_admin : Deps → Env → HumanAddr → Result Outcome
set_admin d env address = do enforce_admin d env; ok (record d { admin = address }, success [])

module _ (x : Externals) where
  unfoldable pub is_scrt : HumanAddr → AssetInfo → Bool
  is_scrt sscrt (AssetInfo.token contract_addr token_code_hash viewing_key) =
      str_eq contract_addr sscrt
  is_scrt sscrt (AssetInfo.native_token denom) = str_eq (x.to_lowercase denom) "uscrt"

  unfoldable pub set_pairs_to_storage : List HumanAddr → String → Deps → Result Deps
  set_pairs_to_storage [] pair_hash d = ok d
  set_pairs_to_storage (pair ∷ pairs) pair_hash d = do
    pair_info ← x.query_pair pair pair_hash
    err_if
        (not (is_scrt d.sscrt pair_info.asset_infos.0)
          && not (is_scrt d.sscrt pair_info.asset_infos.1))
        (generic_err "one of the sides of the pair has to be SCRT" [])
    set_pairs_to_storage pairs pair_hash
        (record d { paired_tokens = insert pair (1 ∷ []) d.paired_tokens })

  unfoldable pub init_pairs : Option (List HumanAddr) → Option String → Deps → Result Deps
  init_pairs none pair_contract_hash d = ok d
  init_pairs (some pairs) none d =
      err (generic_err "when providing pairs, you have to provide pair contract hash as well" [])
  init_pairs (some pairs) (some pair_hash) d = set_pairs_to_storage pairs pair_hash d

  unfoldable pub init : Env → InitMsg → Result Deps
  init env msg = init_pairs msg.pairs msg.pair_contract_hash (record {
    sscrt = msg.sscrt_addr;
    cashback = msg.cashback;
    admin = env.sender;
    paired_tokens = [];
  })

  unfoldable pub get_eligibility : Deps → Env → Asset → Asset → ℕ
  get_eligibility d env asset_in asset_out = elim (lookup env.sender d.paired_tokens) [
    | none ↦ 0
    | some mark ↦
        if is_scrt d.sscrt asset_in.info
        then asset_in.amount
        else if is_scrt d.sscrt asset_out.info
        then asset_out.amount
        else 0
  ]

  unfoldable pub receive_swap_data : Deps → Env → Asset → Asset → HumanAddr → Result Outcome
  receive_swap_data d env asset_in asset_out account =
      let amount = get_eligibility d env asset_in asset_out in
      ok (
        d,
        success (if ltb 0 amount then CosmosMsg.mint account amount 256 d.cashback ∷ [] else []),
      )

  unfoldable pub add_pairs : Deps → Env → List HumanAddr → String → Result Outcome
  add_pairs d env pairs pair_contract_hash = do
    enforce_admin d env
    d' ← set_pairs_to_storage pairs pair_contract_hash d
    ok (d', success [])

  unfoldable pub handle : Deps → Env → HandleMsg → Result Outcome
  handle d env (HandleMsg.receive_swap_data asset_in asset_out account) =
      receive_swap_data d env asset_in asset_out account
  handle d env (HandleMsg.add_pairs pairs hash) = add_pairs d env pairs hash
  handle d env (HandleMsg.remove_pairs pairs) = remove_pairs d env pairs
  handle d env (HandleMsg.set_admin address) = set_admin d env address

query_is_eligible : Deps → HumanAddr → Result QueryAnswer
query_is_eligible d pair = ok (
    QueryAnswer.is_supported
      (elim (lookup pair d.paired_tokens) [ none ↦ false | some mark ↦ true ]))

query_cashback : Deps → Result QueryAnswer
query_cashback d = ok (QueryAnswer.cashback d.cashback.address)

query_admin : Deps → Result QueryAnswer
query_admin d = ok (QueryAnswer.admin d.admin)

unfoldable pub query : Deps → QueryMsg → Result QueryAnswer
unfolding query_is_eligible query_cashback query_admin
query d (QueryMsg.is_supported pair) = query_is_eligible d pair
query d QueryMsg.cashback = query_cashback d
query d QueryMsg.admin = query_admin d
