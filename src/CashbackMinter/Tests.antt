-- ===== src/CashbackMinter/Tests.antt =====
-- Runs of contracts/cashback-minter at concrete inputs, and a theorem at inputs that meet its
-- hypotheses.
use secret_finance_rewards.Common.{
  ℕ, ◌≡◌, refl, String, List, [], ◌∷◌, some, ok, err, generic_err, ltb, if◌then◌else◌, lookup,
  insert, remove, run_calls,
}
use secret_finance_rewards.Scrt.Chain.{Env, CosmosMsg}
use secret_finance_rewards.CashbackMinter.Asset.{AssetInfo, Asset, PairInfo}
use secret_finance_rewards.CashbackMinter.Msg.{InitMsg, HandleMsg}
use secret_finance_rewards.CashbackMinter.Handle.{
  Externals, Deps, success, enforce_admin, remove_pairs_from_storage, remove_pairs, set_admin,
  is_scrt, set_pairs_to_storage, init_pairs, init, get_eligibility, receive_swap_data, add_pairs,
  handle, query,
}
use secret_finance_rewards.CashbackMinter.Pairs.{handle_call, Minted, cashback_for_scrt}

program : Unit {0}
unfolding lookup insert remove run_calls enforce_admin remove_pairs_from_storage remove_pairs
    set_admin is_scrt set_pairs_to_storage init_pairs init get_eligibility receive_swap_data
    add_pairs handle query
program = tt

abbrev token_at : String → AssetInfo
token_at address = AssetInfo.token address "code" "key"

abbrev info_of : AssetInfo → PairInfo
info_of other = record {
  asset_infos = (other, token_at "sefi");
  contract_addr = "pair";
  liquidity_token = "lp";
  token_code_hash = "code";
  asset0_volume = 0;
  asset1_volume = 0;
  factory = record { address = "factory"; code_hash = "code" };
}

-- Every contract answers as a pair of SCRT and SEFI.
abbrev externals : Externals
externals = record {
  to_lowercase = λ text. "uscrt";
  query_pair = λ pair hash. ok (info_of (token_at "sscrt"));
}

-- No pair has SCRT on a side.
abbrev other_externals : Externals
other_externals = record externals { query_pair = λ pair hash. ok (info_of (token_at "eth")) }

abbrev env_of : String → Env
env_of sender = record {
  sender = sender;
  height = 7;
  time = 70;
  contract_address = "minter";
  contract_code_hash = "code";
}

abbrev init_msg : InitMsg
init_msg = record {
  sscrt_addr = "sscrt";
  pairs = some ("pair" ∷ []);
  pair_contract_hash = some "pair code";
  cashback = record { address = "cashback"; contract_hash = "code" };
}

abbrev start : Deps
start = record {
  sscrt = "sscrt";
  cashback = init_msg.cashback;
  admin = "admin";
  paired_tokens = ("pair", 1 ∷ []) ∷ [];
}

started : init externals (env_of "admin") init_msg ≡ ok start
unfolding program
started = refl

init_refuses :
    init other_externals (env_of "admin") init_msg
    ≡ err (generic_err "one of the sides of the pair has to be SCRT" [])
unfolding program
init_refuses = refl

abbrev calls : List (Env × HandleMsg)
calls =
    (env_of "admin", HandleMsg.add_pairs ("second" ∷ "third" ∷ []) "pair code")
    ∷ (env_of "eve", HandleMsg.add_pairs ("eve" ∷ []) "pair code")
    ∷ (env_of "admin", HandleMsg.remove_pairs ("second" ∷ []))
    ∷ []

calls_pair :
    (run_calls (handle_call externals) calls start).paired_tokens
    ≡ ("pair", 1 ∷ []) ∷ ("third", 1 ∷ []) ∷ []
unfolding program
calls_pair = refl

abbrev asset_in : Asset
asset_in = record { info = token_at "sefi"; amount = 5 }

abbrev asset_out : Asset
asset_out = record { info = AssetInfo.native_token "uSCRT"; amount = 8 }

swap_mints :
    handle externals start (env_of "pair") (HandleMsg.receive_swap_data asset_in asset_out "alice")
    ≡ ok (start, success (CosmosMsg.mint "alice" 8 256 init_msg.cashback ∷ []))
unfolding program
swap_mints = refl

stranger_mints_nothing :
    handle externals start (env_of "eve") (HandleMsg.receive_swap_data asset_in asset_out "eve")
    ≡ ok (start, success [])
unfolding program
stranger_mints_nothing = refl

cashback_for_scrt_example :
    let d = run_calls (handle_call externals) calls start in
    (amount : ℕ) × (handle externals d
        (env_of "pair")
        (HandleMsg.receive_swap_data asset_in asset_out "alice")
      ≡ ok (
        d,
        success (if ltb 0 amount then CosmosMsg.mint "alice" amount 256 d.cashback ∷ [] else []),
      ))
    × Minted externals "sscrt" d (env_of "pair") asset_in asset_out amount
cashback_for_scrt_example =
    cashback_for_scrt externals (env_of "admin") init_msg {d0 = start} started calls (env_of "pair")
      asset_in asset_out "alice"
