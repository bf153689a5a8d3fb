-- ===== src/GovToken/Handle/Start.antt =====
-- contracts/gov-token/src/contract.rs: `init`.
use secret_finance_rewards.Common.{
  String, Bool, false, not, ◌&&◌, List, [], ◌∷◌, Option, none, some, Result, ok, ◌>>=◌, ◌>>◌,
  err_if, generic_err, ltb, leb, all, length, unwrap_or,
}
use secret_finance_rewards.Scrt.Chain.{Env}
use secret_finance_rewards.GovToken.Msg.{
  InitialBalance, InitConfig, InitMsg, ContractStatusLevel, status_level_to_u8,
}
use secret_finance_rewards.GovToken.State.{Deps, set_account_balance}
use secret_finance_rewards.GovToken.Handle.Steps.{Externals, add_or}

module _ (x : Externals) where
  -- The balances and their sum; an address that is given twice keeps its last amount.
  unfoldable pub initial_loop : List InitialBalance → Deps → Result Deps
  initial_loop [] d = ok d
  initial_loop (balance ∷ rest) d = do
    balance_address ← x.api.canonical_address balance.address
    total_supply ←
        add_or
          (generic_err "The sum of all initial balances exceeds the maximum possible total supply"
            [])
          d.total_supply balance.amount
    initial_loop rest (record (set_account_balance d balance_address balance.amount) {
      total_supply = total_supply;
    })

  unfoldable pub is_valid_name : String → Bool
  is_valid_name name = let len = length (x.crypto.as_bytes name) in leb 3 len && leb len 30

  unfoldable pub is_valid_symbol : String → Bool
  is_valid_symbol symbol =
      let len = length (x.crypto.as_bytes symbol) in
      (leb 3 len && leb len 6)
      && all (λ byte. leb 65 byte && leb byte 90) (x.crypto.as_bytes symbol)

  public_total_supply : Option InitConfig → Bool
  public_total_supply none = false
  public_total_supply (some config) = unwrap_or config.public_total_supply false

  -- The storage before any balance.
  unfoldable pub fresh : Env → InitMsg → Deps
  unfolding public_total_supply
  fresh env msg =
      let admin = unwrap_or msg.admin env.sender in
      record {
        constants = record {
          name = msg.name;
          admin = admin;
          symbol = msg.symbol;
          decimals = msg.decimals;
          prng_seed = x.crypto.sha_256 msg.prng_seed;
          total_supply_is_public = public_total_supply msg.config;
        };
        total_supply = 0;
        contract_status = status_level_to_u8 ContractStatusLevel.normal_run;
        minters = admin ∷ [];
        tx_count = 0;
        balances = [];
        allowances = [];
        transfers = [];
        viewing_keys = [];
        receivers = [];
      }

  unfoldable pub init : Env → InitMsg → Result Deps
  init env msg = do
    d ← initial_loop (unwrap_or msg.initial_balances []) (fresh env msg)
    err_if (not (is_valid_name msg.name))
        (generic_err "Name is not in the expected format (3-30 UTF-8 bytes)" [])
    err_if (not (is_valid_symbol msg.symbol))
        (generic_err "Ticker symbol is not in expected format [A-Z]{3,6}" [])
    err_if (ltb 18 msg.decimals) (generic_err "Decimals must not exceed 18" [])
    ok d
