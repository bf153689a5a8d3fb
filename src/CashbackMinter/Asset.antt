-- ===== src/CashbackMinter/Asset.antt =====
-- contracts/cashback-minter/src/asset.rs and querier.rs: the assets of a swap, and what a pair
-- answers.
use secret_finance_rewards.Common.{ℕ, String}
use secret_finance_rewards.Scrt.Types.{HumanAddr}

pub data AssetInfo : Type 0 where
  token : (contract_addr : HumanAddr) (token_code_hash viewing_key : String) → AssetInfo
  native_token : (denom : String) → AssetInfo

pub record Asset : Type 0 where
  pub info : AssetInfo
  pub amount : ℕ

pub record Factory : Type 0 where
  pub address : HumanAddr
  pub code_hash : String

pub record PairInfo : Type 0 where
  pub asset_infos : AssetInfo × AssetInfo
  pub contract_addr : HumanAddr
  pub liquidity_token : HumanAddr
  pub token_code_hash : String
  pub asset0_volume : ℕ
  pub asset1_volume : ℕ
  pub factory : Factory
