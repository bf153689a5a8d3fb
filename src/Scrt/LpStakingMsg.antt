-- ===== src/Scrt/LpStakingMsg.antt =====
-- packages/scrt-finance/src/lp_staking_msg.rs: the messages of the staking contract.
use secret_finance_rewards.Common.{ℕ, String, Bool, List, Option}
use secret_finance_rewards.Scrt.Types.{HumanAddr, Binary, SecretContract, TokenInfo}

pub record LpStakingInitMsg : Type 0 where
  pub reward_token : SecretContract
  pub inc_token : SecretContract
  pub reward_sources : List SecretContract
  pub viewing_key : String
  pub token_info : TokenInfo
  pub prng_seed : Binary
  pub subscribers : Option (List SecretContract)

pub data LpStakingHookMsg : Type 0 where
  deposit : (from : HumanAddr) (amount : ℕ) → LpStakingHookMsg
  redeem : (to : HumanAddr) (amount : Option ℕ) → LpStakingHookMsg

pub data LpStakingReceiveMsg : Type 0 where
  deposit : LpStakingReceiveMsg

pub data LpStakingHandleMsg : Type 0 where
  redeem : (amount : Option ℕ) → LpStakingHandleMsg
  create_viewing_key : (entropy : String) (padding : Option String) → LpStakingHandleMsg
  set_viewing_key : (key : String) (padding : Option String) → LpStakingHandleMsg
  emergency_redeem : LpStakingHandleMsg
  receive : (sender from : HumanAddr) (amount : ℕ) (msg : Binary) → LpStakingHandleMsg
  stop_contract : LpStakingHandleMsg
  resume_contract : LpStakingHandleMsg
  change_admin : (address : HumanAddr) → LpStakingHandleMsg
  add_subs : (contracts : List SecretContract) → LpStakingHandleMsg
  remove_subs : (contracts : List HumanAddr) → LpStakingHandleMsg
  add_reward_sources : (contracts : List SecretContract) → LpStakingHandleMsg
  remove_reward_sources : (contracts : List HumanAddr) → LpStakingHandleMsg
  notify_allocation : (amount : ℕ) → LpStakingHandleMsg
  self_callback : (message : LpStakingHookMsg) → LpStakingHandleMsg

pub data LpStakingResponseStatus : Type 0 where
  success failure : LpStakingResponseStatus

-- The answers of the handlers. The two of `LPStakingReceiveAnswer` stand last.
pub data LpStakingHandleAnswer : Type 0 where
  redeem : (status : LpStakingResponseStatus) → LpStakingHandleAnswer
  create_viewing_key : (key : String) → LpStakingHandleAnswer
  set_viewing_key : (status : LpStakingResponseStatus) → LpStakingHandleAnswer
  stop_contract : (status : LpStakingResponseStatus) → LpStakingHandleAnswer
  resume_contract : (status : LpStakingResponseStatus) → LpStakingHandleAnswer
  change_admin : (status : LpStakingResponseStatus) → LpStakingHandleAnswer
  set_deadline : (status : LpStakingResponseStatus) → LpStakingHandleAnswer
  claim_reward_pool : (status : LpStakingResponseStatus) → LpStakingHandleAnswer
  emergency_redeem : (status : LpStakingResponseStatus) → LpStakingHandleAnswer
  add_subs : (status : LpStakingResponseStatus) → LpStakingHandleAnswer
  remove_subs : (status : LpStakingResponseStatus) → LpStakingHandleAnswer
  add_reward_sources : (status : LpStakingResponseStatus) → LpStakingHandleAnswer
  remove_reward_sources : (status : LpStakingResponseStatus) → LpStakingHandleAnswer
  receive_deposit : (status : LpStakingResponseStatus) → LpStakingHandleAnswer
  receive_deposit_rewards : (status : LpStakingResponseStatus) → LpStakingHandleAnswer

pub data LpStakingQueryMsg : Type 0 where
  token_info : LpStakingQueryMsg
  admin : LpStakingQueryMsg
  contract_status : LpStakingQueryMsg
  reward_token : LpStakingQueryMsg
  incentivized_token : LpStakingQueryMsg
  total_locked : LpStakingQueryMsg
  subscribers : LpStakingQueryMsg
  reward_sources : LpStakingQueryMsg
  rewards : (address : HumanAddr) (key : String) (height : ℕ) → LpStakingQueryMsg
  balance : (address : HumanAddr) (key : String) → LpStakingQueryMsg

pub data LpStakingQueryAnswer : Type 0 where
  token_info :
      (name symbol : String) (decimals : ℕ) (total_supply : Option ℕ) → LpStakingQueryAnswer
  admin : (address : HumanAddr) → LpStakingQueryAnswer
  rewards : (rewards : ℕ) → LpStakingQueryAnswer
  balance : (amount : ℕ) → LpStakingQueryAnswer
  contract_status : (is_stopped : Bool) → LpStakingQueryAnswer
  reward_token : (token : SecretContract) → LpStakingQueryAnswer
  incentivized_token : (token : SecretContract) → LpStakingQueryAnswer
  total_locked : (amount : ℕ) → LpStakingQueryAnswer
  subscribers : (contracts : List SecretContract) → LpStakingQueryAnswer
  reward_sources : (contracts : List SecretContract) → LpStakingQueryAnswer
  query_error : (msg : String) → LpStakingQueryAnswer
