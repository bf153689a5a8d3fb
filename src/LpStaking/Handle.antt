-- ===== src/LpStaking/Handle.antt =====
-- contracts/lp-staking/src/contract.rs: `init`, and `handle` with the handlers that it calls.
use secret_finance_rewards.Common.{
  ℕ, false, not, List, [], ◌∷◌, ◌++◌, map, Option, none, some, Result, ok, err, ◌>>=◌, ◌>>◌, err_if,
  generic_err, unauthorized, words, str_eq, if◌then◌else◌, unwrap_or,
}
use secret_finance_rewards.Scrt.Types.{HumanAddr, Binary, SecretContract}
use secret_finance_rewards.Scrt.Chain.{Env, CosmosMsg, Payload}
use secret_finance_rewards.Scrt.ViewingKey.{Crypto}
use secret_finance_rewards.Scrt.MasterMsg.{MasterHandleMsg}
use secret_finance_rewards.Scrt.LpStakingMsg.{
  LpStakingInitMsg, LpStakingHandleMsg, LpStakingHookMsg, LpStakingReceiveMsg,
}
use secret_finance_rewards.LpStaking.State.{Config, Deps, Response, Outcome, response_block_size}
use secret_finance_rewards.LpStaking.Rewards.{deposit_hook, redeem_hook, emergency_redeem}
use secret_finance_rewards.LpStaking.Admin.{
  notify_allocation, create_viewing_key, set_viewing_key, stop_contract, resume_contract,
  change_admin, add_subscribers, remove_subscribers, add_reward_sources, remove_reward_sources,
}

-- What the contract calls of other packages.
pub record Externals : Type 0 where
  pub crypto : Crypto
  -- `from_binary::<LPStakingReceiveMsg>`
  pub from_binary : Binary → Result LpStakingReceiveMsg
  -- `pad_handle_result` with its block size, on the response of a call that returns.
  pub pad_response : ℕ → Response → Response

unfoldable pub init : Crypto → Env → LpStakingInitMsg → Deps × List CosmosMsg
init c env msg = (
  record {
    config = record {
      admin = env.sender;
      reward_token = msg.reward_token;
      inc_token = msg.inc_token;
      reward_sources = msg.reward_sources;
      viewing_key = msg.viewing_key;
      prng_seed = c.sha_256 msg.prng_seed;
      is_stopped = false;
      own_addr = env.contract_address;
    };
    reward_pool = record { residue = 0; inc_token_supply = 0; acc_reward_per_share = 0 };
    token_info = msg.token_info;
    subscribers = unwrap_or msg.subscribers [];
    users = [];
    viewing_keys = [];
  },
  CosmosMsg.register_receive env.contract_code_hash 1 msg.reward_token
      ∷ CosmosMsg.register_receive env.contract_code_hash 1 msg.inc_token
      ∷ CosmosMsg.set_viewing_key msg.viewing_key response_block_size msg.reward_token
      ∷ CosmosMsg.set_viewing_key msg.viewing_key response_block_size msg.inc_token
      ∷ [],
)

-- Asks one reward source for this contract's allocation.
unfoldable pub ask_source : Env → SecretContract → CosmosMsg
ask_source env rs =
    CosmosMsg.execute rs.address rs.contract_hash (
      Payload.master
        (MasterHandleMsg.update_allocation env.contract_address env.contract_code_hash))

-- The call of this contract by itself that runs a hook.
unfoldable pub call_self : Env → LpStakingHookMsg → CosmosMsg
call_self env cb =
    CosmosMsg.execute env.contract_address env.contract_code_hash
      (Payload.lp_staking (LpStakingHandleMsg.self_callback cb))

unfoldable pub callback_msgs : Env → Option LpStakingHookMsg → List CosmosMsg
callback_msgs env none = []
callback_msgs env (some cb) = call_self env cb ∷ []

unfoldable pub update_allocation : Env → Config → Option LpStakingHookMsg → Result Response
update_allocation env config self_callback = ok (record {
  messages = map (ask_source env) config.reward_sources ++ callback_msgs env self_callback;
  log = [];
  answer = none;
})

unfoldable pub deposit : Deps → Env → HumanAddr → ℕ → Result Outcome
deposit d env from amount = do
  err_if (not (str_eq env.sender d.config.inc_token.address)) (
      generic_err "This token is not supported. Supported: {}, given: {}"
        (words d.config.inc_token.address ∷ words env.sender ∷ []))
  r ← update_allocation env d.config (some (LpStakingHookMsg.deposit from amount))
  ok (d, r)

unfoldable pub redeem : Deps → Env → Option ℕ → Result Outcome
redeem d env amount = do
  r ← update_allocation env d.config (some (LpStakingHookMsg.redeem env.sender amount))
  ok (d, r)

unfoldable pub run_hook : Deps → Env → LpStakingHookMsg → Result Outcome
run_hook d env (LpStakingHookMsg.deposit from amount) =
    deposit_hook d env d.config d.reward_pool from amount
run_hook d env (LpStakingHookMsg.redeem to amount) =
    redeem_hook d env d.config d.reward_pool to amount

unfoldable pub self_callback : Deps → Env → LpStakingHookMsg → Result Outcome
self_callback d env message = do
  err_if (not (str_eq env.sender env.contract_address)) unauthorized
  run_hook d env message

unfoldable pub receive_msg : Deps → Env → HumanAddr → ℕ → LpStakingReceiveMsg → Result Outcome
receive_msg d env from amount LpStakingReceiveMsg.deposit = deposit d env from amount

module _ (x : Externals) where
  unfoldable pub receive : Deps → Env → HumanAddr → ℕ → Binary → Result Outcome
  receive d env from amount msg = do m ← x.from_binary msg; receive_msg d env from amount m

  -- The `match` of a contract that is stopped.
  unfoldable pub handle_stopped : Deps → Env → LpStakingHandleMsg → Result Outcome
  handle_stopped d env LpStakingHandleMsg.emergency_redeem = emergency_redeem d env
  handle_stopped d env LpStakingHandleMsg.resume_contract = resume_contract d env
  handle_stopped d env _ =
      err (generic_err "this contract is stopped and this action is not allowed" [])

  -- The `match` of a running contract.
  unfoldable pub handle_running : Deps → Env → LpStakingHandleMsg → Result Outcome
  handle_running d env (LpStakingHandleMsg.redeem amount) = redeem d env amount
  handle_running d env (LpStakingHandleMsg.receive sender from amount msg) =
      receive d env from amount msg
  handle_running d env (LpStakingHandleMsg.create_viewing_key entropy padding) =
      create_viewing_key x.crypto d env entropy
  handle_running d env (LpStakingHandleMsg.set_viewing_key key padding) =
      set_viewing_key x.crypto d env key
  handle_running d env LpStakingHandleMsg.stop_contract = stop_contract d env
  handle_running d env (LpStakingHandleMsg.change_admin address) = change_admin d env address
  handle_running d env (LpStakingHandleMsg.notify_allocation amount) =
      notify_allocation d env amount
  handle_running d env (LpStakingHandleMsg.add_subs contracts) = add_subscribers d env contracts
  handle_running d env (LpStakingHandleMsg.remove_subs contracts) =
      remove_subscribers d env contracts
  handle_running d env (LpStakingHandleMsg.add_reward_sources contracts) =
      add_reward_sources d env contracts
  handle_running d env (LpStakingHandleMsg.remove_reward_sources contracts) =
      remove_reward_sources d env contracts
  handle_running d env (LpStakingHandleMsg.self_callback message) = self_callback d env message
  handle_running d env _ = err (generic_err "Unavailable or unknown action" [])

  unfoldable pub handle : Deps → Env → LpStakingHandleMsg → Result Outcome
  handle d env msg =
      if d.config.is_stopped
      then handle_stopped d env msg
      else (do (d', r) ← handle_running d env msg; ok (d', x.pad_response response_block_size r))
