-- ===== src/BulkDistributor/Tests.antt =====
-- Runs of contracts/bulk-distributor at concrete inputs, and the theorems at inputs that meet their
-- hypotheses.
use secret_finance_rewards.Common.{
  ℕ, ◌+◌, ◌≤◌, ◌≡◌, refl, List, [], ◌∷◌, String, none, Result, ok, err, arith, unauthorized, filter,
  checked_add, checked_mul, checked_sub, checked_div,
}
use secret_finance_rewards.Scrt.Types.{SecretContract, Binary}
use secret_finance_rewards.Scrt.Chain.{Env}
use secret_finance_rewards.BulkDistributor.Msg.{InitMsg, HandleMsg, ReceiveMsg}
use secret_finance_rewards.BulkDistributor.State.{RewardBulk, Deps, updated_reward_bulks}
use secret_finance_rewards.BulkDistributor.Rewards.{
  add_blocks, add_bulk, bulks_loop, get_spy_rewards,
}
use secret_finance_rewards.BulkDistributor.Handle.{
  init, enforce_admin, pay_spy, award, update_allocation, new_bulk_reward, change_admin,
  receive_msg, receive, handle, query_pending_rewards,
}
use secret_finance_rewards.BulkDistributor.Blocks.{awarded, get_spy_rewards-awarded}
use secret_finance_rewards.BulkDistributor.Owed.{owed}
use secret_finance_rewards.BulkDistributor.Backed.{run, after, rewards_backed}
use secret_finance_rewards.BulkDistributor.Agreement.{
  awarded_at, update_response, query_pending_rewards-update_allocation,
  update_allocation-update_allocation, update_allocation_pays,
}

program : Unit {0}
unfolding filter checked_add checked_mul checked_sub checked_div updated_reward_bulks add_blocks
    add_bulk bulks_loop get_spy_rewards init enforce_admin pay_spy award update_allocation
    new_bulk_reward change_admin receive_msg receive handle query_pending_rewards run awarded
program = tt

abbrev contract_at : String → SecretContract
contract_at address = record { address = address; contract_hash = "hash" }

abbrev init_msg : InitMsg
init_msg = record { reward_token = contract_at "sefi"; spy_to_reward = contract_at "pool" }

abbrev at_block : String → ℕ → Env
at_block sender height = record {
  sender = sender;
  height = height;
  time = 0;
  contract_address = "bulks";
  contract_code_hash = "code";
}

-- Every message asks for ten blocks.
abbrev ten_blocks : Binary → Result ReceiveMsg
ten_blocks b = ok (ReceiveMsg.new_bulk_reward 10)

abbrev bulk_of : ℕ → ℕ → RewardBulk
bulk_of end_block rate = record { end_block = end_block; amount_per_block = rate }

abbrev receive_from : String → ℕ → HandleMsg
receive_from from amount = HandleMsg.receive from from amount []

abbrev ask : HandleMsg
ask = HandleMsg.update_allocation "pool" "hash" none

-- 105 tokens for ten blocks from block 5, an update at 8, and 20 tokens for ten blocks from 12.
abbrev calls : List (Env × HandleMsg)
calls =
    (at_block "sefi" 5, receive_from "admin" 105)
    ∷ (at_block "pool" 8, ask)
    ∷ (at_block "sefi" 12, receive_from "admin" 20)
    ∷ []

abbrev two_bulks : Deps
two_bulks = (after ten_blocks (at_block "admin" 1) init_msg calls).0

two_bulks_stored : after ten_blocks (at_block "admin" 1) init_msg calls ≡ (
  record {
    state = record {
      admin = "admin";
      reward_token = contract_at "sefi";
      spy_to_reward = contract_at "pool";
      last_awarded_block = 12;
    };
    bulks = bulk_of 15 10 ∷ bulk_of 22 2 ∷ [];
  },
  record { received = 125; paid = 70 },
)
unfolding program
two_bulks_stored = refl

-- Anyone who names the admin as the sender of tokens makes a bulk: the account that calls is not
-- compared with the reward token.
forged_bulk :
    (handle ten_blocks
        (init (at_block "admin" 1) init_msg).0
        (at_block "eve" 5)
        (receive_from "admin" 1000)
      ≡ ok (
        record (awarded_at (init (at_block "admin" 1) init_msg).0 5) {
          bulks = bulk_of 15 100 ∷ [];
        },
        update_response (init (at_block "admin" 1) init_msg).0.state 0,
      ))
    × (handle ten_blocks
          (init (at_block "admin" 1) init_msg).0
          (at_block "sefi" 5)
          (receive_from "eve" 1000)
        ≡ err unauthorized)
unfolding program
forged_bulk = (refl, refl)

rewards_backed_example :
    let (d, g) = after ten_blocks (at_block "admin" 1) init_msg calls in
    (g.paid + owed d ≤ g.received) × (d.state.reward_token ≡ contract_at "sefi")
rewards_backed_example = rewards_backed ten_blocks (at_block "admin" 1) init_msg calls

update_allocation_pays_example :
    update_allocation two_bulks (at_block "pool" 20)
    ≡ ok (awarded_at two_bulks 20, update_response two_bulks.state 46)
unfolding program
update_allocation_pays_example =
    update_allocation_pays ten_blocks (at_block "admin" 1) init_msg calls (at_block "pool" 20)
      (omega arith) (omega arith)

get_spy_rewards-awarded_example : get_spy_rewards (bulk_of 15 10 ∷ bulk_of 22 2 ∷ []) 12 20 ≡ ok 46
unfolding awarded
get_spy_rewards-awarded_example =
    get_spy_rewards-awarded (bulk_of 15 10 ∷ bulk_of 22 2 ∷ []) 12 20 (omega arith) (omega arith)

query_pending_rewards-update_allocation_example :
    update_allocation two_bulks (at_block "pool" 20)
    ≡ ok (awarded_at two_bulks 20, update_response two_bulks.state 46)
unfolding program
query_pending_rewards-update_allocation_example =
    query_pending_rewards-update_allocation two_bulks (at_block "pool" 20) 46 (omega arith) refl

update_allocation-update_allocation_example :
    update_allocation (awarded_at two_bulks 20) (at_block "eve" 20)
    ≡ ok (awarded_at two_bulks 20, update_response two_bulks.state 0)
unfolding program
update_allocation-update_allocation_example =
    update_allocation-update_allocation two_bulks (at_block "pool" 20) (at_block "eve" 20)
      {o = (awarded_at two_bulks 20, update_response two_bulks.state 46)} (omega arith) refl
