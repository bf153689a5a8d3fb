-- ===== src/BulkDistributor/Rewards.antt =====
-- contracts/bulk-distributor/src/contract.rs: `get_spy_rewards`.
use secret_finance_rewards.Common.{
  ℕ, List, [], ◌∷◌, Result, ok, ◌>>=◌, ltb, if◌then◌else◌, u128, checked_add, checked_mul,
  checked_sub,
}
use secret_finance_rewards.BulkDistributor.State.{RewardBulk}

-- `amount + (to - from) as u128 * bulk.amount_per_block`
unfoldable pub add_blocks : ℕ → ℕ → ℕ → RewardBulk → Result ℕ
add_blocks amount to from bulk = do
  blocks ← checked_sub to from
  part ← checked_mul u128 blocks bulk.amount_per_block
  checked_add u128 amount part

-- One pass of the loop.
unfoldable pub add_bulk : ℕ → ℕ → ℕ → RewardBulk → Result ℕ
add_bulk last_awarded_block current_block amount bulk =
    if ltb current_block bulk.end_block
    then add_blocks amount current_block last_awarded_block bulk
    else if ltb last_awarded_block bulk.end_block
    then add_blocks amount bulk.end_block last_awarded_block bulk
    else ok amount

unfoldable pub bulks_loop : ℕ → ℕ → ℕ → List RewardBulk → Result ℕ
bulks_loop last_awarded_block current_block amount [] = ok amount
bulks_loop last_awarded_block current_block amount (bulk ∷ bulks) = do
  sum ← add_bulk last_awarded_block current_block amount bulk
  bulks_loop last_awarded_block current_block sum bulks

unfoldable pub get_spy_rewards : List RewardBulk → ℕ → ℕ → Result ℕ
get_spy_rewards bulks last_awarded_block current_block =
    bulks_loop last_awarded_block current_block 0 bulks
