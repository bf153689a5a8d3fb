-- ===== src/WeightMaster/Emission.antt =====
-- contracts/weight-master/src/contract.rs: `get_spy_rewards`.
use secret_finance_rewards.Common.{
  ℕ, [], ◌∷◌, Result, ok, ◌>>=◌, ltb, if◌then◌else◌, u128, checked_add, checked_mul, checked_sub,
  checked_div,
}
use secret_finance_rewards.Scrt.Types.{Schedule, SpySettings}

-- `multiplier + (to - from) as u128 * mint_per_block`
unfoldable pub add_blocks : ℕ → ℕ → ℕ → ℕ → Result ℕ
add_blocks multiplier to from mint_per_block = do
  blocks ← checked_sub to from
  part ← checked_mul u128 blocks mint_per_block
  checked_add u128 multiplier part

-- The loop over the schedule, with its two variables.
unfoldable pub schedule_loop : ℕ → ℕ → ℕ → Schedule → Result ℕ
schedule_loop current_block last_update_block multiplier [] = ok multiplier
schedule_loop current_block last_update_block multiplier (u ∷ s) =
    let skipped = schedule_loop current_block last_update_block multiplier s in
    let passed = (do
      m ← add_blocks multiplier u.end_block last_update_block u.mint_per_block
      schedule_loop current_block u.end_block m s) in
    if ltb last_update_block u.end_block
    then (if ltb u.end_block current_block
        then passed
        else add_blocks multiplier current_block last_update_block u.mint_per_block)
    else skipped

unfoldable pub get_spy_rewards : ℕ → ℕ → Schedule → SpySettings → Result ℕ
get_spy_rewards current_block total_weight schedule spy_settings = do
  multiplier ← schedule_loop current_block spy_settings.last_update_block 0 schedule
  weighted ← checked_mul u128 multiplier spy_settings.weight
  checked_div weighted total_weight
