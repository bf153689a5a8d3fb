-- ===== src/BulkDistributor/State.antt =====
-- contracts/bulk-distributor/src/state.rs: the stored values and the list of bulks.
use secret_finance_rewards.Common.{ℕ, List, ltb, ◌==◌, if◌then◌else◌, length, filter}
use secret_finance_rewards.Scrt.Types.{HumanAddr, SecretContract}
use secret_finance_rewards.Scrt.Chain.{HandleResponse}
use secret_finance_rewards.BulkDistributor.Msg.{HandleAnswer}

pub record State : Type 0 where
  pub admin : HumanAddr
  pub reward_token : SecretContract
  pub spy_to_reward : SecretContract
  pub last_awarded_block : ℕ

pub record RewardBulk : Type 0 where
  pub end_block : ℕ
  pub amount_per_block : ℕ

-- The storage after `init`.
pub record Deps : Type 0 where
  pub state : State
  pub bulks : List RewardBulk

-- The bulks that have not ended; they are stored if there are fewer of them than before.
unfoldable pub updated_reward_bulks : Deps → State → Deps × List RewardBulk
updated_reward_bulks d state =
    let updated_bulks = filter (λ b. ltb state.last_awarded_block b.end_block) d.bulks in
    if length updated_bulks == length d.bulks
    then (d, updated_bulks)
    else (record d { bulks = updated_bulks }, updated_bulks)

abbrev pub Response : Type 0
Response = HandleResponse HandleAnswer

abbrev pub Outcome : Type 0
Outcome = Deps × Response
