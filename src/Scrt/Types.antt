-- ===== src/Scrt/Types.antt =====
-- packages/scrt-finance/src/types.rs: the types that the contracts share.
use secret_finance_rewards.Common.{ℕ, String, List, [], ◌∷◌, ltb, if◌then◌else◌}

-- `HumanAddr`, a wrapper of a text.
abbrev pub HumanAddr : Type 0
HumanAddr = String

-- `Binary`, the bytes of a serialised value.
abbrev pub Binary : Type 0
Binary = List ℕ

pub record RewardPool : Type 0 where
  pub residue : ℕ
  pub inc_token_supply : ℕ
  pub acc_reward_per_share : ℕ

pub record TokenInfo : Type 0 where
  pub name : String
  pub symbol : String

pub record UserInfo : Type 0 where
  pub locked : ℕ
  pub debt : ℕ

pub record SecretContract : Type 0 where
  pub address : HumanAddr
  pub contract_hash : String

pub record WeightInfo : Type 0 where
  pub address : HumanAddr
  pub hash : String
  pub weight : ℕ

pub record SpySettings : Type 0 where
  pub weight : ℕ
  pub last_update_block : ℕ

pub record ScheduleUnit : Type 0 where
  pub end_block : ℕ
  pub mint_per_block : ℕ

abbrev pub Schedule : Type 0
Schedule = List ScheduleUnit

-- `sort_by` on `end_block`. It is stable, so a unit is put in front of the later units that end
-- at the same block.
unfoldable pub insert_unit : ScheduleUnit → Schedule → Schedule
insert_unit u [] = u ∷ []
insert_unit u (v ∷ s) = if ltb v.end_block u.end_block then v ∷ insert_unit u s else u ∷ v ∷ s

unfoldable pub sort_schedule : Schedule → Schedule
sort_schedule [] = []
sort_schedule (u ∷ s) = insert_unit u (sort_schedule s)
