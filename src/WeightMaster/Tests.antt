-- ===== src/WeightMaster/Tests.antt =====
-- Runs of contracts/weight-master at concrete inputs, and the theorems at inputs that meet their
-- hypotheses.
use secret_finance_rewards.Common.{
  ℕ, ◌+◌, ◌≤◌, ◌≡◌, refl, List, [], ◌∷◌, String, ok, err, arith, overflow, insert, lookup, total,
  AllValues, checked_add, checked_mul, checked_sub, checked_div,
}
use secret_finance_rewards.Scrt.Types.{
  Schedule, ScheduleUnit, SpySettings, WeightInfo, insert_unit, sort_schedule,
}
use secret_finance_rewards.Scrt.Chain.{Env}
use secret_finance_rewards.Scrt.MasterMsg.{MasterInitMsg, MasterHandleMsg}
use secret_finance_rewards.WeightMaster.State.{Deps, load_spy}
use secret_finance_rewards.WeightMaster.Emission.{add_blocks, schedule_loop, get_spy_rewards}
use secret_finance_rewards.WeightMaster.Handle.{
  respond, init, enforce_admin, set_schedule, is_due, mint_to, notify_spy, reward_messages,
  update_weight, weights_loop, set_weights, update_allocation, change_admin, set_gov_token, handle,
  query_pending_rewards,
}
use secret_finance_rewards.WeightMaster.Minted.{rate_at, minted, get_spy_rewards-minted}
use secret_finance_rewards.WeightMaster.Schedule.{due, rate_of, rate_at-sort_schedule}
use secret_finance_rewards.WeightMaster.Weights.{stored_weight, run, total_weight_tallied}
use secret_finance_rewards.WeightMaster.Shares.{get_spy_rewards-bounded}
use secret_finance_rewards.WeightMaster.Access.{query_pending_rewards-mints}
use secret_finance_rewards.WeightMaster.Updates.{spy_with, get_spy_rewards-split}

program : Unit {0}
unfolding insert lookup checked_add checked_mul checked_sub checked_div insert_unit sort_schedule
    load_spy add_blocks schedule_loop get_spy_rewards init enforce_admin set_schedule is_due mint_to
    notify_spy reward_messages update_weight weights_loop set_weights update_allocation change_admin
    set_gov_token handle run
program = tt

abbrev unit_of : ℕ → ℕ → ScheduleUnit
unit_of end_block rate = record { end_block = end_block; mint_per_block = rate }

-- Not in order.
abbrev listed : Schedule
listed = unit_of 50 7 ∷ unit_of 20 100 ∷ []

abbrev init_msg : MasterInitMsg
init_msg = record { gov_token_addr = "sefi"; gov_token_hash = "hash"; minting_schedule = listed }

abbrev at_block : String → ℕ → Env
at_block sender height = record {
  sender = sender;
  height = height;
  time = 0;
  contract_address = "master";
  contract_code_hash = "code";
}

abbrev weigh : String → ℕ → WeightInfo
weigh address weight = record { address = address; hash = "h"; weight = weight }

abbrev start : Deps
start = init (at_block "admin" 0) init_msg

-- 15 blocks at 100 and 10 at 7, of which 9 parts in 19 are the contract's.
rewards_example : get_spy_rewards 30 19 (unit_of 20 100 ∷ unit_of 50 7 ∷ []) (spy_with 9 5) ≡ ok 743
unfolding program
rewards_example = refl

abbrev two_spies : List (Env × MasterHandleMsg)
two_spies = (at_block "admin" 10, MasterHandleMsg.set_weights (weigh "a" 9 ∷ weigh "b" 9 ∷ [])) ∷ []

-- The weight of `a` is taken away at block 20, when 1000 have been emitted since block 10: `a` is
-- minted 473, and `b`, which was not in the batch, is minted 900 of the same blocks.
abbrev demoted : Deps
demoted =
    run ((at_block "admin" 20, MasterHandleMsg.set_weights (weigh "a" 0 ∷ [])) ∷ [])
      (run two_spies start)

stale_shares :
    (set_weights (run two_spies start) (at_block "admin" 20) (weigh "a" 0 ∷ [])
      ≡ ok (
        demoted,
        respond
            (mint_to start.state "a" 473 ∷ notify_spy "a" "h" 473 ∷ [])
            (("weight_update", "a") ∷ []),
      ))
    × (update_allocation demoted (at_block "b" 20) "b" "h"
        ≡ ok (
          record demoted { spies = ("a", spy_with 0 20) ∷ ("b", spy_with 9 20) ∷ [] },
          respond
              (mint_to start.state "b" 900 ∷ notify_spy "b" "h" 900 ∷ [])
              (("update_allocation", "b") ∷ []),
        ))
unfolding program
stale_shares = (refl, refl)

-- A batch that names one contract twice may panic, though the weights that it asks for are fine.
repeated_address :
    set_weights start (at_block "admin" 5) (weigh "a" 9 ∷ weigh "a" 3 ∷ []) ≡ err overflow
unfolding program
repeated_address = refl

get_spy_rewards-minted_example :
    get_spy_rewards 30 19 (unit_of 20 100 ∷ unit_of 50 7 ∷ []) (spy_with 9 5) ≡ ok 743
unfolding minted rate_at
get_spy_rewards-minted_example =
    get_spy_rewards-minted 30 19 (unit_of 20 100 ∷ unit_of 50 7 ∷ []) (spy_with 9 5) (omega arith)
      (omega arith) (omega arith) (omega arith)

rate_at-sort_schedule_example : rate_at (sort_schedule listed) 15 ≡ rate_of (due listed 15)
rate_at-sort_schedule_example = rate_at-sort_schedule listed 15

total_weight_tallied_example :
    let d = run two_spies start in d.state.total_weight ≡ 1 + stored_weight d.spies
total_weight_tallied_example = total_weight_tallied (at_block "admin" 0) init_msg two_spies

-- One of the two is updated at block 20.
abbrev one_updated : List (Env × MasterHandleMsg)
one_updated =
    (at_block "admin" 10, MasterHandleMsg.set_weights (weigh "a" 9 ∷ weigh "b" 9 ∷ []))
    ∷ (at_block "a" 20, MasterHandleMsg.update_allocation "a" "h")
    ∷ []

get_spy_rewards-bounded_example :
    let d = run one_updated start in
    (reward : SpySettings → ℕ) × AllValues
      (λ spy.
        get_spy_rewards 30 d.state.total_weight d.state.minting_schedule spy ≡ ok (reward spy))
      d.spies
    × (total reward d.spies ≤ 1070)
unfolding program minted rate_at
get_spy_rewards-bounded_example =
    get_spy_rewards-bounded (at_block "admin" 0) init_msg one_updated 10 30
      ((omega arith, omega arith), ((omega arith, omega arith), tt)) (omega arith)

abbrev updated : Deps
updated = record {
  state = (run two_spies start).state;
  spies = ("a", spy_with 9 20) ∷ ("b", spy_with 9 10) ∷ [];
}

get_spy_rewards-split_example :
    (first second once : ℕ) × (get_spy_rewards 17 19 listed (spy_with 9 5) ≡ ok first)
    × (get_spy_rewards 30 19 listed (spy_with 9 17) ≡ ok second)
    × (get_spy_rewards 30 19 listed (spy_with 9 5) ≡ ok once)
    × (first + second ≤ once)
    × (once ≤ first + second + 1)
unfolding minted rate_at
get_spy_rewards-split_example =
    get_spy_rewards-split listed 19 9 5 17 30 (omega arith) (omega arith) (omega arith)
      (omega arith) (omega arith)

query_pending_rewards-mints_example :
    update_allocation (run two_spies start) (at_block "eve" 20) "a" "h"
    ≡ ok (
      updated,
      respond
          (mint_to start.state "a" 473 ∷ notify_spy "a" "h" 473 ∷ [])
          (("update_allocation", "a") ∷ []),
    )
unfolding program query_pending_rewards
query_pending_rewards-mints_example =
    query_pending_rewards-mints (run two_spies start) (at_block "eve" 20) "a" "h" 473 refl refl
