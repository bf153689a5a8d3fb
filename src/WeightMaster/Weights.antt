-- ===== src/WeightMaster/Weights.antt =====
-- The total weight that contracts/weight-master keeps, against the weights that it has stored.
use secret_finance_rewards.Common.{
  String, Ensures-mono, ℕ, ◌+◌, ◌≡◌, refl, List, [], ◌∷◌, Dict, arith, Result, ok, err, Ensures,
  >>=-Ensures, Ensures-ok, if-Ensures, total, total-insert, lookup, u64, checked_add, checked_sub,
  checked_add-eq, checked_sub-eq, at_or_zero,
}
use secret_finance_rewards.Scrt.Types.{HumanAddr, SpySettings, WeightInfo}
use secret_finance_rewards.Scrt.Chain.{Env}
use secret_finance_rewards.Scrt.MasterMsg.{MasterInitMsg, MasterHandleMsg}
use secret_finance_rewards.WeightMaster.State.{Deps, Outcome, load_spy}
use secret_finance_rewards.WeightMaster.Emission.{get_spy_rewards}
use secret_finance_rewards.WeightMaster.Handle.{
  init, enforce_admin, set_schedule, is_due, reward_messages, Batch, update_weight, weights_loop,
  set_weights, update_allocation, set_gov_token, change_admin, handle,
}

abbrev pub weight_of : SpySettings → ℕ
weight_of s = s.weight

abbrev pub stored_weight : Dict SpySettings → ℕ
stored_weight spies = total weight_of spies

-- The total weight is the sum of the stored weights and the 1 that it begins with.
abbrev pub IsTallied : Deps → Type 0
IsTallied d = d.state.total_weight ≡ 1 + stored_weight d.spies

load_spy-weight :
    (addr : HumanAddr) (block : ℕ) (spies : Dict SpySettings)
    → (load_spy addr block spies).weight ≡ at_or_zero weight_of (lookup addr spies)
unfolding load_spy
load_spy-weight addr block spies = ground arith

-- The counters of the loop balance the weights that it has stored.
abbrev Balances : Batch → Batch → Type 0
Balances b b' =
    stored_weight b'.spies + b'.old_weight_counter + b.new_weight_counter
    ≡ stored_weight b.spies + b.old_weight_counter + b'.new_weight_counter

module _ (d : Deps) (env : Env) where
  update_weight-Balances :
      (b : Batch) (w : WeightInfo) → Ensures (Balances b) (update_weight d env b w)
  unfolding update_weight
  update_weight-Balances b w =
      let spy = load_spy w.address env.height b.spies in
      >>=-Ensures (reward_messages d env w spy) _ _ λ ms hm.
        >>=-Ensures (checked_add u64 b.new_weight_counter w.weight) _ _ λ n hn.
          >>=-Ensures (checked_add u64 b.old_weight_counter spy.weight) _ _ λ o ho. omega (
            arith,
            checked_add-eq u64 b.new_weight_counter w.weight hn,
            checked_add-eq u64 b.old_weight_counter spy.weight ho,
            load_spy-weight w.address env.height b.spies,
            total-insert weight_of w.address
                (record { weight = w.weight; last_update_block = env.height }) b.spies,
          )

  weights_loop-Balances :
      (b : Batch) (ws : List WeightInfo) → Ensures (Balances b) (weights_loop d env b ws)
  unfolding weights_loop
  weights_loop-Balances b [] = refl
  weights_loop-Balances b (w ∷ ws) = >>=-Ensures (update_weight d env b w) _ _ λ b' h.
      let first =
        Ensures-ok (Balances b) (update_weight d env b w) (update_weight-Balances b w) h in
      Ensures-mono (Balances b') (Balances b) (weights_loop d env b' ws)
        (λ b'' (h' : Balances b' b''). omega arith) (weights_loop-Balances b' ws)

  set_weights-IsTallied :
      (ws : List WeightInfo) → IsTallied d → Ensures (λ o. IsTallied o.0) (set_weights d env ws)
  unfolding set_weights
  set_weights-IsTallied ws t =
      let b0 : Batch = record {
        spies = d.spies;
        messages = [];
        logs = [];
        new_weight_counter = 0;
        old_weight_counter = 0;
      } in
      >>=-Ensures (enforce_admin d.state env) _ _ λ _ _.
        >>=-Ensures (weights_loop d env b0 ws) _ _ λ b h.
          let sums =
            Ensures-ok (Balances b0) (weights_loop d env b0 ws) (weights_loop-Balances b0 ws) h in
          >>=-Ensures (checked_sub d.state.total_weight b.old_weight_counter) _ _ λ rest hr.
            >>=-Ensures (checked_add u64 rest b.new_weight_counter) _ _ λ sum hs. omega (
              arith,
              checked_sub-eq d.state.total_weight b.old_weight_counter hr,
              checked_add-eq u64 rest b.new_weight_counter hs,
            )

  update_allocation-IsTallied :
      (addr : HumanAddr) (hash : String)
      → IsTallied d
      → Ensures (λ o. IsTallied o.0) (update_allocation d env addr hash)
  unfolding update_allocation
  update_allocation-IsTallied addr hash t =
      let spy = load_spy addr env.height d.spies in
      if-Ensures (λ o. IsTallied o.0) (is_due env.height spy) _ _
        (>>=-Ensures (get_spy_rewards env.height d.state.total_weight d.state.minting_schedule spy)
          _ _
          λ r hr. omega (
            arith,
            load_spy-weight addr env.height d.spies,
            total-insert weight_of addr (record spy { last_update_block = env.height }) d.spies,
          ))
        t

  handle-IsTallied :
      (msg : MasterHandleMsg) → IsTallied d → Ensures (λ o. IsTallied o.0) (handle d env msg)
  unfolding handle set_schedule set_gov_token change_admin
  handle-IsTallied (MasterHandleMsg.update_allocation addr hash) t =
      update_allocation-IsTallied addr hash t
  handle-IsTallied (MasterHandleMsg.set_weights weights) t = set_weights-IsTallied weights t
  handle-IsTallied (MasterHandleMsg.set_schedule schedule) t =
      >>=-Ensures (enforce_admin d.state env) _ _ λ _ _. t
  handle-IsTallied (MasterHandleMsg.set_gov_token addr hash) t =
      >>=-Ensures (enforce_admin d.state env) _ _ λ _ _. t
  handle-IsTallied (MasterHandleMsg.change_admin addr) t =
      >>=-Ensures (enforce_admin d.state env) _ _ λ _ _. t

-- A call that fails leaves the storage as it was.
abbrev pub settle : Deps → Result Outcome → Deps
settle d (ok (d', r)) = d'
settle d (err e) = d

unfoldable pub run : List (Env × MasterHandleMsg) → Deps → Deps
run [] d = d
run ((env, msg) ∷ calls) d = run calls (settle d (handle d env msg))

settle-IsTallied :
    (d : Deps) (r : Result Outcome)
    → IsTallied d
    → Ensures (λ o. IsTallied o.0) r
    → IsTallied (settle d r)
settle-IsTallied d (ok (d', r)) t h = h
settle-IsTallied d (err e) t h = t

run-IsTallied :
    (calls : List (Env × MasterHandleMsg)) (d : Deps) → IsTallied d → IsTallied (run calls d)
unfolding run
run-IsTallied [] d t = t
run-IsTallied ((env, msg) ∷ calls) d t =
    run-IsTallied calls (settle d (handle d env msg))
      (settle-IsTallied d (handle d env msg) t (handle-IsTallied d env msg t))

-- After `init` and any calls by anyone, with repeated addresses in a batch or not, the total
-- weight is the sum of the stored weights and 1: it is never zero.
pub total_weight_tallied :
    (env : Env) (msg : MasterInitMsg) (calls : List (Env × MasterHandleMsg))
    → let d = run calls (init env msg) in d.state.total_weight ≡ 1 + stored_weight d.spies
unfolding init
total_weight_tallied env msg calls = run-IsTallied calls (init env msg) refl
