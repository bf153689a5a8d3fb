-- ===== src/BulkDistributor/Agreement.antt =====
-- Updates of contracts/bulk-distributor/src/contract.rs: what `update_allocation` pays, that the
-- query foretells it, and that it always goes through.
use secret_finance_rewards.Common.{
  ℕ, false, ◌+◌, ◌-◌, ◌≤◌, ◌<◌, ◌≡◌, refl, ◌∙◌, ap, List, [], ◌∷◌, ◌++◌, some, arith, Result, ok,
  ◌>>=◌, Result-cases, Ensures, Ensures-ok, >>=-Ensures, Bool-cases, inl, inr, ltb, lt→ltb, le→ltb,
  filter, u128,
}
use secret_finance_rewards.Scrt.Types.{Binary}
use secret_finance_rewards.Scrt.Chain.{Env, CosmosMsg, Payload}
use secret_finance_rewards.Scrt.LpStakingMsg.{LpStakingHandleMsg}
use secret_finance_rewards.BulkDistributor.Msg.{
  InitMsg, HandleMsg, HandleAnswer, ResponseStatus, ReceiveMsg, QueryAnswer,
}
use secret_finance_rewards.BulkDistributor.State.{State, RewardBulk, Deps, Response, Outcome}
use secret_finance_rewards.BulkDistributor.Rewards.{add_bulk, bulks_loop, get_spy_rewards}
use secret_finance_rewards.BulkDistributor.Blocks.{
  awarded, shares, shares-awarded, get_spy_rewards-awarded,
}
use secret_finance_rewards.BulkDistributor.Owed.{owed, shares-left_of, updated_reward_bulks-eq}
use secret_finance_rewards.BulkDistributor.Backed.{IsAward, award-IsAward, after, rewards_backed}
use secret_finance_rewards.BulkDistributor.Handle.{
  pay_spy, award, update_allocation, query_pending_rewards,
}

-- The bulks that have not ended at the last award.
abbrev pub live : Deps → List RewardBulk
live d = filter (λ b. ltb d.state.last_awarded_block b.end_block) d.bulks

-- The storage after an award at `height`.
abbrev pub awarded_at : Deps → ℕ → Deps
awarded_at d height = record {
  state = record (d.state) { last_awarded_block = height };
  bulks = live d;
}

-- The response of an update that awards `rewards`.
abbrev pub update_response : State → ℕ → Response
update_response state rewards = record {
  messages =
      pay_spy state rewards
      ++ (CosmosMsg.execute state.spy_to_reward.address state.spy_to_reward.contract_hash
            (Payload.lp_staking (LpStakingHandleMsg.notify_allocation rewards))
          ∷ []);
  log = ("update_allocation", state.spy_to_reward.address) ∷ [];
  answer = some (HandleAnswer.update_allocation ResponseStatus.success);
}

add_bulk-ended :
    (last current amount : ℕ) (b : RewardBulk)
    → last ≤ current
    → ltb last b.end_block ≡ false
    → add_bulk last current amount b ≡ ok amount
unfolding add_bulk
add_bulk-ended last current amount b h ended =
    let over : ltb current b.end_block ≡ false = ground arith in rw (over, ended) refl

-- The loop takes nothing from the bulks that have ended.
bulks_loop-filter :
    (last current amount : ℕ) (bulks : List RewardBulk)
    → last ≤ current
    → bulks_loop last current amount (filter (λ b. ltb last b.end_block) bulks)
      ≡ bulks_loop last current amount bulks
unfolding bulks_loop filter
bulks_loop-filter last current amount [] h = refl
bulks_loop-filter last current amount (b ∷ bulks) h = elim (Bool-cases (ltb last b.end_block)) [
  | inl open_ ↦ rw open_ (
      ap (λ k. add_bulk last current amount b >>= k)
        (λ i s. bulks_loop-filter last current s bulks h i))
  | inr ended ↦
      rw (ended, add_bulk-ended last current amount b h ended)
        (bulks_loop-filter last current amount bulks h)
]

get_spy_rewards-live :
    (d : Deps) (height : ℕ)
    → d.state.last_awarded_block < height
    → get_spy_rewards (live d) d.state.last_awarded_block height
      ≡ get_spy_rewards d.bulks d.state.last_awarded_block height
unfolding get_spy_rewards
get_spy_rewards-live d height h =
    bulks_loop-filter d.state.last_awarded_block height 0 d.bulks (omega arith)

update_allocation-due :
    (d : Deps) (env : Env) {rewards : ℕ}
    → d.state.last_awarded_block < env.height
    → get_spy_rewards d.bulks d.state.last_awarded_block env.height ≡ ok rewards
    → update_allocation d env ≡ ok (awarded_at d env.height, update_response d.state rewards)
unfolding update_allocation award
update_allocation-due d env {rewards} due h =
    rw
      (
        lt→ltb d.state.last_awarded_block env.height due,
        updated_reward_bulks-eq d,
        get_spy_rewards-live d env.height due,
        h,
      )
      refl

-- Where the query for a block after the last award answers `amount`, an update in that block pays
-- the spy that amount and notifies it, and drops the bulks that had ended.
pub query_pending_rewards-update_allocation :
    (d : Deps) (env : Env) (amount : ℕ)
    → d.state.last_awarded_block < env.height
    → query_pending_rewards d env.height ≡ ok (QueryAnswer.pending amount)
    → update_allocation d env ≡ ok (awarded_at d env.height, update_response d.state amount)
unfolding query_pending_rewards
query_pending_rewards-update_allocation d env amount due h =
    elim (Result-cases (get_spy_rewards d.bulks d.state.last_awarded_block env.height)) [
      | inl (e, failed) ↦ absurd (cc (rw failed at h))
      | inr (r, went) ↦
          let same : r ≡ amount = cc (rw went at h) in
          update_allocation-due d env due (went ∙ ap ok same)
    ]

update_allocation-idle :
    (d : Deps) (env : Env)
    → env.height ≤ d.state.last_awarded_block
    → update_allocation d env ≡ ok (d, update_response d.state 0)
unfolding update_allocation award
update_allocation-idle d env h = rw (le→ltb d.state.last_awarded_block env.height h) refl

update_allocation-reaches :
    (d : Deps) (env : Env)
    → Ensures (λ o. env.height ≤ o.0.state.last_awarded_block) (update_allocation d env)
unfolding update_allocation
update_allocation-reaches d env =
    >>=-Ensures (award d env) _ _
      λ a ha. (Ensures-ok (IsAward d env) (award d env) (award-IsAward d env) ha).reached

-- After an update that went through, a second one in the same block, or in one before it, pays
-- nothing, tells the spy of an allocation of 0, and leaves the storage as it is.
pub update_allocation-update_allocation :
    (d : Deps) (env again : Env) {o : Outcome}
    → again.height ≤ env.height
    → update_allocation d env ≡ ok o
    → update_allocation o.0 again ≡ ok (o.0, update_response o.0.state 0)
update_allocation-update_allocation d env again {o} early went =
    let reached = Ensures-ok _ (update_allocation d env) (update_allocation-reaches d env) went in
    update_allocation-idle o.0 again (omega (arith, reached))

-- What the bulks pay up to a block is at most what they owe.
awarded-owed :
    (d : Deps) (height : ℕ)
    → d.state.last_awarded_block ≤ height
    → awarded d.bulks d.state.last_awarded_block (height - d.state.last_awarded_block) ≤ owed d
awarded-owed d height h =
    let last = d.state.last_awarded_block in
    let whole : last + (height - last) ≡ height = omega arith in
    let same : shares last height d.bulks ≡ awarded d.bulks last (height - last) =
      rw whole at (shares-awarded last (height - last) d.bulks) in
    omega (arith, same, shares-left_of last height d.bulks h)

module _ (from_binary : Binary → Result ReceiveMsg) where
  -- After `init` and any calls whose announced amounts are together below 2^128: an update in a
  -- block after the last award goes through, and it pays exactly what the bulks pay for the blocks
  -- in between, each up to its own last block.
  pub update_allocation_pays :
      (env : Env) (msg : InitMsg) (calls : List (Env × HandleMsg)) (now : Env)
      → (after from_binary env msg calls).1.received < u128
      → (after from_binary env msg calls).0.state.last_awarded_block < now.height
      → let d = (after from_binary env msg calls).0 in
        let last = d.state.last_awarded_block in
        update_allocation d now
        ≡ ok (
          awarded_at d now.height,
          update_response d.state (awarded d.bulks last (now.height - last)),
        )
  update_allocation_pays env msg calls now fits due =
      let d = (after from_binary env msg calls).0 in
      let backed = rewards_backed from_binary env msg calls in
      let bound = awarded-owed d now.height (omega arith) in
      update_allocation-due d now due (
        get_spy_rewards-awarded d.bulks d.state.last_awarded_block now.height (omega arith)
          (omega (arith, bound, backed.0)))
