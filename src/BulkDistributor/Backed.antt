-- ===== src/BulkDistributor/Backed.antt =====
-- What contracts/bulk-distributor pays and still owes, against what it was sent.
use native.Mathlib.Nat.{div-mul-le_self}
use secret_finance_rewards.Common.{
  ℕ, ◌+◌, ◌-◌, ◌*◌, ◌/◌, ◌≤◌, ◌≡◌, refl, ◌∙◌, ap, not, List, [], ◌∷◌, ◌++◌, arith, Result, ok, err,
  Bool-cases, inl, inr, ltb, str_eq, eq_refl, filter, sum_by-append, Ensures, >>=-Ensures,
  Ensures-ok, Ensures-mono, err_if, unauthorized, u64, checked_add, checked_div, checked_add-eq,
  checked_div-eq,
}
use secret_finance_rewards.Scrt.Types.{HumanAddr, Binary, SecretContract}
use secret_finance_rewards.Scrt.Chain.{Env, sent, CosmosMsg, Payload}
use secret_finance_rewards.Scrt.LpStakingMsg.{LpStakingHandleMsg}
use secret_finance_rewards.BulkDistributor.Msg.{InitMsg, HandleMsg, ReceiveMsg}
use secret_finance_rewards.BulkDistributor.State.{State, RewardBulk, Deps, Outcome}
use secret_finance_rewards.BulkDistributor.Rewards.{get_spy_rewards}
use secret_finance_rewards.BulkDistributor.Blocks.{get_spy_rewards-eq}
use secret_finance_rewards.BulkDistributor.Owed.{
  left_of, owed, shares-left_of, left_of-filter, updated_reward_bulks-eq,
}
use secret_finance_rewards.BulkDistributor.Handle.{
  init, enforce_admin, pay_spy, award, update_allocation, new_bulk_reward, change_admin,
  receive_msg, receive, handle,
}

-- An award pays what the bulks then owe less, and leaves the configuration.
pub record IsAward (d : Deps) (env : Env) (awarded : Deps × ℕ) : Type 0 where
  pub balance : awarded.1 + owed awarded.0 ≡ owed d
  pub token : awarded.0.state.reward_token ≡ d.state.reward_token
  pub reached : env.height ≤ awarded.0.state.last_awarded_block

pub award-IsAward : (d : Deps) (env : Env) → Ensures (IsAward d env) (award d env)
unfolding award
award-IsAward d env = elim (Bool-cases (ltb d.state.last_awarded_block env.height)) [
  | inl due ↦
      let last = d.state.last_awarded_block in
      let live = filter (λ b. ltb last b.end_block) d.bulks in
      rw (due, updated_reward_bulks-eq d)
        (>>=-Ensures (get_spy_rewards live last env.height) _ _ λ r hr. record {
          balance = omega (
            arith,
            get_spy_rewards-eq live last env.height hr,
            shares-left_of last env.height live (ground arith),
            left_of-filter last d.bulks,
          );
          token = refl;
          reached = omega arith;
        })
  | inr done ↦ rw done (record { balance = omega arith; token = refl; reached = ground arith })
]

-- What a call sends and then owes is at most what it owed and received.
record IsStep (d : Deps) (received : ℕ) (o : Outcome) : Type 0 where
  pub balance : sent d.state.reward_token.address o.1.messages + owed o.0 ≤ owed d + received
  pub token : o.0.state.reward_token ≡ d.state.reward_token

sent-pay_spy :
    (s : State) (rewards : ℕ) (rest : List CosmosMsg)
    → sent s.reward_token.address (pay_spy s rewards ++ rest)
      ≡ rewards + sent s.reward_token.address rest
unfolding pay_spy
sent-pay_spy s rewards rest = ground (arith, eq_refl s.reward_token.address)

-- After an update the contract has reached the block of the call.
abbrev IsUpdate : Deps → Env → Outcome → Type 0
IsUpdate d env o = IsStep d 0 o × (env.height ≤ o.0.state.last_awarded_block)

update_allocation-IsUpdate :
    (d : Deps) (env : Env) → Ensures (IsUpdate d env) (update_allocation d env)
unfolding update_allocation
update_allocation-IsUpdate d env = >>=-Ensures (award d env) _ _ λ a ha.
    let h = Ensures-ok (IsAward d env) (award d env) (award-IsAward d env) ha in
    (
      record {
        balance = omega (
          arith,
          h.balance,
          sent-pay_spy d.state a.1 (
              CosmosMsg.execute d.state.spy_to_reward.address d.state.spy_to_reward.contract_hash
                (Payload.lp_staking (LpStakingHandleMsg.notify_allocation a.1))
              ∷ []),
        );
        token = h.token;
      },
      h.reached,
    )

-- A bulk never owes more than was sent for it.
left_of-new :
    (last height over amount : ℕ)
    → height ≤ last
    → (height + over - last) * (amount / over) ≤ amount
left_of-new last height over amount h =
    let n = height + over - last in
    let split : over ≡ n + (over - n) = omega arith in
    omega (arith, ap (λ x. x * (amount / over)) split, div-mul-le_self amount over)

new_bulk_reward-IsStep :
    (d : Deps) (env : Env) (from : HumanAddr) (distribute_over amount : ℕ)
    → Ensures (IsStep d amount) (new_bulk_reward d env from distribute_over amount)
unfolding new_bulk_reward
new_bulk_reward-IsStep d env from over amount =
    >>=-Ensures (err_if (not (str_eq from d.state.admin)) unauthorized) _ _ λ _ _.
      >>=-Ensures (update_allocation d env) _ _ λ u hu.
        let (step, reached) =
          Ensures-ok (IsUpdate d env) (update_allocation d env) (update_allocation-IsUpdate d env)
            hu in
        >>=-Ensures (checked_add u64 env.height over) _ _ λ e he.
          >>=-Ensures (checked_div amount over) _ _ λ r hr.
            let last = u.0.state.last_awarded_block in
            let new : RewardBulk = record { end_block = e; amount_per_block = r } in
            let bound : (e - last) * r ≤ amount =
              rw ((checked_add-eq u64 env.height over he).0, (checked_div-eq amount over hr).0)
                (left_of-new last env.height over amount reached) in
            record {
              balance =
                  omega
                    (arith, step.balance, sum_by-append (left_of last) u.0.bulks (new ∷ []), bound);
              token = step.token;
            }

receive_msg-IsStep :
    (d : Deps) (env : Env) (from : HumanAddr) (amount : ℕ) (msg : ReceiveMsg)
    → Ensures (IsStep d amount) (receive_msg d env from amount msg)
unfolding receive_msg
receive_msg-IsStep d env from amount (ReceiveMsg.new_bulk_reward over) =
    new_bulk_reward-IsStep d env from over amount

change_admin-IsStep :
    (d : Deps) (env : Env) (address : HumanAddr) → Ensures (IsStep d 0) (change_admin d env address)
unfolding change_admin
change_admin-IsStep d env address =
    >>=-Ensures (enforce_admin d.state env) _ _
      λ _ _. record { balance = omega arith; token = refl }

-- The amount that a message announces as received.
abbrev pub announced : HandleMsg → ℕ
announced (HandleMsg.update_allocation spy_addr spy_hash hook) = 0
announced (HandleMsg.receive sender from amount msg) = amount
announced (HandleMsg.change_admin address) = 0

-- What the contract was sent, by the messages of the calls that returned, and what it sent.
pub record Ledger : Type 0 where
  pub received : ℕ
  pub paid : ℕ

-- A call that fails leaves the storage as it was.
abbrev pub settle : Deps → HandleMsg → Ledger → Result Outcome → Deps × Ledger
settle d msg g (ok (d', r)) = (
  d',
  record {
    received = g.received + announced msg;
    paid = g.paid + sent d.state.reward_token.address r.messages;
  },
)
settle d msg g (err e) = (d, g)

module _ (from_binary : Binary → Result ReceiveMsg) where
  unfoldable pub run : List (Env × HandleMsg) → Deps × Ledger → Deps × Ledger
  run [] s = s
  run ((env, msg) ∷ calls) (d, g) = run calls (settle d msg g (handle from_binary d env msg))

  handle-IsStep :
      (d : Deps) (env : Env) (msg : HandleMsg)
      → Ensures (IsStep d (announced msg)) (handle from_binary d env msg)
  unfolding handle receive receive_msg
  handle-IsStep d env (HandleMsg.update_allocation spy_addr spy_hash hook) =
      Ensures-mono (IsUpdate d env) (IsStep d 0) (update_allocation d env) (λ o h. h.0)
        (update_allocation-IsUpdate d env)
  handle-IsStep d env (HandleMsg.receive sender from amount msg) =
      >>=-Ensures (from_binary msg) _ _ λ m _. receive_msg-IsStep d env from amount m
  handle-IsStep d env (HandleMsg.change_admin address) = change_admin-IsStep d env address

  -- The accounts are in balance, and the reward token is still the one given at `init`.
  IsBacked : SecretContract → Deps × Ledger → Type 0
  IsBacked token (d, g) = (g.paid + owed d ≤ g.received) × (d.state.reward_token ≡ token)

  settle-IsBacked :
      (token : SecretContract) (d : Deps) (msg : HandleMsg) (g : Ledger) (r : Result Outcome)
      → IsBacked token (d, g)
      → Ensures (IsStep d (announced msg)) r
      → IsBacked token (settle d msg g r)
  unfolding IsBacked
  settle-IsBacked token d msg g (ok (d', r)) h step =
      (omega (arith, step.balance, h.0), step.token ∙ h.1)
  settle-IsBacked token d msg g (err e) h step = h

  run-IsBacked :
      (token : SecretContract) (calls : List (Env × HandleMsg)) (d : Deps) (g : Ledger)
      → IsBacked token (d, g)
      → IsBacked token (run calls (d, g))
  unfolding run
  run-IsBacked token [] d g h = h
  run-IsBacked token ((env, msg) ∷ calls) d g h =
      let (d', g') = settle d msg g (handle from_binary d env msg) in
      run-IsBacked token calls d' g'
        (settle-IsBacked token d msg g (handle from_binary d env msg) h (handle-IsStep d env msg))

  -- The storage and the accounts after `init` and the calls.
  abbrev pub after : Env → InitMsg → List (Env × HandleMsg) → Deps × Ledger
  after env msg calls = run calls ((init env msg).0, record { received = 0; paid = 0 })

  -- After `init` and any calls, at any blocks and by anyone: what was sent of the reward token,
  -- with what the bulks have left to pay, is at most what the messages that were accepted
  -- announced as received; and the reward token is the one that `init` was given.
  pub rewards_backed :
      (env : Env) (msg : InitMsg) (calls : List (Env × HandleMsg))
      → let (d, g) = after env msg calls in
        (g.paid + owed d ≤ g.received) × (d.state.reward_token ≡ msg.reward_token)
  unfolding init IsBacked
  rewards_backed env msg calls =
      run-IsBacked msg.reward_token calls (init env msg).0 _ (omega arith, refl)
