-- ===== src/DevFund/Balance.antt =====
-- The rewards that contracts/dev-fund has accumulated, against what it was notified of and sent.
use secret_finance_rewards.Common.{
  ℕ, ◌+◌, ◌≡◌, refl, ◌∙◌, true, false, Bool, not, ◌&&◌, List, [], ◌∷◌, arith, Result, ok, err,
  Ensures, Ensures-ok, >>=-Ensures, err_if, unauthorized, generic_err, number, str_eq, eq_refl, ltb,
  unwrap_or, u128, checked_add, checked_sub, checked_add-eq, checked_sub-eq, All,
}
use secret_finance_rewards.Scrt.Types.{SecretContract}
use secret_finance_rewards.Scrt.Chain.{Env, sent}
use secret_finance_rewards.DevFund.Msg.{InitMsg, HookMsg, HandleMsg}
use secret_finance_rewards.DevFund.State.{
  Deps, Response, Outcome, load_balance, response_block_size,
}
use secret_finance_rewards.DevFund.Handle.{
  Externals, init, enforce_admin, notify_allocation, run_hook, self_callback, callback_msgs,
  update_allocation, redeem, change_admin, change_beneficiary, set_master, handle_msg, handle,
}

-- What a call sends and then holds is what it held and was notified of.
record IsStep (d : Deps) (notified : ℕ) (o : Outcome) : Type 0 where
  pub balance :
      sent d.config.sefi.address o.1.messages + load_balance o.0 ≡ load_balance d + notified
  pub token : o.0.config.sefi ≡ d.config.sefi

notify_allocation-IsStep :
    (d : Deps) (env : Env) (amount : ℕ) → Ensures (IsStep d amount) (notify_allocation d env amount)
unfolding notify_allocation
notify_allocation-IsStep d env amount =
    >>=-Ensures
      (err_if
        (not (str_eq env.sender d.config.master.address) && not (str_eq env.sender d.config.admin))
        unauthorized)
      _ _
      λ _ _. >>=-Ensures (checked_add u128 (load_balance d) amount) _ _ λ b hb. record {
        balance = omega (arith, checked_add-eq u128 (load_balance d) amount hb);
        token = refl;
      }

run_hook-IsStep : (d : Deps) (message : HookMsg) → Ensures (IsStep d 0) (run_hook d message)
unfolding run_hook
run_hook-IsStep d (HookMsg.redeem to requested) =
    let amount = unwrap_or requested (load_balance d) in
    >>=-Ensures
      (err_if (ltb (load_balance d) amount) (
        generic_err "insufficient funds to redeem: balance={}, required={}"
          (number (load_balance d) ∷ number amount ∷ [])))
      _ _
      λ _ _. >>=-Ensures (checked_sub (load_balance d) amount) _ _ λ b hb. record {
        balance =
            rw (eq_refl d.config.sefi.address)
              (omega (arith, checked_sub-eq (load_balance d) amount hb));
        token = refl;
      }

-- The amount that a message announces as allocated.
abbrev pub announced : HandleMsg → ℕ
announced (HandleMsg.notify_allocation amount) = amount
announced _ = 0

-- The admin's command that overwrites the stored rewards by the account's balance.
abbrev pub is_refresh : HandleMsg → Bool
is_refresh HandleMsg.refresh_balance = true
is_refresh _ = false

module _ (x : Externals) where
  handle_msg-IsStep :
      (d : Deps) (env : Env) (msg : HandleMsg)
      → is_refresh msg ≡ false
      → Ensures (IsStep d (announced msg)) (handle_msg x d env msg)
  unfolding handle_msg redeem update_allocation callback_msgs change_admin change_beneficiary
      set_master self_callback
  handle_msg-IsStep d env (HandleMsg.redeem amount to) h =
      >>=-Ensures (err_if (not (str_eq env.sender d.config.beneficiary)) unauthorized) _ _
        λ _ _. record { balance = omega arith; token = refl }
  handle_msg-IsStep d env (HandleMsg.change_admin address) h =
      >>=-Ensures (enforce_admin d.config env) _ _
        λ _ _. record { balance = omega arith; token = refl }
  handle_msg-IsStep d env (HandleMsg.change_beneficiary address) h =
      >>=-Ensures (enforce_admin d.config env) _ _
        λ _ _. record { balance = omega arith; token = refl }
  handle_msg-IsStep d env HandleMsg.refresh_balance h = absurd (cc)
  handle_msg-IsStep d env (HandleMsg.set_master contract) h =
      >>=-Ensures (enforce_admin d.config env) _ _
        λ _ _. record { balance = omega arith; token = refl }
  handle_msg-IsStep d env (HandleMsg.notify_allocation amount) h =
      notify_allocation-IsStep d env amount
  handle_msg-IsStep d env (HandleMsg.self_callback message) h =
      >>=-Ensures (err_if (not (str_eq env.sender env.contract_address)) unauthorized) _ _
        λ _ _. run_hook-IsStep d message

  module _ (keeps : (n : ℕ) (r : Response) → (x.pad_response n r).messages ≡ r.messages) where
    handle-IsStep :
        (d : Deps) (env : Env) (msg : HandleMsg)
        → is_refresh msg ≡ false
        → Ensures (IsStep d (announced msg)) (handle x d env msg)
    unfolding handle
    handle-IsStep d env msg h = >>=-Ensures (handle_msg x d env msg) _ _ λ o ho.
        let step =
          Ensures-ok (IsStep d (announced msg)) (handle_msg x d env msg)
            (handle_msg-IsStep d env msg h) ho in
        record { balance = rw (keeps response_block_size o.1) step.balance; token = step.token }

-- What the contract was notified of, by the calls that returned, and what it sent.
pub record Ledger : Type 0 where
  pub notified : ℕ
  pub redeemed : ℕ

-- A call that fails leaves the storage as it was.
abbrev pub settle : Deps → HandleMsg → Ledger → Result Outcome → Deps × Ledger
settle d msg g (ok (d', r)) = (
  d',
  record {
    notified = g.notified + announced msg;
    redeemed = g.redeemed + sent d.config.sefi.address r.messages;
  },
)
settle d msg g (err e) = (d, g)

-- The accounts are in balance, and the token is still the one given at `init`.
IsBalanced : SecretContract → Deps × Ledger → Type 0
IsBalanced token (d, g) = (g.redeemed + load_balance d ≡ g.notified) × (d.config.sefi ≡ token)

settle-IsBalanced :
    (token : SecretContract) (d : Deps) (msg : HandleMsg) (g : Ledger) (r : Result Outcome)
    → IsBalanced token (d, g)
    → Ensures (IsStep d (announced msg)) r
    → IsBalanced token (settle d msg g r)
unfolding IsBalanced
settle-IsBalanced token d msg g (ok (d', r)) h step =
    (omega (arith, step.balance, h.0), step.token ∙ h.1)
settle-IsBalanced token d msg g (err e) h step = h

module _ (x : Externals) where
  unfoldable pub run : List (Env × HandleMsg) → Deps × Ledger → Deps × Ledger
  run [] s = s
  run ((env, msg) ∷ calls) (d, g) = run calls (settle d msg g (handle x d env msg))

  -- The storage and the accounts after `init` and the calls.
  abbrev pub after : Env → InitMsg → List (Env × HandleMsg) → Deps × Ledger
  after env msg calls = run calls ((init env msg).0, record { notified = 0; redeemed = 0 })

  module _ (keeps : (n : ℕ) (r : Response) → (x.pad_response n r).messages ≡ r.messages) where
    run-IsBalanced :
        (token : SecretContract) (calls : List (Env × HandleMsg)) (d : Deps) (g : Ledger)
        → All (λ c. is_refresh c.1 ≡ false) calls
        → IsBalanced token (d, g)
        → IsBalanced token (run calls (d, g))
    unfolding run
    run-IsBalanced token [] d g plain h = h
    run-IsBalanced token ((env, msg) ∷ calls) d g plain h =
        let (d', g') = settle d msg g (handle x d env msg) in
        run-IsBalanced token calls d' g' plain.1 (
          settle-IsBalanced token d msg g (handle x d env msg) h
            (handle-IsStep x keeps d env msg plain.0))

    -- After `init` and any calls but `RefreshBalance`, where padding a response keeps its messages:
    -- what was sent of the fund's token, with the stored rewards, is exactly what the contract was
    -- notified of; and the token is the one that `init` was given.
    pub fund_balanced :
        (env : Env) (msg : InitMsg) (calls : List (Env × HandleMsg))
        → All (λ c. is_refresh c.1 ≡ false) calls
        → let (d, g) = after env msg calls in
          (g.redeemed + load_balance d ≡ g.notified) × (d.config.sefi ≡ msg.sefi)
    unfolding init IsBalanced
    fund_balanced env msg calls plain =
        run-IsBalanced msg.sefi calls (init env msg).0 _ plain (omega arith, refl)
