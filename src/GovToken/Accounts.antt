-- ===== src/GovToken/Accounts.antt =====
-- contracts/gov-token/src/contract.rs: what the accounts hold after any calls, and what others may
-- take of it.
use secret_finance_rewards.Common.{
  ◌+◌, ◌≤◌, ◌≡◌, refl, false, not, List, [], ◌∷◌, arith, Result, ok, err, Ensures, >>=-Ensures,
  Ensures-ok, Ensures-intro, err_if, str_eq, ltb, unwrap_or, run_calls, run_calls-keeps,
}
use secret_finance_rewards.Scrt.Chain.{Env}
use secret_finance_rewards.GovToken.Msg.{InitialBalance, InitMsg, ContractStatusLevel, HandleMsg}
use secret_finance_rewards.GovToken.State.{
  CanonicalAddr, Deps, contract_status, set_status, account_amount,
}
use secret_finance_rewards.GovToken.Handle.{
  Externals, Outcome, Padded, is_valid_name, is_valid_symbol, add_or, check_if_admin,
  set_contract_status, initial_loop, fresh, init, handle_stopped, pad_response, handle_at, handle,
}
use secret_finance_rewards.GovToken.Books.{held, allowed, add_or-eq, held-set}
use secret_finance_rewards.GovToken.Ledger.{IsBooked, same-IsBooked, handle_running-IsBooked}

module _ (x : Externals) (d : Deps) (env : Env) (sender : CanonicalAddr)
    (is_sender : (a : CanonicalAddr) → x.api.canonical_address env.sender ≡ ok a → a ≡ sender) where
  handle_stopped-IsBooked :
      (msg : HandleMsg) → Ensures (λ o. IsBooked sender d o.0) (handle_stopped x d env msg)
  unfolding handle_stopped set_contract_status set_status
  handle_stopped-IsBooked (HandleMsg.set_contract_status level) =
      >>=-Ensures (check_if_admin d env.sender) _ _ λ _ _.
        same-IsBooked sender d _ (record { balances = refl; supply = refl; allowances = refl })
  handle_stopped-IsBooked (HandleMsg.transfer recipient amount) = tt
  handle_stopped-IsBooked (HandleMsg.send recipient amount msg) = tt
  handle_stopped-IsBooked (HandleMsg.burn amount) = tt
  handle_stopped-IsBooked (HandleMsg.register_receive code_hash) = tt
  handle_stopped-IsBooked (HandleMsg.create_viewing_key entropy) = tt
  handle_stopped-IsBooked (HandleMsg.set_viewing_key key) = tt
  handle_stopped-IsBooked (HandleMsg.increase_allowance spender amount expiration) = tt
  handle_stopped-IsBooked (HandleMsg.decrease_allowance spender amount expiration) = tt
  handle_stopped-IsBooked (HandleMsg.transfer_from owner recipient amount) = tt
  handle_stopped-IsBooked (HandleMsg.send_from owner recipient amount msg) = tt
  handle_stopped-IsBooked (HandleMsg.burn_from owner amount) = tt
  handle_stopped-IsBooked (HandleMsg.mint recipient amount) = tt
  handle_stopped-IsBooked (HandleMsg.change_admin address) = tt
  handle_stopped-IsBooked (HandleMsg.add_minters minters) = tt
  handle_stopped-IsBooked (HandleMsg.remove_minters minters) = tt
  handle_stopped-IsBooked (HandleMsg.set_minters minters) = tt

  handle_at-IsBooked :
      (level : ContractStatusLevel) (msg : HandleMsg)
      → Ensures (λ o. IsBooked sender d o.0) (handle_at x level d env msg)
  unfolding handle_at
  handle_at-IsBooked ContractStatusLevel.normal_run msg =
      handle_running-IsBooked x d env sender is_sender msg
  handle_at-IsBooked ContractStatusLevel.stop_all_but_redeems msg = handle_stopped-IsBooked msg
  handle_at-IsBooked ContractStatusLevel.stop_all msg = handle_stopped-IsBooked msg

  pub handle-IsBooked :
      (msg : HandleMsg) → Ensures (λ o. IsBooked sender d o.0) (handle x d env msg)
  unfolding handle pad_response
  handle-IsBooked msg = >>=-Ensures (contract_status d) _ _ λ level hl.
      >>=-Ensures (handle_at x level d env msg) _ _ λ o ho.
        Ensures-ok (λ (o : Outcome). IsBooked sender d o.0) (handle_at x level d env msg)
          (handle_at-IsBooked level msg) ho

-- The canonical form of the sender; any address where there is none.
sender_of : Externals → Env → CanonicalAddr
sender_of x env = elim (x.api.canonical_address env.sender) [ ok a ↦ a | err e ↦ "" ]

found :
    (r : Result CanonicalAddr) (a : CanonicalAddr)
    → r ≡ ok a
    → a ≡ (elim r [ ok a ↦ a | err e ↦ "" ])
found (ok b) a h = cc
found (err e) a h = absurd (cc)

abbrev pub handle_call : Externals → Deps → Env × HandleMsg → Result Padded
handle_call x d call = handle x d call.0 call.1

-- The accounts hold at most the supply, and the gap is that of the first storage.
abbrev IsCovered : Deps → Deps → Type 0
IsCovered d0 d = (held d ≤ d.total_supply) × (held d + d0.total_supply ≡ held d0 + d.total_supply)

handle-IsCovered :
    (x : Externals) (d0 d : Deps) (call : Env × HandleMsg)
    → IsCovered d0 d
    → Ensures (λ o. IsCovered d0 o.0) (handle_call x d call)
unfolding sender_of
handle-IsCovered x d0 d (env, msg) c =
    Ensures-intro (λ (o : Padded). IsCovered d0 o.0) (handle x d env msg)
      λ o ho.
        let b =
          Ensures-ok (λ (o : Padded). IsBooked (sender_of x env) d o.0) (handle x d env msg)
            (handle-IsBooked x d env (sender_of x env) (found (x.api.canonical_address env.sender))
              msg)
            ho in
        (omega (arith, b.conserved, c), omega (arith, b.conserved, c))

initial_loop-held :
    (x : Externals) (balances : List InitialBalance) (d : Deps)
    → held d ≤ d.total_supply
    → Ensures (λ d'. held d' ≤ d'.total_supply) (initial_loop x balances d)
unfolding initial_loop
initial_loop-held x [] d h = h
initial_loop-held x (balance ∷ rest) d h =
    >>=-Ensures (x.api.canonical_address balance.address) _ _ λ a ha.
      >>=-Ensures (add_or _ d.total_supply balance.amount) _ _ λ supply hs.
        initial_loop-held x rest _ (
          omega
            (arith, h, held-set d a balance.amount, add_or-eq _ d.total_supply balance.amount hs))

init-held :
    (x : Externals) (env : Env) (msg : InitMsg)
    → Ensures (λ d. held d ≤ d.total_supply) (init x env msg)
unfolding init fresh
init-held x env msg =
    >>=-Ensures (initial_loop x (unwrap_or msg.initial_balances []) (fresh x env msg)) _ _ λ d hd.
      >>=-Ensures (err_if (not (is_valid_name x msg.name)) _) _ _ λ _ _.
        >>=-Ensures (err_if (not (is_valid_symbol x msg.symbol)) _) _ _ λ _ _.
          >>=-Ensures (err_if (ltb 18 msg.decimals) _) _ _ λ _ _.
            Ensures-ok (λ (d : Deps). held d ≤ d.total_supply)
              (initial_loop x (unwrap_or msg.initial_balances []) (fresh x env msg))
              (initial_loop-held x (unwrap_or msg.initial_balances []) (fresh x env msg)
                (omega arith))
              hd

-- After `init` and any calls by anyone, with any initial balances: the accounts hold together at
-- most the total supply, and what they hold has changed since `init` by exactly what the supply has.
pub supply_covers :
    (x : Externals) (env : Env) (msg : InitMsg) {d0 : Deps}
    → init x env msg ≡ ok d0
    → (calls : List (Env × HandleMsg))
    → let d = run_calls (handle_call x) calls d0 in
      (held d ≤ d.total_supply) × (held d + d0.total_supply ≡ held d0 + d.total_supply)
supply_covers x env msg {d0} made calls =
    run_calls-keeps (handle_call x) (IsCovered d0) (handle-IsCovered x d0) calls d0 (
      Ensures-ok (λ (d : Deps). held d ≤ d.total_supply) (init x env msg) (init-held x env msg)
          made,
      refl,
    )

-- In a call by another account, whatever the call is: what an account has less of afterwards, the
-- caller may also spend less of its tokens.
pub spending_guarded :
    (x : Externals) (d : Deps) (env : Env) (msg : HandleMsg) (caller owner : CanonicalAddr)
    → x.api.canonical_address env.sender ≡ ok caller
    → str_eq caller owner ≡ false
    → Ensures
        (λ o.
          account_amount d owner + allowed o.0 owner caller
          ≤ account_amount o.0 owner + allowed d owner caller)
        (handle x d env msg)
spending_guarded x d env msg caller owner known other = Ensures-intro _ (handle x d env msg) λ o ho.
    let is_caller : (a : CanonicalAddr) → x.api.canonical_address env.sender ≡ ok a → a ≡ caller =
      λ a h. cc (h, known) in
    let b =
      Ensures-ok (λ (o : Padded). IsBooked caller d o.0) (handle x d env msg)
        (handle-IsBooked x d env caller is_caller msg) ho in
    b.guarded owner other
