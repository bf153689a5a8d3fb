-- ===== src/GovToken/Ledger.antt =====
-- contracts/gov-token/src/contract.rs: the supply against the balances, and who may spend.
use secret_finance_rewards.Common.{
  ℕ, ◌+◌, ◌≤◌, ◌≡◌, refl, ap, false, not, [], none, arith, ok, Ensures, >>=-Ensures, Ensures-intro,
  Ensures-ok, err_if, str_eq, eq_refl, contains,
}
use secret_finance_rewards.Scrt.Types.{HumanAddr}
use secret_finance_rewards.Scrt.Chain.{Env}
use secret_finance_rewards.GovToken.Msg.{HandleMsg}
use secret_finance_rewards.GovToken.State.{
  CanonicalAddr, Allowance, Deps, store_transfer, set_status, account_amount, set_account_balance,
  read_allowance, write_allowance, write_viewing_key, set_receiver_hash, load_or,
}
use secret_finance_rewards.GovToken.Handle.{
  Externals, Outcome, add_or, check_if_admin, perform_transfer, spend_allowance, burn_of,
  change_admin, set_contract_status, add_minters, remove_minters, set_minters, try_register_receive,
  try_mint, try_set_key, try_create_key, try_transfer_impl, try_transfer, try_send,
  try_transfer_from_impl, try_transfer_from, try_send_from, try_burn_from, try_burn,
  try_increase_allowance, try_decrease_allowance, handle_running,
}
use secret_finance_rewards.GovToken.Books.{
  held, allowed, add_or-eq, held-set, raised, allowed-write, IsSpent, IsTaken, IsSame,
  store_transfer-IsSame, spend_allowance-IsSpent, burn_of-IsTaken, perform_transfer-IsTaken,
}

-- A call of a sender: the tokens in the accounts change as the supply does, and what another account
-- loses, the sender may spend less of it afterwards.
pub record IsBooked (sender : CanonicalAddr) (d d' : Deps) : Type 0 where
  pub conserved : held d' + d.total_supply ≡ held d + d'.total_supply
  pub guarded :
      (a : CanonicalAddr)
      → str_eq sender a ≡ false
      → account_amount d a + allowed d' a sender ≤ account_amount d' a + allowed d a sender

same_amount :
    (d d' : Deps) (a : CanonicalAddr)
    → d'.balances ≡ d.balances
    → account_amount d' a ≡ account_amount d a
unfolding account_amount
same_amount d d' a e = ap (load_or 0 a) e

same_allowed :
    (d d' : Deps) (o s : CanonicalAddr)
    → d'.allowances ≡ d.allowances
    → allowed d' o s ≡ allowed d o s
unfolding read_allowance
same_allowed d d' o s e =
    ap
      (λ m.
        (load_or {V = Allowance} (record { amount = 0; expiration = none }) s
          (load_or [] o m)).amount)
      e

module _ (sender : CanonicalAddr) (d : Deps) where
  pub same-IsBooked : (d' : Deps) → IsSame d d' → IsBooked sender d d'
  same-IsBooked d' e = record {
    conserved = rw (e.balances, e.supply) refl;
    guarded = λ a h.
        omega (arith, same_amount d d' a e.balances, same_allowed d d' a sender e.allowances);
  }

  taken-IsBooked :
      (amount : ℕ) (d1 d' : Deps) → IsTaken d sender amount d1 → IsSame d1 d' → IsBooked sender d d'
  taken-IsBooked amount d1 d' t e = record {
    conserved = rw (e.balances, e.supply) t.conserved;
    guarded = λ a h. omega (
      arith,
      rw h at (t.keeps a),
      same_amount d1 d' a e.balances,
      same_allowed d1 d' a sender e.allowances,
      same_allowed d d1 a sender t.allowances,
    );
  }

  spent-IsBooked :
      (owner : CanonicalAddr) (amount : ℕ) (d1 d2 d' : Deps)
      → IsSpent d owner sender amount d1
      → IsTaken d1 owner amount d2
      → IsSame d2 d'
      → IsBooked sender d d'
  spent-IsBooked owner amount d1 d2 d' s t e = record {
    conserved = rw (e.balances, e.supply) (rw (s.balances, s.supply) at t.conserved);
    guarded = λ a h. ground (
      arith,
      t.keeps a,
      rw (eq_refl sender) at (s.less a sender),
      same_amount d d1 a s.balances,
      same_amount d2 d' a e.balances,
      same_allowed d2 d' a sender e.allowances,
      same_allowed d1 d2 a sender t.allowances,
    );
  }

  -- Of an allowance of the sender's own nobody else's account depends.
  written-IsBooked :
      (spender : CanonicalAddr) (new : Allowance)
      → IsBooked sender d (write_allowance d sender spender new)
  unfolding write_allowance
  written-IsBooked spender new = record {
    conserved = refl;
    guarded = λ a h. omega (
      arith,
      rw h at (allowed-write d sender spender new a sender),
      same_amount d (write_allowance d sender spender new) a refl,
    );
  }

abbrev Booked : CanonicalAddr → Deps → Outcome → Type 0
Booked sender d o = IsBooked sender d o.0

module _ (x : Externals) (d : Deps) (env : Env) (sender : CanonicalAddr)
    (is_sender : (a : CanonicalAddr) → x.api.canonical_address env.sender ≡ ok a → a ≡ sender) where
  unmoved :
      (d' : Deps)
      → d'.balances ≡ d.balances
      → d'.total_supply ≡ d.total_supply
      → d'.allowances ≡ d.allowances
      → IsBooked sender d d'
  unmoved d' b t a = same-IsBooked sender d d' (record { balances = b; supply = t; allowances = a })

  transfer-IsBooked :
      (recipient : HumanAddr) (amount : ℕ)
      → Ensures (IsBooked sender d) (try_transfer_impl x d env recipient amount)
  unfolding try_transfer_impl
  transfer-IsBooked recipient amount =
      >>=-Ensures (x.api.canonical_address env.sender) _ _ λ from hf.
        >>=-Ensures (x.api.canonical_address recipient) _ _ λ to ht.
          >>=-Ensures (perform_transfer d from to amount) _ _ λ d1 h1.
            Ensures-intro (IsBooked sender d)
              (store_transfer d1 from from to amount d.constants.symbol)
              λ d' h'.
                let t =
                  Ensures-ok (IsTaken d from amount) (perform_transfer d from to amount)
                    (perform_transfer-IsTaken d from to amount) h1 in
                let e =
                  Ensures-ok (IsSame d1) (store_transfer d1 from from to amount d.constants.symbol)
                    (store_transfer-IsSame d1 from from to amount d.constants.symbol) h' in
                taken-IsBooked sender d amount d1 d' (rw (is_sender from hf) at t) e

  transfer_from-IsBooked :
      (owner recipient : HumanAddr) (amount : ℕ)
      → Ensures (IsBooked sender d) (try_transfer_from_impl x d env owner recipient amount)
  unfolding try_transfer_from_impl
  transfer_from-IsBooked owner recipient amount =
      >>=-Ensures (x.api.canonical_address env.sender) _ _ λ by hb.
        >>=-Ensures (x.api.canonical_address owner) _ _ λ from hf.
          >>=-Ensures (x.api.canonical_address recipient) _ _ λ to ht.
            >>=-Ensures (spend_allowance d env from by amount) _ _ λ d1 h1.
              >>=-Ensures (perform_transfer d1 from to amount) _ _ λ d2 h2.
                Ensures-intro (IsBooked sender d)
                  (store_transfer d2 from by to amount d.constants.symbol)
                  λ d' h'.
                    let s =
                      Ensures-ok (IsSpent d from by amount) (spend_allowance d env from by amount)
                        (spend_allowance-IsSpent d env from by amount) h1 in
                    let t =
                      Ensures-ok (IsTaken d1 from amount) (perform_transfer d1 from to amount)
                        (perform_transfer-IsTaken d1 from to amount) h2 in
                    let e =
                      Ensures-ok (IsSame d2)
                        (store_transfer d2 from by to amount d.constants.symbol)
                        (store_transfer-IsSame d2 from by to amount d.constants.symbol) h' in
                    spent-IsBooked sender d from amount d1 d2 d' (rw (is_sender by hb) at s) t e

  burn-IsBooked : (amount : ℕ) → Ensures (Booked sender d) (try_burn x d env amount)
  unfolding try_burn
  burn-IsBooked amount = >>=-Ensures (x.api.canonical_address env.sender) _ _ λ from hf.
      >>=-Ensures (burn_of d from amount) _ _ λ d1 h1.
        let t =
          Ensures-ok (IsTaken d from amount) (burn_of d from amount) (burn_of-IsTaken d from amount)
            h1 in
        taken-IsBooked sender d amount d1 d1 (rw (is_sender from hf) at t)
          (record { balances = refl; supply = refl; allowances = refl })

  burn_from-IsBooked :
      (owner : HumanAddr) (amount : ℕ)
      → Ensures (Booked sender d) (try_burn_from x d env owner amount)
  unfolding try_burn_from
  burn_from-IsBooked owner amount = >>=-Ensures (x.api.canonical_address env.sender) _ _ λ by hb.
      >>=-Ensures (x.api.canonical_address owner) _ _ λ from hf.
        >>=-Ensures (spend_allowance d env from by amount) _ _ λ d1 h1.
          >>=-Ensures (burn_of d1 from amount) _ _ λ d2 h2.
            let s =
              Ensures-ok (IsSpent d from by amount) (spend_allowance d env from by amount)
                (spend_allowance-IsSpent d env from by amount) h1 in
            let t =
              Ensures-ok (IsTaken d1 from amount) (burn_of d1 from amount)
                (burn_of-IsTaken d1 from amount) h2 in
            spent-IsBooked sender d from amount d1 d2 d2 (rw (is_sender by hb) at s) t
              (record { balances = refl; supply = refl; allowances = refl })

  mint-IsBooked :
      (recipient : HumanAddr) (amount : ℕ)
      → Ensures (Booked sender d) (try_mint x d env recipient amount)
  unfolding try_mint account_amount set_account_balance read_allowance
  mint-IsBooked recipient amount =
      >>=-Ensures (err_if (not (contains d.minters env.sender)) _) _ _ λ _ _.
        >>=-Ensures (add_or _ d.total_supply amount) _ _ λ supply hs.
          >>=-Ensures (x.api.canonical_address recipient) _ _ λ to ht.
            >>=-Ensures (add_or _ (account_amount d to) amount) _ _ λ more hm.
              let gave = add_or-eq _ (account_amount d to) amount hm in
              record {
                conserved =
                    omega (arith, held-set d to more, gave, add_or-eq _ d.total_supply amount hs);
                guarded = λ a h. omega (arith, raised d to a more amount gave.0);
              }

  pub handle_running-IsBooked :
      (msg : HandleMsg) → Ensures (Booked sender d) (handle_running x d env msg)
  unfolding handle_running try_transfer try_send try_transfer_from try_send_from
      try_register_receive set_receiver_hash try_create_key try_set_key write_viewing_key
      try_increase_allowance try_decrease_allowance change_admin set_contract_status set_status
      add_minters remove_minters set_minters
  handle_running-IsBooked (HandleMsg.transfer recipient amount) =
      >>=-Ensures (try_transfer_impl x d env recipient amount) _ _ λ d' h.
        Ensures-ok (IsBooked sender d) (try_transfer_impl x d env recipient amount)
          (transfer-IsBooked recipient amount) h
  handle_running-IsBooked (HandleMsg.send recipient amount msg) =
      >>=-Ensures (try_transfer_impl x d env recipient amount) _ _ λ d' h.
        Ensures-ok (IsBooked sender d) (try_transfer_impl x d env recipient amount)
          (transfer-IsBooked recipient amount) h
  handle_running-IsBooked (HandleMsg.burn amount) = burn-IsBooked amount
  handle_running-IsBooked (HandleMsg.register_receive code_hash) = unmoved _ refl refl refl
  handle_running-IsBooked (HandleMsg.create_viewing_key entropy) =
      >>=-Ensures (x.api.canonical_address env.sender) _ _ λ a ha. unmoved _ refl refl refl
  handle_running-IsBooked (HandleMsg.set_viewing_key key) =
      >>=-Ensures (x.api.canonical_address env.sender) _ _ λ a ha. unmoved _ refl refl refl
  handle_running-IsBooked (HandleMsg.increase_allowance spender amount expiration) =
      >>=-Ensures (x.api.canonical_address env.sender) _ _ λ owner ho.
        >>=-Ensures (x.api.canonical_address spender) _ _
          λ to ht. rw (← is_sender owner ho) (written-IsBooked owner d to _)
  handle_running-IsBooked (HandleMsg.decrease_allowance spender amount expiration) =
      >>=-Ensures (x.api.canonical_address env.sender) _ _ λ owner ho.
        >>=-Ensures (x.api.canonical_address spender) _ _
          λ to ht. rw (← is_sender owner ho) (written-IsBooked owner d to _)
  handle_running-IsBooked (HandleMsg.transfer_from owner recipient amount) =
      >>=-Ensures (try_transfer_from_impl x d env owner recipient amount) _ _ λ d' h.
        Ensures-ok (IsBooked sender d) (try_transfer_from_impl x d env owner recipient amount)
          (transfer_from-IsBooked owner recipient amount) h
  handle_running-IsBooked (HandleMsg.send_from owner recipient amount msg) =
      >>=-Ensures (try_transfer_from_impl x d env owner recipient amount) _ _ λ d' h.
        Ensures-ok (IsBooked sender d) (try_transfer_from_impl x d env owner recipient amount)
          (transfer_from-IsBooked owner recipient amount) h
  handle_running-IsBooked (HandleMsg.burn_from owner amount) = burn_from-IsBooked owner amount
  handle_running-IsBooked (HandleMsg.mint recipient amount) = mint-IsBooked recipient amount
  handle_running-IsBooked (HandleMsg.change_admin address) =
      >>=-Ensures (check_if_admin d env.sender) _ _ λ _ _. unmoved _ refl refl refl
  handle_running-IsBooked (HandleMsg.set_contract_status level) =
      >>=-Ensures (check_if_admin d env.sender) _ _ λ _ _. unmoved _ refl refl refl
  handle_running-IsBooked (HandleMsg.add_minters minters) =
      >>=-Ensures (check_if_admin d env.sender) _ _ λ _ _. unmoved _ refl refl refl
  handle_running-IsBooked (HandleMsg.remove_minters minters) =
      >>=-Ensures (check_if_admin d env.sender) _ _ λ _ _. unmoved _ refl refl refl
  handle_running-IsBooked (HandleMsg.set_minters minters) =
      >>=-Ensures (check_if_admin d env.sender) _ _ λ _ _. unmoved _ refl refl refl
