-- ===== src/CashbackMinter/Pairs.antt =====
-- contracts/cashback-minter/src/contract.rs: the pairs that are supported, and what is minted for a
-- swap.
use secret_finance_rewards.Common.{
  ℕ, ◌≡◌, refl, String, Bool, true, false, not, ◌&&◌, ◌||◌, List, [], ◌∷◌, Option, none, some,
  Result, ok, Ensures, >>=-Ensures, Ensures-ok, err_if, generic_err, ltb, ◌⊎◌, inl, inr, Bool-cases,
  if◌then◌else◌, lookup, insert, remove, AllKeys, insert-AllKeys, remove-AllKeys, lookup-AllKeys,
  run_calls, run_calls-keeps,
}
use secret_finance_rewards.Scrt.Types.{HumanAddr, Binary}
use secret_finance_rewards.Scrt.Chain.{Env, CosmosMsg}
use secret_finance_rewards.CashbackMinter.Asset.{Asset, PairInfo}
use secret_finance_rewards.CashbackMinter.Msg.{InitMsg, HandleMsg}
use secret_finance_rewards.CashbackMinter.Handle.{
  Externals, Deps, Outcome, success, enforce_admin, remove_pairs_from_storage, remove_pairs,
  set_admin, is_scrt, set_pairs_to_storage, init_pairs, init, get_eligibility, receive_swap_data,
  add_pairs, handle,
}

-- A contract that has answered as a pair with SCRT on one side.
pub record TradesScrt (x : Externals) (sscrt : HumanAddr) (pair : HumanAddr) : Type 0 where
  pub hash : String
  pub info : PairInfo
  pub answers : x.query_pair pair hash ≡ ok info
  pub scrt : (is_scrt x sscrt info.asset_infos.0 || is_scrt x sscrt info.asset_infos.1) ≡ true

record IsPaired (x : Externals) (sscrt : HumanAddr) (d : Deps) : Type 0 where
  pub same_sscrt : d.sscrt ≡ sscrt
  pub pairs : AllKeys (TradesScrt x sscrt) d.paired_tokens

one_side :
    (a b : Bool)
    → err_if (not a && not b) (generic_err "one of the sides of the pair has to be SCRT" []) ≡ ok tt
    → (a || b) ≡ true
one_side true b h = refl
one_side false true h = refl
one_side false false h = absurd (cc)

module _ (x : Externals) (sscrt : HumanAddr) where
  set_pairs-IsPaired :
      (pairs : List HumanAddr) (hash : String) (d : Deps)
      → IsPaired x sscrt d
      → Ensures (IsPaired x sscrt) (set_pairs_to_storage x pairs hash d)
  unfolding set_pairs_to_storage
  set_pairs-IsPaired [] hash d p = p
  set_pairs-IsPaired (pair ∷ pairs) hash d p = >>=-Ensures (x.query_pair pair hash) _ _ λ info hi.
      let a = is_scrt x d.sscrt info.asset_infos.0 in
      let b = is_scrt x d.sscrt info.asset_infos.1 in
      >>=-Ensures
        (err_if (not a && not b) (generic_err "one of the sides of the pair has to be SCRT" [])) _ _
        λ _ hs.
          set_pairs-IsPaired pairs hash
            (record d { paired_tokens = insert pair (1 ∷ []) d.paired_tokens })
            (record {
              same_sscrt = p.same_sscrt;
              pairs =
                  insert-AllKeys (TradesScrt x sscrt) pair (1 ∷ []) d.paired_tokens p.pairs
                    (record {
                      hash = hash;
                      info = info;
                      answers = hi;
                      scrt = rw p.same_sscrt at (one_side a b hs);
                    });
            })

  remove_pairs-IsPaired :
      (pairs : List HumanAddr) (d : Deps)
      → IsPaired x sscrt d
      → IsPaired x sscrt (remove_pairs_from_storage pairs d)
  unfolding remove_pairs_from_storage
  remove_pairs-IsPaired [] d p = p
  remove_pairs-IsPaired (pair ∷ pairs) d p =
      remove_pairs-IsPaired pairs (record d { paired_tokens = remove pair d.paired_tokens })
        (record {
          same_sscrt = p.same_sscrt;
          pairs = remove-AllKeys (TradesScrt x sscrt) pair d.paired_tokens p.pairs;
        })

  handle-IsPaired :
      (d : Deps) (env : Env) (msg : HandleMsg)
      → IsPaired x sscrt d
      → Ensures (λ o. IsPaired x sscrt o.0) (handle x d env msg)
  unfolding handle receive_swap_data add_pairs remove_pairs set_admin
  handle-IsPaired d env (HandleMsg.receive_swap_data asset_in asset_out account) p = p
  handle-IsPaired d env (HandleMsg.add_pairs pairs hash) p =
      >>=-Ensures (enforce_admin d env) _ _ λ _ _.
        >>=-Ensures (set_pairs_to_storage x pairs hash d) _ _ λ d' hd.
          Ensures-ok (IsPaired x sscrt) (set_pairs_to_storage x pairs hash d)
            (set_pairs-IsPaired pairs hash d p) hd
  handle-IsPaired d env (HandleMsg.remove_pairs pairs) p =
      >>=-Ensures (enforce_admin d env) _ _ λ _ _. remove_pairs-IsPaired pairs d p
  handle-IsPaired d env (HandleMsg.set_admin address) p =
      >>=-Ensures (enforce_admin d env) _ _
        λ _ _. record { same_sscrt = p.same_sscrt; pairs = p.pairs }

  init_pairs-IsPaired :
      (pairs : Option (List HumanAddr)) (hash : Option String) (d : Deps)
      → IsPaired x sscrt d
      → Ensures (IsPaired x sscrt) (init_pairs x pairs hash d)
  unfolding init_pairs
  init_pairs-IsPaired none hash d p = p
  init_pairs-IsPaired (some pairs) none d p = tt
  init_pairs-IsPaired (some pairs) (some hash) d p = set_pairs-IsPaired pairs hash d p

abbrev pub handle_call : Externals → Deps → Env × HandleMsg → Result Outcome
handle_call x d call = handle x d call.0 call.1

pairs_reached :
    (x : Externals) (env : Env) (msg : InitMsg) {d0 : Deps}
    → init x env msg ≡ ok d0
    → (calls : List (Env × HandleMsg))
    → IsPaired x msg.sscrt_addr (run_calls (handle_call x) calls d0)
unfolding init
pairs_reached x env msg {d0} made calls =
    let first : Deps = record {
      sscrt = msg.sscrt_addr;
      cashback = msg.cashback;
      admin = env.sender;
      paired_tokens = [];
    } in
    run_calls-keeps (handle_call x) (IsPaired x msg.sscrt_addr)
      (λ d call p. handle-IsPaired x msg.sscrt_addr d call.0 call.1 p) calls d0
      (Ensures-ok (IsPaired x msg.sscrt_addr) (init_pairs x msg.pairs msg.pair_contract_hash first)
        (init_pairs-IsPaired x msg.sscrt_addr msg.pairs msg.pair_contract_hash first
          (record { same_sscrt = refl; pairs = tt }))
        made)

-- The amount is that of a side of the swap that is SCRT.
abbrev pub IsScrtSide : Externals → HumanAddr → Asset → Asset → ℕ → Type 0
IsScrtSide x sscrt asset_in asset_out amount =
    ((is_scrt x sscrt asset_in.info ≡ true) × (amount ≡ asset_in.amount))
    ⊎ ((is_scrt x sscrt asset_out.info ≡ true) × (amount ≡ asset_out.amount))

-- What a swap that a caller reports may mint.
abbrev pub Minted : Externals → HumanAddr → Deps → Env → Asset → Asset → ℕ → Type 0
Minted x sscrt d env asset_in asset_out amount =
    (amount ≡ 0) ⊎ (TradesScrt x sscrt env.sender × IsScrtSide x sscrt asset_in asset_out amount)

module _ (x : Externals) (sscrt : HumanAddr) (d : Deps) (env : Env) (asset_in asset_out : Asset)
    (p : IsPaired x sscrt d) where
  eligible :
      (mark : Option Binary)
      → lookup env.sender d.paired_tokens ≡ mark
      → Minted x sscrt d env asset_in asset_out (get_eligibility x d env asset_in asset_out)
  unfolding get_eligibility
  eligible none e = rw (e, get_eligibility) (inl refl)
  eligible (some mark) e =
      let trades =
        lookup-AllKeys (TradesScrt x sscrt) env.sender d.paired_tokens {v = mark} p.pairs e in
      elim (Bool-cases (is_scrt x d.sscrt asset_in.info)) [
        | inl first ↦
            rw (e, get_eligibility, first) (inr (trades, inl (rw p.same_sscrt at first, refl)))
        | inr not_first ↦ elim (Bool-cases (is_scrt x d.sscrt asset_out.info)) [
          | inl second ↦
              rw (e, get_eligibility, not_first, second)
                (inr (trades, inr (rw p.same_sscrt at second, refl)))
          | inr neither ↦ rw (e, get_eligibility, not_first, neither) (inl refl)
        ]
      ]

-- After `init` and any calls by anyone, a report of a swap goes through and stores nothing. It mints
-- cashback, in one message for the account, only when the caller is a contract that has answered as
-- a pair with SCRT on one side, and then the amount is that of a side of the swap that is SCRT.
pub cashback_for_scrt :
    (x : Externals) (env : Env) (msg : InitMsg) {d0 : Deps}
    → init x env msg ≡ ok d0
    → (calls : List (Env × HandleMsg)) (now : Env) (asset_in asset_out : Asset)
      (account : HumanAddr)
    → let d = run_calls (handle_call x) calls d0 in
      (amount : ℕ) × (handle x d now (HandleMsg.receive_swap_data asset_in asset_out account)
        ≡ ok (
          d,
          success (if ltb 0 amount then CosmosMsg.mint account amount 256 d.cashback ∷ [] else []),
        ))
      × Minted x msg.sscrt_addr d now asset_in asset_out amount
unfolding handle receive_swap_data
cashback_for_scrt x env msg {d0} made calls now asset_in asset_out account =
    let d = run_calls (handle_call x) calls d0 in
    (
      get_eligibility x d now asset_in asset_out,
      refl,
      eligible x msg.sscrt_addr d now asset_in asset_out
          (pairs_reached x env msg {d0 = d0} made calls) (lookup now.sender d.paired_tokens) refl,
    )
