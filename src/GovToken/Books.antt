-- ===== src/GovToken/Books.antt =====
-- contracts/gov-token: what the steps of the handlers do to balances, allowances and the supply.
use secret_finance_rewards.Common.{
  ℕ, ◌+◌, ◌-◌, ◌≤◌, ◌<◌, ◌≡◌, refl, String, Bool, true, false, ◌&&◌, [], Option, none, some, arith,
  ok, StdError, Ensures, >>=-Ensures, err_if, inl, inr, Bool-cases, str_eq, eq_iff, if◌then◌else◌,
  unwrap_or, u64, u128, checked_add, Dict, lookup, insert, lookup-insert, total, total-insert,
  at_or_zero,
}
use secret_finance_rewards.Scrt.Chain.{Env}
use secret_finance_rewards.GovToken.State.{
  CanonicalAddr, Allowance, StoredTx, Deps, load_or, append_tx, store_transfer, account_amount,
  set_account_balance, read_allowance, write_allowance,
}
use secret_finance_rewards.GovToken.Handle.{
  insufficient_allowance, has_expired, sub_or, add_or, perform_transfer, spend_allowance, burn_of,
}

-- What all accounts hold together.
abbrev pub held : Deps → ℕ
held d = total (λ b. b) d.balances

-- What an owner allows a spender.
abbrev pub allowed : Deps → CanonicalAddr → CanonicalAddr → ℕ
allowed d owner spender = (read_allowance d owner spender).amount

sub_or-eq : (e : StdError) (a b : ℕ) {c : ℕ} → sub_or e a b ≡ ok c → (c ≡ a - b) × (b ≤ a)
unfolding sub_or
sub_or-eq e a b h = ground arith

pub add_or-eq :
    (e : StdError) (a b : ℕ) {c : ℕ} → add_or e a b ≡ ok c → (c ≡ a + b) × (a + b < u128)
unfolding add_or
add_or-eq e a b h = ground arith

unwrap_or-if {ℓ} :
    {V : Type ℓ} (b : Bool) (v default : V) (o : Option V)
    → unwrap_or (if b then some v else o) default ≡ (if b then v else unwrap_or o default)
unwrap_or-if true v default o = refl
unwrap_or-if false v default o = refl

load_or-insert {ℓ} :
    {V : Type ℓ} (default : V) (key asked : String) (v : V) (m : Dict V)
    → load_or default asked (insert key v m)
      ≡ (if str_eq key asked then v else load_or default asked m)
unfolding load_or
load_or-insert default key asked v m =
    rw (lookup-insert key asked v m) (unwrap_or-if (str_eq key asked) v default (lookup asked m))

pub account_amount-set :
    (d : Deps) (account asked : CanonicalAddr) (v : ℕ)
    → account_amount (set_account_balance d account v) asked
      ≡ (if str_eq account asked then v else account_amount d asked)
unfolding account_amount set_account_balance
account_amount-set d account asked v = load_or-insert 0 account asked v d.balances

at_or_zero-id : (o : Option ℕ) → at_or_zero (λ b. b) o ≡ unwrap_or o 0
at_or_zero-id none = refl
at_or_zero-id (some b) = refl

pub held-set :
    (d : Deps) (account : CanonicalAddr) (v : ℕ)
    → held (set_account_balance d account v) + account_amount d account ≡ held d + v
unfolding account_amount set_account_balance load_or
held-set d account v =
    rw (at_or_zero-id (lookup account d.balances)) at (total-insert (λ b. b) account v d.balances)

ap-if {ℓ κ} :
    {A : Type ℓ} {B : Type κ} (f : A → B) (b : Bool) (v w : A)
    → f (if b then v else w) ≡ (if b then f v else f w)
ap-if f true v w = refl
ap-if f false v w = refl

allowed-insert :
    (m : Dict (Dict Allowance)) (z : Allowance) (owner spender : CanonicalAddr) (new : Allowance)
    (o s : CanonicalAddr)
    → (load_or z s (load_or [] o (insert owner (insert spender new (load_or [] owner m)) m))).amount
      ≡ (if str_eq owner o && str_eq spender s
          then new.amount
          else (load_or z s (load_or [] o m)).amount)
allowed-insert m z owner spender new o s =
    let written = insert spender new (load_or [] owner m) in
    let found = load_or-insert [] owner o written m in
    elim (Bool-cases (str_eq owner o)) [
      | inl same ↦
          let e : owner ≡ o = (eq_iff owner o).0 same in
          rw (found, same, load_or-insert z spender s new (load_or [] owner m))
            (rw e (ap-if (λ a. a.amount) (str_eq spender s) new (load_or z s (load_or [] o m))))
      | inr other ↦ rw (found, other) refl
    ]

pub allowed-write :
    (d : Deps) (owner spender : CanonicalAddr) (new : Allowance) (o s : CanonicalAddr)
    → allowed (write_allowance d owner spender new) o s
      ≡ (if str_eq owner o && str_eq spender s then new.amount else allowed d o s)
unfolding read_allowance write_allowance
allowed-write d owner spender new o s =
    allowed-insert d.allowances (record { amount = 0; expiration = none }) owner spender new o s

-- The spent part of an allowance, where it is the one that is asked for.
abbrev pub part : Bool → ℕ → ℕ
part b amount = if b then amount else 0

same_balances :
    (d : Deps) (o s : CanonicalAddr) (new : Allowance)
    → (write_allowance d o s new).balances ≡ d.balances
unfolding write_allowance
same_balances d o s new = refl

same_supply :
    (d : Deps) (o s : CanonicalAddr) (new : Allowance)
    → (write_allowance d o s new).total_supply ≡ d.total_supply
unfolding write_allowance
same_supply d o s new = refl

pub record IsSpent (d : Deps) (owner spender : CanonicalAddr) (amount : ℕ) (d' : Deps)
    : Type 0 where
  pub balances : d'.balances ≡ d.balances
  pub supply : d'.total_supply ≡ d.total_supply
  pub less :
      (o s : CanonicalAddr)
      → allowed d' o s + part (str_eq owner o && str_eq spender s) amount ≡ allowed d o s

-- `amount` is taken from an account, and may come back to it; the allowances stay.
pub record IsTaken (d : Deps) (from : CanonicalAddr) (amount : ℕ) (d' : Deps) : Type 0 where
  pub conserved : held d' + d.total_supply ≡ held d + d'.total_supply
  pub allowances : d'.allowances ≡ d.allowances
  pub keeps :
      (a : CanonicalAddr) → account_amount d a ≤ account_amount d' a + part (str_eq from a) amount

-- What is left in an account, and in the others.
kept_after :
    (d : Deps) (from a : CanonicalAddr) (left amount : ℕ)
    → left + amount ≡ account_amount d from
    → account_amount d a
      ≤ account_amount (set_account_balance d from left) a + part (str_eq from a) amount
kept_after d from a left amount h = elim (Bool-cases (str_eq from a)) [
  | inl same ↦
      let e : from ≡ a = (eq_iff from a).0 same in
      rw (account_amount-set d from a left, same) (rw (← e) (omega (arith, h)))
  | inr other ↦ rw (account_amount-set d from a left, other) (omega arith)
]

pub raised :
    (d : Deps) (to a : CanonicalAddr) (more amount : ℕ)
    → more ≡ account_amount d to + amount
    → account_amount d a ≤ account_amount (set_account_balance d to more) a
raised d to a more amount h = elim (Bool-cases (str_eq to a)) [
  | inl same ↦
      let e : to ≡ a = (eq_iff to a).0 same in
      rw (account_amount-set d to a more, same) (rw (← e) (omega (arith, h)))
  | inr other ↦ rw (account_amount-set d to a more, other) (omega arith)
]

less_allowed :
    (d : Deps) (owner spender : CanonicalAddr) (left amount : ℕ)
    → left + amount ≡ allowed d owner spender
    → (o s : CanonicalAddr)
    → allowed
          (write_allowance d owner spender
            (record (read_allowance d owner spender) { amount = left }))
          o
          s
        + part (str_eq owner o && str_eq spender s) amount
      ≡ allowed d o s
less_allowed d owner spender left amount h o s =
    let w =
      allowed-write d owner spender (record (read_allowance d owner spender) { amount = left }) o
        s in
    elim (Bool-cases (str_eq owner o && str_eq spender s)) [
      | inl same ↦
          let e : owner ≡ o = ground (arith, eq_iff owner o) in
          let e' : spender ≡ s = ground (arith, eq_iff spender s) in rw (w, same) (rw (← e, ← e') h)
      | inr other ↦ rw (w, other) (omega arith)
    ]

-- Nothing of it is touched.
pub record IsSame (d d' : Deps) : Type 0 where
  pub balances : d'.balances ≡ d.balances
  pub supply : d'.total_supply ≡ d.total_supply
  pub allowances : d'.allowances ≡ d.allowances

append_tx-IsSame : (d : Deps) (tx : StoredTx) (a : CanonicalAddr) → IsSame d (append_tx d tx a)
unfolding append_tx
append_tx-IsSame d tx a = record { balances = refl; supply = refl; allowances = refl }

pub store_transfer-IsSame :
    (d : Deps) (owner sender receiver : CanonicalAddr) (amount : ℕ) (denom : String)
    → Ensures (IsSame d) (store_transfer d owner sender receiver amount denom)
unfolding store_transfer append_tx
store_transfer-IsSame d owner sender receiver amount denom =
    >>=-Ensures (checked_add u64 d.tx_count 1) _ _ λ id hid.
      elim (Bool-cases (str_eq owner sender)) [
        | inl same ↦ rw same (record { balances = refl; supply = refl; allowances = refl })
        | inr other ↦ rw other (record { balances = refl; supply = refl; allowances = refl })
      ]

pub spend_allowance-IsSpent :
    (d : Deps) (env : Env) (owner spender : CanonicalAddr) (amount : ℕ)
    → Ensures (IsSpent d owner spender amount) (spend_allowance d env owner spender amount)
unfolding spend_allowance
spend_allowance-IsSpent d env owner spender amount =
    let a = read_allowance d owner spender in
    let e = insufficient_allowance a.amount amount in
    >>=-Ensures {B = Deps} (err_if (has_expired env a) (insufficient_allowance 0 amount)) _ _ λ _ _.
      >>=-Ensures {B = Deps} (sub_or e a.amount amount) _ _ λ left hl. record {
        balances = same_balances d owner spender (record a { amount = left });
        supply = same_supply d owner spender (record a { amount = left });
        less =
            less_allowed d owner spender left amount
              (omega (arith, sub_or-eq e a.amount amount hl));
      }

pub burn_of-IsTaken :
    (d : Deps) (account : CanonicalAddr) (amount : ℕ)
    → Ensures (IsTaken d account amount) (burn_of d account amount)
unfolding burn_of account_amount set_account_balance
burn_of-IsTaken d account amount =
    >>=-Ensures (sub_or _ (account_amount d account) amount) _ _ λ left hl.
      >>=-Ensures (sub_or _ d.total_supply amount) _ _ λ supply hs.
        let taken = sub_or-eq _ (account_amount d account) amount hl in
        record {
          conserved =
              omega (arith, held-set d account left, taken, sub_or-eq _ d.total_supply amount hs);
          allowances = refl;
          keeps = λ a. kept_after d account a left amount (omega (arith, taken));
        }

pub perform_transfer-IsTaken :
    (d : Deps) (from to : CanonicalAddr) (amount : ℕ)
    → Ensures (IsTaken d from amount) (perform_transfer d from to amount)
unfolding perform_transfer account_amount set_account_balance
perform_transfer-IsTaken d from to amount =
    >>=-Ensures (sub_or _ (account_amount d from) amount) _ _ λ left hl.
      let taken = set_account_balance d from left in
      >>=-Ensures (add_or _ (account_amount taken to) amount) _ _ λ more hm.
        let took = sub_or-eq _ (account_amount d from) amount hl in
        let gave = add_or-eq _ (account_amount taken to) amount hm in
        record {
          conserved = omega (arith, held-set d from left, held-set taken to more, took, gave);
          allowances = refl;
          keeps = λ a. omega (
            arith,
            kept_after d from a left amount (omega (arith, took)),
            raised taken to a more amount gave.0,
          );
        }
