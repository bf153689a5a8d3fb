-- ===== src/GovToken/Keys.antt =====
-- contracts/gov-token/src/contract.rs: viewing keys, and the padding of what the token answers.
use secret_finance_rewards.Common.{
  ℕ, zero, suc, ◌+◌, ◌-◌, ◌%◌, ◌<◌, ◌≡◌, refl, ap, inl, inr, String, [], ◌∷◌, ◌++◌, Option, none,
  some, arith, ok, Ensures, >>=-Ensures, Bool-cases, ◌==◌, length, lookup-insert, eq_refl,
}
use secret_finance_rewards.Scrt.Types.{Binary}
use secret_finance_rewards.Scrt.Chain.{Env}
use secret_finance_rewards.GovToken.ViewingKey.{to_hashed, check_viewing_key-to_hashed}
use secret_finance_rewards.GovToken.Msg.{
  ContractStatusLevel, HandleMsg, ResponseStatus, HandleAnswer, QueryMsg, spaces, space_pad,
}
use secret_finance_rewards.GovToken.State.{
  CanonicalAddr, Deps, contract_status, account_amount, write_viewing_key, read_viewing_key,
}
use secret_finance_rewards.GovToken.Handle.{
  Externals, Padded, response_block_size, try_set_key, handle_running, handle_at, pad_answer,
  pad_response, handle,
}
use secret_finance_rewards.GovToken.Query.{
  QueryAnswer, authenticated, key_opens, addresses_loop, query,
}

read-write :
    (d : Deps) (owner : CanonicalAddr) (hashed : Binary)
    → read_viewing_key (write_viewing_key d owner hashed) owner ≡ some hashed
unfolding read_viewing_key write_viewing_key
read-write d owner hashed = rw (lookup-insert owner owner hashed d.viewing_keys, eq_refl owner) refl

same_holding :
    (d : Deps) (owner a : CanonicalAddr) (hashed : Binary)
    → account_amount (write_viewing_key d owner hashed) a ≡ account_amount d a
unfolding account_amount write_viewing_key
same_holding d owner a hashed = refl

-- An account that sets a viewing key, while the token runs, can read its balance with it: the call
-- goes through, and the query answers what the account has.
pub set_key_reads :
    (x : Externals) (d : Deps) (env : Env) (key : String) (owner : CanonicalAddr)
    → contract_status d ≡ ok ContractStatusLevel.normal_run
    → x.api.canonical_address env.sender ≡ ok owner
    → (o : Padded) × (handle x d env (HandleMsg.set_viewing_key key) ≡ ok o)
      × (query x o.0 (QueryMsg.balance env.sender key)
          ≡ ok (QueryAnswer.balance (account_amount d owner)))
unfolding handle handle_at handle_running try_set_key pad_response query addresses_loop key_opens
    authenticated
set_key_reads x d env key owner running known =
    let hashed = to_hashed x.crypto key in
    (
      (
        write_viewing_key d owner hashed,
        record {
          messages = [];
          log = [];
          answer = pad_answer x (some (HandleAnswer.set_viewing_key ResponseStatus.success));
        },
      ),
      rw (running, known) refl,
      rw
          (
            known,
            read-write d owner hashed,
            check_viewing_key-to_hashed x.crypto key,
            same_holding d owner owner hashed,
          )
          refl,
    )

length-spaces : (n : ℕ) → length (spaces n) ≡ n
unfolding spaces
length-spaces zero = refl
length-spaces (suc n) = ap suc (length-spaces n)

length-++ : (s t : Binary) → length (s ++ t) ≡ length s + length t
length-++ [] t = omega arith
length-++ (b ∷ s) t = omega (arith, length-++ s t)

-- A padded message: it fills blocks of 256 bytes with fewer than 256 spaces at its end.
record IsPadded (message padded : Binary) : Type 0 where
  pub whole : length padded % 256 ≡ 0
  pub missing : ℕ
  pub few : missing < 256
  pub appended : padded ≡ message ++ spaces missing

++-[] : (s : Binary) → s ≡ s ++ []
++-[] [] = refl
++-[] (b ∷ s) = ap (λ t. b ∷ t) (++-[] s)

space_pad-IsPadded : (message : Binary) → IsPadded message (space_pad response_block_size message)
unfolding space_pad spaces
space_pad-IsPadded message = elim (Bool-cases ((length message % 256) == 0)) [
  | inl full ↦ rw full (record {
    whole = ground (arith, full);
    missing = 0;
    few = omega arith;
    appended = ++-[] message;
  })
  | inr short ↦
      let r = length message % 256 in
      rw short (record {
        whole =
            ground (arith, length-++ message (spaces (256 - r)), length-spaces (256 - r), short);
        missing = 256 - r;
        few = ground (arith, short);
        appended = refl;
      })
]

padded_of :
    (x : Externals) (answer : Option HandleAnswer) (bytes : Binary)
    → pad_answer x answer ≡ some bytes
    → (length bytes % 256 ≡ 0)
      × ((answer : HandleAnswer) × ((n : ℕ) × (n < 256) × (bytes ≡ x.to_binary answer ++ spaces n)))
unfolding pad_answer
padded_of x none bytes e = absurd (cc)
padded_of x (some answer) bytes e =
    let p : space_pad response_block_size (x.to_binary answer) ≡ bytes = cc in
    let w = space_pad-IsPadded (x.to_binary answer) in
    rw (← p) (w.whole, (answer, (w.missing, w.few, w.appended)))

-- Every answer that the token gives to a call is a whole number of blocks of 256 bytes: an answer as
-- it is serialised, followed by fewer than 256 spaces.
pub answers_padded :
    (x : Externals) (d : Deps) (env : Env) (msg : HandleMsg)
    → Ensures
        (λ o.
          (bytes : Binary)
          → o.1.answer ≡ some bytes
          → (length bytes % 256 ≡ 0)
            × ((answer : HandleAnswer) × ((n : ℕ) × (n < 256)
                  × (bytes ≡ x.to_binary answer ++ spaces n))))
        (handle x d env msg)
unfolding handle pad_response
answers_padded x d env msg = >>=-Ensures (contract_status d) _ _ λ level hl.
    >>=-Ensures (handle_at x level d env msg) _ _ λ o ho bytes e. padded_of x o.1.answer bytes e
