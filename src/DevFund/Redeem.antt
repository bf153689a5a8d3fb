-- ===== src/DevFund/Redeem.antt =====
-- The redemption of contracts/dev-fund/src/contract.rs: the beneficiary's call, the allocation that
-- it asks for, and the hook, as three calls of `handle`.
use secret_finance_rewards.Common.{
  ℕ, ◌+◌, ◌-◌, ◌<◌, ◌≡◌, refl, true, false, Option, some, none, [], ◌∷◌, arith, ok, err,
  generic_err, number, Bool-cases, inl, inr, leb, ltb, if◌then◌else◌, str_eq, unwrap_or,
  checked_sub-ok, checked_add-ok, u128,
}
use secret_finance_rewards.Scrt.Types.{HumanAddr}
use secret_finance_rewards.Scrt.Chain.{Env, CosmosMsg, Payload}
use secret_finance_rewards.Scrt.MasterMsg.{MasterHandleMsg}
use secret_finance_rewards.DevFund.Msg.{HookMsg, HandleMsg, HandleAnswer, ResponseStatus}
use secret_finance_rewards.DevFund.State.{
  Deps, Response, Outcome, load_balance, response_block_size,
}
use secret_finance_rewards.DevFund.Handle.{
  Externals, respond, notify_allocation, run_hook, self_callback, callback_msgs, update_allocation,
  redeem, handle_msg, handle,
}

-- The fund with other rewards stored.
abbrev pub with_rewards : Deps → ℕ → Deps
with_rewards d balance = record d { accumulated_rewards = some balance }

-- What a redemption asks the chain to deliver: the emission contract is asked for an allocation
-- first, and then the fund itself is called with the hook.
abbrev pub asked : Deps → Env → HookMsg → Response
asked d env hook = record {
  messages =
      CosmosMsg.execute d.config.master.address d.config.master.contract_hash (
        Payload.master
          (MasterHandleMsg.update_allocation env.contract_address env.contract_code_hash))
      ∷ CosmosMsg.execute env.contract_address env.contract_code_hash
          (Payload.dev_fund (HandleMsg.self_callback hook))
      ∷ [];
  log = [];
  answer = none;
}

module _ (x : Externals) (d : Deps) (env : Env) where
  redeem-asks :
      (requested : Option ℕ) (to : Option HumanAddr)
      → str_eq env.sender d.config.beneficiary ≡ true
      → handle x d env (HandleMsg.redeem requested to)
        ≡ ok (
          d,
          x.pad_response response_block_size
              (asked d env (HookMsg.redeem (unwrap_or to env.sender) requested)),
        )
  unfolding handle handle_msg redeem update_allocation callback_msgs
  redeem-asks requested to own = rw own refl

  notify-adds :
      (n : ℕ)
      → str_eq env.sender d.config.master.address ≡ true
      → load_balance d + n < u128
      → handle x d env (HandleMsg.notify_allocation n)
        ≡ ok (
          with_rewards d (load_balance d + n),
          x.pad_response response_block_size
              (respond [] (HandleAnswer.notify_allocation ResponseStatus.success)),
        )
  unfolding handle handle_msg notify_allocation
  notify-adds n master fits = rw (master, checked_add-ok u128 (load_balance d) n fits) refl

  hook-pays :
      (to : HumanAddr) (requested : Option ℕ)
      → str_eq env.sender env.contract_address ≡ true
      → let balance = load_balance d in
        let amount = unwrap_or requested balance in
        handle x d env (HandleMsg.self_callback (HookMsg.redeem to requested)) ≡ (
          if leb amount balance
          then ok (
            with_rewards d (balance - amount),
            x.pad_response response_block_size (
                respond
                  (CosmosMsg.transfer to amount response_block_size d.config.sefi ∷ [])
                  (HandleAnswer.redeem ResponseStatus.success)),
          )
          else err (
              generic_err "insufficient funds to redeem: balance={}, required={}"
                (number balance ∷ number amount ∷ [])))
  unfolding handle handle_msg self_callback run_hook
  hook-pays to requested own =
      let balance = load_balance d in
      let amount = unwrap_or requested balance in
      elim (Bool-cases (leb amount balance)) [
        | inl within ↦
            let enough : ltb balance amount ≡ false = ground arith in
            rw (own, within, enough, checked_sub-ok balance amount (ground arith)) refl
        | inr beyond ↦
            let short : ltb balance amount ≡ true = ground arith in rw (own, beyond, short) refl
      ]

-- A redemption by the beneficiary, in the calls that it takes: the first changes nothing, asks the
-- emission contract for an allocation and then calls the fund itself with a hook; if the emission
-- contract then notifies an allocation that fits 128 bits, and the fund runs that hook, the hook
-- pays the account that the beneficiary named (with none, the beneficiary) out of the old rewards
-- and the new ones together: the amount, or with none given all of them. The rest is stored; an
-- amount above them is refused.
pub redeem_pays :
    (x : Externals) (d : Deps) (env master self : Env) (n : ℕ) (requested : Option ℕ)
    (to : Option HumanAddr)
    → str_eq env.sender d.config.beneficiary ≡ true
    → str_eq master.sender d.config.master.address ≡ true
    → str_eq self.sender self.contract_address ≡ true
    → load_balance d + n < u128
    → let balance : ℕ = load_balance d + n in
      let amount = unwrap_or requested balance in
      (hook : HookMsg) × ((allotted : Outcome) × (handle x d env (HandleMsg.redeem requested to)
          ≡ ok (d, x.pad_response response_block_size (asked d env hook)))
        × (handle x d master (HandleMsg.notify_allocation n) ≡ ok allotted)
        × (handle x allotted.0 self (HandleMsg.self_callback hook) ≡ (
            if leb amount balance
            then ok (
              with_rewards d (balance - amount),
              x.pad_response response_block_size (
                  respond
                    (CosmosMsg.transfer
                        (unwrap_or to env.sender)
                        amount
                        response_block_size
                        d.config.sefi
                      ∷ [])
                    (HandleAnswer.redeem ResponseStatus.success)),
            )
            else err (
                generic_err "insufficient funds to redeem: balance={}, required={}"
                  (number balance ∷ number amount ∷ [])))))
redeem_pays x d env master self n requested to beneficiary from_master own fits =
    let payee = unwrap_or to env.sender in
    (
      HookMsg.redeem payee requested,
      (
        (with_rewards d (load_balance d + n), _),
        redeem-asks x d env requested to beneficiary,
        notify-adds x d master n from_master fits,
        hook-pays x (with_rewards d (load_balance d + n)) self payee requested own,
      ),
    )
