-- ===== src/DevFund/Tests.antt =====
-- Runs of contracts/dev-fund at concrete inputs, and the theorems at inputs that meet their
-- hypotheses.
use secret_finance_rewards.Common.{
  arith, ℕ, ◌+◌, ◌≡◌, refl, String, List, [], ◌∷◌, none, some, ok, Ensures, checked_add,
  checked_sub,
}
use secret_finance_rewards.Scrt.Types.{SecretContract}
use secret_finance_rewards.Scrt.Chain.{Env, CosmosMsg}
use secret_finance_rewards.Scrt.MasterMsg.{MasterQueryAnswer}
use secret_finance_rewards.DevFund.Msg.{
  InitMsg, HookMsg, HandleMsg, HandleAnswer, ResponseStatus, QueryMsg, QueryAnswer,
}
use secret_finance_rewards.DevFund.State.{Outcome, Deps, load_balance}
use secret_finance_rewards.DevFund.Handle.{
  Externals, init, enforce_admin, respond, notify_allocation, run_hook, self_callback,
  callback_msgs, update_allocation, redeem, handle_msg, handle,
}
use secret_finance_rewards.DevFund.Query.{query}
use secret_finance_rewards.DevFund.Balance.{run, after, fund_balanced}
use secret_finance_rewards.DevFund.Access.{outsiders_change_nothing}
use secret_finance_rewards.DevFund.Redeem.{with_rewards, asked, redeem_pays}

program : Unit {0}
unfolding checked_add checked_sub init enforce_admin notify_allocation run_hook self_callback
    callback_msgs update_allocation redeem handle_msg handle run
program = tt

abbrev contract_at : String → SecretContract
contract_at address = record { address = address; contract_hash = "hash" }

abbrev init_msg : InitMsg
init_msg = record {
  sefi = contract_at "sefi";
  master = contract_at "master";
  viewing_key = "key";
  beneficiary = some "dev";
}

abbrev env_of : String → Env
env_of sender = record {
  sender = sender;
  height = 7;
  time = 70;
  contract_address = "fund";
  contract_code_hash = "code";
}

abbrev externals : Externals
externals = record { balance_query = λ holder key token. ok 0; pad_response = λ n r. r }

abbrev redeem_of : ℕ → Env × HandleMsg
redeem_of amount = (env_of "fund", HandleMsg.self_callback (HookMsg.redeem "dev" (some amount)))

-- Two allocations, a redemption that is refused, and one that goes through.
abbrev calls : List (Env × HandleMsg)
calls =
    (env_of "master", HandleMsg.notify_allocation 30)
    ∷ (env_of "master", HandleMsg.notify_allocation 12)
    ∷ (env_of "eve", HandleMsg.notify_allocation 1000)
    ∷ redeem_of 43
    ∷ redeem_of 22
    ∷ []

abbrev start : Deps
start = (init (env_of "admin") init_msg).0

abbrev funded : Deps
funded = record start { accumulated_rewards = some 20 }

calls_stored :
    after externals (env_of "admin") init_msg calls
    ≡ (funded, record { notified = 42; redeemed = 22 })
unfolding program
calls_stored = refl

query_balance_adds :
    query (λ c m. ok (MasterQueryAnswer.pending 5)) funded (QueryMsg.balance 9)
    ≡ ok (QueryAnswer.balance 25)
unfolding query program
query_balance_adds = refl

fund_balanced_example :
    let (d, g) = after externals (env_of "admin") init_msg calls in
    (g.redeemed + load_balance d ≡ g.notified) × (d.config.sefi ≡ contract_at "sefi")
fund_balanced_example =
    fund_balanced externals (λ n r. refl) (env_of "admin") init_msg calls
      (refl, (refl, (refl, (refl, (refl, tt)))))

redeem_pays_example :
    (hook : HookMsg) × ((allotted : Outcome) × (handle externals funded
          (env_of "dev")
          (HandleMsg.redeem none none)
        ≡ ok (funded, asked funded (env_of "dev") hook))
      × (handle externals funded (env_of "master") (HandleMsg.notify_allocation 12) ≡ ok allotted)
      × (handle externals allotted.0 (env_of "fund") (HandleMsg.self_callback hook)
          ≡ ok (
            with_rewards funded 0,
            respond
                (CosmosMsg.transfer "dev" 32 256 (contract_at "sefi") ∷ [])
                (HandleAnswer.redeem ResponseStatus.success),
          )))
unfolding init
redeem_pays_example =
    redeem_pays externals funded (env_of "dev") (env_of "master") (env_of "fund") 12 none none refl
      refl refl (omega arith)

outsiders_change_nothing_example :
    Ensures
      (λ o. o.0 ≡ funded)
      (handle externals funded (env_of "dev") (HandleMsg.redeem (some 5) none))
unfolding program
outsiders_change_nothing_example =
    outsiders_change_nothing externals funded (env_of "dev") (HandleMsg.redeem (some 5) none) refl
      refl refl
