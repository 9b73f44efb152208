-- ===== src/Executors/Settlement/Outcomes.antt =====
-- What the settlement executor answers.
use agentguard_action_proxy.Common.{
  ℕ, String, ◌≡◌, refl, inl, inr, true, false, ◌||◌, Option, none, some, Option-cases, Bool-cases,
}
use agentguard_action_proxy.Js.{Js}
use agentguard_action_proxy.Models.{ActionRequest, ExecutionResult}
use agentguard_action_proxy.Kgld.{is_kgld_lending_action}
use agentguard_action_proxy.Executors.Settlement.{
  Environment, Orchestrator, Fetched, threw, response, is_missing, demo_kgld_settlement, failed,
  completed, after_execution, after_creation, settlement_execute,
}
use agentguard_action_proxy.Executors.Settlement.Reading.{
  read_json, extract_settlement_id, extract_transaction_fields,
}

module _ {js : Js} where
  abbrev pub Executed : ExecutionResult js → Type 0
  Executed r = (r.executed ≡ true) × (r.decision ≡ some "ALLOW")

  module _ (clock : ℕ → ℕ) (a : ActionRequest js) (token : String) where
    module _ (loan : is_kgld_lending_action a ≡ true) where
      failed-Executed :
          (message : String) (id network : Option String)
          → Executed (failed clock a token message id network)
      unfolding failed demo_kgld_settlement
      failed-Executed message id network = rw loan (refl, refl)

      after_execution-Executed :
          (id : String) (f : Fetched js) → Executed (after_execution clock a token id f)
      unfolding after_execution completed
      after_execution-Executed id threw = failed-Executed _ _ _
      after_execution-Executed id (response false body) = failed-Executed _ _ _
      after_execution-Executed id (response true none) = failed-Executed _ _ _
      after_execution-Executed id (response true (some body)) =
          elim (Option-cases (extract_transaction_fields (read_json body)).tx_hash) [
            | inl e ↦ rw (e, after_execution) (failed-Executed _ _ _)
            | inr (h, e) ↦ rw (e, after_execution) (refl, refl)
          ]

      after_creation-Executed :
          (execution : String → Fetched js) (f : Fetched js)
          → Executed (after_creation clock a token execution f)
      unfolding after_creation
      after_creation-Executed execution threw = failed-Executed _ _ _
      after_creation-Executed execution (response false body) = failed-Executed _ _ _
      after_creation-Executed execution (response true none) = failed-Executed _ _ _
      after_creation-Executed execution (response true (some body)) =
          elim (Option-cases (extract_settlement_id (read_json body))) [
            | inl e ↦ rw (e, after_creation) (failed-Executed _ _ _)
            | inr (id, e) ↦ rw (e, after_creation) (after_execution-Executed id _)
          ]

  -- A loan is reported as executed, with the decision ALLOW, whatever happens: without accounts, and
  -- where the orchestrator cannot be reached, refuses, or names no transaction.
  pub loan-Executed :
      (env : Environment) (o : Orchestrator js) (clock : ℕ → ℕ) (a : ActionRequest js)
      (token : String)
      → is_kgld_lending_action a ≡ true
      → Executed (settlement_execute env o clock a token)
  unfolding settlement_execute
  loan-Executed env o clock a token loan =
      elim (Bool-cases (is_missing env.from_account || is_missing env.to_account)) [
        | inl e ↦ rw e (failed-Executed clock a token loan _ _ _)
        | inr e ↦ rw e (after_creation-Executed clock a token loan _ _)
      ]
