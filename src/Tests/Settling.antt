-- ===== src/Tests/Settling.antt =====
-- The settlement executor against sample answers of the orchestrator.
use agentguard_action_proxy.Common.{ℕ, ◌≡◌, refl, true, false, some, none, [], ◌∷◌, concat}
use agentguard_action_proxy.Js.Value.{obj, end, field, str, get, nullish_or}
use agentguard_action_proxy.Kgld.{is_kgld_lending_action}
use agentguard_action_proxy.Policy.{evaluate_policy}
use agentguard_action_proxy.Risk.{score_risk}
use agentguard_action_proxy.Executors.Settlement.{
  Environment, Orchestrator, threw, response, is_missing, base_url, failed, blocked_result,
  settlement_request, completed, after_execution, after_creation, settlement_execute,
}
use agentguard_action_proxy.Executors.Settlement.Reading.{
  nonempty_text, first_string, object_value, read_json, read_number, extract_settlement_id,
  extract_transaction_fields, strip_slash,
}
use agentguard_action_proxy.Executors.Settlement.Outcomes.{Executed, loan-Executed}
use agentguard_action_proxy.Executors.Settlement.Evidence.{IsCreated, executed-IsCreated}
use agentguard_action_proxy.Executors.Settlement.Amount.{with_amount, settlement_amount_free}
use agentguard_action_proxy.Tests.Toy.{toy, safe_loan, large_purchase}

settling : Unit {0}
unfolding get nullish_or is_kgld_lending_action is_missing failed blocked_result completed
    after_execution after_creation settlement_execute nonempty_text first_string object_value
    read_json read_number extract_settlement_id extract_transaction_fields
settling = tt

abbrev environment : Environment
environment = record {
  orchestrator_url = some "http://settle/";
  from_account = some "rFrom";
  to_account = some "rTo";
  settlement_currency = none;
}

url : base_url environment ≡ "http://settle"
unfolding base_url strip_slash
url = refl

-- It creates settlement s1, and executes it as transaction ABC.
abbrev working : Orchestrator toy
working = record {
  create = λ url token id body. response true (some (obj (field "id" (str "s1") end)));
  execute = λ url token id.
      response true (some (obj (field "result" (obj (field "hash" (str "ABC") end)) end)));
}

abbrev down : Orchestrator toy
down = record { create = λ url token id body. threw; execute = λ url token id. threw }

abbrev clock : ℕ → ℕ
clock n = 5000

purchase-settled :
    ((settlement_execute environment working clock large_purchase "uuid_1").executed ≡ true)
    × ((settlement_execute environment down clock large_purchase "uuid_1").executed ≡ false)
unfolding settling
purchase-settled = (refl, refl)

executed-IsCreated_example :
    (is_missing (some "rFrom") ≡ false)
    × (is_missing (some "rTo") ≡ false)
    × IsCreated
        (λ id.
          working.execute
            (concat (base_url environment ∷ "/settlements/" ∷ id ∷ "/execute" ∷ []))
            "uuid_1"
            "act_3")
        (working.create
          (concat (base_url environment ∷ "/settlements" ∷ []))
          "uuid_1"
          "act_3"
          (settlement_request environment large_purchase))
        (settlement_execute environment working clock large_purchase "uuid_1")
unfolding settling
executed-IsCreated_example =
    executed-IsCreated environment working clock large_purchase "uuid_1" refl refl

loan-Executed_example : Executed (settlement_execute environment down clock safe_loan "uuid_1")
unfolding settling
loan-Executed_example = loan-Executed environment down clock safe_loan "uuid_1" refl

settlement_amount_free_example :
    ((settlement_request environment (with_amount large_purchase "1000000")).amount ≡ "1000000")
    × (evaluate_policy (with_amount large_purchase "1000000") ≡ evaluate_policy large_purchase)
    × (score_risk (with_amount large_purchase "1000000") 0 false
        ≡ score_risk large_purchase 0 false)
settlement_amount_free_example = settlement_amount_free large_purchase "1000000" environment 0 false
