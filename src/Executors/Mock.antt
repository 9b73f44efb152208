-- ===== src/Executors/Mock.antt =====
-- ts-agentguard/src/executors/mock-browser.ts and mock-github.ts.
use agentguard_action_proxy.Common.{String, true, false, Option, none, List, [], ◌∷◌, concat, join}
use agentguard_action_proxy.Js.{Js}
use agentguard_action_proxy.Js.Value.{
  Value, null, bool, num, str, arr, obj, Items, nil, cons, Fields, end, field,
}
use agentguard_action_proxy.Models.{ActionRequest, ExecutionResult}

abbrev quoted : String → String
quoted s = concat ("'" ∷ s ∷ "'" ∷ [])

unfoldable mutual
  pub python_repr : {js : Js} → Value js → String
  python_repr null = "None"
  python_repr (bool true) = "True"
  python_repr (bool false) = "False"
  python_repr {js} (num n) = js.text_of_number n
  python_repr (str s) = quoted s
  python_repr (arr xs) = concat ("[" ∷ join ", " (repr_items xs) ∷ "]" ∷ [])
  python_repr (obj fs) = concat ("{" ∷ join ", " (repr_fields fs) ∷ "}" ∷ [])

  repr_items : {js : Js} → Items js → List String
  repr_items nil = []
  repr_items (cons v xs) = python_repr v ∷ repr_items xs

  repr_fields : {js : Js} → Fields js → List String
  repr_fields end = []
  repr_fields (field k v fs) = concat (quoted k ∷ ": " ∷ python_repr v ∷ []) ∷ repr_fields fs

module _ {js : Js} where
  mock_result : String → String → ExecutionResult js
  mock_result executor message = record {
    action_id = none;
    decision = none;
    executed = true;
    message = message;
    executor = executor;
    settlement_id = none;
    tx_hash = none;
    ledger_index = none;
    network = none;
    timestamp = none;
  }

  unfoldable mock_browser_execute : ActionRequest js → ExecutionResult js
  unfolding mock_result
  mock_browser_execute a = mock_result "mock_browser" (
      concat (
        "Mock executed "
        ∷ a.action_type
        ∷ " with parameters "
        ∷ python_repr (obj a.parameters)
        ∷ []))

  unfoldable mock_github_execute : ActionRequest js → ExecutionResult js
  unfolding mock_result
  mock_github_execute a =
      mock_result "mock_github"
        (concat ("Mock executed " ∷ a.action_type ∷ " on " ∷ a.target_resource ∷ []))

-- What `preview` of an executor returns.
pub record ExecutorPreview : Type 0 where
  pub executor : String
  pub summary : String
  pub network : Option String

module _ {js : Js} where
  unfoldable would_run : ActionRequest js → String
  would_run a = concat ("Would run " ∷ a.action_type ∷ " on " ∷ a.target_resource ∷ [])

  unfoldable mock_browser_preview : ActionRequest js → ExecutorPreview
  mock_browser_preview a = record {
    executor = "mock_browser";
    summary = would_run a;
    network = none;
  }

  unfoldable mock_github_preview : ActionRequest js → ExecutorPreview
  mock_github_preview a = record { executor = "mock_github"; summary = would_run a; network = none }
