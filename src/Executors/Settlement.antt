-- ===== src/Executors/Settlement.antt =====
-- ts-agentguard/src/executors/settlement-orchestrator.ts. The environment variables and the answers
-- of the orchestrator are arguments.
pub mod Reading
pub mod Outcomes
pub mod Evidence
pub mod Amount
use agentguard_action_proxy.Common.{
  ℕ, ◌/◌, String, Bool, true, false, not, ◌&&◌, ◌||◌, Option, none, some, [], ◌∷◌, ◌==◌, concat,
  if◌then◌else◌,
}
use agentguard_action_proxy.Js.{Js}
use agentguard_action_proxy.Js.Value.{Value, get, nullish_or}
use agentguard_action_proxy.Models.{ActionRequest, ExecutionResult}
use agentguard_action_proxy.Kgld.{is_kgld_lending_action, get_kgld_lending_details}
use agentguard_action_proxy.Gold.{is_buy_gold_action, get_gold_action_details}
use agentguard_action_proxy.Executors.Mock.{ExecutorPreview}
use Reading.{
  TransactionFields, read_string, read_json, extract_settlement_id, extract_transaction_fields,
  strip_slash,
}

-- The environment variables that the executor reads; `none` is unset.
pub record Environment : Type 0 where
  pub orchestrator_url : Option String
  pub from_account : Option String
  pub to_account : Option String
  pub settlement_currency : Option String

-- The body of the request that creates a settlement.
pub record SettlementRequest : Type 0 where
  pub from_account : String
  pub to_account : String
  pub amount : String
  pub currency : String
  pub memo : String

module _ (js : Js) where
  -- What becomes of a `fetch`: it throws, or a response comes, whose body may be no JSON.
  pub data Fetched : Type 0 where
    threw : Fetched
    response : (ok : Bool) → (body : Option (Value js)) → Fetched

  -- The orchestrator, by the URL, the execution token and the id of the action.
  pub record Orchestrator : Type 0 where
    pub create : String → String → String → SettlementRequest → Fetched
    pub execute : String → String → String → Fetched

abbrev text_or : Option String → String → String
text_or none d = d
text_or (some s) d = s

-- `!value` for an environment variable.
unfoldable pub is_missing : Option String → Bool
is_missing none = true
is_missing (some s) = s == ""

unfoldable pub base_url : Environment → String
base_url env = strip_slash (text_or env.orchestrator_url "http://localhost:3000/api/v1")

module _ {js : Js} where
  -- `demoKgldSettlement`, with its two readings of the clock.
  unfoldable pub demo_kgld_settlement : (ℕ → ℕ) → ActionRequest js → String → ExecutionResult js
  demo_kgld_settlement clock a token =
      let timestamp = js.iso_string (clock 0) in
      record {
        action_id = some a.action_id;
        decision = some "ALLOW";
        executed = true;
        message = "Demo XRPL Testnet settlement proof generated.";
        executor = "settlement_orchestrator";
        settlement_id = some (concat ("demo-settlement-" ∷ a.action_id ∷ []));
        tx_hash = some (
            js.to_upper_case
              (js.sha256 (concat (a.action_id ∷ ":" ∷ token ∷ ":" ∷ timestamp ∷ []))));
        ledger_index = some (js.number (clock 1 / 1000));
        network = some "xrpl-testnet";
        timestamp = some timestamp;
      }

  -- The results with `executed: false`.
  unfoldable pub blocked_result :
      (ℕ → ℕ) → ActionRequest js → String → Option String → Option String → ExecutionResult js
  blocked_result clock a message settlement_id network = record {
    action_id = some a.action_id;
    decision = some "BLOCKED";
    executed = false;
    message = message;
    executor = "settlement_orchestrator";
    settlement_id = settlement_id;
    tx_hash = none;
    ledger_index = none;
    network = network;
    timestamp = some (js.iso_string (clock 0));
  }

  -- Each failure of the orchestrator: a demo settlement for a loan, and a blocked result otherwise.
  unfoldable pub failed :
      (ℕ → ℕ)
      → ActionRequest js
      → String
      → String
      → Option String
      → Option String
      → ExecutionResult js
  failed clock a token message settlement_id network =
      if is_kgld_lending_action a
      then demo_kgld_settlement clock a token
      else blocked_result clock a message settlement_id network

  unfoldable pub memo_of : ActionRequest js → String
  memo_of a =
      if is_buy_gold_action a
      then concat (
          "AgentGuard BUY_GOLD "
          ∷ a.target_resource
          ∷ " "
          ∷ read_string (get "goldAmountGrams" a.parameters) ""
          ∷ "g"
          ∷ [])
      else if is_kgld_lending_action a
      then (let d = get_kgld_lending_details a in
          concat (
            "AgentGuard KGLD_RLUSD_LOAN "
            ∷ d.vault_id
            ∷ " "
            ∷ js.text_of_number d.loan_amount_rlusd
            ∷ " RLUSD LTV "
            ∷ js.text_of_number d.ltv
            ∷ "%"
            ∷ []))
      else concat
          ("AgentGuard KGLD_RLUSD_LOAN " ∷ a.target_resource ∷ " " ∷ " RLUSD LTV " ∷ "%" ∷ [])

  unfoldable pub settlement_request : Environment → ActionRequest js → SettlementRequest
  settlement_request env a = record {
    from_account = text_or env.from_account "";
    to_account = text_or env.to_account "";
    amount = read_string (get "settlementAmount" a.parameters) "1";
    currency =
        read_string
          (nullish_or (get "settlementCurrency" a.parameters) (get "currency" a.parameters))
          (text_or env.settlement_currency "XRP");
    memo = memo_of a;
  }

  unfoldable pub completed :
      (ℕ → ℕ) → ActionRequest js → String → String → TransactionFields js → ExecutionResult js
  completed clock a settlement_id tx_hash t = record {
    action_id = some a.action_id;
    decision = some "ALLOW";
    executed = true;
    message = "Settlement Orchestrator execution completed.";
    executor = "settlement_orchestrator";
    settlement_id = some settlement_id;
    tx_hash = some tx_hash;
    ledger_index = t.ledger_index;
    network = t.network;
    timestamp = some (js.iso_string (clock 0));
  }

  -- From the answer to the execution of the settlement on.
  unfoldable pub after_execution :
      (ℕ → ℕ) → ActionRequest js → String → String → Fetched js → ExecutionResult js
  after_execution clock a token settlement_id threw =
      failed clock a token "Settlement Orchestrator request failed" none none
  after_execution clock a token settlement_id (response false body) =
      failed clock a token "Settlement execution failed" (some settlement_id) none
  after_execution clock a token settlement_id (response true none) =
      failed clock a token "Settlement Orchestrator request failed" none none
  after_execution clock a token settlement_id (response true (some body)) =
      let t = extract_transaction_fields (read_json body) in
      elim t.tx_hash [
        | none ↦ failed clock a token "Settlement execution failed" (some settlement_id) t.network
        | some hash ↦ completed clock a settlement_id hash t
      ]

  -- From the answer to the creation of the settlement on.
  unfoldable pub after_creation :
      (ℕ → ℕ) → ActionRequest js → String → (String → Fetched js) → Fetched js → ExecutionResult js
  after_creation clock a token execution threw =
      failed clock a token "Settlement Orchestrator request failed" none none
  after_creation clock a token execution (response false body) =
      failed clock a token "Settlement creation failed" none none
  after_creation clock a token execution (response true none) =
      failed clock a token "Settlement Orchestrator request failed" none none
  after_creation clock a token execution (response true (some body)) =
      elim (extract_settlement_id (read_json body)) [
        | none ↦ failed clock a token "Settlement creation failed" none none
        | some id ↦ after_execution clock a token id (execution id)
      ]

  unfoldable pub settlement_execute :
      Environment → Orchestrator js → (ℕ → ℕ) → ActionRequest js → String → ExecutionResult js
  settlement_execute env o clock a token =
      if is_missing env.from_account || is_missing env.to_account
      then failed clock a token "Gold demo settlement accounts are not configured." none none
      else after_creation clock a token
          (λ id.
            o.execute (concat (base_url env ∷ "/settlements/" ∷ id ∷ "/execute" ∷ [])) token
              a.action_id)
          (o.create (concat (base_url env ∷ "/settlements" ∷ [])) token a.action_id
            (settlement_request env a))

  unfoldable settlement_preview : ActionRequest js → ExecutorPreview
  unfolding get_gold_action_details
  settlement_preview a =
      let d = get_gold_action_details a in
      record {
        executor = "settlement_orchestrator";
        summary = concat (
            "Would request settlement for "
            ∷ js.text_of_number d.gold_amount_grams
            ∷ "g gold in "
            ∷ d.vault_id
            ∷ " using "
            ∷ d.currency
            ∷ []);
        network = some "xrpl-testnet";
      }
