-- ===== src/Executors/Settlement/Evidence.antt =====
-- What the settlement executor needs to report an execution that is no loan.
use agentguard_action_proxy.Common.{
  ℕ, String, ◌≡◌, refl, inl, inr, true, false, ◌||◌, Option, none, some, arith, Option-cases,
  Bool-cases, concat, ◌∷◌, [],
}
use agentguard_action_proxy.Js.{Js}
use agentguard_action_proxy.Js.Value.{Value}
use agentguard_action_proxy.Models.{ActionRequest, ExecutionResult}
use agentguard_action_proxy.Kgld.{is_kgld_lending_action}
use agentguard_action_proxy.Executors.Settlement.{
  Environment, Orchestrator, Fetched, threw, response, is_missing, base_url, blocked_result, failed,
  settlement_request, completed, after_execution, after_creation, settlement_execute,
}
use agentguard_action_proxy.Executors.Settlement.Reading.{
  read_json, extract_settlement_id, extract_transaction_fields,
}

module _ {js : Js} where
  -- The settlement was executed: the answer is fine and names a transaction.
  pub record IsSettled (settled : Fetched js) (r : ExecutionResult js) : Type 0 where
    pub done : Value js
    pub execution : settled ≡ response true (some done)
    pub hash : String
    pub names_hash : (extract_transaction_fields (read_json done)).tx_hash ≡ some hash
    pub reports_hash : r.tx_hash ≡ some hash

  -- The settlement was created under an id, and executed.
  pub record IsCreated (execution : String → Fetched js) (creation : Fetched js)
      (r : ExecutionResult js) : Type 0 where
    pub created : Value js
    pub creates : creation ≡ response true (some created)
    pub id : String
    pub names_id : extract_settlement_id (read_json created) ≡ some id
    pub reports_id : r.settlement_id ≡ some id
    pub settled : IsSettled (execution id) r

  module _ (clock : ℕ → ℕ) (a : ActionRequest js) (token : String)
      (other : is_kgld_lending_action a ≡ false) where
    failed-idle :
        (message : String) (id network : Option String)
        → (failed clock a token message id network).executed ≡ false
    unfolding failed blocked_result
    failed-idle message id network = rw other

    after_execution-IsSettled :
        (id : String) (f : Fetched js)
        → (after_execution clock a token id f).executed ≡ true
        → IsSettled f (after_execution clock a token id f)
          × ((after_execution clock a token id f).settlement_id ≡ some id)
    unfolding after_execution completed
    after_execution-IsSettled id threw h =
        cc (failed-idle "Settlement Orchestrator request failed" none none)
    after_execution-IsSettled id (response false body) h =
        cc (failed-idle "Settlement execution failed" (some id) none)
    after_execution-IsSettled id (response true none) h =
        cc (failed-idle "Settlement Orchestrator request failed" none none)
    after_execution-IsSettled id (response true (some body)) h =
        elim (Option-cases (extract_transaction_fields (read_json body)).tx_hash) [
          | inl e ↦ cc (
            failed-idle "Settlement execution failed" (some id)
                (extract_transaction_fields (read_json body)).network,
            rw (e, after_execution) at h,
          )
          | inr (hash, e) ↦ (
            record {
              done = body;
              execution = refl;
              hash = hash;
              names_hash = e;
              reports_hash = rw (e, after_execution) refl;
            },
            rw (e, after_execution) refl,
          )
        ]

    after_creation-IsCreated :
        (execution : String → Fetched js) (f : Fetched js)
        → (after_creation clock a token execution f).executed ≡ true
        → IsCreated execution f (after_creation clock a token execution f)
    unfolding after_creation
    after_creation-IsCreated execution threw h =
        cc (failed-idle "Settlement Orchestrator request failed" none none)
    after_creation-IsCreated execution (response false body) h =
        cc (failed-idle "Settlement creation failed" none none)
    after_creation-IsCreated execution (response true none) h =
        cc (failed-idle "Settlement Orchestrator request failed" none none)
    after_creation-IsCreated execution (response true (some body)) h =
        elim (Option-cases (extract_settlement_id (read_json body))) [
          | inl e ↦
              cc (failed-idle "Settlement creation failed" none none, rw (e, after_creation) at h)
          | inr (id, e) ↦
              let (settled, same) =
                after_execution-IsSettled id (execution id) (rw (e, after_creation) at h) in
              rw (e, after_creation)
                (record {
                  created = body;
                  creates = refl;
                  id = id;
                  names_id = e;
                  reports_id = same;
                  settled = settled;
                })
        ]

  -- Outside the loans an execution is reported only if both accounts are set, the orchestrator created
  -- a settlement and executed it, and its answers named the settlement and the transaction that
  -- the result reports.
  pub executed-IsCreated :
      (env : Environment) (o : Orchestrator js) (clock : ℕ → ℕ) (a : ActionRequest js)
      (token : String)
      → is_kgld_lending_action a ≡ false
      → (settlement_execute env o clock a token).executed ≡ true
      → (is_missing env.from_account ≡ false)
        × (is_missing env.to_account ≡ false)
        × IsCreated
            (λ id.
              o.execute
                (concat (base_url env ∷ "/settlements/" ∷ id ∷ "/execute" ∷ []))
                token
                a.action_id)
            (o.create
              (concat (base_url env ∷ "/settlements" ∷ []))
              token
              a.action_id
              (settlement_request env a))
            (settlement_execute env o clock a token)
  unfolding settlement_execute
  executed-IsCreated env o clock a token other h =
      elim (Bool-cases (is_missing env.from_account || is_missing env.to_account)) [
        | inl e ↦ cc (
          failed-idle clock a token other "Gold demo settlement accounts are not configured." none
              none,
          rw e at h,
        )
        | inr e ↦ (
          ground arith,
          ground arith,
          rw e (after_creation-IsCreated clock a token other _ _ (rw e at h)),
        )
      ]
