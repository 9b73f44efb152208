-- ===== src/Executors/Settlement/Reading.antt =====
-- ts-agentguard/src/executors/settlement-orchestrator.ts, the readers of the orchestrator's answers.
use agentguard_action_proxy.Common.{String, Option, none, some, List, [], ◌∷◌, ◌==◌, if◌then◌else◌}
use agentguard_action_proxy.Js.{Js}
use agentguard_action_proxy.Js.Value.{
  Value, null, num, str, obj, Fields, end, get, nullish_or, text_of,
}

module _ {js : Js} where
  unfoldable pub read_string : Option (Value js) → String → String
  read_string none fallback = fallback
  read_string (some null) fallback = fallback
  read_string (some v) fallback = text_of v

  -- A text that reads as NaN, which differs from itself, is no number.
  unfoldable pub read_number : Option (Value js) → Option js.Number
  read_number (some (num n)) = some n
  read_number (some (str s)) =
      if js.trim s == ""
      then none
      else if js.num_eq (js.number_of_text s) (js.number_of_text s)
      then some (js.number_of_text s)
      else none
  read_number _ = none

  -- A text that is not empty.
  unfoldable pub nonempty_text : Option (Value js) → Option String
  nonempty_text (some (str s)) = if s == "" then none else some s
  nonempty_text _ = none

  unfoldable pub first_string : List (Option (Value js)) → Option String
  unfolding nonempty_text
  first_string [] = none
  first_string (v ∷ vs) =
      let rest = first_string vs in elim (nonempty_text v) [ none ↦ rest | some s ↦ some s ]

  unfoldable pub object_value : Option (Value js) → Option (Fields js)
  object_value (some (obj fs)) = some fs
  object_value _ = none

  -- `objectValue(await response.json()) ?? {}`
  unfoldable pub read_json : Value js → Fields js
  read_json (obj fs) = fs
  read_json _ = end

  -- `object?.key`
  abbrev get_opt : String → Option (Fields js) → Option (Value js)
  get_opt k none = none
  get_opt k (some fs) = get k fs

  unfoldable pub extract_settlement_id : Fields js → Option String
  unfolding first_string object_value
  extract_settlement_id r =
      let result = object_value (get "result" r) in
      let settlement = object_value (get "settlement" r) in
      first_string (
        get "settlementId" r
        ∷ get "id" r
        ∷ get_opt "settlementId" result
        ∷ get_opt "id" result
        ∷ get_opt "settlementId" settlement
        ∷ get_opt "id" settlement
        ∷ [])

module _ (js : Js) where
  pub record TransactionFields : Type 0 where
    pub status : Option String
    pub tx_hash : Option String
    pub ledger_index : Option js.Number
    pub network : Option String

-- `a ?? b` on objects.
abbrev or_object : {js : Js} → Option (Fields js) → Option (Fields js) → Option (Fields js)
or_object none b = b
or_object (some fs) b = some fs

module _ {js : Js} where
  unfoldable pub extract_transaction_fields : Fields js → TransactionFields js
  unfolding first_string object_value read_number
  extract_transaction_fields r =
      let result = object_value (get "result" r) in
      let settlement = object_value (get "settlement" r) in
      let transaction =
        or_object (object_value (get "transaction" r))
          (object_value (get_opt "transaction" result)) in
      record {
        status =
            first_string
              (get "status" r ∷ get_opt "status" result ∷ get_opt "status" settlement ∷ []);
        tx_hash = first_string (
            get "txHash" r
            ∷ get "hash" r
            ∷ get_opt "txHash" result
            ∷ get_opt "hash" result
            ∷ get_opt "txHash" transaction
            ∷ get_opt "hash" transaction
            ∷ []);
        ledger_index = read_number (
            nullish_or (get "ledgerIndex" r) (
              nullish_or (get "ledger_index" r) (
                nullish_or (get_opt "ledgerIndex" result) (
                  nullish_or (get_opt "ledger_index" result) (
                    nullish_or (get_opt "ledgerIndex" transaction)
                      (get_opt "ledger_index" transaction))))));
        network = first_string (
            get "network" r
            ∷ get_opt "network" result
            ∷ get_opt "network" settlement
            ∷ get_opt "network" transaction
            ∷ []);
      }

-- `url.replace(/\/$/, "")`
unfoldable pub strip_slash : String → String
strip_slash String.[] = ""
strip_slash (String.◌∷◌ c String.[]) = if String.◌∷◌ c "" == "/" then "" else String.◌∷◌ c ""
strip_slash (String.◌∷◌ c (String.◌∷◌ d s)) = String.◌∷◌ c (strip_slash (String.◌∷◌ d s))
