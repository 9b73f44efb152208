-- ===== src/Token.antt =====
-- ts-agentguard/src/token-service.ts, the class `TokenService`: single-use execution tokens. Its
-- state is the map of issued tokens; the clock and the fresh UUID are arguments.
pub mod Acceptance
pub mod Roundtrip
pub mod History
pub mod Capabilities
use agentguard_action_proxy.Common.{
  ℕ, ◌+◌, ◌*◌, String, Bool, true, false, Option, none, some, [], ◌==◌, ltb, not, if◌then◌else◌,
}
use agentguard_action_proxy.Common.Dict.{Dict, lookup, insert}
use agentguard_action_proxy.Js.{Js}
use agentguard_action_proxy.Js.Value.{Value, num, str, get}
use agentguard_action_proxy.Models.{ActionRequest, EphemeralExecutionToken}
use agentguard_action_proxy.Fingerprint.{action_fingerprint}

abbrev pub TokenService : Js → Type 0
TokenService js = Dict (EphemeralExecutionToken js)

-- The default of `ttlSeconds`.
abbrev pub default_ttl_seconds : ℕ
default_ttl_seconds = 120

-- What `validateForExecution` returns, and the tokens after it.
pub record Verdict (js : Js) : Type 0 where
  pub valid : Bool
  pub reason : String
  pub tokens : TokenService js

module _ {js : Js} where
  unfoldable pub number_value : Option (Value js) → Option js.Number
  number_value (some (num n)) = some n
  number_value (some (str s)) = if js.trim s == "" then none else some (js.number_of_text s)
  number_value _ = none

  -- The loan amount that a token binds.
  unfoldable pub loan_amount : ActionRequest js → Option js.Number
  loan_amount a = number_value (get "loanAmountRLUSD" a.parameters)

  unfoldable pub new_token : ℕ → String → ActionRequest js → ℕ → EphemeralExecutionToken js
  new_token now uuid a ttl_seconds = record {
    token_id = uuid;
    action_id = a.action_id;
    allowed_action_type = a.action_type;
    allowed_target = a.target_resource;
    expires_at = now + ttl_seconds * 1000;
    request_fingerprint = some (action_fingerprint a);
    approved_loan_amount = loan_amount a;
    used = false;
  }

  -- The store after `issue`; the token itself is `new_token`.
  unfoldable pub issue : ℕ → String → ActionRequest js → ℕ → TokenService js → TokenService js
  issue now uuid a ttl_seconds tokens = insert uuid (new_token now uuid a ttl_seconds) tokens

-- `approved !== undefined && approved !== amount`
unfoldable pub loan_amount_differs : (js : Js) → Option js.Number → Option js.Number → Bool
loan_amount_differs js none amount = false
loan_amount_differs js (some approved) none = true
loan_amount_differs js (some approved) (some amount) = not (js.num_eq approved amount)

-- `fingerprint && fingerprint !== actual`
unfoldable pub fingerprint_differs : Option String → String → Bool
fingerprint_differs none actual = false
fingerprint_differs (some f) actual = if f == "" then false else not (f == actual)

module _ {js : Js} where
  -- The first check that an existing token fails.
  unfoldable pub refusal : ℕ → EphemeralExecutionToken js → ActionRequest js → Option String
  refusal now t a =
      if ltb t.expires_at now
      then some "token_expired"
      else if t.used
      then some "token_already_used"
      else if not (t.action_id == a.action_id)
      then some "action_id_mismatch"
      else if not (t.allowed_action_type == a.action_type)
      then some "action_type_mismatch"
      else if not (t.allowed_target == a.target_resource)
      then some "target_mismatch"
      else if loan_amount_differs js t.approved_loan_amount (loan_amount a)
      then some "loan_amount_mismatch"
      else if fingerprint_differs t.request_fingerprint (action_fingerprint a)
      then some "request_fingerprint_mismatch"
      else none

  -- `token.used = true`, on the object in the map.
  unfoldable pub mark_used : EphemeralExecutionToken js → EphemeralExecutionToken js
  mark_used t = record t { used = true }

  unfoldable pub validate_for_execution :
      ℕ → String → ActionRequest js → TokenService js → Verdict js
  unfolding mark_used
  validate_for_execution now token_id a tokens = elim (lookup token_id tokens) [
    | none ↦ record { valid = false; reason = "token_not_found"; tokens = tokens }
    | some t ↦ elim (refusal now t a) [
      | some why ↦ record { valid = false; reason = why; tokens = tokens }
      | none ↦ record {
        valid = true;
        reason = "token_valid";
        tokens = insert token_id (mark_used t) tokens;
      }
    ]
  ]

  -- `clear`.
  unfoldable pub clear : TokenService js → TokenService js
  clear tokens = []
