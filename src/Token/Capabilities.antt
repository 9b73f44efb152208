-- ===== src/Token/Capabilities.antt =====
-- What the token service promises to its callers: each token is a capability for one action that is
-- alive until a deadline and is spent by its first use.
pub mod Refinement
use agentguard_action_proxy.Common.{
  ℕ, ◌+◌, ◌*◌, String, Bool, true, false, not, ◌&&◌, List, [], ◌∷◌, ◌==◌, leb, if◌then◌else◌,
}
use agentguard_action_proxy.Js.{Js}
use agentguard_action_proxy.Models.{ActionRequest}
use agentguard_action_proxy.Fingerprint.{action_fingerprint}
use agentguard_action_proxy.Token.{
  TokenService, loan_amount, loan_amount_differs, issue, validate_for_execution, clear,
}

module _ (js : Js) where
  pub data Capability : Type 0 where
    absent spent : Capability
    live : (deadline : ℕ) → ActionRequest js → Capability

  -- The abstract state: what each token id stands for.
  abbrev pub Capabilities : Type 0
  Capabilities = String → Capability

  -- The calls that the server makes.
  pub data Call : Type 0 where
    grant : (now : ℕ) (uuid : String) (a : ActionRequest js) (ttl_seconds : ℕ) → Call
    redeem : (now : ℕ) (token_id : String) (a : ActionRequest js) → Call
    forget : Call

module _ {js : Js} where
  -- The action that redeems is the one that was granted.
  unfoldable pub agrees : ActionRequest js → ActionRequest js → Bool
  agrees a b =
      a.action_id == b.action_id
      && a.action_type == b.action_type
      && a.target_resource == b.target_resource
      && not (loan_amount_differs js (loan_amount a) (loan_amount b))
      && action_fingerprint a == action_fingerprint b

  unfoldable pub redeems : ℕ → ActionRequest js → Capability js → Bool
  redeems now b (live deadline a) = leb now deadline && agrees a b
  redeems now b absent = false
  redeems now b spent = false

  abbrev pub none_at_all : Capabilities js
  none_at_all k = absent

  unfoldable pub put : String → Capability js → Capabilities js → Capabilities js
  put set new state k = if set == k then new else state k

  -- The answers of the specification: for each redemption, whether it succeeds.
  unfoldable pub promised : List (Call js) → Capabilities js → List Bool
  promised [] state = []
  promised (grant now uuid a ttl ∷ calls) state =
      promised calls (put uuid (live (now + ttl * 1000) a) state)
  promised (redeem now token_id b ∷ calls) state =
      let after_use = promised calls (put token_id spent state) in
      let unchanged = promised calls state in
      if redeems now b (state token_id) then true ∷ after_use else false ∷ unchanged
  promised (forget ∷ calls) state = promised calls none_at_all

  -- The answers of the token service.
  unfoldable pub given : List (Call js) → TokenService js → List Bool
  given [] tokens = []
  given (grant now uuid a ttl ∷ calls) tokens = given calls (issue now uuid a ttl tokens)
  given (redeem now token_id b ∷ calls) tokens =
      let v = validate_for_execution now token_id b tokens in v.valid ∷ given calls v.tokens
  given (forget ∷ calls) tokens = given calls (clear tokens)
