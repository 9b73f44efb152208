-- ===== src/Token/Roundtrip.antt =====
-- A token that was just issued.
use agentguard_action_proxy.Common.{
  ℕ, ◌+◌, ◌*◌, ◌≤◌, String, ◌≡◌, refl, true, false, some, arith, eq_refl,
}
use agentguard_action_proxy.Common.Dict.{lookup-insert_self}
use agentguard_action_proxy.Js.{Js}
use agentguard_action_proxy.Models.{ActionRequest}
use agentguard_action_proxy.Fingerprint.{action_fingerprint}
use agentguard_action_proxy.Token.{
  TokenService, loan_amount, loan_amount_differs, fingerprint_differs, new_token, issue,
  validate_for_execution,
}
use agentguard_action_proxy.Token.Acceptance.{Permits, validate_iff}

fingerprint_differs_self : (f : String) → fingerprint_differs (some f) f ≡ false
unfolding fingerprint_differs
fingerprint_differs_self f = ground (arith, eq_refl f)

module _ {js : Js} where
  -- The loan amount is missing, or a number that equals itself: every number but NaN.
  abbrev pub HasComparableAmount : ActionRequest js → Type 0
  HasComparableAmount a = loan_amount_differs js (loan_amount a) (loan_amount a) ≡ false

  pub new_token-Permits :
      (now later : ℕ) (uuid : String) (a : ActionRequest js) (ttl : ℕ)
      → later ≤ now + ttl * 1000
      → HasComparableAmount a
      → Permits later (new_token now uuid a ttl) a
  unfolding new_token
  new_token-Permits now later uuid a ttl h amount = record {
    alive = h;
    fresh = refl;
    same_action = refl;
    same_type = refl;
    same_target = refl;
    same_amount = amount;
    same_content = fingerprint_differs_self (action_fingerprint a);
  }

  -- A token is accepted for the very action it was issued for, up to and including the millisecond at
  -- which it expires, provided that the loan amount, if there is one, is not NaN.
  pub validate-issue :
      (now later : ℕ) (uuid : String) (a : ActionRequest js) (ttl : ℕ) (tokens : TokenService js)
      → later ≤ now + ttl * 1000
      → HasComparableAmount a
      → (validate_for_execution later uuid a (issue now uuid a ttl tokens)).valid ≡ true
  unfolding issue
  validate-issue now later uuid a ttl tokens h amount = (validate_iff later uuid a _).1 (
    new_token now uuid a ttl,
    lookup-insert_self uuid _ tokens,
    new_token-Permits now later uuid a ttl h amount,
  )
