-- ===== src/Tests/Tokens.antt =====
-- Fingerprints and tokens of sample requests.
use agentguard_action_proxy.Common.{
  ◌+◌, ◌*◌, ◌≤◌, ◌<◌, none, String, ◌≡◌, refl, ◌↔◌, ◌⊎◌, inl, inr, true, false, some, List, [], ◌∷◌,
  arith, ◌==◌, if◌then◌else◌, Bool-cases, eq_iff,
}
use text.Mathlib.TextLemmas.{cons-ne-nil, append-eq-nil_iff}
use agentguard_action_proxy.Common.Dict.{lookup, insert}
use agentguard_action_proxy.Js.Value.{Fields, end, field, num, obj, null, get}
use agentguard_action_proxy.Models.{EphemeralExecutionToken}
use agentguard_action_proxy.Fingerprint.{
  insert_entry, sort_entries, render_entry, stable_stringify, stringify_fields, fingerprint_content,
  action_fingerprint,
}
use agentguard_action_proxy.Fingerprint.Order.{
  KeysApart, IsApart-prop, entries, stable_stringify-perm,
}
use agentguard_action_proxy.Token.{
  TokenService, number_value, loan_amount, new_token, issue, loan_amount_differs,
  fingerprint_differs, refusal, mark_used, validate_for_execution,
}
use agentguard_action_proxy.Token.Acceptance.{Permits, validate_iff, validate-tokens}
use agentguard_action_proxy.Token.Roundtrip.{validate-issue}
use agentguard_action_proxy.Token.History.{
  now_on, issued, validated, validate_once, validate-issue_nan,
}
use agentguard_action_proxy.Token.Capabilities.{Call, grant, redeem, none_at_all, promised, given}
use agentguard_action_proxy.Token.Capabilities.Refinement.{HasFingerprints, refines}
use agentguard_action_proxy.Tests.Toy.{
  toy, toy-IsComparison, fin, nan, status_lookup, deletion, safe_loan, garbled_loan,
}
use mathlib.Core.List.{Pairwise, mem-cons, not-mem-nil}
use mathlib.Core.List.Perm
use mathlib.Core.Logic.Or

fingerprints : Unit {0}
unfolding get insert_entry sort_entries render_entry stable_stringify stringify_fields
    fingerprint_content action_fingerprint
fingerprints = tt

unfoldable pub validation : Unit {0}
unfolding fingerprints number_value loan_amount new_token issue loan_amount_differs
    fingerprint_differs refusal mark_used validate_for_execution lookup insert
validation = tt

abbrev plain : Fields toy
plain = field "amount" (num (fin 1)) (field "to" null end)

abbrev turned : Fields toy
turned = field "to" null (field "amount" (num (fin 1)) end)

canonical : stable_stringify (obj plain) ≡ "{to:null,amount:n}"
unfolding fingerprints
canonical = refl

plain-apart : KeysApart toy (entries plain)
plain-apart =
    Pairwise.cons
      (λ e m.
        Or.elim (IsApart-prop toy "amount" e.0) (mem-cons.0 m) (λ same. rw same refl)
          (λ none_left. absurd (not-mem-nil none_left)))
      (Pairwise.cons (λ e m. absurd (not-mem-nil m)) Pairwise.nil)

stable_stringify-perm_example : stable_stringify (obj plain) ≡ stable_stringify (obj turned)
stable_stringify-perm_example =
    stable_stringify-perm plain turned toy-IsComparison plain-apart (Perm.swap _ _ _)

-- A token for the lookup, issued at time 1000 for 120 seconds.
store : TokenService toy
store = issue 1000 "uuid_1" status_lookup 120 []

answers :
    ((validate_for_execution 121_000 "uuid_1" status_lookup store).reason ≡ "token_valid")
    × ((validate_for_execution 121_001 "uuid_1" status_lookup store).reason ≡ "token_expired")
    × ((validate_for_execution 2000 "uuid_2" status_lookup store).reason ≡ "token_not_found")
    × ((validate_for_execution 2000 "uuid_1" deletion store).reason ≡ "action_type_mismatch")
unfolding validation store
answers = (refl, refl, refl, refl)

validate_iff_example : ((validate_for_execution 2000 "uuid_1" deletion store).valid ≡ true) ↔ (
    (t : EphemeralExecutionToken toy) × (lookup "uuid_1" store ≡ some t) × Permits 2000 t deletion)
validate_iff_example = validate_iff 2000 "uuid_1" deletion store

validate-tokens_example :
    (((validate_for_execution 2000 "uuid_1" status_lookup store).valid ≡ false)
      × ((validate_for_execution 2000 "uuid_1" status_lookup store).tokens ≡ store))
    ⊎ (((validate_for_execution 2000 "uuid_1" status_lookup store).valid ≡ true)
        × (t : EphemeralExecutionToken toy) × (lookup "uuid_1" store ≡ some t)
        × ((k : String)
            → lookup k (validate_for_execution 2000 "uuid_1" status_lookup store).tokens
              ≡ (if "uuid_1" == k then some (mark_used t) else lookup k store)))
validate-tokens_example = validate-tokens 2000 "uuid_1" status_lookup store

abbrev used_store : TokenService toy
used_store = (validate_for_execution 2000 "uuid_1" status_lookup store).tokens

-- The store after a token for the loan, and another try with the used token.
abbrev busy_store : TokenService toy
busy_store =
    (validate_for_execution 2600 "uuid_1" status_lookup
      (issue 2500 "extra" safe_loan 120 used_store)).tokens

validate_once_example :
    ((validate_for_execution 3000 "uuid_1" deletion busy_store).valid ≡ false)
    × (((validate_for_execution 3000 "uuid_1" deletion busy_store).reason ≡ "token_already_used")
        ⊎ ((validate_for_execution 3000 "uuid_1" deletion busy_store).reason ≡ "token_expired")
        ⊎ ((validate_for_execution 3000 "uuid_1" deletion busy_store).reason ≡ "token_not_found"))
unfolding validation store
validate_once_example =
    validate_once 2000 3000 "uuid_1" status_lookup deletion store busy_store refl
      (validated 2600 "uuid_1" status_lookup (issued 2500 "extra" safe_loan 120 now_on (λ h. cc)))

validate-issue_example :
    (validate_for_execution 121_000 "uuid_2" safe_loan
      (issue 1000 "uuid_2" safe_loan 120 store)).valid
    ≡ true
unfolding validation
validate-issue_example = validate-issue 1000 121_000 "uuid_2" safe_loan 120 store (omega arith) refl

abbrev nan_store : TokenService toy
nan_store = issue 1000 "uuid_2" garbled_loan 120 store

nan_differs : (m : toy.Number) → toy.num_eq nan m ≡ false
nan_differs m = refl

validate-issue_nan_example :
    ((validate_for_execution 2000 "uuid_2" garbled_loan nan_store).valid ≡ false)
    × (((lookup "uuid_2" nan_store ≡ none)
          × ((validate_for_execution 2000 "uuid_2" garbled_loan nan_store).reason
              ≡ "token_not_found"))
        ⊎ ((1000 + 120 * 1000 < 2000)
            × ((validate_for_execution 2000 "uuid_2" garbled_loan nan_store).reason
                ≡ "token_expired"))
        ⊎ ((2000 ≤ 1000 + 120 * 1000)
            × ((validate_for_execution 2000 "uuid_2" garbled_loan nan_store).reason
                ≡ "loan_amount_mismatch")))
unfolding validation
validate-issue_nan_example =
    validate-issue_nan 1000 "uuid_2" garbled_loan 120 store nan refl nan_differs 2000 nan_store
      now_on

-- A canonical text begins with a brace, and the stand-in for the digest keeps it.
toy-HasFingerprints : HasFingerprints toy
unfolding action_fingerprint fingerprint_content stable_stringify
toy-HasFingerprints a = elim (Bool-cases (action_fingerprint a == "")) [
  | inl empty ↦
      absurd (cons-ne-nil _ "" (append-eq-nil_iff.0 ((eq_iff (action_fingerprint a) "").0 empty)).0)
  | inr other ↦ other
]

-- One token, redeemed by another action, by its own, and by its own again.
abbrev calls : List (Call toy)
calls =
    grant 1000 "uuid_1" status_lookup 120
    ∷ redeem 2000 "uuid_1" deletion
    ∷ redeem 3000 "uuid_1" status_lookup
    ∷ redeem 4000 "uuid_1" status_lookup
    ∷ []

calls-given : given calls [] ≡ false ∷ true ∷ false ∷ []
unfolding validation given
calls-given = refl

refines_example : given calls [] ≡ promised calls none_at_all
refines_example = refines toy-HasFingerprints calls
