-- ===== src/Pages/PolicyAssessment/Selection.antt =====
-- Which sample an assessment of a policy document is answered with.
use agentguard_action_proxy.Common.{
  String, ◌≡◌, refl, sym, ap, subst, ◌↔◌, true, false, inl, inr, Bool-cases, ◌==◌, eq_iff,
}
use agentguard_action_proxy.Pages.PolicyAssessment.{
  bank_file, card_file, securities_file, open_bank, open_card, open_securities,
  is_policy_sample_file, get_policy_assessment_result,
}

-- The file that the answer to a source is about.
abbrev pub answered : String → String
answered source = (get_policy_assessment_result source).policy_source

abbrev IsSelected : String → Type 0
IsSelected source =
    (is_policy_sample_file (answered source) ≡ true)
    × ((answered source ≡ source) ↔ (is_policy_sample_file source ≡ true))

bank-IsSelected : IsSelected bank_file
unfolding get_policy_assessment_result open_bank
bank-IsSelected = (refl, (λ _. refl, λ _. refl))

card-IsSelected : IsSelected card_file
unfolding get_policy_assessment_result open_card
card-IsSelected = (refl, (λ _. refl, λ _. refl))

securities-IsSelected : IsSelected securities_file
unfolding get_policy_assessment_result open_securities
securities-IsSelected = (refl, (λ _. refl, λ _. refl))

module _ (source : String) (b : (source == bank_file) ≡ false) (c : (source == card_file) ≡ false)
    (s : (source == securities_file) ≡ false) where
  other-open_bank : get_policy_assessment_result source ≡ open_bank
  unfolding get_policy_assessment_result
  other-open_bank = rw (b, c, s) refl

  other-answered : answered source ≡ bank_file
  unfolding open_bank
  other-answered = ap (λ r. r.policy_source) other-open_bank

  other-IsSelected : IsSelected source
  unfolding is_policy_sample_file
  other-IsSelected =
      rw (other-answered, b, c, s) (refl, (λ h. cc ((eq_iff source bank_file).1 (sym h)), λ h. cc))

-- Every source is answered, with the result of one of the samples. It is the result of the source
-- itself exactly when the source is a sample.
pub sample-IsSelected : (source : String) → IsSelected source
sample-IsSelected source = elim (Bool-cases (source == bank_file)) [
  | inl e ↦ subst IsSelected (sym ((eq_iff source bank_file).0 e)) bank-IsSelected
  | inr b ↦ elim (Bool-cases (source == card_file)) [
    | inl e ↦ subst IsSelected (sym ((eq_iff source card_file).0 e)) card-IsSelected
    | inr c ↦ elim (Bool-cases (source == securities_file)) [
      | inl e ↦ subst IsSelected (sym ((eq_iff source securities_file).0 e)) securities-IsSelected
      | inr s ↦ other-IsSelected source b c s
    ]
  ]
]
