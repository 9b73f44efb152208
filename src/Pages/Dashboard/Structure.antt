-- ===== src/Pages/Dashboard/Structure.antt =====
-- The markup of the executive dashboard.
use agentguard_action_proxy.Common.{
  ℕ, String, Bool, ◌≡◌, refl, sym, ◌∙◌, false, List, [], ◌∷◌, map, ◌==◌, arith, concat,
}
use agentguard_action_proxy.Common.Lists.{length}
use agentguard_action_proxy.Js.{Js}
use agentguard_action_proxy.Assessment.Types.{
  AssessmentResult, DomainScore, PriorityRisk, RecommendedActionGroup, StandardsReference,
  StandardsAlignment, QuestionExplanation, DomainExplanation, AssessmentGrade, grade_d, grade_c,
  grade_b, grade_a, grade_a_plus,
}
use agentguard_action_proxy.Pages.Html.{is_char, escape_html, split_paragraphs}
use agentguard_action_proxy.Pages.Html.Markup.{
  picked, is_markup, markup, angles, picked-append, picked-each, picked-each_any, HasPlainNumbers,
  IsMarkupTest, angles-IsMarkupTest, picked-plain, picked-escape_html, angles-replace_all,
}
use agentguard_action_proxy.Js.Json.{json_stringify}
use agentguard_action_proxy.Pages.ResultJson.{result_value}
use agentguard_action_proxy.Pages.Texts.{number_text, grade_text}
use agentguard_action_proxy.Pages.Parts.{list_item}
use agentguard_action_proxy.Pages.Parts.Structure.{status_any, item_any, metric_any, summary_any}
use agentguard_action_proxy.Pages.Dashboard.{
  list_item, render_action_group, render_standard, render_maturity_label, render_domain_score,
  render_priority_risk, render_priority_risks, render_standards_alignment,
  render_question_explanation, render_explanation, top_risks_for_dashboard,
}
use agentguard_action_proxy.Pages.Dashboard.Document.{
  serialize_result_for_script, dashboard_main, dashboard_script, assessment_dashboard_html,
}
use Prim.Native.Char.{Char}

abbrev group_shape : RecommendedActionGroup → ℕ
group_shape g = length g.actions

abbrev alignment_shape : StandardsAlignment → ℕ
alignment_shape a = length a.standards

abbrev explanation_shape : DomainExplanation → ℕ × ℕ
explanation_shape e = (length e.answer_breakdown, length e.findings)

-- Two results with as many paragraphs, domains, risks, actions, standards and explanations.
pub record SameShape (r s : AssessmentResult) : Type 0 where
  pub paragraphs :
      length (split_paragraphs r.executive_summary) ≡ length (split_paragraphs s.executive_summary)
  pub detail :
      (render_maturity_label r.maturity_level.display_name == "")
      ≡ (render_maturity_label s.maturity_level.display_name == "")
  pub domains : length r.domain_scores ≡ length s.domain_scores
  pub risks : length r.priority_risks ≡ length s.priority_risks
  pub actions : map group_shape r.recommended_actions ≡ map group_shape s.recommended_actions
  pub standards :
      map alignment_shape r.standards_alignment ≡ map alignment_shape s.standards_alignment
  pub explanations : map explanation_shape r.explanations ≡ map explanation_shape s.explanations

abbrev grade_detail : AssessmentGrade → String
grade_detail g = concat ("거버넌스 등급 " ∷ grade_text g ∷ [])

grade_detail_full : (g : AssessmentGrade) → (grade_detail g == "") ≡ false
grade_detail_full grade_d = refl
grade_detail_full grade_c = refl
grade_detail_full grade_b = refl
grade_detail_full grade_a = refl
grade_detail_full grade_a_plus = refl

module _ (js : Js) (digits : HasPlainNumbers js) (p : Char → Bool) (test : IsMarkupTest p) where
  escaped : (s : String) → picked p (escape_html s) ≡ ""
  escaped s = picked-escape_html test s

  plain : (n : ℕ) → picked p (number_text js n) ≡ ""
  plain n = picked-plain test (number_text js n) (digits n)

  question_any :
      (q r : QuestionExplanation)
      → picked p (render_question_explanation js q) ≡ picked p (render_question_explanation js r)
  unfolding render_question_explanation
  question_any q r = simp (picked-append, escaped, plain)

  standard_any :
      (s t : StandardsReference) → picked p (render_standard s) ≡ picked p (render_standard t)
  unfolding render_standard
  standard_any s t = simp (picked-append, escaped)

  domain_any :
      (d e : DomainScore)
      → picked p (render_domain_score js d) ≡ picked p (render_domain_score js e)
  unfolding render_domain_score
  domain_any d e = simp (picked-append, escaped, plain)

  risk_any :
      (r s : PriorityRisk)
      → picked p (render_priority_risk js r) ≡ picked p (render_priority_risk js s)
  unfolding render_priority_risk
  risk_any r s = simp (picked-append, escaped, plain)

  group_any :
      (g h : RecommendedActionGroup)
      → group_shape g ≡ group_shape h
      → picked p (render_action_group g) ≡ picked p (render_action_group h)
  unfolding render_action_group
  group_any g h same =
      let items = picked-each_any p list_item (item_any p test) g.actions h.actions same in
      simp (picked-append, escaped, items)

  alignment_any :
      (a b : StandardsAlignment)
      → alignment_shape a ≡ alignment_shape b
      → picked p (render_standards_alignment js a) ≡ picked p (render_standards_alignment js b)
  unfolding render_standards_alignment
  alignment_any a b same =
      let parts = picked-each_any p render_standard standard_any a.standards b.standards same in
      simp (picked-append, escaped, plain, status_any p test, parts)

  explanation_any :
      (e f : DomainExplanation)
      → explanation_shape e ≡ explanation_shape f
      → picked p (render_explanation js e) ≡ picked p (render_explanation js f)
  unfolding render_explanation
  explanation_any e f same =
      let rows =
        picked-each_any p (render_question_explanation js) question_any e.answer_breakdown
          f.answer_breakdown (cc) in
      let items = picked-each_any p list_item (item_any p test) e.findings f.findings (cc) in
      simp (picked-append, escaped, plain, rows, items)

  module _ (r s : AssessmentResult) (same : SameShape r s) where
    risks_any :
        (rs ss : List PriorityRisk)
        → length rs ≡ length ss
        → picked p (render_priority_risks js rs) ≡ picked p (render_priority_risks js ss)
    unfolding render_priority_risks length
    risks_any [] [] e = refl
    risks_any [] (x ∷ xs) e = absurd (omega (arith, e))
    risks_any (x ∷ xs) [] e = absurd (omega (arith, e))
    risks_any (x ∷ xs) (y ∷ ys) e =
        let list = picked-each_any p (render_priority_risk js) risk_any (x ∷ xs) (y ∷ ys) e in
        simp (picked-append, list)

    main_any : picked p (dashboard_main js r) ≡ picked p (dashboard_main js s)
    unfolding dashboard_main top_risks_for_dashboard
    main_any =
        let paragraphs = summary_any p test _ _ same.paragraphs in
        let regulatory =
          metric_any p test "규제 대응 준비도" r.regulatory_readiness s.regulatory_readiness
            "현재 평가 범위 내에서 산정" "현재 평가 범위 내에서 산정" refl in
        let maturity =
          metric_any p test "통제 성숙도" r.control_maturity s.control_maturity _ _ same.detail in
        let audit =
          metric_any p test "감사 대응 준비도" r.audit_readiness s.audit_readiness
            (grade_detail r.governance_grade) (grade_detail s.governance_grade)
            (grade_detail_full r.governance_grade ∙ sym (grade_detail_full s.governance_grade)) in
        let domains = picked-each_any p (render_domain_score js) domain_any _ _ same.domains in
        let risks = risks_any r.priority_risks s.priority_risks same.risks in
        let actions = picked-each p render_action_group group_shape group_any _ _ same.actions in
        let standards =
          picked-each p (render_standards_alignment js) alignment_shape alignment_any _ _
            same.standards in
        let explanations =
          picked-each p (render_explanation js) explanation_shape explanation_any _ _
            same.explanations in
        simp (
          picked-append, escaped, plain, paragraphs, regulatory, maturity, audit, domains, risks,
          actions, standards, explanations,
        )

module _ (js : Js) where
  serialized-angles : (r : AssessmentResult) → angles (serialize_result_for_script js r) ≡ ""
  unfolding serialize_result_for_script
  serialized-angles r =
      angles-replace_all (json_stringify (result_value r)) "\\u003c" (unfold picked is_char in refl)

  script_any :
      (r s : AssessmentResult) → angles (dashboard_script js r) ≡ angles (dashboard_script js s)
  unfolding dashboard_script
  script_any r s = simp (picked-append, serialized-angles)

module _ (js : Js) (digits : HasPlainNumbers js) where
  -- The dashboard is safe against injected markup: between its style sheet and its script, the angle
  -- brackets and quotes are the same for any two results of the same shape, whatever their texts and
  -- numbers are. In the whole document, with the result as JSON in the script, the opening brackets
  -- are. Numbers must be written without such characters.
  pub dashboard_structure :
      (r s : AssessmentResult)
      → SameShape r s
      → (markup (dashboard_main js r) ≡ markup (dashboard_main js s))
        × (angles (assessment_dashboard_html js r) ≡ angles (assessment_dashboard_html js s))
  unfolding assessment_dashboard_html
  dashboard_structure r s same =
      let inner = main_any js digits (is_char b'<') angles-IsMarkupTest r s same in
      let script = script_any js r s in
      (main_any js digits is_markup (λ c e. e) r s same, simp (picked-append, inner, script))
