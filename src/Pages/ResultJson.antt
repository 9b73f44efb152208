-- ===== src/Pages/ResultJson.antt =====
-- The result of an assessment as the JSON value that the dashboard hands to its script: the properties
-- in the order in which ts-agentguard/src/assessment builds them.
use agentguard_action_proxy.Common.{List, [], ◌∷◌}
use agentguard_action_proxy.Js.{Js}
use agentguard_action_proxy.Js.Value.{
  Value, num, str, arr, obj, Items, nil, cons, end, field, texts,
}
use agentguard_action_proxy.Assessment.Types.{
  domain_text, QuestionExplanation, DomainExplanation, DomainScore, StandardsReference,
  StandardsAlignment, PriorityRisk, RecommendedActionGroup, MaturityLevel, AssessmentResult,
}
use agentguard_action_proxy.Pages.Texts.{
  assessment_risk_text, grade_text, readiness_text, answer_text, status_text, horizon_text,
}

module _ {js : Js} where
  abbrev pub entries {ℓ} : {A : Type ℓ} → (A → Value js) → List A → Items js
  entries f [] = nil
  entries f (x ∷ xs) = cons (f x) (entries f xs)

  abbrev pub items {ℓ} : {A : Type ℓ} → (A → Value js) → List A → Value js
  items f xs = arr (entries f xs)

  unfoldable pub domain_score_value : DomainScore → Value js
  domain_score_value d = obj (
      field "domain" (str (domain_text d.domain)) (
        field "label" (str d.label) (
          field "score" (num (js.number d.score))
            (field "maxScore" (num (js.number d.max_score)) (end)))))

  unfoldable pub standard_value : StandardsReference → Value js
  standard_value s = obj (
      field "framework" (str s.framework) (
        field "reference" (str s.reference) (
          field "meaning" (str s.meaning) (
            field "currentImplication" (str s.current_implication)
              (field "recommendedImprovement" (str s.recommended_improvement) (end))))))

  unfoldable pub alignment_value : StandardsAlignment → Value js
  alignment_value a = obj (
      field "domain" (str (domain_text a.domain)) (
        field "label" (str a.label) (
          field "summary" (str a.summary) (
            field "standards" (items standard_value a.standards) (
              field "score" (num (js.number a.score)) (
                field "status" (str (status_text a.status))
                  (field "impact" (str a.impact) (end))))))))

  unfoldable pub risk_value : PriorityRisk → Value js
  risk_value r = obj (
      field "domain" (str (domain_text r.domain)) (
        field "label" (str r.label) (
          field "score" (num (js.number r.score)) (field "description" (str r.description) (end)))))

  unfoldable pub question_value : QuestionExplanation → Value js
  question_value q = obj (
      field "questionId" (str q.question_id) (
        field "displayId" (str q.display_id) (
          field "title" (str q.title) (
            field "answer" (str (answer_text q.answer)) (
              field "points" (num (js.number q.points)) (
                field "maxPoints" (num (js.number q.max_points))
                  (field "impact" (str q.impact) (end))))))))

  unfoldable pub explanation_value : DomainExplanation → Value js
  explanation_value e = obj (
      field "domain" (str (domain_text e.domain)) (
        field "label" (str e.label) (
          field "score" (num (js.number e.score)) (
            field "maxScore" (num (js.number e.max_score)) (
              field "answeredPoints" (num (js.number e.answered_points)) (
                field "maxPoints" (num (js.number e.max_points)) (
                  field "answerBreakdown" (items question_value e.answer_breakdown) (
                    field "findings" (arr (texts e.findings))
                      (field "narrative" (str e.narrative) (end))))))))))

  unfoldable pub group_value : RecommendedActionGroup → Value js
  group_value g =
      obj
        (field "label" (str (horizon_text g.label)) (field "actions" (arr (texts g.actions)) (end)))

  unfoldable pub maturity_value : MaturityLevel → Value js
  maturity_value m = obj (
      field "level" (num (js.number m.level))
        (field "label" (str m.label) (field "displayName" (str m.display_name) (end))))

  unfoldable pub result_value : AssessmentResult → Value js
  result_value r = obj (
      field "totalScore" (num (js.number r.total_score)) (
        field "maxScore" (num (js.number r.max_score)) (
          field "riskLevel" (str (assessment_risk_text r.risk_level)) (
            field "maturityLevel" (maturity_value r.maturity_level) (
              field "governanceGrade" (str (grade_text r.governance_grade)) (
                field "aiReadiness" (str (readiness_text r.ai_readiness)) (
                  field "domainScores" (items domain_score_value r.domain_scores) (
                    field "standardsAlignment" (items alignment_value r.standards_alignment) (
                      field "priorityRisks" (items risk_value r.priority_risks) (
                        field "explanations" (items explanation_value r.explanations) (
                          field "recommendedActions" (items group_value r.recommended_actions) (
                            field "executiveSummary" (str r.executive_summary) (
                              field "regulatoryReadiness" (str r.regulatory_readiness) (
                                field "controlMaturity" (str r.control_maturity) (
                                  field "auditReadiness" (str r.audit_readiness)
                                    (end))))))))))))))))
