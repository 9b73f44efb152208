-- ===== src/Assessment/Summary.antt =====
-- ts-agentguard/src/assessment/scoring.ts: `evaluateAssessment` with its summary and percentages.
use agentguard_action_proxy.Common.{
  ℕ, ◌+◌, ◌*◌, max, min, not, ◌&&◌, String, none, some, List, [], ◌∷◌, ◌==◌, map, if◌then◌else◌,
  leb, concat, join, includes,
}
use agentguard_action_proxy.Common.Dict.{Dict}
use agentguard_action_proxy.Common.Lists.{find_first}
use agentguard_action_proxy.Js.{Js}
use agentguard_action_proxy.Assessment.Types.{
  Domain, financial_actions, ai_risk_management, privacy_data_protection,
  model_governance_human_oversight, strategic_governance, is_domain, AnswerValue, part_of_it,
  AssessmentRiskLevel, AssessmentAnswer, DomainScore, PriorityRisk, AssessmentResult,
}
use agentguard_action_proxy.Assessment.Questions.{assessment_questions}
use agentguard_action_proxy.Assessment.Standards.{build_standards_alignment}
use agentguard_action_proxy.Assessment.Levels.{
  calculate_assessment_risk_level, calculate_assessment_grade, calculate_readiness,
  calculate_maturity_level,
}
use agentguard_action_proxy.Assessment.Scores.{
  answer_values, domain_scores_of, total_score_of, round_ratio,
}
use agentguard_action_proxy.Assessment.Priorities.{
  is_low_risk, build_recommended_actions, build_priority_risks,
}
use agentguard_action_proxy.Assessment.Explanations.{build_explanations}

-- `demoAssessmentAnswers`.
unfoldable pub demo_assessment_answers : List AssessmentAnswer
demo_assessment_answers =
    map (λ question. record { question_id = question.id; value = part_of_it }) assessment_questions

-- The text without its leading characters that stand in `chars`.
unfoldable pub drop_leading : String → String → String
drop_leading chars String.[] = ""
drop_leading chars (String.◌∷◌ c s) =
    if includes chars (String.◌∷◌ c "") then drop_leading chars s else String.◌∷◌ c s

-- `label.replace(/^D\d+\s+/, "")`; a label has no other white space than the space.
unfoldable pub strip_code : String → String
strip_code String.[] = ""
strip_code (String.◌∷◌ c s) =
    let number_dropped = drop_leading "0123456789" s in
    let rest = drop_leading " " number_dropped in
    if String.◌∷◌ c "" == "D" && not (number_dropped == s) && not (rest == number_dropped)
    then rest
    else String.◌∷◌ c s

unfoldable pub weak_area_sentence : List PriorityRisk → String
weak_area_sentence [] = ""
weak_area_sentence (r ∷ rs) =
    concat (" 우선 관리 영역은 " ∷ join ", " (map (λ x. strip_code x.label) (r ∷ rs)) ∷ "입니다." ∷ [])

unfoldable pub build_executive_summary : ℕ → AssessmentRiskLevel → List PriorityRisk → String
build_executive_summary total_score risk_level priority_risks =
    if is_low_risk risk_level
    then "귀사는 현재 평가 범위 내에서 AI 거버넌스 체계가 전반적으로 잘 구축되어 있습니다. 중대한 고위험 영역은 확인되지 않았으며, 정기적인 점검과 지속적인 개선 활동을 유지하는 것이 권장됩니다."
    else if leb 70 total_score
    then concat (
        "귀사는 AI 활용 기반을 갖추고 있으나 일부 거버넌스 통제와 증빙 체계의 보완이 필요합니다. 우선 관리 영역을 중심으로 개선 계획을 수립하면 규제 및 감사 대응 수준을 높일 수 있습니다."
        ∷ weak_area_sentence priority_risks
        ∷ [])
    else if leb 50 total_score
    then concat (
        "귀사는 AI를 활용하고 있으나 주요 거버넌스 통제와 위험관리 체계가 충분히 정착되지 않았습니다. 고위험 영역을 중심으로 단기 개선 조치와 경영진 보고 체계 구축이 필요합니다."
        ∷ weak_area_sentence priority_risks
        ∷ [])
    else concat (
        "귀사는 AI를 활용하고 있으나 현재 평가 범위에서 핵심 거버넌스 통제와 위험관리 체계가 상당히 부족한 상태입니다. AI 활용 확대 전에 우선 관리 위험을 식별하고, 승인·감사·개인정보 보호·위험관리 체계를 신속히 보완해야 합니다."
        ∷ weak_area_sentence priority_risks
        ∷ [])

-- `domainScores.find(...)?.score ?? totalScore`.
unfoldable pub score_for : List DomainScore → ℕ → Domain → ℕ
score_for scores total d = elim (find_first (λ s. is_domain s.domain d) scores) [
  | none ↦ total
  | some s ↦ s.score
]

module _ (js : Js) where
  -- `percentage(n / d)`.
  unfoldable pub percentage : ℕ → ℕ → String
  percentage n d =
      concat (js.text_of_number (js.number (max 0 (min 100 (round_ratio n d)))) ∷ "%" ∷ [])

  unfoldable result_of :
      Dict AnswerValue
      → List DomainScore
      → ℕ
      → AssessmentRiskLevel
      → List PriorityRisk
      → AssessmentResult
  result_of values scores total risk_level priority_risks =
      let score = score_for scores total in
      record {
        total_score = total;
        max_score = 100;
        risk_level = risk_level;
        maturity_level = calculate_maturity_level total;
        governance_grade = calculate_assessment_grade total;
        ai_readiness = calculate_readiness total;
        domain_scores = scores;
        standards_alignment = build_standards_alignment scores;
        priority_risks = priority_risks;
        explanations = build_explanations js values scores;
        recommended_actions = build_recommended_actions risk_level;
        executive_summary = build_executive_summary total risk_level priority_risks;
        regulatory_readiness = percentage total 1;
        control_maturity =
            percentage
              (score financial_actions
                + score ai_risk_management
                + score model_governance_human_oversight)
              3;
        audit_readiness =
            percentage
              (score financial_actions
                + score privacy_data_protection
                + score model_governance_human_oversight
                + score strategic_governance
                + 4 * 5)
              4;
      }

  unfoldable pub evaluate_assessment : List AssessmentAnswer → AssessmentResult
  unfolding result_of
  evaluate_assessment answers =
      let values = answer_values answers in
      let scores = domain_scores_of values in
      let total = total_score_of scores in
      let risk_level = calculate_assessment_risk_level total in
      result_of values scores total risk_level (build_priority_risks js scores risk_level)
