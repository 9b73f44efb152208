-- ===== src/Assessment/Explanations.antt =====
-- ts-agentguard/src/assessment/scoring.ts: the explanation of the score of a domain.
use agentguard_action_proxy.Common.{
  ℕ, ◌*◌, Bool, true, false, ◌&&◌, String, List, [], ◌∷◌, ◌==◌, map, if◌then◌else◌, leb, concat,
  join,
}
use agentguard_action_proxy.Common.Dict.{Dict}
use agentguard_action_proxy.Common.Lists.{length, keep, sum_of}
use agentguard_action_proxy.Js.{Js}
use agentguard_action_proxy.Assessment.Types.{
  AnswerValue, Question, AnswerLabel, no, not_sure, partial, yes, QuestionExplanation, DomainScore,
  DomainExplanation,
}
use agentguard_action_proxy.Assessment.ScoringTables.{explanation_findings}
use agentguard_action_proxy.Assessment.Scores.{points_for, domain_questions}

-- On the points, as an unanswered question has 0.
unfoldable pub answer_label : ℕ → AnswerLabel
answer_label value =
    if leb value 4 && leb 4 value
    then yes
    else if leb value 2 && leb 2 value
    then partial
    else if leb value 1 && leb 1 value
    then not_sure
    else no

abbrev answer_display : AnswerLabel → String
answer_display yes = "예"
answer_display partial = "일부"
answer_display not_sure = "확인 필요"
answer_display no = "아니오"

abbrev answer_impact : AnswerLabel → String
answer_impact yes = "통제가 확인되어 감점 영향이 낮습니다."
answer_impact partial = "부분 통제만 확인되어 보완 과제가 남습니다."
answer_impact not_sure = "증빙 여부가 불명확하여 낮은 신뢰도로 반영됩니다."
answer_impact no = "통제가 확인되지 않아 주요 감점 요인입니다."

unfoldable pub explain_question : Dict AnswerValue → Question → QuestionExplanation
explain_question values q = record {
  question_id = q.id;
  display_id = q.display_id;
  title = q.title;
  answer = answer_label (points_for values q.id);
  points = points_for values q.id;
  max_points = 4;
  impact = answer_impact (answer_label (points_for values q.id));
}

-- `item.answer !== "YES"`.
unfoldable pub is_negative : QuestionExplanation → Bool
is_negative q = elim q.answer [ yes ↦ false | _ ↦ true ]

unfoldable pub negative_answers : List QuestionExplanation → String
negative_answers breakdown = join ", " (
    map (λ q. concat (q.display_id ∷ " " ∷ answer_display q.answer ∷ []))
      (keep is_negative breakdown))

module _ (js : Js) where
  unfoldable pub narrative_of : DomainScore → String → String
  narrative_of d negative = concat (
      d.label
      ∷ " 평가 결과는 "
      ∷ js.text_of_number (js.number d.score)
      ∷ "점입니다. "
      ∷ (if negative == ""
          then "모든 핵심 통제가 확인되었습니다."
          else concat ("보완 검토가 필요한 응답은 " ∷ negative ∷ "입니다." ∷ []))
      ∷ [])

  unfoldable pub explain_domain : Dict AnswerValue → DomainScore → DomainExplanation
  explain_domain values d =
      let questions = domain_questions d.domain in
      let breakdown = map (explain_question values) questions in
      record {
        domain = d.domain;
        label = d.label;
        score = d.score;
        max_score = d.max_score;
        answered_points = sum_of (λ q. points_for values q.id) questions;
        max_points = length questions * 4;
        answer_breakdown = breakdown;
        findings = explanation_findings d.domain;
        narrative = narrative_of d (negative_answers breakdown);
      }

  unfoldable pub build_explanations : Dict AnswerValue → List DomainScore → List DomainExplanation
  build_explanations values scores = map (explain_domain values) scores
