-- ===== src/Pages/Report/Structure.antt =====
-- The markup of the executive report.
use agentguard_action_proxy.Common.{ℕ, String, Bool, ◌≡◌, refl, List, [], ◌∷◌, map, arith}
use agentguard_action_proxy.Common.Lists.{length, take}
use agentguard_action_proxy.Js.{Js}
use agentguard_action_proxy.Assessment.Types.{
  AssessmentResult, PriorityRisk, RecommendedActionGroup, StandardsAlignment,
}
use agentguard_action_proxy.Pages.Html.{escape_html, split_paragraphs}
use agentguard_action_proxy.Pages.Html.Markup.{
  picked, is_markup, markup, picked-append, picked-each, picked-each_any, picked-each_indexed,
  HasPlainNumbers, IsMarkupTest, picked-escape_html,
}
use agentguard_action_proxy.Pages.Parts.{list_item}
use agentguard_action_proxy.Pages.Parts.Structure.{plain, status_any, item_any, summary_any}
use agentguard_action_proxy.Pages.Texts.{number_text}
use agentguard_action_proxy.Pages.Report.{
  roadmap_html, risk_html, alignment_html, render_roadmap, render_risk, render_top_risks,
  render_standards_alignment,
}
use agentguard_action_proxy.Pages.Report.Document.{
  report_opening, report_body, result_parts, report_html, executive_assessment_summary_html,
}
use Prim.Native.Char.{Char}

abbrev roadmap_shape : RecommendedActionGroup → ℕ
roadmap_shape g = length g.actions

-- Two results with as many paragraphs, risks among the first three, actions and standards.
pub record SameOutline (r s : AssessmentResult) : Type 0 where
  pub paragraphs :
      length (split_paragraphs r.executive_summary) ≡ length (split_paragraphs s.executive_summary)
  pub risks : length (take 3 r.priority_risks) ≡ length (take 3 s.priority_risks)
  pub actions : map roadmap_shape r.recommended_actions ≡ map roadmap_shape s.recommended_actions
  pub standards : length r.standards_alignment ≡ length s.standards_alignment

module _ (js : Js) (digits : HasPlainNumbers js) where
  module _ (p : Char → Bool) (test : IsMarkupTest p) where
    escaped : (s : String) → picked p (escape_html s) ≡ ""
    escaped s = picked-escape_html test s

    numbers : (n : ℕ) → picked p (number_text js n) ≡ ""
    numbers n = plain p test js digits n

    risk_any :
        (m n : ℕ) (r s : PriorityRisk)
        → picked p (render_risk js m r) ≡ picked p (render_risk js n s)
    unfolding render_risk risk_html
    risk_any m n r s = simp (picked-append, escaped, numbers)

    top_risks_any :
        (rs ss : List PriorityRisk)
        → length (take 3 rs) ≡ length (take 3 ss)
        → picked p (render_top_risks js rs) ≡ picked p (render_top_risks js ss)
    unfolding render_top_risks length take
    top_risks_any [] [] e = refl
    top_risks_any [] (x ∷ xs) e = absurd (omega (arith, e))
    top_risks_any (x ∷ xs) [] e = absurd (omega (arith, e))
    top_risks_any (x ∷ xs) (y ∷ ys) e =
        let list =
          picked-each_indexed p (render_risk js) risk_any 0 (take 3 (x ∷ xs)) (take 3 (y ∷ ys)) e in
        simp (picked-append, list)

    roadmap_any :
        (g h : RecommendedActionGroup)
        → roadmap_shape g ≡ roadmap_shape h
        → picked p (render_roadmap g) ≡ picked p (render_roadmap h)
    unfolding render_roadmap roadmap_html
    roadmap_any g h same =
        let items = picked-each_any p list_item (item_any p test) g.actions h.actions same in
        simp (picked-append, escaped, items)

    alignment_any :
        (a b : StandardsAlignment)
        → picked p (render_standards_alignment js a) ≡ picked p (render_standards_alignment js b)
    unfolding render_standards_alignment alignment_html
    alignment_any a b = simp (picked-append, escaped, numbers, status_any p test)

    opening_any :
        (today then : String) → picked p (report_opening today) ≡ picked p (report_opening then)
    unfolding report_opening
    opening_any today then = simp (picked-append, escaped)

    total_any :
        (r s : AssessmentResult)
        → picked p (result_parts js r).total ≡ picked p (result_parts js s).total
    unfolding result_parts
    total_any r s = rw (numbers r.total_score, numbers s.total_score) refl

    body_any :
        (r s : AssessmentResult)
        → SameOutline r s
        → picked p (report_body (result_parts js r)) ≡ picked p (report_body (result_parts js s))
    unfolding report_body result_parts
    body_any r s same =
        let paragraphs = summary_any p test _ _ same.paragraphs in
        let risks = top_risks_any r.priority_risks s.priority_risks same.risks in
        let actions = picked-each p render_roadmap roadmap_shape roadmap_any _ _ same.actions in
        let standards =
          picked-each_any p (render_standards_alignment js) alignment_any _ _ same.standards in
        simp (picked-append, escaped, numbers, paragraphs, risks, actions, standards)

  -- The executive report of a result of the assessment, which `/report`, `/report/executive-summary`
  -- and `/assessment/report` answer with, has the same angle brackets and quotes for any two results
  -- of the same outline and any two dates, whatever the texts and numbers of the results are. Numbers
  -- must be written without such characters.
  pub report_structure :
      (today then : String) (r s : AssessmentResult)
      → SameOutline r s
      → markup (executive_assessment_summary_html js today r)
        ≡ markup (executive_assessment_summary_html js then s)
  unfolding executive_assessment_summary_html report_html
  report_structure today then r s same =
      let opening = opening_any is_markup (λ c e. e) today then in
      let inner = body_any is_markup (λ c e. e) r s same in
      let total = total_any is_markup (λ c e. e) r s in simp (picked-append, opening, total, inner)
