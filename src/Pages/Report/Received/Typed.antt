-- ===== src/Pages/Report/Received/Typed.antt =====
-- The report on a received value that is a result of the assessment.
use agentguard_action_proxy.Common.{ℕ, zero, suc, String, ◌≡◌, refl, List, [], ◌∷◌, Option, some}
use agentguard_action_proxy.Common.Lists.{take}
use agentguard_action_proxy.Js.{Js}
use agentguard_action_proxy.Js.Value.{Value, str, obj, get, get_of, assign, text_of, texts}
use agentguard_action_proxy.Assessment.Types.{
  StandardsAlignmentStatus, green, yellow, red, StandardsAlignment, PriorityRisk,
  RecommendedActionGroup, AssessmentResult,
}
use agentguard_action_proxy.Pages.Html.{each, each_indexed}
use agentguard_action_proxy.Pages.Parts.{list_item, status_class, render_alignment_status}
use agentguard_action_proxy.Pages.Texts.{status_text}
use agentguard_action_proxy.Pages.ResultJson.{
  entries, items, risk_value, group_value, alignment_value, result_value,
}
use agentguard_action_proxy.Pages.Report.{
  render_risk, render_top_risks, render_roadmap, render_standards_alignment,
}
use agentguard_action_proxy.Pages.Report.Document.{result_parts}
use agentguard_action_proxy.Pages.Report.Received.{
  has_text, template, text_only, status_label, try_each, try_list, received_risk, received_risks,
  received_top_risks, received_action, received_group, received_alignment, received_parts,
}

-- The three texts of a status in lower case.
abbrev pub HasLowerCase : Js → Type 0
HasLowerCase js = (s : StandardsAlignmentStatus) → js.to_lower_case (status_text s) ≡ status_class s

status_label-status_text :
    (s : StandardsAlignmentStatus) → status_label (status_text s) ≡ render_alignment_status s
unfolding status_label render_alignment_status
status_label-status_text green = refl
status_label-status_text yellow = refl
status_label-status_text red = refl

module _ {js : Js} where
  -- The same object with another total score.
  abbrev pub with_total : Value js → Value js → Value js
  with_total total (obj fs) = obj (assign "totalScore" total fs)
  with_total total v = v

  try_each-entries :
      {A : Type 0} (f : Value js → Option String) (g : A → Value js) (h : A → String)
      → ((x : A) → f (g x) ≡ some (h x))
      → (xs : List A) → try_each f (entries g xs) ≡ some (each h xs)
  unfolding try_each each
  try_each-entries f g h same [] = refl
  try_each-entries f g h same (x ∷ xs) = rw (same x, try_each-entries f g h same xs) refl

module _ (js : Js) where
  try_each-texts :
      (xs : List String) → try_each received_action (texts {js = js} xs) ≡ some (each list_item xs)
  unfolding try_each each received_action text_only
  try_each-texts [] = refl
  try_each-texts (x ∷ xs) = rw (try_each-texts xs) refl

  received_risk-risk_value :
      (i : ℕ) (r : PriorityRisk)
      → received_risk i (risk_value {js = js} r) ≡ some (render_risk js i r)
  unfolding received_risk risk_value render_risk get get_of text_only template has_text text_of
  received_risk-risk_value i r = refl

  received_risks-entries :
      (n i : ℕ) (rs : List PriorityRisk)
      → received_risks n i (entries (risk_value {js = js}) rs)
        ≡ some (each_indexed (render_risk js) i (take n rs))
  unfolding received_risks each_indexed take
  received_risks-entries zero i rs = refl
  received_risks-entries (suc n) i [] = refl
  received_risks-entries (suc n) i (r ∷ rs) =
      rw (received_risk-risk_value i r, received_risks-entries n (suc i) rs) refl

  received_top_risks-items :
      (rs : List PriorityRisk)
      → received_top_risks (some (items (risk_value {js = js}) rs)) ≡ some (render_top_risks js rs)
  unfolding received_top_risks render_top_risks
  received_top_risks-items [] = refl
  received_top_risks-items (r ∷ rs) = rw (received_risks-entries 3 0 (r ∷ rs)) refl

  received_group-group_value :
      (g : RecommendedActionGroup)
      → received_group (group_value {js = js} g) ≡ some (render_roadmap g)
  unfolding received_group group_value render_roadmap get get_of text_only try_list
  received_group-group_value g = rw (try_each-texts g.actions) refl

  module _ (lower : HasLowerCase js) where
    received_alignment-alignment_value :
        (a : StandardsAlignment)
        → received_alignment (alignment_value {js = js} a) ≡ some (render_standards_alignment js a)
    unfolding received_alignment alignment_value render_standards_alignment get get_of text_only
        template has_text text_of
    received_alignment-alignment_value a =
        rw (lower a.status, status_label-status_text a.status) refl

    -- A result of the assessment with a text as its total score is read as that result.
    pub received_parts-with_total :
        (r : AssessmentResult) (t : String)
        → received_parts (with_total (str t) (result_value {js = js} r))
          ≡ some (record (result_parts js r) { total = t })
    unfolding received_parts result_value result_parts get get_of assign text_only template has_text
        text_of try_list
    received_parts-with_total r t =
        rw
          (
            received_top_risks-items r.priority_risks,
            try_each-entries _ _ _ received_group-group_value r.recommended_actions,
            try_each-entries _ _ _ received_alignment-alignment_value r.standards_alignment,
          )
          refl
