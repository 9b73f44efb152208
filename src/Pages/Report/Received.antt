-- ===== src/Pages/Report/Received.antt =====
-- ts-agentguard/src/assessment/executive-report.ts on the object that a client sends to `/summary`,
-- whose properties may hold any JSON values. `none` is a TypeError.
pub mod Typed
use agentguard_action_proxy.Common.{
  ℕ, zero, suc, String, Bool, true, not, Option, none, some, is_some, ◌==◌, ◌&&◌, if◌then◌else◌,
}
use agentguard_action_proxy.Js.{Js}
use agentguard_action_proxy.Js.Value.{
  Value, num, str, arr, obj, Items, nil, cons, get, get_of, text_of,
}
use agentguard_action_proxy.Pages.Parts.{list_item, render_summary_text}
use agentguard_action_proxy.Pages.Report.{
  roadmap_html, risk_html, alignment_html, no_risks_html, risk_list_html,
}
use agentguard_action_proxy.Pages.Report.Document.{ReportParts, report_html}
use agentguard_action_proxy.Pages.Texts.{number_text}
use Prim.Native.String

infixl 5 ◌>>=◌
abbrev ◌>>=◌ {ℓ} : {A B : Type ℓ} → Option A → (A → Option B) → Option B
o >>= f = elim o [ none ↦ none | some a ↦ f a ]

-- The value has a text: no object in it has an own property `toString`, which is no function.
unfoldable mutual
  pub has_text : {js : Js} → Value js → Bool
  has_text (arr xs) = have_texts xs
  has_text (obj fs) = not (is_some (get "toString" fs))
  has_text _ = true

  have_texts : {js : Js} → Items js → Bool
  have_texts nil = true
  have_texts (cons v xs) = has_text v && have_texts xs

-- `renderAlignmentStatus`
unfoldable pub status_label : String → String
status_label status =
    if status == "GREEN" then "Green" else if status == "YELLOW" then "Yellow" else "Red"

module _ {js : Js} where
  -- A value in a template literal.
  unfoldable pub template : Option (Value js) → Option String
  template none = some "undefined"
  template (some v) = if has_text v then some (text_of v) else none

  -- A value whose text methods are called, as `escapeHtml` does: only a text has them.
  unfoldable pub text_only : Option (Value js) → Option String
  text_only (some (str s)) = some s
  text_only _ = none

  -- `xs.map(f).join("")`, where `f` may throw.
  unfoldable pub try_each : (Value js → Option String) → Items js → Option String
  try_each f nil = some ""
  try_each f (cons v xs) = do first ← f v; rest ← try_each f xs; some (String.◌++◌ first rest)

  -- `values.map(f).join("")` of a property that must be an array.
  unfoldable pub try_list : (Value js → Option String) → Option (Value js) → Option String
  try_list f (some (arr xs)) = try_each f xs
  try_list f _ = none

  unfoldable pub received_risk : ℕ → Value js → Option String
  received_risk index risk = do
    label ← text_only (get_of "label" risk)
    score ← template (get_of "score" risk)
    description ← text_only (get_of "description" risk)
    some (risk_html (number_text js (suc index)) label score description)

  -- The first risks, with the place of each, from a number on.
  unfoldable pub received_risks : ℕ → ℕ → Items js → Option String
  received_risks zero index risks = some ""
  received_risks (suc n) index nil = some ""
  received_risks (suc n) index (cons risk risks) = do
    first ← received_risk index risk
    rest ← received_risks n (suc index) risks
    some (String.◌++◌ first rest)

  -- `renderTopRisks`: what has the length 0 is no array only if it is an empty text or an object with
  -- a property `length`.
  unfoldable pub received_top_risks : Option (Value js) → Option String
  received_top_risks (some (arr nil)) = some no_risks_html
  received_top_risks (some (arr (cons risk risks))) = do
    items ← received_risks 3 0 (cons risk risks)
    some (risk_list_html items)
  received_top_risks (some (str s)) = if s == "" then some no_risks_html else none
  received_top_risks (some (obj fs)) = elim (get "length" fs) [
    | some (num n) ↦ if js.num_eq n (js.number 0) then some no_risks_html else none
    | _ ↦ none
  ]
  received_top_risks _ = none

  unfoldable pub received_action : Value js → Option String
  received_action action = do text ← text_only (some action); some (list_item text)

  -- `renderRoadmap`
  unfoldable pub received_group : Value js → Option String
  received_group group = do
    label ← text_only (get_of "label" group)
    actions ← try_list received_action (get_of "actions" group)
    some (roadmap_html label actions)

  -- `renderStandardsAlignment`
  unfoldable pub received_alignment : Value js → Option String
  received_alignment item = do
    status ← text_only (get_of "status" item)
    label ← text_only (get_of "label" item)
    summary ← text_only (get_of "summary" item)
    score ← template (get_of "score" item)
    some (alignment_html (js.to_lower_case status) label summary score (status_label status))

  -- The parts of the document that a value is read for, in the order of the document.
  unfoldable pub received_parts : Value js → Option ReportParts
  received_parts result = do
    total ← template (get_of "totalScore" result)
    maximum ← template (get_of "maxScore" result)
    risk_level ← text_only (get_of "riskLevel" result)
    regulatory ← text_only (get_of "regulatoryReadiness" result)
    control ← text_only (get_of "controlMaturity" result)
    audit ← text_only (get_of "auditReadiness" result)
    summary ← text_only (get_of "executiveSummary" result)
    risks ← received_top_risks (get_of "priorityRisks" result)
    roadmap ← try_list received_group (get_of "recommendedActions" result)
    standards ← try_list received_alignment (get_of "standardsAlignment" result)
    some (record {
      total = total;
      maximum = maximum;
      risk_level = risk_level;
      regulatory = regulatory;
      control = control;
      audit = audit;
      summary = render_summary_text summary;
      risks = risks;
      roadmap = roadmap;
      standards = standards;
    })

  unfoldable pub received_report : String → Value js → Option String
  received_report date result = do parts ← received_parts result; some (report_html date parts)
