-- ===== src/Pages/Parts/Structure.antt =====
-- The markup of the shared parts does not depend on their texts.
use agentguard_action_proxy.Common.{ℕ, String, Bool, ◌≡◌, refl, inl, inr, Bool-cases, ◌==◌}
use agentguard_action_proxy.Common.Lists.{length}
use agentguard_action_proxy.Js.{Js}
use agentguard_action_proxy.Assessment.Types.{StandardsAlignmentStatus, green, yellow, red}
use agentguard_action_proxy.Pages.Html.{escape_html, split_paragraphs}
use agentguard_action_proxy.Pages.Html.Markup.{
  picked, is_markup, markup, picked-append, picked-each_any, HasPlainNumbers, IsMarkupTest,
  picked-plain, picked-escape_html,
}
use agentguard_action_proxy.Pages.Texts.{number_text}
use agentguard_action_proxy.Pages.Parts.{
  paragraph, list_item, render_summary_text, render_detail, render_metric, status_class,
}
use Prim.Native.Char.{Char}

status_plain : (s : StandardsAlignmentStatus) → markup (status_class s) ≡ ""
unfolding status_class
status_plain green = unfold picked is_markup in refl
status_plain yellow = unfold picked is_markup in refl
status_plain red = unfold picked is_markup in refl

module _ (p : Char → Bool) (test : IsMarkupTest p) where
  pub status_any : (s : StandardsAlignmentStatus) → picked p (status_class s) ≡ ""
  status_any s = picked-plain test (status_class s) (status_plain s)

  pub plain : (js : Js) → HasPlainNumbers js → (n : ℕ) → picked p (number_text js n) ≡ ""
  plain js digits n = picked-plain test (number_text js n) (digits n)

  pub escaped : (s : String) → picked p (escape_html s) ≡ ""
  escaped s = picked-escape_html test s

  paragraph_any : (s t : String) → picked p (paragraph s) ≡ picked p (paragraph t)
  unfolding paragraph
  paragraph_any s t = simp (picked-append, escaped)

  pub item_any : (s t : String) → picked p (list_item s) ≡ picked p (list_item t)
  unfolding list_item
  item_any s t = simp (picked-append, escaped)

  detail_any :
      (c d : String)
      → (c == "") ≡ (d == "")
      → picked p (render_detail c) ≡ picked p (render_detail d)
  unfolding render_detail
  detail_any c d same = elim (Bool-cases (d == "")) [
    | inl empty ↦ rw (same, empty) refl
    | inr full ↦ rw (same, full) (paragraph_any c d)
  ]

  pub metric_any :
      (label v w c d : String)
      → (c == "") ≡ (d == "")
      → picked p (render_metric label v c) ≡ picked p (render_metric label w d)
  unfolding render_metric
  metric_any label v w c d same =
      let detail = detail_any c d same in simp (picked-append, escaped, detail)

  pub summary_any :
      (s t : String)
      → length (split_paragraphs s) ≡ length (split_paragraphs t)
      → picked p (render_summary_text s) ≡ picked p (render_summary_text t)
  unfolding render_summary_text
  summary_any s t e = picked-each_any p paragraph paragraph_any _ _ e
