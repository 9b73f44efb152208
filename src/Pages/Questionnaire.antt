-- ===== src/Pages/Questionnaire.antt =====
-- ts-agentguard/src/assessment/pages/questionnaire.ts: the form with the questions.
pub mod Document
use agentguard_action_proxy.Common.{ℕ, suc, String, List, [], ◌∷◌, concat}
use agentguard_action_proxy.Js.{Js}
use agentguard_action_proxy.Assessment.Types.{Question}
use agentguard_action_proxy.Assessment.Questions.{domain_label}
use agentguard_action_proxy.Pages.Html.{escape_html, each}
use agentguard_action_proxy.Pages.Texts.{number_text}

pub record AnswerOption : Type 0 where
  pub value : ℕ
  pub label : String

abbrev option : ℕ → String → AnswerOption
option value label = record { value = value; label = label }

abbrev answer_options : List AnswerOption
answer_options = option 4 "YES" ∷ option 2 "PARTIALLY" ∷ option 1 "NOT SURE" ∷ option 0 "NO" ∷ []

module _ (js : Js) where
  unfoldable pub render_option : Question → AnswerOption → String
  render_option question option = concat (
      "<label class=\"answer-option\">\n"
      ∷ "        <input type=\"radio\" name=\""
      ∷ escape_html question.id
      ∷ "\" value=\""
      ∷ number_text js option.value
      ∷ "\" />\n"
      ∷ "        <span>"
      ∷ escape_html option.label
      ∷ "</span>\n"
      ∷ "      </label>"
      ∷ [])

  unfoldable pub render_question : ℕ → Question → String
  render_question index question = concat (
      "<fieldset class=\"question-card\">\n"
      ∷ "    <legend><span class=\"domain\">["
      ∷ escape_html (domain_label question.domain)
      ∷ "]</span><span class=\"question-number\">"
      ∷ escape_html question.display_id
      ∷ " · Question "
      ∷ number_text js (suc index)
      ∷ "</span></legend>\n"
      ∷ "    <p class=\"question-title\">"
      ∷ escape_html question.title
      ∷ "</p>\n"
      ∷ "    <div class=\"answers\" role=\"radiogroup\" aria-label=\""
      ∷ escape_html question.title
      ∷ "\">\n"
      ∷ "      "
      ∷ each (render_option question) answer_options
      ∷ "\n"
      ∷ "    </div>\n"
      ∷ "  </fieldset>"
      ∷ [])
