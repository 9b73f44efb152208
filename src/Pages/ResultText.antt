-- ===== src/Pages/ResultText.antt =====
-- ts-agentguard/src/assessment/results.ts.
use agentguard_action_proxy.Common.{String}
use agentguard_action_proxy.Js.{Js}
use agentguard_action_proxy.Js.Json.{json_indented}
use agentguard_action_proxy.Assessment.Types.{AssessmentResult}
use agentguard_action_proxy.Pages.ResultJson.{result_value}

module _ (js : Js) where
  unfoldable format_assessment_result : AssessmentResult → String
  format_assessment_result result = json_indented {js = js} "" (result_value result)
