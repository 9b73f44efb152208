-- ===== src/Assessment/Standards.antt =====
-- ts-agentguard/src/assessment/standards-mapping.ts: the status of a domain and its alignment.
use agentguard_action_proxy.Common.{ℕ, String, List, map, if◌then◌else◌, leb}
use agentguard_action_proxy.Assessment.Types.{
  StandardsAlignmentStatus, green, yellow, red, StandardsAlignment, DomainScore,
}
use agentguard_action_proxy.Assessment.StandardsTable.{standards_summary, standards_references}

unfoldable pub standards_status_for_score : ℕ → StandardsAlignmentStatus
standards_status_for_score score =
    if leb 90 score then green else if leb 70 score then yellow else red

abbrev standards_impact_for_status : StandardsAlignmentStatus → String
standards_impact_for_status green = "낮음"
standards_impact_for_status yellow = "중간"
standards_impact_for_status red = "높음"

unfoldable pub standards_alignment_of : DomainScore → StandardsAlignment
standards_alignment_of d = record {
  domain = d.domain;
  label = d.label;
  score = d.score;
  status = standards_status_for_score d.score;
  impact = standards_impact_for_status (standards_status_for_score d.score);
  summary = standards_summary d.domain;
  standards = standards_references d.domain;
}

unfoldable pub build_standards_alignment : List DomainScore → List StandardsAlignment
build_standards_alignment scores = map standards_alignment_of scores
