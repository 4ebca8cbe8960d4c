-- ===== src/Workflow/ReportTests.antt =====
-- Reports at small inputs.
use first_agent_dev.Prelude.{pos, String, ◌≡◌, ◌≢◌, refl, false, none, some, [], ◌∷◌}
use first_agent_dev.Workflow.Artifacts.{
  EvalVerdict, RouteDecision, StepVerdict, StepResult, EvalReport, default_route_for_verdict,
}
use first_agent_dev.Workflow.Parse.{
  match_verdict_token, parse_eval_report, parse_with, scan_verdict, scan, under_header, first_token,
  last_token, verdict_of, scan_route, match_route_token, scan_step_results, first_summary_line,
}
use first_agent_dev.Workflow.Slices.{validate_slice_ids}
use first_agent_dev.Workflow.Evidence.{HasToken, parse_eval_report-HasToken}
use first_agent_dev.Workflow.Verdict.{HasNoFailure, validate_slice_ids-HasNoFailure}
use first_agent_dev.Workflow.Coverage.{Covers, validate_slice_ids-Covers}
use first_agent_dev.Workflow.Tests.{patterns}

abbrev failed_step : StepResult
failed_step = record {
  step_id = "s1";
  verdict = StepVerdict.fail;
  claimed_pass = false;
  evidence = "";
  notes = "";
}

-- a PASS with a failed slice
abbrev report : EvalReport
report = record {
  run_id = "run";
  plan_id = "plan";
  plan_version = pos 1;
  evaluation_id = "eval-1";
  verdict = EvalVerdict.pass;
  route_decision = RouteDecision.complete;
  summary = "";
  step_results = failed_step ∷ [];
  findings = [];
  integration_checks = [];
  regression_checks = [];
  confidence = "";
  eval_independence = none;
  unreported_slices = [];
}

abbrev same : String → String
same s = s

validate_slice_ids-HasNoFailure_example :
    HasNoFailure (validate_slice_ids same report (some ("s1" ∷ "s2" ∷ []))).0
validate_slice_ids-HasNoFailure_example =
    validate_slice_ids-HasNoFailure same report (some ("s1" ∷ "s2" ∷ []))

validate_slice_ids-Covers_example :
    Covers same
      ("s1" ∷ "s2" ∷ [])
      report.step_results
      (validate_slice_ids same report (some ("s1" ∷ "s2" ∷ []))).0
validate_slice_ids-Covers_example = validate_slice_ids-Covers same report "s1" ("s2" ∷ [])

repair_lem :
    (parse_eval_report patterns "run" "plan" "eval-1" 1 none "REPAIR_REQUIRED").verdict
    ≡ EvalVerdict.repair_required
unfolding parse_eval_report parse_with scan_verdict scan under_header first_token last_token
    match_verdict_token verdict_of scan_route match_route_token scan_step_results first_summary_line
    default_route_for_verdict
repair_lem = refl

not_blocked : EvalVerdict.repair_required ≢ EvalVerdict.blocked
not_blocked h = cc

parse_eval_report-HasToken_example :
    HasToken (match_verdict_token patterns) EvalVerdict.repair_required ("REPAIR_REQUIRED" ∷ [])
parse_eval_report-HasToken_example =
    parse_eval_report-HasToken patterns "run" "plan" "eval-1" 1 none "REPAIR_REQUIRED" repair_lem
      not_blocked
