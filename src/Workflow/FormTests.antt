-- ===== src/Workflow/FormTests.antt =====
-- A report with a step and a finding, and a state.
use first_agent_dev.Prelude.{pos, ◌≡◌, true, false, some, [], ◌∷◌}
use first_agent_dev.Hooks.Types.{text, no_entries, entry}
use first_agent_dev.Workflow.Artifacts.{
  EvalVerdict, RouteDecision, StepVerdict, FlowStatus, FindingSeverity, FindingClass, FindingRoute,
  EvalReport, FlowState,
}
use first_agent_dev.Workflow.Json.{got}
use first_agent_dev.Workflow.Forms.{report_to_json, report_from_json, flow_to_json, flow_from_json}
use first_agent_dev.Workflow.RoundTrip.{
  report_from_json-report_to_json, flow_from_json-flow_to_json,
}

abbrev report : EvalReport
report = record {
  run_id = "run";
  plan_id = "plan";
  plan_version = pos 2;
  evaluation_id = "run-eval";
  verdict = EvalVerdict.repair_required;
  route_decision = RouteDecision.return_to_coder;
  summary = "one step fails";
  step_results =
      record {
        step_id = "s1";
        verdict = StepVerdict.fail;
        claimed_pass = false;
        evidence = "log";
        notes = "";
      }
      ∷ [];
  findings =
      record {
        finding_id = "f1";
        severity = FindingSeverity.major;
        finding_class = FindingClass.regression;
        blocking = true;
        route = FindingRoute.coder;
        claim = "c";
        evidence = "e";
        expected = "x";
        actual = "y";
        required_action = "fix";
        step_id = some "s1";
        location = "";
        suggested_check = "";
      }
      ∷ [];
  integration_checks = "i" ∷ [];
  regression_checks = [];
  confidence = "high";
  eval_independence = some (entry "stance" (text "adversarial") no_entries);
  unreported_slices = "s2" ∷ [];
}

abbrev flow : FlowState
flow = record {
  run_id = "run";
  task = "t";
  status = FlowStatus.coder_blocked;
  active_role = "coder";
  active_plan_id = "plan";
  active_plan_version = pos 1;
  repair_round = pos 1;
  replan_round = pos 0;
  last_actor = "eval";
  last_transition_reason = "";
  last_route_decision = "return_to_coder";
  blocked_reason = "tests";
  completed_steps = "s1" ∷ [];
  invalidated_steps = [];
  judged = false;
  plan_path = "";
}

report_from_json-report_to_json_example : report_from_json (report_to_json report) ≡ got report
report_from_json-report_to_json_example = report_from_json-report_to_json report

flow_from_json-flow_to_json_example : flow_from_json (flow_to_json flow) ≡ got flow
flow_from_json-flow_to_json_example = flow_from_json-flow_to_json flow
