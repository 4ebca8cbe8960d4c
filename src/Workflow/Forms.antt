-- ===== src/Workflow/Forms.antt =====
-- workflow_artifacts.py: `to_json_dict` and `from_json_dict` of the four artifacts.
use first_agent_dev.Prelude.{pos, String, true, Option, none, some, map}
use first_agent_dev.Hooks.Types.{
  Object, text, flag, number, absent, mapping, listing, Entries, no_entries, entry, no_objects,
  get_entry,
}
use first_agent_dev.Workflow.Artifacts.{
  verdict_text, route_text, StepResult, EvalFinding, EvalReport, FlowState,
}
use first_agent_dev.Workflow.Json.{
  Read, got, ◌>>=◌, truth, as_str, as_int, as_literal, as_str_tuple, as_dict_list, at, get, texts,
  dicts, read_all, step_verdict_text, status_text, severity_text, class_text, finding_route_text,
  named, eval_verdicts, route_decisions, step_verdicts, flow_statuses, finding_severities,
  finding_classes, finding_routes,
}

-- `asdict(step)`
unfoldable pub step_to_json : StepResult → Entries
unfolding step_verdict_text
step_to_json s = entry "step_id" (text s.step_id) (
    entry "verdict" (text (step_verdict_text s.verdict)) (
      entry "claimed_pass" (flag s.claimed_pass)
        (entry "evidence" (text s.evidence) (entry "notes" (text s.notes) no_entries))))

unfoldable pub step_from_json : Entries → Read StepResult
unfolding get_entry as_literal named truth
step_from_json d = do
  step_id ← at d "step_id" >>= as_str
  verdict ← at d "verdict" >>= as_literal (named step_verdict_text step_verdicts) "verdict"
  claimed_pass ← at d "claimed_pass"
  evidence ← at d "evidence" >>= as_str
  notes ← as_str (get d "notes" (text ""))
  got (record {
    step_id = step_id;
    verdict = verdict;
    claimed_pass = truth claimed_pass;
    evidence = evidence;
    notes = notes;
  })

-- `asdict`, with `class` for `finding_class` at the end
abbrev pub optional_text : Option String → Object
optional_text none = absent
optional_text (some t) = text t

unfoldable pub finding_to_json : EvalFinding → Entries
unfolding severity_text class_text finding_route_text
finding_to_json f = entry "finding_id" (text f.finding_id) (
    entry "severity" (text (severity_text f.severity)) (
      entry "blocking" (flag f.blocking) (
        entry "route" (text (finding_route_text f.route)) (
          entry "claim" (text f.claim) (
            entry "evidence" (text f.evidence) (
              entry "expected" (text f.expected) (
                entry "actual" (text f.actual) (
                  entry "required_action" (text f.required_action) (
                    entry "step_id" (optional_text f.step_id) (
                      entry "location" (text f.location) (
                        entry "suggested_check" (text f.suggested_check)
                          (entry "class" (text (class_text f.finding_class)) no_entries))))))))))))

-- `None if step_id is None else _as_str(step_id)`
abbrev pub read_optional : Object → Read (Option String)
read_optional absent = got none
read_optional o = as_str o >>= λ t. got (some t)

unfoldable pub finding_from_json : Entries → Read EvalFinding
unfolding get_entry as_literal named truth
finding_from_json d = do
  finding_id ← at d "finding_id" >>= as_str
  severity ← at d "severity" >>= as_literal (named severity_text finding_severities) "severity"
  finding_class ← at d "class" >>= as_literal (named class_text finding_classes) "class"
  blocking ← at d "blocking"
  route ← at d "route" >>= as_literal (named finding_route_text finding_routes) "route"
  claim ← at d "claim" >>= as_str
  evidence ← at d "evidence" >>= as_str
  expected ← at d "expected" >>= as_str
  actual ← at d "actual" >>= as_str
  required_action ← at d "required_action" >>= as_str
  step_id ← read_optional (get d "step_id" absent)
  location ← as_str (get d "location" (text ""))
  suggested_check ← as_str (get d "suggested_check" (text ""))
  got (record {
    finding_id = finding_id;
    severity = severity;
    finding_class = finding_class;
    blocking = truth blocking;
    route = route;
    claim = claim;
    evidence = evidence;
    expected = expected;
    actual = actual;
    required_action = required_action;
    step_id = step_id;
    location = location;
    suggested_check = suggested_check;
  })

-- the key that is there only for a report that has it
abbrev pub independence_entry : Option Entries → Entries
independence_entry none = no_entries
independence_entry (some m) = entry "eval_independence" (mapping m) no_entries

unfoldable pub report_to_json : EvalReport → Entries
unfolding texts dicts step_to_json finding_to_json
report_to_json r = entry "run_id" (text r.run_id) (
    entry "plan_id" (text r.plan_id) (
      entry "plan_version" (number r.plan_version) (
        entry "evaluation_id" (text r.evaluation_id) (
          entry "verdict" (text (verdict_text r.verdict)) (
            entry "route_decision" (text (route_text r.route_decision)) (
              entry "summary" (text r.summary) (
                entry "step_results" (listing (dicts (map step_to_json r.step_results))) (
                  entry "unreported_slices" (listing (texts r.unreported_slices)) (
                    entry "findings" (listing (dicts (map finding_to_json r.findings))) (
                      entry "integration_checks" (listing (texts r.integration_checks)) (
                        entry "regression_checks" (listing (texts r.regression_checks)) (
                          entry "confidence" (text r.confidence)
                            (independence_entry r.eval_independence)))))))))))))

-- `dict(item) if isinstance(item, Mapping) else None`
abbrev pub read_mapping : Object → Option Entries
read_mapping (mapping m) = some m
read_mapping _ = none

unfoldable pub report_from_json : Entries → Read EvalReport
unfolding get_entry as_literal named read_all step_from_json finding_from_json
report_from_json d = do
  run_id ← at d "run_id" >>= as_str
  plan_id ← at d "plan_id" >>= as_str
  plan_version ← at d "plan_version" >>= as_int
  evaluation_id ← at d "evaluation_id" >>= as_str
  verdict ← at d "verdict" >>= as_literal (named verdict_text eval_verdicts) "verdict"
  route ← at d "route_decision" >>= as_literal (named route_text route_decisions) "route_decision"
  summary ← at d "summary" >>= as_str
  step_results ←
      as_dict_list (get d "step_results" (listing no_objects)) >>= read_all step_from_json
  unreported ← as_str_tuple (get d "unreported_slices" (listing no_objects))
  findings ← as_dict_list (get d "findings" (listing no_objects)) >>= read_all finding_from_json
  integration_checks ← as_str_tuple (get d "integration_checks" (listing no_objects))
  regression_checks ← as_str_tuple (get d "regression_checks" (listing no_objects))
  confidence ← as_str (get d "confidence" (text ""))
  got (record {
    run_id = run_id;
    plan_id = plan_id;
    plan_version = plan_version;
    evaluation_id = evaluation_id;
    verdict = verdict;
    route_decision = route;
    summary = summary;
    step_results = step_results;
    findings = findings;
    integration_checks = integration_checks;
    regression_checks = regression_checks;
    confidence = confidence;
    eval_independence = read_mapping (get d "eval_independence" absent);
    unreported_slices = unreported;
  })

unfoldable pub flow_to_json : FlowState → Entries
unfolding status_text texts
flow_to_json f = entry "run_id" (text f.run_id) (
    entry "task" (text f.task) (
      entry "status" (text (status_text f.status)) (
        entry "active_role" (text f.active_role) (
          entry "active_plan_id" (text f.active_plan_id) (
            entry "active_plan_version" (number f.active_plan_version) (
              entry "repair_round" (number f.repair_round) (
                entry "replan_round" (number f.replan_round) (
                  entry "last_actor" (text f.last_actor) (
                    entry "last_transition_reason" (text f.last_transition_reason) (
                      entry "last_route_decision" (text f.last_route_decision) (
                        entry "blocked_reason" (text f.blocked_reason) (
                          entry "judged" (flag f.judged) (
                            entry "plan_path" (text f.plan_path) (
                              entry "completed_steps" (listing (texts f.completed_steps)) (
                                entry "invalidated_steps" (listing (texts f.invalidated_steps))
                                  no_entries)))))))))))))))

unfoldable pub flow_from_json : Entries → Read FlowState
unfolding get_entry as_literal named truth
flow_from_json d = do
  run_id ← at d "run_id" >>= as_str
  task ← at d "task" >>= as_str
  status ← at d "status" >>= as_literal (named status_text flow_statuses) "status"
  active_role ← at d "active_role" >>= as_str
  active_plan_id ← at d "active_plan_id" >>= as_str
  active_plan_version ← at d "active_plan_version" >>= as_int
  repair_round ← as_int (get d "repair_round" (number (pos 0)))
  replan_round ← as_int (get d "replan_round" (number (pos 0)))
  last_actor ← as_str (get d "last_actor" (text ""))
  last_transition_reason ← as_str (get d "last_transition_reason" (text ""))
  last_route_decision ← as_str (get d "last_route_decision" (text ""))
  blocked_reason ← as_str (get d "blocked_reason" (text ""))
  completed_steps ← as_str_tuple (get d "completed_steps" (listing no_objects))
  invalidated_steps ← as_str_tuple (get d "invalidated_steps" (listing no_objects))
  plan_path ← as_str (get d "plan_path" (text ""))
  got (record {
    run_id = run_id;
    task = task;
    status = status;
    active_role = active_role;
    active_plan_id = active_plan_id;
    active_plan_version = active_plan_version;
    repair_round = repair_round;
    replan_round = replan_round;
    last_actor = last_actor;
    last_transition_reason = last_transition_reason;
    last_route_decision = last_route_decision;
    blocked_reason = blocked_reason;
    completed_steps = completed_steps;
    invalidated_steps = invalidated_steps;
    judged = truth (get d "judged" (flag true));
    plan_path = plan_path;
  })
