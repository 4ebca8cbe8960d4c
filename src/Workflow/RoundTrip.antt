-- ===== src/Workflow/RoundTrip.antt =====
-- workflow_artifacts.py: what is written as JSON is read back.
use first_agent_dev.Prelude.{String, ◌≡◌, refl, Option, none, some, List, [], ◌∷◌, map}
use first_agent_dev.Hooks.Types.{text, absent, Entries, get_entry}
use first_agent_dev.Workflow.Artifacts.{
  verdict_text, route_text, EvalVerdict, RouteDecision, StepVerdict, FlowStatus, FindingSeverity,
  FindingClass, FindingRoute, StepResult, EvalFinding, EvalReport, FlowState,
}
use first_agent_dev.Workflow.Json.{
  Read, got, get, truth, as_literal, all_str, all_dict, texts, dicts, read_all, step_verdict_text,
  status_text, severity_text, class_text, finding_route_text, named, eval_verdicts, route_decisions,
  step_verdicts, flow_statuses, finding_severities, finding_classes, finding_routes,
}
use first_agent_dev.Workflow.Forms.{
  optional_text, read_optional, independence_entry, read_mapping, step_to_json, step_from_json,
  finding_to_json, finding_from_json, report_to_json, report_from_json, flow_to_json,
  flow_from_json,
}

-- Every value of an enumeration is read back from its text.
module _ (field : String) where
  read-verdict_text :
      (v : EvalVerdict)
      → as_literal (named verdict_text eval_verdicts) field (text (verdict_text v)) ≡ got v
  unfolding as_literal named
  read-verdict_text EvalVerdict.pass = refl
  read-verdict_text EvalVerdict.repair_required = refl
  read-verdict_text EvalVerdict.replan_required = refl
  read-verdict_text EvalVerdict.blocked = refl

  read-route_text :
      (r : RouteDecision)
      → as_literal (named route_text route_decisions) field (text (route_text r)) ≡ got r
  unfolding as_literal named
  read-route_text RouteDecision.complete = refl
  read-route_text RouteDecision.return_to_coder = refl
  read-route_text RouteDecision.return_to_planner = refl
  read-route_text RouteDecision.blocked = refl

  read-step_verdict_text :
      (v : StepVerdict)
      → as_literal (named step_verdict_text step_verdicts) field (text (step_verdict_text v))
        ≡ got v
  unfolding as_literal named step_verdict_text
  read-step_verdict_text StepVerdict.pass = refl
  read-step_verdict_text StepVerdict.fail = refl
  read-step_verdict_text StepVerdict.partial = refl
  read-step_verdict_text StepVerdict.not_evaluated = refl

  read-status_text :
      (s : FlowStatus)
      → as_literal (named status_text flow_statuses) field (text (status_text s)) ≡ got s
  unfolding as_literal named status_text
  read-status_text FlowStatus.init = refl
  read-status_text FlowStatus.planning = refl
  read-status_text FlowStatus.plan_ready = refl
  read-status_text FlowStatus.coding = refl
  read-status_text FlowStatus.coder_blocked = refl
  read-status_text FlowStatus.evaluating = refl
  read-status_text FlowStatus.repair_required = refl
  read-status_text FlowStatus.replan_required = refl
  read-status_text FlowStatus.delta_planning = refl
  read-status_text FlowStatus.done = refl
  read-status_text FlowStatus.failed = refl

  read-severity_text :
      (s : FindingSeverity)
      → as_literal (named severity_text finding_severities) field (text (severity_text s)) ≡ got s
  unfolding as_literal named severity_text
  read-severity_text FindingSeverity.critical = refl
  read-severity_text FindingSeverity.major = refl
  read-severity_text FindingSeverity.minor = refl
  read-severity_text FindingSeverity.info = refl

  read-class_text :
      (c : FindingClass)
      → as_literal (named class_text finding_classes) field (text (class_text c)) ≡ got c
  unfolding as_literal named class_text
  read-class_text FindingClass.implementation = refl
  read-class_text FindingClass.plan = refl
  read-class_text FindingClass.environment = refl
  read-class_text FindingClass.scope = refl
  read-class_text FindingClass.regression = refl

  read-finding_route_text :
      (r : FindingRoute)
      → as_literal (named finding_route_text finding_routes) field (text (finding_route_text r))
        ≡ got r
  unfolding as_literal named finding_route_text
  read-finding_route_text FindingRoute.coder = refl
  read-finding_route_text FindingRoute.planner = refl
  read-finding_route_text FindingRoute.human = refl

-- and lists are, if their items are
all_str-texts : (ts : List String) → all_str (texts ts) ≡ got ts
unfolding all_str texts
all_str-texts [] = refl
all_str-texts (t ∷ ts) = rw (all_str-texts ts) refl

all_dict-dicts : (ds : List Entries) → all_dict (dicts ds) ≡ got ds
unfolding all_dict dicts
all_dict-dicts [] = refl
all_dict-dicts (d ∷ ds) = rw (all_dict-dicts ds) refl

read_all-map :
    {A : Type 0} (read : Entries → Read A) (write : A → Entries)
    → ((a : A) → read (write a) ≡ got a)
    → (xs : List A) → read_all read (map write xs) ≡ got xs
unfolding read_all
read_all-map read write h [] = refl
read_all-map read write h (x ∷ xs) = rw (h x, read_all-map read write h xs) refl

read_optional-optional_text : (o : Option String) → read_optional (optional_text o) ≡ got o
read_optional-optional_text none = refl
read_optional-optional_text (some t) = refl

read_mapping-independence_entry :
    (o : Option Entries) → read_mapping (get (independence_entry o) "eval_independence" absent) ≡ o
unfolding get_entry
read_mapping-independence_entry none = refl
read_mapping-independence_entry (some m) = refl

step_from_json-step_to_json : (s : StepResult) → step_from_json (step_to_json s) ≡ got s
unfolding step_from_json step_to_json get_entry truth
step_from_json-step_to_json s = rw (read-step_verdict_text "verdict" s.verdict) refl

finding_from_json-finding_to_json :
    (f : EvalFinding) → finding_from_json (finding_to_json f) ≡ got f
unfolding finding_from_json finding_to_json get_entry truth
finding_from_json-finding_to_json f =
    rw
      (
        read-severity_text "severity" f.severity,
        read-class_text "class" f.finding_class,
        read-finding_route_text "route" f.route,
        read_optional-optional_text f.step_id,
      )
      refl

-- The state of the controller is read back from the JSON form that is written of it.
pub flow_from_json-flow_to_json : (f : FlowState) → flow_from_json (flow_to_json f) ≡ got f
unfolding flow_from_json flow_to_json get_entry truth
flow_from_json-flow_to_json f =
    rw
      (
        read-status_text "status" f.status,
        all_str-texts f.completed_steps,
        all_str-texts f.invalidated_steps,
      )
      refl

-- A report of the evaluator, with its steps and findings, is read back from the JSON form that is
-- written of it.
pub report_from_json-report_to_json : (r : EvalReport) → report_from_json (report_to_json r) ≡ got r
unfolding report_from_json report_to_json get_entry
report_from_json-report_to_json r =
    rw
      (
        read-verdict_text "verdict" r.verdict,
        read-route_text "route_decision" r.route_decision,
        all_dict-dicts (map step_to_json r.step_results),
        read_all-map step_from_json step_to_json step_from_json-step_to_json r.step_results,
        all_str-texts r.unreported_slices,
        all_dict-dicts (map finding_to_json r.findings),
        read_all-map finding_from_json finding_to_json finding_from_json-finding_to_json r.findings,
        all_str-texts r.integration_checks,
        all_str-texts r.regression_checks,
        read_mapping-independence_entry r.eval_independence,
      )
      refl
