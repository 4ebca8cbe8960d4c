-- ===== src/Workflow/Artifacts.antt =====
-- workflow_artifacts.py: the verdict of the evaluator and the state of the controller, as they are
-- written to `eval_report.json` and `flow_state.json`.
use first_agent_dev.Prelude.{ℤ, String, Bool, Option, List}
use first_agent_dev.Hooks.Types.{Entries}

pub data EvalVerdict : Type 0 where
  pass repair_required replan_required blocked : EvalVerdict

pub data RouteDecision : Type 0 where
  complete return_to_coder return_to_planner blocked : RouteDecision

pub data StepVerdict : Type 0 where
  pass fail partial not_evaluated : StepVerdict

pub data FlowStatus : Type 0 where
  init planning plan_ready coding coder_blocked evaluating repair_required replan_required :
      FlowStatus
  delta_planning done failed : FlowStatus

pub data FindingSeverity : Type 0 where
  critical major minor info : FindingSeverity

pub data FindingClass : Type 0 where
  implementation plan environment scope regression : FindingClass

pub data FindingRoute : Type 0 where
  coder planner human : FindingRoute

pub record StepResult : Type 0 where
  pub step_id : String
  pub verdict : StepVerdict
  pub claimed_pass : Bool
  pub evidence : String
  pub notes : String

pub record EvalFinding : Type 0 where
  pub finding_id : String
  pub severity : FindingSeverity
  pub finding_class : FindingClass
  pub blocking : Bool
  pub route : FindingRoute
  pub claim : String
  pub evidence : String
  pub expected : String
  pub actual : String
  pub required_action : String
  pub step_id : Option String
  pub location : String
  pub suggested_check : String

pub record EvalReport : Type 0 where
  pub run_id : String
  pub plan_id : String
  pub plan_version : ℤ
  pub evaluation_id : String
  pub verdict : EvalVerdict
  pub route_decision : RouteDecision
  pub summary : String
  pub step_results : List StepResult
  pub findings : List EvalFinding
  pub integration_checks : List String
  pub regression_checks : List String
  pub confidence : String
  pub eval_independence : Option Entries
  pub unreported_slices : List String

pub record FlowState : Type 0 where
  pub run_id : String
  pub task : String
  pub status : FlowStatus
  pub active_role : String
  pub active_plan_id : String
  pub active_plan_version : ℤ
  pub repair_round : ℤ
  pub replan_round : ℤ
  pub last_actor : String
  pub last_transition_reason : String
  pub last_route_decision : String
  pub blocked_reason : String
  pub completed_steps : List String
  pub invalidated_steps : List String
  pub judged : Bool
  pub plan_path : String

-- The texts that verdicts and routes are.
abbrev pub verdict_text : EvalVerdict → String
verdict_text EvalVerdict.pass = "PASS"
verdict_text EvalVerdict.repair_required = "REPAIR_REQUIRED"
verdict_text EvalVerdict.replan_required = "REPLAN_REQUIRED"
verdict_text EvalVerdict.blocked = "BLOCKED"

abbrev pub route_text : RouteDecision → String
route_text RouteDecision.complete = "complete"
route_text RouteDecision.return_to_coder = "return_to_coder"
route_text RouteDecision.return_to_planner = "return_to_planner"
route_text RouteDecision.blocked = "blocked"

-- `_VERDICT_TO_ROUTE`
unfoldable pub default_route_for_verdict : EvalVerdict → RouteDecision
default_route_for_verdict EvalVerdict.pass = complete
default_route_for_verdict EvalVerdict.repair_required = return_to_coder
default_route_for_verdict EvalVerdict.replan_required = return_to_planner
default_route_for_verdict EvalVerdict.blocked = RouteDecision.blocked
