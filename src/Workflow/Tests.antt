-- ===== src/Workflow/Tests.antt =====
-- Runs of the controller on small environments.
use first_agent_dev.Prelude.{
  ℕ, ◌+◌, ◌≤◌, String, ◌≡◌, refl, Bool, true, false, Option, none, some, List, [], ◌∷◌,
}
use first_agent_dev.Workflow.Artifacts.{FlowState, FlowStatus, default_route_for_verdict}
use first_agent_dev.Workflow.Parse.{
  Patterns, parse_eval_report, parse_with, scan_verdict, scan, under_header, first_token,
  last_token, match_verdict_token, verdict_of, scan_route, match_route_token, scan_step_results,
  first_summary_line,
}
use first_agent_dev.Workflow.Controller.{
  Role, planner, coder, eval, Context, start, Env, State, status_for_role, task_for,
  terminal_status, terminal_status_without_eval,
}
use first_agent_dev.Workflow.Stage.{
  is_eval, flow, terminal_state, write_stage_failure_state, stage_failure_state, run_stage,
  deadline_exceeded, write_deadline_state, dispatch_stage, stage_args, judge, build_report,
  plan_text, plan_identity,
}
use first_agent_dev.Workflow.Slices.{validate_slice_ids, route_failures, cross_check}
use first_agent_dev.Workflow.Routes.{next_move, canonical_loop_roles}
use first_agent_dev.Workflow.Modes.{
  Done, rounds, run_linear, run_adaptive, adaptive_loop, stop, finish_unjudged, unjudged_reason,
  run_initial_roles, run_stages,
}
use first_agent_dev.Workflow.Run.{
  linear, Outcome, initialized, run_mode, outcome, run_workflow, workflow_exit_code,
  read_back_terminal_state,
}
use first_agent_dev.Workflow.Budget.{run_adaptive-total}
use first_agent_dev.Workflow.Calls.{calls_of, run_adaptive-calls}
use first_agent_dev.Workflow.Exit.{Accepted, exit_zero-Accepted}

-- one line, which is the token
abbrev pub patterns : Patterns
patterns = record {
  splitlines = λ s. s ∷ [];
  verdict_header = λ s. false;
  route_header = λ s. false;
  verdict_line = λ s. some s;
  route_line = λ s. none;
  step_line = λ s. none;
  summary_line = λ s. none;
}

abbrev sink_of : Bool → String → List String
sink_of true s = s ∷ []
sink_of false s = []

-- Every eval stage says `verdict`; the world counts the stages.
abbrev pub env : String → Env ℕ
env verdict = record {
  monotonic = λ w. (w, w + 1);
  run_stage_fn = λ a w. (record { code = 0; sink = sink_of (is_eval a.role) verdict }, w + 1);
  read_text = λ s w. none;
  evidence_block = λ w. "";
  eval_independence = λ w. none;
  readable = λ w. true;
  extract_plan_id = λ s. none;
  extract_slices = λ s. [];
  canonical_slice_id = λ s. s;
  patterns = patterns;
}

abbrev pub ctx : Context
ctx = record {
  run_id = "run";
  base_task = some "task";
  per_role_task = λ r. none;
  deadline_mono = none;
  plan_path = none;
}

abbrev pub roles : List Role
roles = planner ∷ coder ∷ eval ∷ []

abbrev begun : State ℕ
begun = initialized (env "PASS") ctx linear planner 0

abbrev passed : Outcome ℕ
passed = outcome (env "PASS") ctx (run_linear (env "PASS") ctx roles begun)

passed_lem : run_workflow (env "PASS") ctx linear planner (coder ∷ eval ∷ []) 2 1 0 ≡ some passed
unfolding run_workflow run_mode
passed_lem = refl

abbrev the : Option FlowState → FlowState
the none = flow ctx FlowStatus.init "" start "" "" "" "" false ""
the (some f) = f

-- To unfold this is to unfold the controller.
unfoldable pub controller : Unit {0}
unfolding run_workflow run_mode outcome read_back_terminal_state workflow_exit_code run_linear
    run_adaptive adaptive_loop next_move canonical_loop_roles stop finish_unjudged unjudged_reason
    run_initial_roles run_stages write_stage_failure_state stage_failure_state terminal_state
    run_stage deadline_exceeded write_deadline_state dispatch_stage stage_args status_for_role
    task_for judge build_report plan_text plan_identity terminal_status terminal_status_without_eval
    validate_slice_ids route_failures cross_check parse_eval_report parse_with scan_verdict scan
    under_header first_token last_token match_verdict_token verdict_of scan_route match_route_token
    scan_step_results first_summary_line default_route_for_verdict initialized
controller = tt

passed_terminal : passed.terminal ≡ some (the passed.terminal)
unfolding controller
passed_terminal = refl

passed_exit : passed.exit_code ≡ 0
unfolding controller
passed_exit = refl

exit_zero-Accepted_example :
    Accepted (planner ∷ coder ∷ eval ∷ []) passed.state (the passed.terminal)
exit_zero-Accepted_example =
    exit_zero-Accepted (env "PASS") ctx linear planner (coder ∷ eval ∷ []) 2 1 0 passed_lem
      passed_terminal passed_exit

run_adaptive-total_example :
    (d : Done ℕ) × (run_adaptive (env "REPAIR_REQUIRED") ctx (rounds 2 1) roles 2 1 begun ≡ some d)
run_adaptive-total_example = run_adaptive-total (env "REPAIR_REQUIRED") ctx roles 2 1 begun

-- A judge that always asks for a repair uses up the budget: three stages, and two for each repair.
repairing : calls_of (run_adaptive (env "REPAIR_REQUIRED") ctx (rounds 2 1) roles 2 1 begun) ≡ 7
unfolding controller
repairing = refl

replanning : calls_of (run_adaptive (env "REPLAN_REQUIRED") ctx (rounds 2 1) roles 2 1 begun) ≡ 6
unfolding controller
replanning = refl

run_adaptive-calls_example :
    calls_of (run_adaptive (env "REPAIR_REQUIRED") ctx (rounds 2 1) roles 2 1 begun) ≤ 0 + 3 + 4 + 3
unfolding initialized
run_adaptive-calls_example =
    run_adaptive-calls (env "REPAIR_REQUIRED") ctx roles 2 1 (rounds 2 1) begun
