-- ===== src/Workflow/Stage.antt =====
-- workflow_controller.py: `_run_stage`, with the deadline and the artifacts that a stage writes.
use first_agent_dev.Prelude.{
  pos, ℕ, ◌-◌, String, Bool, true, false, not, ◌&&◌, Option, none, some, List, [], ◌∷◌, ◌++◌,
  concat, show, leb, ◌==◌, if◌then◌else◌,
}
use first_agent_dev.Workflow.Artifacts.{route_text, EvalVerdict, EvalReport, FlowState, FlowStatus}
use first_agent_dev.Workflow.Parse.{parse_eval_report}
use first_agent_dev.Workflow.Slices.{validate_slice_ids}
use first_agent_dev.Workflow.Controller.{
  Role, role_text, Context, Progress, StageArgs, StageOutcome, StageResult, Env, State,
  deadline_exit_code, deadline_marker, status_for_role, terminal_status,
  terminal_status_without_eval, task_for, text_or, text_unless_empty, with_evidence,
}

abbrev pub is_eval : Role → Bool
is_eval Role.eval = true
is_eval _ = false

-- `xs[-1]`, where there is one
abbrev pub last_of : List String → Option String
last_of [] = none
last_of (x ∷ []) = some x
last_of (x ∷ y ∷ r) = last_of (y ∷ r)

-- `write_flow_state` replaces the artifact.
abbrev pub write_flow_state : {W : Type 0} → FlowState → State W → State W
write_flow_state f s = record s { flow_state = some f }

module _ (ctx : Context) where
  -- the fields that every FlowState of a run shares
  abbrev pub flow :
      (status : FlowStatus) (role : String) (p : Progress) (actor reason route blocked : String)
      (judged : Bool) (plan_path : String)
      → FlowState
  flow status role p actor reason route blocked judged plan_path = record {
    run_id = ctx.run_id;
    task = text_or ctx.base_task "";
    status = status;
    active_role = role;
    active_plan_id = ctx.run_id;
    active_plan_version = pos p.plan_version;
    repair_round = pos p.repair_round;
    replan_round = pos p.replan_round;
    last_actor = actor;
    last_transition_reason = reason;
    last_route_decision = route;
    blocked_reason = blocked;
    completed_steps = [];
    invalidated_steps = [];
    judged = judged;
    plan_path = plan_path;
  }

  unfoldable pub stage_failure_state : Role → ℕ → Progress → FlowState
  stage_failure_state role code p =
      flow FlowStatus.failed (role_text role) p (role_text role)
        (concat ("stage exited " ∷ show code ∷ [])) ""
        (concat ("stage '" ∷ role_text role ∷ "' exited " ∷ show code ∷ [])) true ""

  -- The deadline's own state says more, and is left as it is.
  unfoldable pub write_stage_failure_state : {W : Type 0} → Role → ℕ → Progress → State W → State W
  unfolding stage_failure_state
  write_stage_failure_state role code p s =
      if code == deadline_exit_code then s else write_flow_state (stage_failure_state role code p) s

  unfoldable pub terminal_state : Role → Option EvalReport → Progress → String → Bool → FlowState
  unfolding terminal_status terminal_status_without_eval
  terminal_state role none p reason eval_requested =
      let (status, blocked) = terminal_status_without_eval eval_requested in
      flow status (role_text role) p (role_text role) reason "" blocked false
        (text_or ctx.plan_path "")
  terminal_state role (some r) p reason eval_requested =
      flow (terminal_status r.verdict) (role_text role) p (role_text role) reason
        (route_text r.route_decision) (elim r.verdict [ EvalVerdict.blocked ↦ r.summary | _ ↦ "" ])
        true (text_or ctx.plan_path "")

module _ {W : Type 0} (env : Env W) (ctx : Context) where
  -- `ctx.plan_text()`
  unfoldable pub plan_text : W → Option String
  plan_text w = elim ctx.plan_path [ none ↦ none | some p ↦ env.read_text p w ]

  unfoldable pub plan_identity : W → String
  unfolding plan_text
  plan_identity w = elim (plan_text w) [
    | none ↦ ctx.run_id
    | some t ↦ text_unless_empty (env.extract_plan_id t) ctx.run_id
  ]

  abbrev pub slices_of : Option String → Option (List String)
  slices_of none = none
  slices_of (some t) = some (env.extract_slices t)

  -- `_deadline_exceeded`: the clock is read only where there is a deadline.
  unfoldable pub deadline_exceeded : State W → Bool × State W
  deadline_exceeded s = elim ctx.deadline_mono [
    | none ↦ (false, s)
    | some d ↦ let (now, w) = env.monotonic s.world in (leb d now, record s { world = w })
  ]

  -- `_write_deadline_state`; the text has the seconds past the deadline.
  unfoldable pub write_deadline_state : Role → Progress → State W → State W
  write_deadline_state role p s = elim ctx.deadline_mono [
    | none ↦ s
    | some d ↦
        let (now, w) = env.monotonic s.world in
        write_flow_state
          (flow ctx FlowStatus.failed (role_text role) p "workflow"
            (concat (deadline_marker ∷ " after " ∷ show (now - d) ∷ "s past deadline" ∷ [])) ""
            (concat (deadline_marker ∷ "; stage '" ∷ role_text role ∷ "' was not dispatched" ∷ []))
            true "")
          (record s { world = w })
  ]

  unfoldable pub stage_args : Role → Bool → W → StageArgs
  unfolding task_for
  stage_args role fresh w = record {
    role = role;
    task =
        if is_eval role
        then with_evidence (task_for ctx role) (env.evidence_block w)
        else task_for ctx role;
    resume = not fresh;
  }

  -- the report of an eval stage: built, adjusted to the plan, and then written once
  unfoldable pub build_report : String → Progress → W → EvalReport
  build_report final_text p w =
      (validate_slice_ids env.canonical_slice_id
        (parse_eval_report env.patterns ctx.run_id (plan_identity w)
          (concat (ctx.run_id ∷ "-eval" ∷ [])) p.plan_version (env.eval_independence w) final_text)
        (slices_of (plan_text w))).0

  unfoldable pub judge : Role → Progress → StageOutcome → State W → Option EvalReport × State W
  judge role p out s =
      if is_eval role && out.code == 0
      then (elim (last_of out.sink) [
        | none ↦ (none, s)
        | some t ↦ let r = build_report t p s.world in (some r, record s { eval_report = some r })
      ])
      else (none, s)

  -- the dispatch of a stage once the deadline has been checked
  unfoldable pub dispatch_stage : Role → Bool → Progress → String → State W → StageResult × State W
  dispatch_stage role fresh p reason s =
      let before =
        write_flow_state
          (flow ctx (status_for_role role) (role_text role) p "workflow" reason "" "" true "") s in
      let args = stage_args role fresh before.world in
      let (out, w) = env.run_stage_fn args before.world in
      let ran = record before { world = w; calls = before.calls ++ args ∷ [] } in
      let (report, after) = judge role p out ran in
      (record { role = role; exit_code = out.code; eval_report = report }, after)

  unfoldable pub run_stage : Role → Bool → Progress → String → State W → StageResult × State W
  run_stage role fresh p reason s =
      let (late, s') = deadline_exceeded s in
      if late
      then (
        record { role = role; exit_code = deadline_exit_code; eval_report = none },
        write_deadline_state role p s',
      )
      else dispatch_stage role fresh p reason s'
