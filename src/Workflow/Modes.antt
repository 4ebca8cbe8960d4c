-- ===== src/Workflow/Modes.antt =====
-- workflow_controller.py: the linear and the adaptive pipeline. The banners and summaries on stderr
-- are left out.
use first_agent_dev.Prelude.{
  ℕ, zero, suc, ◌+◌, String, Bool, true, false, Option, none, some, List, [], ◌∷◌, concat, ◌==◌,
  length, if◌then◌else◌,
}
use first_agent_dev.Workflow.Artifacts.{verdict_text, EvalReport}
use first_agent_dev.Workflow.Controller.{Role, has, Context, Progress, start, Env, State}
use first_agent_dev.Workflow.Stage.{
  write_flow_state, write_stage_failure_state, terminal_state, run_stage,
}
use first_agent_dev.Workflow.Routes.{
  canonical_loop_roles, last_role, newer, dispatching, halt, again, next_move,
}

-- What a run of stages leaves: the first non-zero exit code, or 0, and the latest report.
pub record Ran (W : Type 0) : Type 0 where
  pub code : ℕ
  pub report : Option EvalReport
  pub state : State W

-- What a pipeline leaves.
pub record Done (W : Type 0) : Type 0 where
  pub code : ℕ
  pub state : State W

-- Each round spends a repair or a replan, so this is fuel enough.
abbrev pub rounds : ℕ → ℕ → ℕ
rounds max_repairs max_replans = suc (max_repairs + max_replans)

abbrev pub latest : Option EvalReport → EvalReport → EvalReport
latest none r = r
latest (some q) r = q

unfoldable pub unjudged_reason : String → List Role → String
unjudged_reason without roles =
    if has Role.eval roles then "eval stage ran but produced no verdict" else without

module _ {W : Type 0} (env : Env W) (ctx : Context) where
  -- the loop over stages that the three pipelines share, fail-fast; `fresh` is for the first stage,
  -- and `reason` gives each stage's text
  unfoldable pub run_stages :
      List Role → ℕ → Bool → Progress → (ℕ → Role → String) → Option EvalReport → State W → Ran W
  run_stages [] i fresh p reason report s = record { code = 0; report = report; state = s }
  run_stages (role ∷ rest) i fresh p reason report s =
      let (result, s') = run_stage env ctx role fresh p (reason i role) s in
      let onward = run_stages rest (i + 1) false p reason (newer result.eval_report report) s' in
      if result.exit_code == 0 then onward else record {
        code = result.exit_code;
        report = report;
        state = write_stage_failure_state ctx role result.exit_code p s';
      }

  unfoldable pub run_initial_roles : List Role → State W → Ran W
  run_initial_roles roles s = run_stages roles 0 true start (dispatching (length roles)) none s

  -- a terminal branch after a verdict: the state is written, and the controller finishes with 0
  unfoldable pub stop : EvalReport → Progress → String → State W → Done W
  stop r p reason s = record {
    code = 0;
    state = write_flow_state (terminal_state ctx Role.eval (some r) p reason false) s;
  }

  -- the `while True` of `_run_adaptive`; `none` means that the fuel ran out
  unfoldable pub adaptive_loop :
      ℕ → List Role → ℕ → ℕ → EvalReport → Progress → State W → Option (Done W)
  adaptive_loop zero roles max_repairs max_replans r p s = none
  adaptive_loop (suc f) roles max_repairs max_replans r p s =
      elim (next_move roles max_repairs max_replans r p) [
        | halt reason ↦ some (stop r p reason s)
        | again with_planner p' reason ↦
            let ran =
              run_stages (canonical_loop_roles roles with_planner) 0 false p' reason (some r) s in
            elim (ran.code == 0) [
              | false ↦ some (record { code = ran.code; state = ran.state })
              | true ↦
                  adaptive_loop f roles max_repairs max_replans (latest ran.report r) p' ran.state
            ]
      ]

  unfoldable pub finish_unjudged : String → List Role → State W → Done W
  finish_unjudged without roles s = record {
    code = 0;
    state =
        write_flow_state
          (terminal_state ctx (last_role roles) none start (unjudged_reason without roles)
            (has Role.eval roles))
          s;
  }

  unfoldable pub run_adaptive : ℕ → List Role → ℕ → ℕ → State W → Option (Done W)
  run_adaptive fuel roles max_repairs max_replans s =
      let ran = run_initial_roles roles s in
      if ran.code == 0
      then (elim ran.report [
        | none ↦
            some (finish_unjudged "adaptive workflow completed without eval stage" roles ran.state)
        | some r ↦ adaptive_loop fuel roles max_repairs max_replans r start ran.state
      ])
      else some (record { code = ran.code; state = ran.state })

  unfoldable pub run_linear : List Role → State W → Done W
  run_linear roles s =
      let ran = run_initial_roles roles s in
      if ran.code == 0
      then (elim ran.report [
        | none ↦ finish_unjudged "linear workflow completed" roles ran.state
        | some r ↦ record {
          code = 0;
          state =
              write_flow_state
                (terminal_state ctx (last_role roles) (some r) start
                  (concat
                    ("eval verdict " ∷ verdict_text r.verdict ∷ " (linear; no repair loop)" ∷ []))
                  (has Role.eval roles))
                ran.state;
        }
      ])
      else record { code = ran.code; state = ran.state }
