-- ===== src/Workflow/Deadline.antt =====
-- A run whose deadline has passed.
use mathlib.Core.Path.{subst}
use first_agent_dev.Prelude.{
  ℕ, ◌≤◌, String, ◌≡◌, refl, sym, ◌∙◌, true, false, Option, none, some, List, [], ◌∷◌, arith,
  some_inj, ◌==◌, le→leb,
}
use first_agent_dev.Workflow.Artifacts.{FlowState}
use first_agent_dev.Workflow.Controller.{Role, Context, start, Env, State, deadline_exit_code}
use first_agent_dev.Workflow.Stage.{
  deadline_exceeded, write_deadline_state, run_stage, write_stage_failure_state,
}
use first_agent_dev.Workflow.Modes.{Done, run_stages, run_initial_roles, run_adaptive, run_linear}
use first_agent_dev.Workflow.Run.{
  Mode, linear, adaptive, Outcome, initialized, run_mode, outcome, run_workflow, workflow_exit_code,
}
use first_agent_dev.Workflow.Exit.{run_workflow-outcome}
use first_agent_dev.Workflow.Failure.{SaysFailed}

-- Nothing has run, and the run was given up for its deadline.
pub record GaveUp {W : Type 0} (code : ℕ) (s : State W) : Type 0 where
  pub code_124 : code ≡ deadline_exit_code
  pub no_calls : s.calls ≡ []
  pub says_failed : SaysFailed s

module _ {W : Type 0} (env : Env W) (ctx : Context) (d : ℕ) (set : ctx.deadline_mono ≡ some d)
    (overdue : (w : W) → d ≤ (env.monotonic w).0) where
  overdue-late : (s : State W) → (deadline_exceeded env ctx s).0 ≡ true
  unfolding deadline_exceeded
  overdue-late s = rw (set, deadline_exceeded) (le→leb d _ (overdue s.world))

  overdue-calls : (s : State W) → (deadline_exceeded env ctx s).1.calls ≡ s.calls
  unfolding deadline_exceeded
  overdue-calls s = ground arith

  run_stages-GaveUp :
      (first : Role) (rest : List Role) (q : ℕ → Role → String) (s : State W)
      → s.calls ≡ []
      → let ran = run_stages env ctx (first ∷ rest) 0 true start q none s in
        GaveUp ran.code ran.state
  unfolding run_stages run_stage write_deadline_state write_stage_failure_state
  run_stages-GaveUp first rest q s e =
      let s' = (deadline_exceeded env ctx s).1 in
      rw (overdue-late s, run_stages, run_stage)
        (rw (set, write_deadline_state)
          (record {
            code_124 = refl;
            no_calls = overdue-calls s ∙ e;
            says_failed = (_, refl, refl);
          }))

  run_initial_roles-GaveUp :
      (first : Role) (rest : List Role) (s : State W)
      → s.calls ≡ []
      → let ran = run_initial_roles env ctx (first ∷ rest) s in GaveUp ran.code ran.state
  unfolding run_initial_roles
  run_initial_roles-GaveUp first rest s e = run_stages-GaveUp first rest _ s e

  -- in both modes a first pass that failed is the end
  run_mode-failed :
      (mode : Mode) (roles : List Role) (max_repairs max_replans : ℕ) (s : State W)
      → let ran = run_initial_roles env ctx roles s in
        (ran.code == 0) ≡ false
        → run_mode env ctx mode roles max_repairs max_replans s
          ≡ some (record { code = ran.code; state = ran.state })
  unfolding run_mode run_adaptive run_linear
  run_mode-failed linear roles max_repairs max_replans s bad = rw (bad, run_mode, run_linear)
  run_mode-failed adaptive roles max_repairs max_replans s bad = rw (bad, run_mode, run_adaptive)

  failed_code : (code : ℕ) → code ≡ deadline_exit_code → (code == 0) ≡ false
  failed_code code h = ground arith

  run_mode-GaveUp :
      (mode : Mode) (first : Role) (rest : List Role) (max_repairs max_replans : ℕ) (s : State W)
      {done : Done W}
      → s.calls ≡ []
      → run_mode env ctx mode (first ∷ rest) max_repairs max_replans s ≡ some done
      → GaveUp done.code done.state
  run_mode-GaveUp mode first rest max_repairs max_replans s e h =
      let g = run_initial_roles-GaveUp first rest s e in
      let end =
        run_mode-failed mode (first ∷ rest) max_repairs max_replans s (failed_code _ g.code_124) in
      subst (λ (x : Done W). GaveUp x.code x.state) (some_inj (sym end ∙ h))
        (record { code_124 = g.code_124; no_calls = g.no_calls; says_failed = g.says_failed })

  workflow_exit_code-nonzero :
      (code : ℕ) (t : Option FlowState)
      → code ≡ deadline_exit_code
      → workflow_exit_code code t ≡ code
  unfolding workflow_exit_code
  workflow_exit_code-nonzero code t h = ground arith

  outcome-GaveUp :
      (done : Done W)
      → GaveUp done.code done.state
      → GaveUp (outcome env ctx done).exit_code (outcome env ctx done).state
  unfolding outcome
  outcome-GaveUp done g = record {
    code_124 = workflow_exit_code-nonzero done.code _ g.code_124 ∙ g.code_124;
    no_calls = g.no_calls;
    says_failed = g.says_failed;
  }

  -- With a deadline that has passed before the first stage, `run_workflow` calls no stage, leaves a
  -- flow state that says FAILED and exits with 124, in both modes.
  pub run_workflow-GaveUp :
      (mode : Mode) (first : Role) (rest : List Role) (max_repairs max_replans : ℕ) (w : W)
      {o : Outcome W}
      → run_workflow env ctx mode first rest max_repairs max_replans w ≡ some o
      → GaveUp o.exit_code o.state
  unfolding initialized
  run_workflow-GaveUp mode first rest max_repairs max_replans w h =
      let (done, e, same) =
        run_workflow-outcome env ctx mode first rest max_repairs max_replans w h in
      subst (λ (x : Outcome W). GaveUp x.exit_code x.state) same
        (outcome-GaveUp done (run_mode-GaveUp mode first rest max_repairs max_replans _ refl e))
