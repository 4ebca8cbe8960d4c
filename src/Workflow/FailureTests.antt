-- ===== src/Workflow/FailureTests.antt =====
-- Runs in which a stage fails, and runs that are late.
use first_agent_dev.Prelude.{ℕ, ◌+◌, ◌≡◌, ◌≢◌, refl, some, [], ◌∷◌, arith}
use first_agent_dev.Workflow.Controller.{
  planner, coder, eval, Context, Env, State, StageArgs, deadline_exit_code,
}
use first_agent_dev.Workflow.Modes.{Done, run_linear}
use first_agent_dev.Workflow.Run.{linear, Outcome, run_mode, outcome, initialized, run_workflow}
use first_agent_dev.Workflow.Failure.{SaysFailed, run_mode-SaysFailed}
use first_agent_dev.Workflow.Deadline.{GaveUp, run_workflow-GaveUp}
use first_agent_dev.Workflow.Tests.{env, ctx, controller, roles}

-- every stage fails
abbrev broken : Env ℕ
broken = record (env "PASS") { run_stage_fn = λ a w. (record { code = 1; sink = [] }, w + 1) }

broken_code : (a : StageArgs) (w : ℕ) → (broken.run_stage_fn a w).0.code ≢ deadline_exit_code
broken_code a w h = omega arith

abbrev begun : State ℕ
begun = initialized broken ctx linear planner 0

abbrev failed : Done ℕ
failed = run_linear broken ctx roles begun

failed_lem : run_mode broken ctx linear roles 2 1 begun ≡ some failed
unfolding run_mode
failed_lem = refl

failed_code : failed.code ≡ 1
unfolding controller
failed_code = refl

nonzero : failed.code ≢ 0
nonzero = rw failed_code (λ (h : 1 ≡ 0). omega arith)

run_mode-SaysFailed_example : SaysFailed failed.state
run_mode-SaysFailed_example =
    run_mode-SaysFailed broken ctx broken_code roles linear 2 1 begun failed_lem nonzero

-- a deadline in the past
abbrev late : Context
late = record ctx { deadline_mono = some 0 }

abbrev late_end : Outcome ℕ
late_end =
    outcome (env "PASS") late
      (run_linear (env "PASS") late roles (initialized (env "PASS") late linear planner 0))

late_lem : run_workflow (env "PASS") late linear planner (coder ∷ eval ∷ []) 2 1 0 ≡ some late_end
unfolding run_workflow run_mode
late_lem = refl

run_workflow-GaveUp_example : GaveUp late_end.exit_code late_end.state
run_workflow-GaveUp_example =
    run_workflow-GaveUp (env "PASS") late 0 refl (λ w. omega arith) linear planner
      (coder ∷ eval ∷ []) 2 1 0 late_lem
