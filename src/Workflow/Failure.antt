-- ===== src/Workflow/Failure.antt =====
-- Fail-fast and the deadline.
use mathlib.Core.Path.{subst}
use first_agent_dev.Prelude.{
  ℕ, zero, suc, ◌+◌, String, ◌≡◌, ◌≢◌, refl, Bool, true, false, Option, none, some, ◌⊎◌, inl, inr,
  List, [], ◌∷◌, arith, Bool-cases, Option-cases, ◌==◌,
}
use first_agent_dev.Workflow.Artifacts.{EvalReport, FlowState, FlowStatus}
use first_agent_dev.Workflow.Controller.{
  Role, Context, Progress, start, Env, StageArgs, State, deadline_exit_code,
}
use first_agent_dev.Workflow.Stage.{
  deadline_exceeded, write_deadline_state, dispatch_stage, run_stage, write_stage_failure_state,
  stage_failure_state,
}
use first_agent_dev.Workflow.Routes.{next_move, canonical_loop_roles, newer}
use first_agent_dev.Workflow.Modes.{
  Done, rounds, latest, stop, finish_unjudged, run_stages, run_initial_roles, adaptive_loop,
  run_adaptive, run_linear,
}
use first_agent_dev.Workflow.Run.{Mode, linear, adaptive, run_mode}
use first_agent_dev.Workflow.Budget.{Move-cases}

-- the artifact on disk says FAILED
abbrev pub SaysFailed : {W : Type 0} → State W → Type 0
SaysFailed s = (f : FlowState) × (s.flow_state ≡ some f) × (f.status ≡ FlowStatus.failed)

abbrev Ok : {W : Type 0} → ℕ → State W → Type 0
Ok code s = (code ≡ 0) ⊎ SaysFailed s

abbrev OkDone : {W : Type 0} → Option (Done W) → Type 0
OkDone none = Unit
OkDone (some d) = Ok d.code d.state

module _ {W : Type 0} (ctx : Context) where
  write_stage_failure_state-SaysFailed :
      (role : Role) (code : ℕ) (p : Progress) (s : State W)
      → (code ≢ deadline_exit_code) ⊎ SaysFailed s
      → SaysFailed (write_stage_failure_state ctx role code p s)
  unfolding write_stage_failure_state
  write_stage_failure_state-SaysFailed role code p s h =
      elim (Bool-cases (code == deadline_exit_code)) [
        | inr e ↦
            rw (e, write_stage_failure_state)
              (stage_failure_state ctx role code p, refl, failed_lem role code p)
        | inl e ↦ elim h [
          | inl n ↦ absurd (n (ground arith))
          | inr f ↦ rw (e, write_stage_failure_state) f
        ]
      ]
    where
      failed_lem :
          (role : Role) (code : ℕ) (p : Progress)
          → (stage_failure_state ctx role code p).status ≡ FlowStatus.failed
      failed_lem role code p = refl

-- `_cmd_run` returns 0, 1 or 2, never the code that stands for the deadline.
module _ {W : Type 0} (env : Env W) (ctx : Context)
    (never : (a : StageArgs) (w : W) → (env.run_stage_fn a w).0.code ≢ deadline_exit_code) where
  deadline_exceeded-late :
      (s : State W)
      → (deadline_exceeded env ctx s).0 ≡ true
      → (d : ℕ) × (ctx.deadline_mono ≡ some d)
  unfolding deadline_exceeded
  deadline_exceeded-late s h = ground arith

  write_deadline_state-SaysFailed :
      (role : Role) (p : Progress) (s : State W) {d : ℕ}
      → ctx.deadline_mono ≡ some d
      → SaysFailed (write_deadline_state env ctx role p s)
  unfolding write_deadline_state
  write_deadline_state-SaysFailed role p s e = rw (e, write_deadline_state) (_, refl, refl)

  dispatch_stage-code :
      (role : Role) (fresh : Bool) (p : Progress) (reason : String) (s : State W)
      → (dispatch_stage env ctx role fresh p reason s).0.exit_code ≢ deadline_exit_code
  unfolding dispatch_stage
  dispatch_stage-code role fresh p reason s = never _ _

  -- a stage with the deadline's code has left a FAILED state
  run_stage-code :
      (role : Role) (fresh : Bool) (p : Progress) (reason : String) (s : State W)
      → let (result, s') = run_stage env ctx role fresh p reason s in
        (result.exit_code ≢ deadline_exit_code) ⊎ SaysFailed s'
  unfolding run_stage
  run_stage-code role fresh p reason s =
      let (late, s') = deadline_exceeded env ctx s in
      elim (Bool-cases late) [
        | inl e ↦
            let (d, y) = deadline_exceeded-late s e in
            rw (e, run_stage) (inr (write_deadline_state-SaysFailed role p s' y))
        | inr e ↦ rw (e, run_stage) (inl (dispatch_stage-code role fresh p reason s'))
      ]

  run_stages-Ok :
      (roles : List Role) (i : ℕ) (fresh : Bool) (p : Progress) (q : ℕ → Role → String)
      (report : Option EvalReport) (s : State W)
      → let ran = run_stages env ctx roles i fresh p q report s in Ok ran.code ran.state
  unfolding run_stages
  run_stages-Ok [] i fresh p q report s = inl refl
  run_stages-Ok (role ∷ rest) i fresh p q report s =
      let (result, s') = run_stage env ctx role fresh p (q i role) s in
      elim (Bool-cases (result.exit_code == 0)) [
        | inl e ↦
            rw (e, run_stages)
              (run_stages-Ok rest (i + 1) false p q (newer result.eval_report report) s')
        | inr e ↦
            rw (e, run_stages)
              (inr (
                write_stage_failure_state-SaysFailed ctx role result.exit_code p s'
                  (run_stage-code role fresh p (q i role) s)))
      ]

  module _ (roles : List Role) where
    adaptive_loop-Ok :
        (max_repairs max_replans f : ℕ) (r : EvalReport) (p : Progress) (s : State W)
        → OkDone (adaptive_loop env ctx f roles max_repairs max_replans r p s)
    unfolding adaptive_loop stop
    adaptive_loop-Ok max_repairs max_replans zero r p s = tt
    adaptive_loop-Ok max_repairs max_replans (suc f) r p s =
        elim (Move-cases (next_move roles max_repairs max_replans r p)) [
          | inl (reason, e) ↦ rw (e, adaptive_loop) (inl refl)
          | inr (b, p', q, e) ↦
              let round = canonical_loop_roles roles b in
              let ran = run_stages env ctx round 0 false p' q (some r) s in
              elim (Bool-cases (ran.code == 0)) [
                | inr bad ↦ rw (e, bad, adaptive_loop) (run_stages-Ok round 0 false p' q (some r) s)
                | inl ok ↦
                    rw (e, ok, adaptive_loop)
                      (adaptive_loop-Ok max_repairs max_replans f (latest ran.report r) p'
                        ran.state)
              ]
        ]

    run_initial_roles-Ok :
        (s : State W) → let ran = run_initial_roles env ctx roles s in Ok ran.code ran.state
    unfolding run_initial_roles
    run_initial_roles-Ok s = run_stages-Ok roles 0 true start _ none s

    run_mode-Ok :
        (mode : Mode) (max_repairs max_replans : ℕ) (s : State W)
        → OkDone (run_mode env ctx mode roles max_repairs max_replans s)
    unfolding run_mode run_adaptive run_linear finish_unjudged
    run_mode-Ok adaptive max_repairs max_replans s =
        let ran = run_initial_roles env ctx roles s in
        elim (Bool-cases (ran.code == 0)) [
          | inr bad ↦ rw (bad, run_mode, run_adaptive) (run_initial_roles-Ok s)
          | inl ok ↦ elim (Option-cases ran.report) [
            | inl e ↦ rw (ok, e, run_mode, run_adaptive) (inl refl)
            | inr (r, e) ↦
                rw (ok, e, run_mode, run_adaptive)
                  (adaptive_loop-Ok max_repairs max_replans (rounds max_repairs max_replans) r start
                    ran.state)
          ]
        ]
    run_mode-Ok linear max_repairs max_replans s =
        let ran = run_initial_roles env ctx roles s in
        elim (Bool-cases (ran.code == 0)) [
          | inr bad ↦ rw (bad, run_mode, run_linear) (run_initial_roles-Ok s)
          | inl ok ↦ elim (Option-cases ran.report) [
            | inl e ↦ rw (ok, e, run_mode, run_linear) (inl refl)
            | inr (r, e) ↦ rw (ok, e, run_mode, run_linear) (inl refl)
          ]
        ]

    -- Provided that no stage returns the deadline's code, a pipeline that ends with a code other than
    -- 0 has left a flow state that says FAILED, in both modes.
    pub run_mode-SaysFailed :
        (mode : Mode) (max_repairs max_replans : ℕ) (s : State W) {d : Done W}
        → run_mode env ctx mode roles max_repairs max_replans s ≡ some d
        → d.code ≢ 0
        → SaysFailed d.state
    run_mode-SaysFailed mode max_repairs max_replans s {d} h n =
        let either : OkDone (some d) =
          subst OkDone h (run_mode-Ok mode max_repairs max_replans s) in
        elim either [ inl z ↦ absurd (n z) | inr f ↦ f ]
