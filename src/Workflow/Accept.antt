-- ===== src/Workflow/Accept.antt =====
-- What an exit code of 0 means.
use first_agent_dev.Prelude.{
  ℕ, zero, suc, ◌+◌, String, ◌≡◌, ◌≢◌, refl, Bool, true, false, ◌&&◌, Option, none, some, inl, inr,
  List, [], ◌∷◌, arith, Bool-cases, Option-cases, ◌==◌,
}
use first_agent_dev.Workflow.Artifacts.{EvalReport}
use first_agent_dev.Workflow.Controller.{
  Role, has, Context, Progress, start, StageOutcome, Env, State,
}
use first_agent_dev.Workflow.Stage.{
  deadline_exceeded, write_deadline_state, dispatch_stage, judge, run_stage, last_of, is_eval,
  write_stage_failure_state, terminal_state,
}
use first_agent_dev.Workflow.Routes.{next_move, canonical_loop_roles, newer, last_role}
use first_agent_dev.Workflow.Modes.{
  Done, latest, stop, finish_unjudged, unjudged_reason, run_stages, adaptive_loop,
}
use first_agent_dev.Workflow.Budget.{Move-cases}
use first_agent_dev.Workflow.Verdict.{
  IsConsistent, HasNoFailure, build_report-IsConsistent, build_report-HasNoFailure,
}

-- a report that a stage wrote
pub record IsWritten (r : EvalReport) : Type 0 where
  pub consistent : IsConsistent r
  pub unfailed : HasNoFailure r

abbrev pub Written : Option EvalReport → Type 0
Written none = Unit
Written (some r) = IsWritten r

-- The report in hand is the artifact on disk, and a stage wrote it.
pub record Holds {W : Type 0} (report : Option EvalReport) (s : State W) : Type 0 where
  pub artifact : s.eval_report ≡ report
  pub written : Written report

pub is_zero : {n : ℕ} → (n == 0) ≡ true → n ≡ 0
is_zero h = ground arith

pub nonzero : {n : ℕ} → (n == 0) ≡ false → n ≢ 0
nonzero h e = ground arith

module _ {W : Type 0} (env : Env W) (ctx : Context) where
  -- a stage's report replaces the artifact, and without one the artifact stays
  judge-Holds :
      (role : Role) (p : Progress) (out : StageOutcome) (report : Option EvalReport) (s : State W)
      → Holds report s
      → Holds (newer (judge env ctx role p out s).0 report) (judge env ctx role p out s).1
  unfolding judge
  judge-Holds role p out report s h = elim (Bool-cases (is_eval role && out.code == 0)) [
    | inr e ↦ rw (e, judge) h
    | inl e ↦ elim (Option-cases (last_of out.sink)) [
      | inl n ↦ rw (e, n, judge) h
      | inr (t, y) ↦
          rw (e, y, judge)
            (record {
              artifact = refl;
              written = record {
                consistent = build_report-IsConsistent env ctx t p s.world;
                unfailed = build_report-HasNoFailure env ctx t p s.world;
              };
            })
    ]
  ]

  deadline_exceeded-Holds :
      (report : Option EvalReport) (s : State W)
      → Holds report s
      → Holds report (deadline_exceeded env ctx s).1
  unfolding deadline_exceeded
  deadline_exceeded-Holds report s h = record { artifact = ground arith; written = h.written }

  write_deadline_state-Holds :
      (role : Role) (p : Progress) (report : Option EvalReport) (s : State W)
      → Holds report s
      → Holds report (write_deadline_state env ctx role p s)
  unfolding write_deadline_state
  write_deadline_state-Holds role p report s h = record {
    artifact = ground arith;
    written = h.written;
  }

  write_stage_failure_state-Holds :
      (role : Role) (code : ℕ) (p : Progress) (report : Option EvalReport) (s : State W)
      → Holds report s
      → Holds report (write_stage_failure_state ctx role code p s)
  unfolding write_stage_failure_state
  write_stage_failure_state-Holds role code p report s h = record {
    artifact = ground arith;
    written = h.written;
  }

  run_stage-Holds :
      (role : Role) (fresh : Bool) (p : Progress) (reason : String) (report : Option EvalReport)
      (s : State W)
      → Holds report s
      → let (result, s') = run_stage env ctx role fresh p reason s in
        Holds (newer result.eval_report report) s'
  unfolding run_stage
  run_stage-Holds role fresh p reason report s h =
      let (late, s') = deadline_exceeded env ctx s in
      let h' = deadline_exceeded-Holds report s h in
      elim (Bool-cases late) [
        | inl e ↦ rw (e, run_stage) (write_deadline_state-Holds role p report s' h')
        | inr e ↦
            rw (e, run_stage)
              (unfold dispatch_stage in
                judge-Holds role p _ report _
                  (record { artifact = h'.artifact; written = h'.written }))
      ]

  pub run_stages-Holds :
      (roles : List Role) (i : ℕ) (fresh : Bool) (p : Progress) (q : ℕ → Role → String)
      (report : Option EvalReport) (s : State W)
      → Holds report s
      → let ran = run_stages env ctx roles i fresh p q report s in
        ran.code ≡ 0 → Holds ran.report ran.state
  unfolding run_stages
  run_stages-Holds [] i fresh p q report s h = λ z. h
  run_stages-Holds (role ∷ rest) i fresh p q report s h =
      let (result, s') = run_stage env ctx role fresh p (q i role) s in
      let h' = run_stage-Holds role fresh p (q i role) report s h in
      elim (Bool-cases (result.exit_code == 0)) [
        | inl e ↦
            rw (e, run_stages)
              (run_stages-Holds rest (i + 1) false p q (newer result.eval_report report) s' h')
        | inr e ↦ rw (e, run_stages) (λ z. absurd (nonzero e z))
      ]

  -- once there is a report, there is one after any stages
  run_stages-report :
      (roles : List Role) (i : ℕ) (fresh : Bool) (p : Progress) (q : ℕ → Role → String)
      (report : Option EvalReport) (s : State W) {r : EvalReport}
      → report ≡ some r
      → (r' : EvalReport) × ((run_stages env ctx roles i fresh p q report s).report ≡ some r')
  unfolding run_stages
  run_stages-report [] i fresh p q report s {r} e = (r, e)
  run_stages-report (role ∷ rest) i fresh p q report s {r} e =
      let (result, s') = run_stage env ctx role fresh p (q i role) s in
      elim (Bool-cases (result.exit_code == 0)) [
        | inr bad ↦ rw (bad, run_stages) (r, e)
        | inl ok ↦
            rw (ok, run_stages)
              (elim (Option-cases result.eval_report) [
                | inl n ↦ rw (n, newer) (run_stages-report rest (i + 1) false p q report s' e)
                | inr (t, y) ↦
                    rw (y, newer) (run_stages-report rest (i + 1) false p q (some t) s' refl)
              ])
      ]

-- How a pipeline that finished normally left the artifacts: the terminal state is that of the report
-- in hand, or of the run that was not judged.
pub record IsTerminal {W : Type 0} (ctx : Context) (roles : List Role) (s : State W) : Type 0 where
  pub report : Option EvalReport
  pub last : Role
  pub progress : Progress
  pub reason : String
  pub requested : Bool
  pub flow : s.flow_state ≡ some (terminal_state ctx last report progress reason requested)
  pub holds : s.eval_report ≡ report
  pub written : Written report
  pub asked : report ≡ none → requested ≡ has Role.eval roles

abbrev pub Ends : {W : Type 0} → Context → List Role → Option (Done W) → Type 0
Ends ctx roles none = Unit
Ends ctx roles (some d) = d.code ≡ 0 → IsTerminal ctx roles d.state

module _ {W : Type 0} (env : Env W) (ctx : Context) (roles : List Role) where
  stop-Ends :
      (r : EvalReport) (p : Progress) (reason : String) (s : State W)
      → Holds (some r) s
      → Ends ctx roles (some (stop env ctx r p reason s))
  unfolding stop
  stop-Ends r p reason s h z = record {
    report = some r;
    last = Role.eval;
    progress = p;
    reason = reason;
    requested = false;
    flow = refl;
    holds = h.artifact;
    written = h.written;
    asked = λ e. cc;
  }

  pub finish_unjudged-Ends :
      (without : String) (s : State W)
      → Holds none s
      → Ends ctx roles (some (finish_unjudged env ctx without roles s))
  unfolding finish_unjudged
  finish_unjudged-Ends without s h z = record {
    report = none;
    last = last_role roles;
    progress = start;
    reason = unjudged_reason without roles;
    requested = has Role.eval roles;
    flow = refl;
    holds = h.artifact;
    written = tt;
    asked = λ e. refl;
  }

  pub adaptive_loop-Ends :
      (max_repairs max_replans f : ℕ) (r : EvalReport) (p : Progress) (s : State W)
      → Holds (some r) s
      → Ends ctx roles (adaptive_loop env ctx f roles max_repairs max_replans r p s)
  unfolding adaptive_loop
  adaptive_loop-Ends max_repairs max_replans zero r p s h = tt
  adaptive_loop-Ends max_repairs max_replans (suc f) r p s h =
      elim (Move-cases (next_move roles max_repairs max_replans r p)) [
        | inl (reason, e) ↦ rw (e, adaptive_loop) (stop-Ends r p reason s h)
        | inr (b, p', q, e) ↦
            let round = canonical_loop_roles roles b in
            let ran = run_stages env ctx round 0 false p' q (some r) s in
            elim (Bool-cases (ran.code == 0)) [
              | inr bad ↦ rw (e, bad, adaptive_loop) (λ z. absurd (nonzero bad z))
              | inl ok ↦
                  rw (e, ok, adaptive_loop)
                    (let (r', y) =
                        run_stages-report env ctx round 0 false p' q (some r) s {r = r} refl in
                      let h' =
                        run_stages-Holds env ctx round 0 false p' q (some r) s h (is_zero ok) in
                      rw (y, latest)
                        (adaptive_loop-Ends max_repairs max_replans f r' p' ran.state (rw y at h')))
            ]
      ]
