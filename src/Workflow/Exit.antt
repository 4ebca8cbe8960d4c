-- ===== src/Workflow/Exit.antt =====
-- The exit code of `run_workflow`.
use mathlib.Core.Path.{subst, subst⁻¹}
use first_agent_dev.Prelude.{
  ℕ, String, ◌≡◌, refl, sym, ◌∙◌, Bool, true, false, Option, none, some, ◌⊎◌, inl, inr, List, [],
  ◌∷◌, arith, Bool-cases, Option-cases, some_inj, and_return-some, ◌==◌, concat, filter,
}
use first_agent_dev.Workflow.Artifacts.{
  verdict_text, EvalVerdict, EvalReport, FlowState, FlowStatus,
}
use first_agent_dev.Workflow.Slices.{is_fail}
use first_agent_dev.Workflow.Controller.{
  Role, has, Context, Progress, start, Env, State, terminal_status,
}
use first_agent_dev.Workflow.Stage.{terminal_state}
use first_agent_dev.Workflow.Routes.{last_role}
use first_agent_dev.Workflow.Modes.{Done, rounds, run_initial_roles, run_adaptive, run_linear}
use first_agent_dev.Workflow.Run.{
  Mode, linear, adaptive, Outcome, initialized, run_mode, outcome, run_workflow, workflow_exit_code,
  read_back_terminal_state,
}
use first_agent_dev.Workflow.Accept.{
  Written, Holds, IsTerminal, Ends, run_stages-Holds, finish_unjudged-Ends, adaptive_loop-Ends,
  is_zero, nonzero,
}

module _ {W : Type 0} (env : Env W) (ctx : Context) (roles : List Role) where
  run_initial_roles-Holds :
      (s : State W)
      → Holds none s
      → let ran = run_initial_roles env ctx roles s in ran.code ≡ 0 → Holds ran.report ran.state
  unfolding run_initial_roles
  run_initial_roles-Holds s h = run_stages-Holds env ctx roles 0 true start _ none s h

  run_adaptive-Ends :
      (fuel max_repairs max_replans : ℕ) (s : State W)
      → Holds none s
      → Ends ctx roles (run_adaptive env ctx fuel roles max_repairs max_replans s)
  unfolding run_adaptive
  run_adaptive-Ends fuel max_repairs max_replans s h =
      let ran = run_initial_roles env ctx roles s in
      elim (Bool-cases (ran.code == 0)) [
        | inr bad ↦ rw (bad, run_adaptive) (λ z. absurd (nonzero bad z))
        | inl ok ↦
            let h' = run_initial_roles-Holds s h (is_zero ok) in
            elim (Option-cases ran.report) [
              | inl e ↦
                  rw (ok, e, run_adaptive)
                    (finish_unjudged-Ends env ctx roles _ ran.state (rw e at h'))
              | inr (r, e) ↦
                  rw (ok, e, run_adaptive)
                    (adaptive_loop-Ends env ctx roles max_repairs max_replans fuel r start ran.state
                      (rw e at h'))
            ]
      ]

  run_linear-Ends :
      (s : State W) → Holds none s → Ends ctx roles (some (run_linear env ctx roles s))
  unfolding run_linear
  run_linear-Ends s h =
      let ran = run_initial_roles env ctx roles s in
      elim (Bool-cases (ran.code == 0)) [
        | inr bad ↦ rw (bad, run_linear) (λ z. absurd (nonzero bad z))
        | inl ok ↦
            let h' = run_initial_roles-Holds s h (is_zero ok) in
            elim (Option-cases ran.report) [
              | inl e ↦
                  rw (ok, e, run_linear)
                    (finish_unjudged-Ends env ctx roles _ ran.state (rw e at h'))
              | inr (r, e) ↦
                  rw (ok, e, run_linear)
                    (λ z. record {
                      report = some r;
                      last = last_role roles;
                      progress = start;
                      reason = concat (
                          "eval verdict "
                          ∷ verdict_text r.verdict
                          ∷ " (linear; no repair loop)"
                          ∷ []);
                      requested = has Role.eval roles;
                      flow = refl;
                      holds = rw e at h'.artifact;
                      written = rw e at h'.written;
                      asked = λ e. refl;
                    })
            ]
      ]

  initialized-Holds :
      (mode : Mode) (first : Role) (w : W) → Holds none (initialized env ctx mode first w)
  unfolding initialized
  initialized-Holds mode first w = record { artifact = refl; written = tt }

  run_mode-Ends :
      (mode : Mode) (max_repairs max_replans : ℕ) (s : State W)
      → Holds none s
      → Ends ctx roles (run_mode env ctx mode roles max_repairs max_replans s)
  unfolding run_mode
  run_mode-Ends adaptive max_repairs max_replans s h =
      run_adaptive-Ends (rounds max_repairs max_replans) max_repairs max_replans s h
  run_mode-Ends linear max_repairs max_replans s h = run_linear-Ends s h

-- The report on disk is a PASS with no failed slice.
abbrev pub PassOnDisk : {W : Type 0} → State W → Type 0
PassOnDisk s =
    (r : EvalReport) × (s.eval_report ≡ some r)
    × (r.verdict ≡ EvalVerdict.pass)
    × (filter is_fail r.step_results ≡ [])

abbrev pub Accepted : {W : Type 0} → List Role → State W → FlowState → Type 0
Accepted roles s f =
    (f.status ≡ FlowStatus.done)
    × (((f.judged ≡ true) × PassOnDisk s) ⊎ ((f.judged ≡ false) × (has Role.eval roles ≡ false)))

terminal_status-pass :
    (v : EvalVerdict) → terminal_status v ≡ FlowStatus.done → v ≡ EvalVerdict.pass
unfolding terminal_status
terminal_status-pass v h = ground arith

-- a terminal state that says DONE
module _ {W : Type 0} (ctx : Context) (roles : List Role) (s : State W) where
  done-Accepted :
      (report : Option EvalReport) (last : Role) (p : Progress) (reason : String) (requested : Bool)
      → s.eval_report ≡ report
      → Written report
      → (report ≡ none → requested ≡ has Role.eval roles)
      → (terminal_state ctx last report p reason requested).status ≡ FlowStatus.done
      → Accepted roles s (terminal_state ctx last report p reason requested)
  unfolding terminal_state
  done-Accepted none last p reason requested a w q d = ground (arith, q refl)
  done-Accepted (some r) last p reason requested a w q d =
      let passed : r.verdict ≡ EvalVerdict.pass = terminal_status-pass r.verdict d in
      (d, inl (refl, (r, a, passed, w.unfailed.passed passed)))

module _ {W : Type 0} (env : Env W) (ctx : Context) where
  read_back-flow :
      (s : State W) (f : FlowState)
      → read_back_terminal_state env ctx s ≡ some f
      → s.flow_state ≡ some f
  unfolding read_back_terminal_state
  read_back-flow s f h = ground arith

  exit_code_zero :
      (code : ℕ) (f : FlowState)
      → workflow_exit_code code (some f) ≡ 0
      → (code ≡ 0) × (f.status ≡ FlowStatus.done)
  unfolding workflow_exit_code
  exit_code_zero code f h = ground arith

  terminal-Accepted :
      (roles : List Role) (s : State W) (f : FlowState)
      → IsTerminal ctx roles s
      → s.flow_state ≡ some f
      → f.status ≡ FlowStatus.done
      → Accepted roles s f
  terminal-Accepted roles s f end e status =
      let same : terminal_state ctx end.last end.report end.progress end.reason end.requested ≡ f =
        some_inj (sym end.flow ∙ e) in
      subst (λ g. Accepted roles s g) same
        (done-Accepted ctx roles s end.report end.last end.progress end.reason end.requested
          end.holds end.written end.asked (subst⁻¹ (λ g. g.status ≡ FlowStatus.done) same status))

  outcome-Accepted :
      (roles : List Role) (d : Done W) (f : FlowState)
      → Ends ctx roles (some d)
      → (outcome env ctx d).terminal ≡ some f
      → (outcome env ctx d).exit_code ≡ 0
      → Accepted roles (outcome env ctx d).state f
  unfolding outcome
  outcome-Accepted roles d f ends t z =
      let zero = exit_code_zero d.code f (subst (λ g. workflow_exit_code d.code g ≡ 0) t z) in
      terminal-Accepted roles d.state f (ends zero.0) (read_back-flow d.state f t) zero.1

  pub run_workflow-outcome :
      (mode : Mode) (first : Role) (rest : List Role) (max_repairs max_replans : ℕ) (w : W)
      {o : Outcome W}
      → run_workflow env ctx mode first rest max_repairs max_replans w ≡ some o
      → (d : Done W) × (run_mode env ctx mode
            (first ∷ rest)
            max_repairs
            max_replans
            (initialized env ctx mode first w)
          ≡ some d)
        × (outcome env ctx d ≡ o)
  unfolding run_workflow
  run_workflow-outcome mode first rest max_repairs max_replans w h =
      and_return-some (outcome env ctx)
        (run_mode env ctx mode (first ∷ rest) max_repairs max_replans _) h

  -- When `run_workflow` exits with 0 and its terminal state can be read back, the state says DONE,
  -- and either it says that the run was judged, and then the report on disk is a PASS in which no
  -- slice failed, or it says that it was not judged, and then no eval stage had been asked for.
  pub exit_zero-Accepted :
      (mode : Mode) (first : Role) (rest : List Role) (max_repairs max_replans : ℕ) (w : W)
      {o : Outcome W} {f : FlowState}
      → run_workflow env ctx mode first rest max_repairs max_replans w ≡ some o
      → o.terminal ≡ some f
      → o.exit_code ≡ 0
      → Accepted (first ∷ rest) o.state f
  exit_zero-Accepted mode first rest max_repairs max_replans w {o} {f} h t z =
      let roles = first ∷ rest in
      let s = initialized env ctx mode first w in
      let ends =
        run_mode-Ends env ctx roles mode max_repairs max_replans s
          (initialized-Holds env ctx roles mode first w) in
      let (d, e, same) = run_workflow-outcome mode first rest max_repairs max_replans w h in
      subst (λ (q : Outcome W). Accepted roles q.state f) same
        (outcome-Accepted roles d f (rw e at ends)
          (subst⁻¹ (λ (q : Outcome W). q.terminal ≡ some f) same t)
          (subst⁻¹ (λ (q : Outcome W). q.exit_code ≡ 0) same z))
