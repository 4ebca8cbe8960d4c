-- ===== src/Workflow/Calls.antt =====
-- How often the pipelines call `run_stage_fn`.
use first_agent_dev.Prelude.{
  ℕ, zero, suc, ◌+◌, ◌-◌, ◌*◌, ◌≤◌, ◌≡◌, refl, ap, Bool, true, false, Option, none, some, inl, inr,
  List, String, [], ◌∷◌, arith, Bool-cases, Option-cases, ◌==◌, length, length-append,
  length-filter,
}
use first_agent_dev.Workflow.Artifacts.{EvalReport}
use first_agent_dev.Workflow.Controller.{
  Role, has, Context, Progress, start, StageArgs, StageOutcome, Env, State,
}
use first_agent_dev.Workflow.Stage.{
  deadline_exceeded, write_deadline_state, dispatch_stage, judge, run_stage,
  write_stage_failure_state,
}
use first_agent_dev.Workflow.Routes.{again, next_move, newer, canonical_loop_roles}
use first_agent_dev.Workflow.Modes.{
  Done, latest, stop, finish_unjudged, run_stages, run_initial_roles, adaptive_loop, run_adaptive,
}
use first_agent_dev.Workflow.Budget.{Move-cases}

module _ {W : Type 0} (env : Env W) (ctx : Context) where
  judge-calls :
      (role : Role) (p : Progress) (out : StageOutcome) (s : State W)
      → (judge env ctx role p out s).1.calls ≡ s.calls
  unfolding judge
  judge-calls role p out s = ground arith

  deadline_exceeded-calls : (s : State W) → (deadline_exceeded env ctx s).1.calls ≡ s.calls
  unfolding deadline_exceeded
  deadline_exceeded-calls s = ground arith

  write_deadline_state-calls :
      (role : Role) (p : Progress) (s : State W)
      → (write_deadline_state env ctx role p s).calls ≡ s.calls
  unfolding write_deadline_state
  write_deadline_state-calls role p s = ground arith

  write_stage_failure_state-calls :
      (role : Role) (code : ℕ) (p : Progress) (s : State W)
      → (write_stage_failure_state ctx role code p s).calls ≡ s.calls
  unfolding write_stage_failure_state
  write_stage_failure_state-calls role code p s = ground arith

  dispatch_stage-calls :
      (role : Role) (fresh : Bool) (p : Progress) (reason : String) (s : State W)
      → length (dispatch_stage env ctx role fresh p reason s).1.calls ≡ length s.calls + 1
  unfolding dispatch_stage
  dispatch_stage-calls role fresh p reason s = rw judge-calls (length-append s.calls _)

  pub run_stage-calls :
      (role : Role) (fresh : Bool) (p : Progress) (reason : String) (s : State W)
      → length (run_stage env ctx role fresh p reason s).1.calls ≤ length s.calls + 1
  unfolding run_stage
  run_stage-calls role fresh p reason s =
      let (late, s') = deadline_exceeded env ctx s in
      elim (Bool-cases late) [
        | inl e ↦
            rw (e, run_stage)
              (omega (
                arith,
                ap (length {A = StageArgs}) (write_deadline_state-calls role p s'),
                ap (length {A = StageArgs}) (deadline_exceeded-calls s),
              ))
        | inr e ↦
            rw (e, run_stage)
              (omega (
                arith,
                dispatch_stage-calls role fresh p reason s',
                ap (length {A = StageArgs}) (deadline_exceeded-calls s),
              ))
      ]

  pub run_stages-calls :
      (roles : List Role) (i : ℕ) (fresh : Bool) (p : Progress) (q : ℕ → Role → String)
      (report : Option EvalReport) (s : State W)
      → length (run_stages env ctx roles i fresh p q report s).state.calls
        ≤ length s.calls + length roles
  unfolding run_stages
  run_stages-calls [] i fresh p q report s = omega arith
  run_stages-calls (role ∷ rest) i fresh p q report s =
      let (result, s') = run_stage env ctx role fresh p (q i role) s in
      let one = run_stage-calls role fresh p (q i role) s in
      elim (Bool-cases (result.exit_code == 0)) [
        | inl e ↦
            rw (e, run_stages)
              (omega (
                arith,
                one,
                run_stages-calls rest (i + 1) false p q (newer result.eval_report report) s',
              ))
        | inr e ↦
            rw (e, run_stages)
              (omega (
                arith,
                one,
                ap (length {A = StageArgs})
                    (write_stage_failure_state-calls role result.exit_code p s'),
              ))
      ]

-- the stages that a round of the loop may run
abbrev width : Bool → ℕ
width true = 3
width false = 2

length-canonical_loop_roles :
    (roles : List Role) (b : Bool) → length (canonical_loop_roles roles b) ≤ width b
unfolding canonical_loop_roles
length-canonical_loop_roles roles true =
    length-filter (λ r. has r roles) (Role.planner ∷ Role.coder ∷ Role.eval ∷ [])
length-canonical_loop_roles roles false =
    length-filter (λ r. has r roles) (Role.coder ∷ Role.eval ∷ [])

-- the stages that the budgets leave room for
abbrev room : ℕ → ℕ → Progress → ℕ
room max_repairs max_replans p =
    2 * (max_repairs - p.repair_round) + 3 * (max_replans - p.replan_round)

next_move-room :
    (roles : List Role) (max_repairs max_replans : ℕ) (r : EvalReport) (p : Progress) {b : Bool}
    {p' : Progress} {q : ℕ → Role → String}
    → next_move roles max_repairs max_replans r p ≡ again b p' q
    → width b + room max_repairs max_replans p' ≤ room max_repairs max_replans p
unfolding next_move
next_move-room roles max_repairs max_replans r p h = ground arith

-- the number of calls in the state that a pipeline leaves; nothing is left when the fuel runs out
abbrev pub calls_of : {W : Type 0} → Option (Done W) → ℕ
calls_of none = 0
calls_of (some d) = length d.state.calls

module _ {W : Type 0} (env : Env W) (ctx : Context) (roles : List Role)
    (max_repairs max_replans : ℕ) where
  stop-calls :
      (r : EvalReport) (p : Progress) (reason : String) (s : State W)
      → (stop env ctx r p reason s).state.calls ≡ s.calls
  unfolding stop
  stop-calls r p reason s = refl

  adaptive_loop-calls :
      (f : ℕ) (r : EvalReport) (p : Progress) (s : State W)
      → calls_of (adaptive_loop env ctx f roles max_repairs max_replans r p s)
        ≤ length s.calls + room max_repairs max_replans p
  unfolding adaptive_loop
  adaptive_loop-calls zero r p s = omega arith
  adaptive_loop-calls (suc f) r p s =
      elim (Move-cases (next_move roles max_repairs max_replans r p)) [
        | inl (reason, e) ↦
            rw (e, adaptive_loop)
              (omega (arith, ap (length {A = StageArgs}) (stop-calls r p reason s)))
        | inr (b, p', q, e) ↦
            let round = canonical_loop_roles roles b in
            let ran = run_stages env ctx round 0 false p' q (some r) s in
            let more = run_stages-calls env ctx round 0 false p' q (some r) s in
            let fits = length-canonical_loop_roles roles b in
            let falls = next_move-room roles max_repairs max_replans r p e in
            elim (Bool-cases (ran.code == 0)) [
              | inl ok ↦
                  rw (e, ok, adaptive_loop)
                    (omega (
                      arith,
                      adaptive_loop-calls f (latest ran.report r) p' ran.state,
                      more,
                      fits,
                      falls,
                    ))
              | inr bad ↦ rw (e, bad, adaptive_loop) (omega (arith, more, fits, falls))
            ]
      ]

  finish_unjudged-calls :
      (without : String) (s : State W)
      → (finish_unjudged env ctx without roles s).state.calls ≡ s.calls
  unfolding finish_unjudged
  finish_unjudged-calls without s = refl

  run_initial_roles-calls :
      (s : State W)
      → length (run_initial_roles env ctx roles s).state.calls ≤ length s.calls + length roles
  unfolding run_initial_roles
  run_initial_roles-calls s = run_stages-calls env ctx roles 0 true start _ none s

  -- The adaptive pipeline calls `run_stage_fn` at most once for each configured role, twice for each
  -- repair of the budget and three times for each replan, whatever the stages return.
  pub run_adaptive-calls :
      (fuel : ℕ) (s : State W)
      → calls_of (run_adaptive env ctx fuel roles max_repairs max_replans s)
        ≤ length s.calls + length roles + 2 * max_repairs + 3 * max_replans
  unfolding run_adaptive
  run_adaptive-calls fuel s =
      let ran = run_initial_roles env ctx roles s in
      let first = run_initial_roles-calls s in
      elim (Bool-cases (ran.code == 0)) [
        | inr bad ↦ rw (bad, run_adaptive) (omega (arith, first))
        | inl ok ↦ elim (Option-cases ran.report) [
          | inl e ↦
              rw (ok, e, run_adaptive)
                (omega (
                  arith,
                  first,
                  ap (length {A = StageArgs}) (
                      finish_unjudged-calls "adaptive workflow completed without eval stage"
                        ran.state),
                ))
          | inr (r, e) ↦
              rw (ok, e, run_adaptive)
                (omega (arith, first, adaptive_loop-calls fuel r start ran.state))
        ]
      ]
