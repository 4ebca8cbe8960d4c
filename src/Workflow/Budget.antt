-- ===== src/Workflow/Budget.antt =====
-- The adaptive loop ends: every round spends a repair or a replan.
use first_agent_dev.Prelude.{
  ℕ, zero, suc, ◌+◌, ◌-◌, ◌<◌, ◌≡◌, refl, Bool, false, some, ◌⊎◌, inl, inr, List, String, arith,
  Bool-cases, Option-cases, ◌==◌,
}
use first_agent_dev.Workflow.Artifacts.{EvalReport}
use first_agent_dev.Workflow.Controller.{Role, Context, Progress, start, Env, State}
use first_agent_dev.Workflow.Routes.{Move, halt, again, next_move, canonical_loop_roles}
use first_agent_dev.Workflow.Modes.{
  Done, finish_unjudged, rounds, latest, stop, run_stages, run_initial_roles, adaptive_loop,
  run_adaptive,
}

-- the rounds that are left
abbrev pub left : ℕ → ℕ → Progress → ℕ
left max_repairs max_replans p = (max_repairs - p.repair_round) + (max_replans - p.replan_round)

pub Move-cases :
    (m : Move)
    → ((reason : String) × (m ≡ halt reason))
      ⊎ ((b : Bool) × (p : Progress) × (q : ℕ → Role → String) × (m ≡ again b p q))
Move-cases (halt reason) = inl (reason, refl)
Move-cases (again b p q) = inr (b, p, q, refl)

pub next_move-left :
    (roles : List Role) (max_repairs max_replans : ℕ) (r : EvalReport) (p : Progress) {b : Bool}
    {p' : Progress} {q : ℕ → Role → String}
    → next_move roles max_repairs max_replans r p ≡ again b p' q
    → left max_repairs max_replans p' < left max_repairs max_replans p
unfolding next_move
next_move-left roles max_repairs max_replans r p h = ground arith

module _ {W : Type 0} (env : Env W) (ctx : Context) (roles : List Role)
    (max_repairs max_replans : ℕ) where
  adaptive_loop-total :
      (f : ℕ) (r : EvalReport) (p : Progress) (s : State W)
      → left max_repairs max_replans p < f
      → (d : Done W) × (adaptive_loop env ctx f roles max_repairs max_replans r p s ≡ some d)
  unfolding adaptive_loop
  adaptive_loop-total zero r p s h = elim h [ ]
  adaptive_loop-total (suc f) r p s h =
      elim (Move-cases (next_move roles max_repairs max_replans r p)) [
        | inl (reason, e) ↦ (stop env ctx r p reason s, rw (e, adaptive_loop))
        | inr (b, p', q, e) ↦
            let ran = run_stages env ctx (canonical_loop_roles roles b) 0 false p' q (some r) s in
            elim (Bool-cases (ran.code == 0)) [
              | inl ok ↦
                  rw (e, ok, adaptive_loop)
                    (adaptive_loop-total f (latest ran.report r) p' ran.state
                      (omega (arith, next_move-left roles max_repairs max_replans r p e)))
              | inr bad ↦
                  (record { code = ran.code; state = ran.state }, rw (e, bad, adaptive_loop))
            ]
      ]

  -- With the fuel `rounds max_repairs max_replans` the adaptive pipeline always finishes, whatever
  -- the stages return.
  pub run_adaptive-total :
      (s : State W)
      → (d : Done W) × (run_adaptive env ctx
            (rounds max_repairs max_replans)
            roles
            max_repairs
            max_replans
            s
          ≡ some d)
  unfolding run_adaptive
  run_adaptive-total s =
      let ran = run_initial_roles env ctx roles s in
      elim (Bool-cases (ran.code == 0)) [
        | inr bad ↦ (record { code = ran.code; state = ran.state }, rw (bad, run_adaptive))
        | inl ok ↦ elim (Option-cases ran.report) [
          | inl e ↦ (
            finish_unjudged env ctx "adaptive workflow completed without eval stage" roles
                ran.state,
            rw (ok, e, run_adaptive),
          )
          | inr (r, e) ↦
              rw (ok, e, run_adaptive)
                (adaptive_loop-total (rounds max_repairs max_replans) r start ran.state
                  (omega arith))
        ]
      ]
