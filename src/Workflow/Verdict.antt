-- ===== src/Workflow/Verdict.antt =====
-- What every report satisfies that a stage writes: the route is the verdict's, and a PASS carries no
-- failed slice.
use first_agent_dev.Prelude.{
  ℕ, String, ◌≡◌, refl, Bool, Option, none, some, List, [], ◌∷◌, arith, filter,
}
use first_agent_dev.Hooks.Types.{Entries}
use first_agent_dev.Workflow.Artifacts.{
  EvalVerdict, RouteDecision, EvalReport, default_route_for_verdict,
}
use first_agent_dev.Workflow.Parse.{
  Patterns, parse_with, parse_eval_report, scan_verdict, agreed_route,
}
use first_agent_dev.Workflow.Slices.{is_fail, route_failures, cross_check, validate_slice_ids}
use first_agent_dev.Workflow.Controller.{Context, Progress, Env}
use first_agent_dev.Workflow.Stage.{build_report}

pub record IsConsistent (r : EvalReport) : Type 0 where
  pub route_of_verdict : r.route_decision ≡ default_route_for_verdict r.verdict

pub record HasNoFailure (r : EvalReport) : Type 0 where
  pub passed : r.verdict ≡ EvalVerdict.pass → filter is_fail r.step_results ≡ []

module _ (p : Patterns) (run_id plan_id evaluation_id : String) (plan_version : ℕ)
    (eval_independence : Option Entries) where
  agreed_route_lem :
      (o : Option RouteDecision) (d : RouteDecision)
      → agreed_route p run_id plan_id evaluation_id plan_version eval_independence o d ≡ d
  agreed_route_lem o d = ground arith

  parse_with-IsConsistent :
      (o : Option EvalVerdict) (s : String)
      → IsConsistent (parse_with p run_id plan_id evaluation_id plan_version eval_independence o s)
  unfolding parse_with default_route_for_verdict
  parse_with-IsConsistent none s = record { route_of_verdict = refl }
  parse_with-IsConsistent (some v) s = record { route_of_verdict = agreed_route_lem _ _ }

  -- An explicit route in the evaluator's text never overrides the verdict's own.
  pub parse_eval_report-IsConsistent :
      (s : String)
      → IsConsistent
          (parse_eval_report p run_id plan_id evaluation_id plan_version eval_independence s)
  unfolding parse_eval_report
  parse_eval_report-IsConsistent s = parse_with-IsConsistent (scan_verdict p s) s

filter-filter_nil :
    {A : Type 0} (f g : A → Bool) (xs : List A) → filter f xs ≡ [] → filter f (filter g xs) ≡ []
filter-filter_nil f g [] h = refl
filter-filter_nil f g (x ∷ xs) h = ground (arith, filter-filter_nil f g xs)

route_failures-IsConsistent : (r : EvalReport) → IsConsistent r → IsConsistent (route_failures r).0
unfolding route_failures
route_failures-IsConsistent r c = ground arith

failures_of_pass :
    (r : EvalReport)
    → (route_failures r).0.verdict ≡ EvalVerdict.pass
    → filter is_fail (route_failures r).0.step_results ≡ []
unfolding route_failures
failures_of_pass r h = ground arith

-- A PASS that reports a failed slice is routed back to the coder.
route_failures-HasNoFailure : (r : EvalReport) → HasNoFailure (route_failures r).0
route_failures-HasNoFailure r = record { passed = λ h. failures_of_pass r h }

module _ (canonical : String → String) where
  cross_check-IsConsistent :
      (declared : List String) (x : EvalReport × List String)
      → IsConsistent x.0
      → IsConsistent (cross_check canonical declared x).0
  unfolding cross_check
  cross_check-IsConsistent declared (r, ws) c = record { route_of_verdict = c.route_of_verdict }

  cross_check-HasNoFailure :
      (declared : List String) (x : EvalReport × List String)
      → HasNoFailure x.0
      → HasNoFailure (cross_check canonical declared x).0
  unfolding cross_check
  cross_check-HasNoFailure declared (r, ws) c = record {
    passed = λ h. filter-filter_nil is_fail _ r.step_results (c.passed h);
  }

  validate_slice_ids-IsConsistent :
      (r : EvalReport) (o : Option (List String))
      → IsConsistent r
      → IsConsistent (validate_slice_ids canonical r o).0
  unfolding validate_slice_ids
  validate_slice_ids-IsConsistent r none c = route_failures-IsConsistent r c
  validate_slice_ids-IsConsistent r (some []) c = route_failures-IsConsistent r c
  validate_slice_ids-IsConsistent r (some (d ∷ ds)) c =
      cross_check-IsConsistent (d ∷ ds) (route_failures r) (route_failures-IsConsistent r c)

  -- Q16: whatever the plan, a report that leaves the check as a PASS carries no failed slice.
  pub validate_slice_ids-HasNoFailure :
      (r : EvalReport) (o : Option (List String))
      → HasNoFailure (validate_slice_ids canonical r o).0
  unfolding validate_slice_ids
  validate_slice_ids-HasNoFailure r none = route_failures-HasNoFailure r
  validate_slice_ids-HasNoFailure r (some []) = route_failures-HasNoFailure r
  validate_slice_ids-HasNoFailure r (some (d ∷ ds)) =
      cross_check-HasNoFailure (d ∷ ds) (route_failures r) (route_failures-HasNoFailure r)

module _ {W : Type 0} (env : Env W) (ctx : Context) where
  pub build_report-IsConsistent :
      (t : String) (p : Progress) (w : W) → IsConsistent (build_report env ctx t p w)
  unfolding build_report
  build_report-IsConsistent t p w =
      validate_slice_ids-IsConsistent env.canonical_slice_id _ _
        (parse_eval_report-IsConsistent env.patterns _ _ _ _ _ t)

  pub build_report-HasNoFailure :
      (t : String) (p : Progress) (w : W) → HasNoFailure (build_report env ctx t p w)
  unfolding build_report
  build_report-HasNoFailure t p w = validate_slice_ids-HasNoFailure env.canonical_slice_id _ _
