-- ===== src/Workflow/Slices.antt =====
-- workflow_controller.py: `validate_slice_ids`, the check of the evaluator's slice ids against the
-- plan. `canonical` stands for `canonical_slice_id` of plan_ids.py, and `declared` for the slices
-- that are read off the plan, `none` where there is no plan.
use first_agent_dev.Prelude.{
  String, Bool, true, false, not, ◌&&◌, Option, none, some, List, [], ◌∷◌, ◌++◌, map, contains,
  concat, filter, if◌then◌else◌,
}
use first_agent_dev.Workflow.Artifacts.{
  EvalVerdict, StepVerdict, StepResult, EvalReport, default_route_for_verdict,
}

-- `", ".join(xs)`
pub join_comma : List String → String
join_comma [] = ""
join_comma (x ∷ []) = x
join_comma (x ∷ y ∷ r) = concat (x ∷ ", " ∷ join_comma (y ∷ r) ∷ [])

abbrev pub is_fail : StepResult → Bool
is_fail s = elim s.verdict [ StepVerdict.fail ↦ true | _ ↦ false ]

abbrev pub is_pass : EvalVerdict → Bool
is_pass EvalVerdict.pass = true
is_pass _ = false

abbrev pub ids : List StepResult → List String
ids = map (λ s. s.step_id)

-- Q16: a per-slice failure turns a PASS into REPAIR_REQUIRED.
abbrev pub failed_ids : EvalReport → List String
failed_ids r = ids (filter is_fail r.step_results)

abbrev pub nonempty {ℓ} : {A : Type ℓ} → List A → Bool
nonempty [] = false
nonempty (_ ∷ _) = true

unfoldable pub route_failures : EvalReport → EvalReport × List String
unfolding default_route_for_verdict join_comma
route_failures r =
    if nonempty (failed_ids r) && is_pass r.verdict
    then (
      record r {
        verdict = EvalVerdict.repair_required;
        route_decision = default_route_for_verdict EvalVerdict.repair_required;
        summary =
            concat (
              "per-slice failure reported for "
              ∷ join_comma (failed_ids r)
              ∷ ": "
              ∷ r.summary
              ∷ []);
      },
      concat (
            "eval returned PASS while reporting per-slice failure(s): "
            ∷ join_comma (failed_ids r)
            ∷ "; routing to REPAIR_REQUIRED (Q16)"
            ∷ [])
          ∷ [],
    )
    else (r, [])

module _ (canonical : String → String) where
  -- `canonical_slice_id(s) in {canonical_slice_id(x) for x in xs}`
  abbrev pub named_in : List String → String → Bool
  named_in xs s = contains (canonical s) (map canonical xs)

  abbrev pub kept : List String → List StepResult → List StepResult
  kept declared = filter (λ s. named_in declared s.step_id)

  abbrev pub invented : List String → List StepResult → List StepResult
  invented declared = filter (λ s. not (named_in declared s.step_id))

  abbrev pub unreported : List String → List StepResult → List String
  unreported declared steps = filter (λ d. not (named_in (ids (kept declared steps)) d)) declared

  abbrev warn : String → List String → List String
  warn label [] = []
  warn label (x ∷ xs) = concat (label ∷ join_comma (x ∷ xs) ∷ []) ∷ []

  -- the cross-check against the plan's slices
  unfoldable pub cross_check : List String → EvalReport × List String → EvalReport × List String
  unfolding join_comma
  cross_check declared (r, warnings) = (
    record r {
      step_results = kept declared r.step_results;
      unreported_slices = unreported declared r.step_results;
    },
    warnings
        ++ warn "eval reported slice id(s) absent from the plan, dropped: "
            (ids (invented declared r.step_results))
        ++ warn "plan slice(s) with no eval verdict: " (unreported declared r.step_results),
  )

  unfoldable pub validate_slice_ids : EvalReport → Option (List String) → EvalReport × List String
  unfolding route_failures cross_check
  validate_slice_ids r none = route_failures r
  validate_slice_ids r (some []) = route_failures r
  validate_slice_ids r (some (d ∷ ds)) = cross_check (d ∷ ds) (route_failures r)
