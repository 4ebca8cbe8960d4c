-- ===== src/Workflow/Coverage.antt =====
-- What the check of the slice ids leaves of a report, where the plan declares slices.
use mathlib.Core.Path.{subst}
use first_agent_dev.Prelude.{
  String, ◌≡◌, refl, ap, Bool, true, false, not, ◌||◌, some, List, [], ◌∷◌, any, map, filter,
  contains, str_eq, Bool-cases, inl, inr, if_split,
}
use first_agent_dev.Workflow.Artifacts.{StepResult, EvalReport}
use first_agent_dev.Workflow.Slices.{
  ids, named_in, kept, route_failures, cross_check, validate_slice_ids,
}

-- The second list is the first without those of its elements that fail a test, in the same order.
pub data Thinned {A : Type 0} (p : A → Bool) : List A → List A → Type 0 where
  nothing_left : Thinned p [] []
  stays : {x : A} {xs ys : List A} → p x ≡ true → Thinned p xs ys → Thinned p (x ∷ xs) (x ∷ ys)
  goes : {x : A} {xs ys : List A} → p x ≡ false → Thinned p xs ys → Thinned p (x ∷ xs) ys

filter-Thinned :
    {A : Type 0} (p q : A → Bool)
    → ((x : A) → p x ≡ q x)
    → (xs : List A) → Thinned q xs (filter p xs)
filter-Thinned p q same [] = nothing_left
filter-Thinned p q same (x ∷ xs) = elim (Bool-cases (p x)) [
  | inl y ↦ rw (y, filter) (stays (rw (same x) at y) (filter-Thinned p q same xs))
  | inr n ↦ rw (n, filter) (goes (rw (same x) at n) (filter-Thinned p q same xs))
]

-- An id is one of some others, in their canonical form.
abbrev pub is_one_of : (String → String) → List String → String → Bool
is_one_of canonical xs s = any (λ x. str_eq (canonical s) (canonical x)) xs

-- `steps` are the evaluator's. The report has those of them that are for a declared slice, all of
-- these, unchanged and in order, and lists as unreported, in order, just those declared slices that
-- none of its steps is for.
pub record Covers (canonical : String → String) (declared : List String) (steps : List StepResult)
    (r : EvalReport) : Type 0 where
  pub in_plan : Thinned (λ s. is_one_of canonical declared s.step_id) steps r.step_results
  pub missing :
      Thinned
        (λ d. not (is_one_of canonical (map (λ s. s.step_id) r.step_results) d))
        declared
        r.unreported_slices

module _ (canonical : String → String) where
  named_in-any :
      (s : String) (xs : List String) → named_in canonical xs s ≡ is_one_of canonical xs s
  unfolding contains
  named_in-any s [] = refl
  named_in-any s (x ∷ xs) = ap (λ b. str_eq (canonical s) (canonical x) || b) (named_in-any s xs)

  cross_check-Covers :
      (declared : List String) (x : EvalReport × List String)
      → Covers canonical declared x.0.step_results (cross_check canonical declared x).0
  unfolding cross_check
  cross_check-Covers declared (r, ws) = record {
    in_plan = filter-Thinned _ _ (λ s. named_in-any s.step_id declared) r.step_results;
    missing =
        filter-Thinned _ _
          (λ d. ap not (named_in-any d (ids (kept canonical declared r.step_results)))) declared;
  }

  route_failures-steps : (r : EvalReport) → (route_failures r).0.step_results ≡ r.step_results
  unfolding route_failures
  route_failures-steps r =
      if_split (λ (x : EvalReport × List String). x.0.step_results ≡ r.step_results) _ (λ _. refl)
        (λ _. refl)

  -- For a plan with at least one slice, whatever the evaluator reported, the checked report has
  -- exactly the evaluator's steps for slices of the plan, unchanged and in order, and lists as
  -- unreported exactly the slices of the plan that none of them is for. Ids are compared in their
  -- canonical form.
  pub validate_slice_ids-Covers :
      (r : EvalReport) (d : String) (ds : List String)
      → Covers canonical (d ∷ ds) r.step_results (validate_slice_ids canonical r (some (d ∷ ds))).0
  unfolding validate_slice_ids
  validate_slice_ids-Covers r d ds =
      subst
        (λ steps.
          Covers canonical (d ∷ ds) steps (cross_check canonical (d ∷ ds) (route_failures r)).0)
        (route_failures-steps r) (cross_check-Covers (d ∷ ds) (route_failures r))
