-- ===== src/Observability/Overdrawn.antt =====
-- observability/cost_guardian.py: once over the budget, every call is denied.
use mathlib.Core.Path.{subst, subst⁻¹}
use first_agent_dev.Prelude.{
  ℤ, pos, negsuc, String, ◌≡◌, ◌≢◌, refl, ap, ◌∙◌, Bool, true, Option, none, some, List, [], ◌∷◌,
  ◌++◌, all, Bool-cases, Option-cases, arith, truthy, truthy-concat, and_true, some_inj, inl, inr,
}
use first_agent_dev.Hooks.Types.{
  ok, before_tool_exec, between_rounds, before_llm_call, after_llm_call, after_tool_exec,
  ToolResult, HookPayload, deny, deny_with,
}
use first_agent_dev.Hooks.Cases.{ok_inj, Result-cases}
use first_agent_dev.Observability.Cost.{
  Floats, Parsing, CostObservation, CostRollup, CostGuardian, is_amount, new_observation,
  parse_numbers, parse_artifact, extract_from, default_cost_extractor, over_budget_reason,
  gate_cost, handle_cost,
}
use first_agent_dev.Observability.Totals.{
  Events, observed_in, observed_by, usd_of, on_top, after_events, after_events-Saw,
}

all-append {ℓ} :
    {A : Type ℓ} (p : A → Bool) (xs ys : List A)
    → all p xs ≡ true
    → all p ys ≡ true
    → all p (xs ++ ys) ≡ true
all-append p [] ys h k = k
all-append p (x ∷ xs) ys h k = ground (arith, all-append p xs ys)

no_empty : ◌≢◌ {A = String} "CostGuardian: session usd " ""
no_empty h = cc

module _ (F : Floats) where
  abbrev are_amounts : List (CostObservation F) → Bool
  are_amounts os = all (λ (o : CostObservation F). is_amount F o.usd) os

  module _ (P : Parsing F) where
    new_observation-amount :
        (i o : ℤ) (usd : F.Float) {x : CostObservation F}
        → new_observation F i o usd ≡ ok x
        → is_amount F x.usd ≡ true
    unfolding new_observation
    new_observation-amount (negsuc i) o usd h = cc
    new_observation-amount (pos i) (negsuc o) usd h = cc
    new_observation-amount (pos i) (pos o) usd h = elim (Bool-cases (F.is_finite usd)) [
      | inr n ↦ cc (rw (n, new_observation) at h)
      | inl y ↦ elim (Bool-cases (F.greater F.zero usd)) [
        | inl g ↦ cc (rw (y, g, new_observation) at h)
        | inr g ↦
            subst (λ u. is_amount F u ≡ true)
              (ap (λ (x : CostObservation F). x.usd) (ok_inj (rw (y, g, new_observation) at h)))
              (rw (y, g) refl)
      ]
    ]

    parse_numbers-amount :
        (i o : Option ℤ) (usd : Option F.Float) {x : CostObservation F}
        → parse_numbers F P i o usd ≡ some x
        → is_amount F x.usd ≡ true
    unfolding parse_numbers
    parse_numbers-amount none o usd h = cc
    parse_numbers-amount (some i) none usd h = cc
    parse_numbers-amount (some i) (some o) none h = cc
    parse_numbers-amount (some i) (some o) (some usd) h =
        elim (Result-cases (new_observation F i o usd)) [
          | inr (e, q) ↦ cc (rw q at h)
          | inl (x, q) ↦
              subst (λ (y : CostObservation F). is_amount F y.usd ≡ true) (some_inj (rw q at h))
                (new_observation-amount i o usd q)
        ]

    parse_artifact-amount :
        (body : String) {x : CostObservation F}
        → parse_artifact F P body ≡ some x
        → is_amount F x.usd ≡ true
    unfolding parse_artifact
    parse_artifact-amount body h = parse_numbers-amount _ _ _ h

    extract_from-amounts :
        (artifacts : List String) → are_amounts (extract_from F P artifacts) ≡ true
    unfolding extract_from
    extract_from-amounts [] = refl
    extract_from-amounts (raw ∷ r) = elim (Option-cases (P.without_prefix raw)) [
      | inl n ↦ rw (n, extract_from) (extract_from-amounts r)
      | inr (body, e) ↦ elim (Option-cases (parse_artifact F P body)) [
        | inl n ↦ rw (e, n, extract_from) (extract_from-amounts r)
        | inr (o, q) ↦
            rw (e, q, extract_from) (rw (parse_artifact-amount body q, extract_from-amounts r) refl)
      ]
    ]

    -- What the extractor takes from artifacts are finite amounts that are not negative.
    pub default_cost_extractor-amounts :
        (r : ToolResult) → are_amounts (default_cost_extractor F P r) ≡ true
    unfolding default_cost_extractor
    default_cost_extractor-amounts r = extract_from-amounts r.artifacts

  module _ (extract : ToolResult → List (CostObservation F))
      (amounts : (r : ToolResult) → are_amounts (extract r) ≡ true) where
    observed_in-amounts : (r : Option ToolResult) → are_amounts (observed_in F extract r) ≡ true
    unfolding observed_in
    observed_in-amounts none = refl
    observed_in-amounts (some r) = amounts r

    observed_by-amounts : (es : Events) → are_amounts (observed_by F extract es) ≡ true
    unfolding observed_by
    observed_by-amounts [] = refl
    observed_by-amounts ((between_rounds, p) ∷ es) = observed_by-amounts es
    observed_by-amounts ((before_llm_call, p) ∷ es) = observed_by-amounts es
    observed_by-amounts ((after_llm_call, p) ∷ es) = observed_by-amounts es
    observed_by-amounts ((before_tool_exec, p) ∷ es) = observed_by-amounts es
    observed_by-amounts ((after_tool_exec, p) ∷ es) =
        all-append _ (observed_in F extract p.tool_result) _ (observed_in-amounts p.tool_result)
          (observed_by-amounts es)

  module _
      (grows : (a b c : F.Float)
        → F.greater a b ≡ true
        → is_amount F c ≡ true
        → F.greater (F.plus a c) b ≡ true) where
    usd_of-greater :
        (a b : F.Float) (os : List (CostObservation F))
        → F.greater a b ≡ true
        → are_amounts os ≡ true
        → F.greater (usd_of F a os) b ≡ true
    unfolding usd_of
    usd_of-greater a b [] h k = h
    usd_of-greater a b (o ∷ os) h k =
        let (x, y) = and_true (is_amount F o.usd) (are_amounts os) k in
        usd_of-greater (F.plus a o.usd) b os (grows a b o.usd h x) y

    on_top-greater :
        (g : CostGuardian F) (budget : F.Float) (os : List (CostObservation F))
        → F.greater g.rollup.usd budget ≡ true
        → are_amounts os ≡ true
        → F.greater (on_top F g.rollup os).usd budget ≡ true
    unfolding on_top
    on_top-greater g budget os h k = usd_of-greater g.rollup.usd budget os h k

  module _ (P : Parsing F) where
    gate_cost-deny :
        (g : CostGuardian F) (p : HookPayload) (budget : F.Float)
        → g.budget_usd ≡ some budget
        → F.greater budget F.zero ≡ true
        → F.greater g.rollup.usd budget ≡ true
        → gate_cost F P p g
          ≡ ok (record {
            action = deny;
            reason = over_budget_reason F P p.tool_call budget g.rollup;
            payload = none;
          })
    unfolding gate_cost deny_with
    gate_cost-deny g p budget b z h =
        let told : truthy (over_budget_reason F P p.tool_call budget g.rollup) ≡ true =
          truthy-concat "CostGuardian: session usd " _ no_empty in
        rw (b, z, h, gate_cost) (rw (told, deny_with) refl)

    -- Once what the calls have cost is over a budget that is set, every later call is denied, whatever
    -- is asked and observed in between, where the extractor gives amounts that are not negative and
    -- adding such an amount to a number over the budget gives one over it.
    pub overdrawn-deny :
        (grows : (a b c : F.Float)
          → F.greater a b ≡ true
          → is_amount F c ≡ true
          → F.greater (F.plus a c) b ≡ true)
        (g : CostGuardian F) (amounts : (r : ToolResult) → are_amounts (g.extractor r) ≡ true)
        (budget : F.Float) (es : Events) (p : HookPayload)
        → g.budget_usd ≡ some budget
        → F.greater budget F.zero ≡ true
        → F.greater g.rollup.usd budget ≡ true
        → (reason : String) × ((handle_cost F P before_tool_exec p (after_events F P es g)).0
            ≡ ok (record { action = deny; reason = reason; payload = none }))
    unfolding handle_cost
    overdrawn-deny grows g amounts budget es p b z h =
        let g' = after_events F P es g in
        let saw = after_events-Saw F P es g in
        let over : F.greater g'.rollup.usd budget ≡ true =
          subst⁻¹ (λ (r : CostRollup F). F.greater r.usd budget ≡ true) saw.rolled
            (on_top-greater grows g budget _ h (observed_by-amounts g.extractor amounts es)) in
        (_, gate_cost-deny g' p budget (saw.same_budget ∙ b) z over)
