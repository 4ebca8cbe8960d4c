-- ===== src/Observability/Totals.antt =====
-- observability/cost_guardian.py: the rollup is the sum of what was observed, whatever came between.
use mathlib.Core.Path.{subst}
use mathlib.Core.List.{map-append, append-nil}
use first_agent_dev.Prelude.{
  ℕ, ◌+◌, ◌≡◌, refl, sym, ap, ◌∙◌, Bool, true, false, Option, none, some, inl, inr, List, [], ◌∷◌,
  ◌++◌, length, map, if◌then◌else◌, Option-cases, append_assoc, arith,
}
use first_agent_dev.Hooks.Types.{
  LifecyclePoint, between_rounds, before_llm_call, after_llm_call, before_tool_exec,
  after_tool_exec, ToolResult, ToolCall, HookPayload,
}
use first_agent_dev.Observability.Cost.{
  Floats, Parsing, CostObservation, CostRollup, CostRow, CostGuardian, add_observation, observe_all,
  observe_cost, handle_cost,
}

-- the calls of `handle`, with the point and the payload of each
abbrev pub Events : Type 0
Events = List (LifecyclePoint × HookPayload)

module _ (F : Floats) where
  -- what the results of calls that have been made hold
  unfoldable pub observed_in :
      (ToolResult → List (CostObservation F)) → Option ToolResult → List (CostObservation F)
  observed_in extract none = []
  observed_in extract (some r) = extract r

  unfoldable pub observed_by :
      (ToolResult → List (CostObservation F)) → Events → List (CostObservation F)
  observed_by extract [] = []
  observed_by extract ((after_tool_exec, p) ∷ es) =
      observed_in extract p.tool_result ++ observed_by extract es
  observed_by extract ((_, p) ∷ es) = observed_by extract es

  unfoldable pub sum_of : (CostObservation F → ℕ) → List (CostObservation F) → ℕ
  sum_of f [] = 0
  sum_of f (o ∷ os) = f o + sum_of f os

  -- floating-point numbers are added in order
  unfoldable pub usd_of : F.Float → List (CostObservation F) → F.Float
  usd_of x [] = x
  usd_of x (o ∷ os) = usd_of (F.plus x o.usd) os

  -- The totals of observations on top of a rollup.
  unfoldable pub on_top : CostRollup F → List (CostObservation F) → CostRollup F
  unfolding sum_of usd_of
  on_top r os = record {
    tokens_in = r.tokens_in + sum_of (λ o. o.tokens_in) os;
    tokens_out = r.tokens_out + sum_of (λ o. o.tokens_out) os;
    usd = usd_of r.usd os;
    samples = r.samples + length os;
  }

  on_top-same :
      {i i' o o' n n' : ℕ} {u u' : F.Float}
      → i ≡ i'
      → o ≡ o'
      → u ≡ u'
      → n ≡ n'
      → ◌≡◌ {A = CostRollup F}
          (record { tokens_in = i; tokens_out = o; usd = u; samples = n })
          (record { tokens_in = i'; tokens_out = o'; usd = u'; samples = n' })
  on_top-same a b c d = cc

  on_top-nil : (r : CostRollup F) → on_top r [] ≡ r
  unfolding on_top
  on_top-nil r = on_top-same (omega arith) (omega arith) refl (omega arith)

  on_top-cons :
      (r : CostRollup F) (o : CostObservation F) (os : List (CostObservation F))
      → on_top (add_observation F o r) os ≡ on_top r (o ∷ os)
  unfolding on_top add_observation
  on_top-cons r o os = on_top-same (omega arith) (omega arith) refl (omega arith)

  on_top-append :
      (r : CostRollup F) (os ps : List (CostObservation F))
      → on_top (on_top r os) ps ≡ on_top r (os ++ ps)
  on_top-append r [] ps = ap (λ r'. on_top r' ps) (on_top-nil r)
  on_top-append r (o ∷ os) ps =
      ap (λ r'. on_top r' ps) (sym (on_top-cons r o os))
      ∙ on_top-append (add_observation F o r) os ps
      ∙ on_top-cons r o (os ++ ps)

  -- What a guardian has after it has seen some observations more.
  pub record Saw (g : CostGuardian F) (os : List (CostObservation F)) (g' : CostGuardian F)
      : Type 0 where
    pub rolled : g'.rollup ≡ on_top g.rollup os
    pub logged :
        map (λ (r : CostRow F). r.sample) g'.rows
        ≡ map (λ (r : CostRow F). r.sample) g.rows ++ (if g.has_log then os else [])
    pub same_budget : g'.budget_usd ≡ g.budget_usd
    pub same_log : g'.has_log ≡ g.has_log
    pub same_extractor : g'.extractor ≡ g.extractor

  logged_items : CostGuardian F → List (CostObservation F)
  logged_items g = map (λ (r : CostRow F). r.sample) g.rows

  append-if_nil : (xs : List (CostObservation F)) (b : Bool) → xs ≡ xs ++ (if b then [] else [])
  append-if_nil xs true = sym (append-nil xs)
  append-if_nil xs false = sym (append-nil xs)

  if-append :
      (xs os ps : List (CostObservation F)) (b : Bool)
      → xs ++ (if b then os else []) ++ (if b then ps else []) ≡ xs ++ (if b then os ++ ps else [])
  if-append xs os ps true = append_assoc xs os ps
  if-append xs os ps false = append_assoc xs [] []

  pub Saw-refl : (g : CostGuardian F) → Saw g [] g
  Saw-refl g = record {
    rolled = sym (on_top-nil g.rollup);
    logged = append-if_nil _ g.has_log;
    same_budget = refl;
    same_log = refl;
    same_extractor = refl;
  }

  pub Saw-trans :
      (g g' g'' : CostGuardian F) (os ps : List (CostObservation F))
      → Saw g os g'
      → Saw g' ps g''
      → Saw g (os ++ ps) g''
  Saw-trans g g' g'' os ps a b = record {
    rolled = b.rolled ∙ ap (λ r. on_top r ps) a.rolled ∙ on_top-append g.rollup os ps;
    logged =
        b.logged
        ∙ ap (λ h. map (λ (r : CostRow F). r.sample) g'.rows ++ (if h then ps else [])) a.same_log
        ∙ ap (λ xs. xs ++ (if g.has_log then ps else [])) a.logged
        ∙ if-append _ os ps g.has_log;
    same_budget = b.same_budget ∙ a.same_budget;
    same_log = b.same_log ∙ a.same_log;
    same_extractor = b.same_extractor ∙ a.same_extractor;
  }

  logged-one :
      (rows : List (CostRow F)) (row : CostRow F) (b : Bool)
      → map (λ (r : CostRow F). r.sample) (if b then rows ++ row ∷ [] else rows)
        ≡ map (λ (r : CostRow F). r.sample) rows ++ (if b then row.sample ∷ [] else [])
  logged-one rows row true = map-append _ rows (row ∷ [])
  logged-one rows row false = sym (append-nil _)

  pub observe_all-Saw :
      (c : Option ToolCall) (os : List (CostObservation F)) (g : CostGuardian F)
      → Saw g os (observe_all F c os g)
  unfolding observe_all
  observe_all-Saw c [] g = Saw-refl g
  observe_all-Saw c (o ∷ os) g =
      Saw-trans g _ _ (o ∷ []) os
        (record {
          rolled = sym (on_top-nil _) ∙ on_top-cons g.rollup o [];
          logged = logged-one g.rows _ g.has_log;
          same_budget = refl;
          same_log = refl;
          same_extractor = refl;
        })
        (observe_all-Saw c os _)

  observe_cost-Saw :
      (p : HookPayload) (g : CostGuardian F)
      → Saw g (observed_in g.extractor p.tool_result) (observe_cost F p g)
  unfolding observe_cost observed_in
  observe_cost-Saw p g = elim (Option-cases p.tool_result) [
    | inl n ↦ rw (n, observe_cost, observed_in) (Saw-refl g)
    | inr (r, e) ↦ rw (e, observe_cost, observed_in) (observe_all-Saw p.tool_call (g.extractor r) g)
  ]

  module _ (P : Parsing F) where
    -- the guardian after some calls of `handle`
    unfoldable pub after_events : Events → CostGuardian F → CostGuardian F
    after_events [] g = g
    after_events ((point, p) ∷ es) g = after_events es (handle_cost F P point p g).1

    -- Whatever was asked and observed in between, the rollup of a guardian has grown by the totals of
    -- all that the results of calls hold, in their order, and the log, if there is one, has a row for
    -- each.
    pub after_events-Saw :
        (es : Events) (g : CostGuardian F) → Saw g (observed_by g.extractor es) (after_events es g)
    unfolding after_events observed_by handle_cost
    after_events-Saw [] g = Saw-refl g
    after_events-Saw ((between_rounds, p) ∷ es) g = after_events-Saw es g
    after_events-Saw ((before_llm_call, p) ∷ es) g = after_events-Saw es g
    after_events-Saw ((after_llm_call, p) ∷ es) g = after_events-Saw es g
    after_events-Saw ((before_tool_exec, p) ∷ es) g = after_events-Saw es g
    after_events-Saw ((after_tool_exec, p) ∷ es) g =
        let first = observe_cost-Saw p g in
        Saw-trans g (observe_cost F p g) _ (observed_in g.extractor p.tool_result) _ first (
          subst
            (λ x.
              Saw (observe_cost F p g) (observed_by x es) (after_events es (observe_cost F p g)))
            first.same_extractor (after_events-Saw es (observe_cost F p g)))
