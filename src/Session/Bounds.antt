-- ===== src/Session/Bounds.antt =====
-- loop.py: how many results a round has.
use mathlib.Core.Path.{subst}
use first_agent_dev.Prelude.{
  ℕ, suc, ◌+◌, ◌-◌, ◌≤◌, ◌<◌, min, String, ◌≡◌, refl, ap, true, false, ◌||◌, not, ◌⊎◌, inl, inr,
  Option, none, some, is_some, List, [], ◌∷◌, ◌++◌, length, take, flatten, map, length-append,
  length-take, leb, ltb, Bool-cases, Option-cases, if_split, leb→le, arith, ◌==◌, ◌&&◌,
}
use first_agent_dev.Hooks.Types.{Result, ok, raise, ToolResult, ToolCall, HookPayload}
use first_agent_dev.Hooks.Registry.{Run}
use first_agent_dev.Session.Types.{
  StopInfo, Session, Tried, returned, refused, crashed, commit_search_paths,
}
use first_agent_dev.Session.Batches.{should_parallelize_tool_batch}
use first_agent_dev.Session.Grouping.{flatten-classify_batches}
use first_agent_dev.Session.Execute.{Outcome, Setting}
use first_agent_dev.Session.Parallel.{Pool}
use first_agent_dev.Session.Run.{
  SessionRun, Limits, on_one, run_sequential, on_batch, on_gate, run_batches, cap, on_loop,
  batches_of, with_sink, run_session, run_round,
}
use first_agent_dev.Session.Counts.{IfOk, HasAll, execute_batch_parallel-HasAll}

-- a count that is as large as it may be and does not pass the test for the cap
not_capped :
    (limit n used : ℕ) → leb limit used && ltb used n ≡ false → used ≡ min limit n → used ≡ n
not_capped limit n used h e = ground arith

flatten-singletons : (cs : List ToolCall) → flatten (map (λ c. c ∷ []) cs) ≡ cs
flatten-singletons [] = refl
flatten-singletons (c ∷ cs) = ap (λ r. c ∷ r) (flatten-singletons cs)

module _ {U : Type 0} (setting : Setting U) where
  -- A round that may have `bound` results at most has no more, and has as many unless it stops.
  abbrev Bounded : ℕ → SessionRun → Type 0
  Bounded bound run =
      (length run.results ≤ bound) × ((is_some run.stop ≡ true) ⊎ (length run.results ≡ bound))

  abbrev IsBounded : ℕ → Outcome U SessionRun → Type 0
  IsBounded bound o = IfOk (Bounded bound) o.0

  abbrev Rest : Type 0
  Rest = List ToolResult → Run (Session U) → Outcome U SessionRun

  module _ (parts : String → List String) (pool : Pool U) where
    -- what is asked of the rest of a round when it has `n` results
    abbrev GoesOn : ℕ → ℕ → Rest → Type 0
    GoesOn bound n rest =
        (rs : List ToolResult) (s : Run (Session U)) → length rs ≡ n → IsBounded bound (rest rs s)

    on_one-IsBounded :
        (bound n : ℕ) (rest : Rest) (results : List ToolResult)
        (o : Outcome U (ToolResult × Option StopInfo))
        → length results ≡ n
        → n < bound
        → GoesOn bound (suc n) rest
        → IsBounded bound (on_one parts pool setting rest results o)
    unfolding on_one
    on_one-IsBounded bound n rest results (raise e, s) e1 h k = tt
    on_one-IsBounded bound n rest results (ok (r, none), s) e1 h k =
        k (results ++ r ∷ []) s (omega (arith, length-append results (r ∷ [])))
    on_one-IsBounded bound n rest results (ok (r, some stop), s) e1 h k =
        (omega (arith, length-append results (r ∷ [])), inl refl)

    run_sequential-IsBounded :
        (bound n : ℕ) (rest : Rest) (cs : List ToolCall) (results : List ToolResult)
        (s : Run (Session U))
        → length results ≡ n
        → n + length cs ≤ bound
        → GoesOn bound (n + length cs) rest
        → IsBounded bound (run_sequential parts pool setting rest cs results s)
    unfolding run_sequential
    run_sequential-IsBounded bound n rest [] results s e h k =
        k results (commit_search_paths s) (omega arith)
    run_sequential-IsBounded bound n rest (c ∷ cs) results s e h k =
        on_one-IsBounded bound n (run_sequential parts pool setting rest cs) results _ e
          (omega arith)
          (λ rs s' e'.
            run_sequential-IsBounded bound (suc n) rest cs rs s' e' (omega arith)
              (λ rs' s'' e''. k rs' s'' (omega arith)))

    on_batch-IsBounded :
        (bound n m : ℕ) (rest : Rest) (results : List ToolResult)
        (o : Outcome U (List ToolResult × Option StopInfo))
        → length results ≡ n
        → HasAll setting m o
        → n + m ≤ bound
        → GoesOn bound (n + m) rest
        → IsBounded bound (on_batch parts pool setting rest results o)
    unfolding on_batch
    on_batch-IsBounded bound n m rest results (raise e, s) e1 h l k = tt
    on_batch-IsBounded bound n m rest results (ok (rs, none), s) e1 h l k =
        k (results ++ rs) (commit_search_paths s) (omega (arith, length-append results rs))
    on_batch-IsBounded bound n m rest results (ok (rs, some stop), s) e1 h l k =
        (omega (arith, length-append results rs), inl refl)

    on_gate-IsBounded :
        (bound n : ℕ) (rest : Rest) (batch : List ToolCall) (results : List ToolResult)
        (t : Tried HookPayload × Run (Session U))
        → length results ≡ n
        → n + length batch ≤ bound
        → GoesOn bound (n + length batch) rest
        → IsBounded bound (on_gate parts pool setting rest batch results t)
    unfolding on_gate
    on_gate-IsBounded bound n rest batch results (crashed e, s) e1 h k = tt
    on_gate-IsBounded bound n rest batch results (refused reason, s) e1 h k =
        (omega arith, inl refl)
    on_gate-IsBounded bound n rest batch results (returned p, s) e1 h k =
        if_split (IsBounded bound)
          ((length batch == 1) || not (should_parallelize_tool_batch parts setting.tools batch))
          (λ _. run_sequential-IsBounded bound n rest batch results s e1 h k)
          (λ _.
            on_batch-IsBounded bound n (length batch) rest results _ e1
              (execute_batch_parallel-HasAll setting pool batch s) h k)

    run_batches-IsBounded :
        (limit n : ℕ) (bs : List (List ToolCall)) (results : List ToolResult) (s : Run (Session U))
        → length results ≡ n
        → n ≤ limit
        → IsBounded
            (min limit (n + length (flatten bs)))
            (run_batches parts pool setting limit bs results s)
    unfolding run_batches
    run_batches-IsBounded limit n [] results s e h = (omega arith, inr (omega arith))
    run_batches-IsBounded limit n (b ∷ bs) results s e h =
        let total = length-append b (flatten bs) in
        if_split (IsBounded (min limit (n + length (flatten (b ∷ bs)))))
          (leb limit (length results))
          (λ y. (
            omega (arith, leb→le limit (length results) y),
            inr (omega (arith, leb→le limit (length results) y)),
          ))
          (λ y.
            let batch = take (limit - length results) b in
            let size = length-take (limit - length results) b in
            on_gate-IsBounded _ n (run_batches parts pool setting limit bs) batch results _ e
              (omega arith)
              (λ rs s' e'.
                let k = run_batches-IsBounded limit (n + length batch) bs rs s' e' (omega arith) in
                let same : min limit (n + length batch + length (flatten bs))
                    ≡ min limit (n + length (flatten (b ∷ bs))) =
                  omega arith in
                subst (λ x. IsBounded x (run_batches parts pool setting limit bs rs s')) same k))

    -- what the test after the loop leaves
    cap-IsBounded :
        (limit n_calls : ℕ) (run : SessionRun) (s : Run (Session U))
        → Bounded (min limit n_calls) run
        → IfOk
            (λ r.
              (length r.results ≤ limit)
              × (length r.results ≤ n_calls)
              × ((is_some r.stop ≡ true) ⊎ (length r.results ≡ n_calls)))
            (cap parts pool setting limit n_calls run s).0
    unfolding cap
    cap-IsBounded limit n_calls run s (h, k) = elim (Option-cases run.stop) [
      | inr (stop, e) ↦ rw (e, cap) (omega arith, omega arith, inl (ap is_some e))
      | inl e ↦
          rw (e, cap)
            (elim (Bool-cases
              (leb limit (length run.results) && ltb (length run.results) n_calls)) [
                | inl y ↦ rw y (omega arith, omega arith, inl refl)
                | inr n ↦ rw n (
                  omega arith,
                  omega arith,
                  elim k [
                    | inl q ↦ inl q
                    | inr q ↦ inr (not_capped limit n_calls (length run.results) n q)
                  ],
                )
              ])
    ]

    -- What a round of calls has come to, when it has ended.
    abbrev Counted : ℕ → ℕ → SessionRun → Type 0
    Counted limit n_calls r =
        (length r.results ≤ limit)
        × (length r.results ≤ n_calls)
        × ((is_some r.stop ≡ true) ⊎ (length r.results ≡ n_calls))

    on_loop-Counted :
        (limit n_calls : ℕ) (o : Outcome U SessionRun)
        → IsBounded (min limit n_calls) o
        → IfOk (Counted limit n_calls) (on_loop parts pool setting limit n_calls o).0
    unfolding on_loop
    on_loop-Counted limit n_calls (raise e, s) h = tt
    on_loop-Counted limit n_calls (ok run, s) h = cap-IsBounded limit n_calls run s h

    flatten-batches_of :
        (limits : Limits) (calls : List ToolCall)
        → flatten (batches_of parts pool setting limits calls) ≡ calls
    unfolding batches_of
    flatten-batches_of limits calls =
        if_split (λ bs. flatten bs ≡ calls) limits.tool_batching_enabled
          (λ _. flatten-classify_batches parts setting.tools calls) (λ _. flatten-singletons calls)

    run_round-Counted :
        (limits : Limits) (calls : List ToolCall) (s : Run (Session U))
        → IfOk
            (Counted limits.max_iterations (length calls))
            (run_round parts pool setting limits calls s).0
    run_round-Counted limits calls s =
        let bs = batches_of parts pool setting limits calls in
        let same : length (flatten bs) ≡ length calls =
          ap length (flatten-batches_of limits calls) in
        let all_calls : 0 + length (flatten bs) ≡ length calls = omega arith in
        on_loop-Counted limits.max_iterations (length calls) _ (
          subst
            (λ n.
              IsBounded (min limits.max_iterations n)
                (run_batches parts pool setting limits.max_iterations bs [] s))
            all_calls (run_batches-IsBounded limits.max_iterations 0 bs [] s refl (omega arith)))

IfOk-ok : {A : Type 0} (P : A → Type 0) (r : Result A) {a : A} → r ≡ ok a → IfOk P r → P a
IfOk-ok P r e h = subst (IfOk P) e h

-- A round that returns has at most one result for each of its calls and at most as many as the
-- iteration limit allows, and it has one for every call unless it says why it stopped.
pub length-run_session :
    {U : Type 0} (parts : String → List String) (pool : Pool U) (setting : Setting U)
    (limits : Limits) (calls : List ToolCall) (s : Run (Session U)) {run : SessionRun}
    → (run_session parts pool setting limits calls s).0 ≡ ok run
    → (length run.results ≤ limits.max_iterations)
      × (length run.results ≤ length calls)
      × ((is_some run.stop ≡ true) ⊎ (length run.results ≡ length calls))
unfolding run_session
length-run_session parts pool setting limits calls s {run} h =
    IfOk-ok (Counted setting parts pool limits.max_iterations (length calls)) _ h
      (run_round-Counted (with_sink setting) parts pool limits calls s)
