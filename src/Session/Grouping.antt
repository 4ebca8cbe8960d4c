-- ===== src/Session/Grouping.antt =====
-- loop.py: the batches of a round are its calls in order, and each may run as one.
use first_agent_dev.Prelude.{
  String, ◌≡◌, refl, ap, ◌∙◌, Bool, true, not, ◌||◌, List, [], ◌∷◌, ◌++◌, length, flatten, all, leb,
  if_split, append_assoc, arith,
}
use first_agent_dev.Hooks.Types.{ToolCall}
use first_agent_dev.Session.Tools.{ToolRegistry}
use first_agent_dev.Session.Batches.{
  scope_of, collides, reserve, should_parallelize_tool_batch, is_parallelizable, classify_from,
  classify_batches,
}

module _ (parts : String → List String) {W : Type 0} (tools : ToolRegistry W) where
  -- what a loop that has `current` in hand gives back
  abbrev Returns : List ToolCall → List (List ToolCall) → Type 0
  Returns calls bs = flatten bs ≡ calls

  flatten-classify_from :
      (cs current : List ToolCall) (reserved : List (List String))
      → Returns (current ++ cs) (classify_from parts tools cs current reserved)
  unfolding classify_from
  flatten-classify_from [] [] reserved = refl
  flatten-classify_from [] (d ∷ ds) reserved = refl
  flatten-classify_from (c ∷ cs) [] reserved =
      if_split (Returns (c ∷ cs)) (is_parallelizable parts tools c)
        (λ _.
          if_split (Returns (c ∷ cs)) (collides parts (scope_of parts c) reserved)
            (λ _. flatten-classify_from cs (c ∷ []) (reserve parts (scope_of parts c)))
            (λ _. flatten-classify_from cs (c ∷ []) (reserved ++ reserve parts (scope_of parts c))))
        (λ _. ap (λ r. c ∷ r) (flatten-classify_from cs [] reserved))
  flatten-classify_from (c ∷ cs) (d ∷ ds) reserved =
      let all_calls = d ∷ ds ++ c ∷ cs in
      let scoped = scope_of parts c in
      let flush : Returns all_calls
          ((d ∷ ds) ∷ classify_from parts tools cs (c ∷ []) (reserve parts scoped)) =
        ap (λ r. d ∷ ds ++ r) (flatten-classify_from cs (c ∷ []) (reserve parts scoped)) in
      if_split (Returns all_calls) (not (is_parallelizable parts tools c))
        (λ _. ap (λ r. d ∷ ds ++ c ∷ r) (flatten-classify_from cs [] []))
        (λ _.
          if_split (Returns all_calls) (collides parts scoped reserved) (λ _. flush)
            (λ _.
              if_split (Returns all_calls)
                (should_parallelize_tool_batch parts tools (d ∷ ds ++ c ∷ []))
                (λ _.
                  flatten-classify_from cs (d ∷ ds ++ c ∷ []) (reserved ++ reserve parts scoped)
                  ∙ append_assoc (d ∷ ds) (c ∷ []) cs)
                (λ _. flush)))

  -- a batch of one call, or one that may run in parallel
  abbrev pub may_run : List ToolCall → Bool
  may_run b = leb (length b) 1 || should_parallelize_tool_batch parts tools b

  abbrev pub AllMayRun : List (List ToolCall) → Type 0
  AllMayRun bs = all may_run bs ≡ true

  classify_from-AllMayRun :
      (cs current : List ToolCall) (reserved : List (List String))
      → may_run current ≡ true
      → AllMayRun (classify_from parts tools cs current reserved)
  unfolding classify_from
  classify_from-AllMayRun [] [] reserved h = refl
  classify_from-AllMayRun [] (d ∷ ds) reserved h = rw h
  classify_from-AllMayRun (c ∷ cs) [] reserved h =
      if_split AllMayRun (is_parallelizable parts tools c)
        (λ _.
          if_split AllMayRun (collides parts (scope_of parts c) reserved)
            (λ _. classify_from-AllMayRun cs (c ∷ []) (reserve parts (scope_of parts c)) refl)
            (λ _.
              classify_from-AllMayRun cs (c ∷ []) (reserved ++ reserve parts (scope_of parts c))
                refl))
        (λ _. classify_from-AllMayRun cs [] reserved refl)
  classify_from-AllMayRun (c ∷ cs) (d ∷ ds) reserved h =
      let scoped = scope_of parts c in
      let started = classify_from-AllMayRun cs (c ∷ []) (reserve parts scoped) refl in
      if_split AllMayRun (not (is_parallelizable parts tools c))
        (λ _. rw (h, classify_from-AllMayRun cs [] [] refl))
        (λ _.
          if_split AllMayRun (collides parts scoped reserved) (λ _. rw (h, started))
            (λ _.
              if_split AllMayRun (should_parallelize_tool_batch parts tools (d ∷ ds ++ c ∷ []))
                (λ e.
                  classify_from-AllMayRun cs (d ∷ ds ++ c ∷ []) (reserved ++ reserve parts scoped)
                    (let k : may_run (d ∷ ds ++ c ∷ []) ≡ true = ground (arith, e) in k))
                (λ _. rw (h, started))))

  -- The batches of a round, one after the other, are its calls in their order: none is lost, repeated
  -- or moved.
  pub flatten-classify_batches :
      (calls : List ToolCall) → flatten (classify_batches parts tools calls) ≡ calls
  unfolding classify_batches
  flatten-classify_batches calls = flatten-classify_from calls [] []

  pub classify_batches-AllMayRun :
      (calls : List ToolCall) → AllMayRun (classify_batches parts tools calls)
  unfolding classify_batches
  classify_batches-AllMayRun calls = classify_from-AllMayRun calls [] [] refl
