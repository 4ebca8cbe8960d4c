-- ===== src/Session/SafeRun.antt =====
-- loop.py: a whole round keeps what the tools keep on checked payloads.
use first_agent_dev.Prelude.{
  ℕ, ◌-◌, String, ◌≡◌, ◌||◌, not, ◌⊎◌, inl, inr, Option, none, some, List, [], ◌∷◌, length, take,
  leb, ltb, ◌&&◌, if_split, ◌==◌, Option-cases,
}
use first_agent_dev.Hooks.Types.{
  ok, raise, LifecyclePoint, between_rounds, before_tool_exec, ToolResult, ToolCall, HookPayload,
  allow, deny, Decision,
}
use first_agent_dev.Hooks.Registry.{Run}
use first_agent_dev.Hooks.Recheck.{HasCheckerIn}
use first_agent_dev.Hooks.Keeps.{AllKeepers, SinkKeeps}
use first_agent_dev.Session.Types.{
  StopInfo, Session, Tried, returned, refused, crashed, append, count_batch,
}
use first_agent_dev.Session.Tools.{run_tool}
use first_agent_dev.Session.Batches.{should_parallelize_tool_batch}
use first_agent_dev.Session.Execute.{Outcome, Setting, new_payload, try_hooks}
use first_agent_dev.Session.Parallel.{Pool}
use first_agent_dev.Session.Run.{
  SessionRun, Limits, on_one, run_sequential, on_batch, on_gate, run_batches, cap, on_loop,
  batches_of, with_sink, run_session, run_round, hook_decision_sink,
}
use first_agent_dev.Session.Safe.{
  Kept, stop_at-Kept, commit_search_paths-Kept, count_batch-Kept, try_hooks-Kept,
  execute_one_sequential-Kept,
}
use first_agent_dev.Session.SafeBatch.{OnlyRuns, execute_batch_parallel-Kept}

module _ {U : Type 0} (setting : Setting U) (Inv : U → Type 0)
    (sinks : SinkKeeps (λ (w : Session U). Inv w.rest) setting.hooks.event_sink)
    (keepers : (point : LifecyclePoint)
      → AllKeepers (λ (w : Session U). Inv w.rest) (setting.hooks.chains point))
    (decide : HookPayload → Decision)
    (yes_or_no : (p : HookPayload) → ((decide p).action ≡ allow) ⊎ ((decide p).action ≡ deny))
    (checked : HasCheckerIn
      (λ (w : Session U). Inv w.rest)
      decide
      (setting.hooks.chains before_tool_exec))
    (tools : (p : HookPayload) (c : ToolCall) (w : Session U)
      → p.tool_call ≡ some c
      → (decide p).action ≡ allow
      → Inv w.rest
      → Inv (run_tool setting.tools c w).1.rest) where
  abbrev Kept' : Run (Session U) → Type 0
  Kept' = Kept setting Inv

  module _ (parts : String → List String) (pool : Pool U) (only : OnlyRuns pool) where
    abbrev Rest : Type 0
    Rest = List ToolResult → Run (Session U) → Outcome U SessionRun

    abbrev RestKept : Rest → Type 0
    RestKept rest = (rs : List ToolResult) (s : Run (Session U)) → Kept' s → Kept' (rest rs s).1

    on_one-Kept :
        (rest : Rest) (results : List ToolResult) (o : Outcome U (ToolResult × Option StopInfo))
        → RestKept rest
        → Kept' o.1
        → Kept' (on_one parts pool setting rest results o).1
    unfolding on_one
    on_one-Kept rest results (raise e, s) k h = h
    on_one-Kept rest results (ok (r, none), s) k h = k _ s h
    on_one-Kept rest results (ok (r, some stop), s) k h = h

    run_sequential-Kept :
        (rest : Rest) (cs : List ToolCall)
        → RestKept rest
        → RestKept (run_sequential parts pool setting rest cs)
    unfolding run_sequential
    run_sequential-Kept rest [] k results s h =
        k results _ (commit_search_paths-Kept setting Inv s h)
    run_sequential-Kept rest (c ∷ cs) k results s h =
        on_one-Kept (run_sequential parts pool setting rest cs) results _
          (run_sequential-Kept rest cs k)
          (execute_one_sequential-Kept setting Inv sinks keepers decide yes_or_no checked tools c s
            h)

    on_batch-Kept :
        (rest : Rest) (results : List ToolResult)
        (o : Outcome U (List ToolResult × Option StopInfo))
        → RestKept rest
        → Kept' o.1
        → Kept' (on_batch parts pool setting rest results o).1
    unfolding on_batch
    on_batch-Kept rest results (raise e, s) k h = h
    on_batch-Kept rest results (ok (r, none), s) k h =
        k _ _ (commit_search_paths-Kept setting Inv s h)
    on_batch-Kept rest results (ok (r, some stop), s) k h = h

    on_gate-Kept :
        (rest : Rest) (batch : List ToolCall) (results : List ToolResult)
        (t : Tried HookPayload × Run (Session U))
        → RestKept rest
        → Kept' t.1
        → Kept' (on_gate parts pool setting rest batch results t).1
    unfolding on_gate
    on_gate-Kept rest batch results (crashed e, s) k h = h
    on_gate-Kept rest batch results (refused reason, s) k h =
        stop_at-Kept setting Inv between_rounds reason s h
    on_gate-Kept rest batch results (returned p, s) k h =
        if_split (λ (o : Outcome U SessionRun). Kept' o.1)
          ((length batch == 1) || not (should_parallelize_tool_batch parts setting.tools batch))
          (λ _. run_sequential-Kept rest batch k results s h)
          (λ _. on_batch-Kept rest results _ k (
            execute_batch_parallel-Kept setting Inv sinks keepers decide yes_or_no checked tools
              pool batch s only h))

    run_batches-Kept :
        (limit : ℕ) (bs : List (List ToolCall)) → RestKept (run_batches parts pool setting limit bs)
    unfolding run_batches
    run_batches-Kept limit [] results s h = h
    run_batches-Kept limit (b ∷ bs) results s h =
        let payload = new_payload none setting.role setting.acting_family in
        let gated = try_hooks setting between_rounds payload (count_batch s) in
        if_split (λ (o : Outcome U SessionRun). Kept' o.1) (leb limit (length results)) (λ _. h)
          (λ _.
            on_gate-Kept (run_batches parts pool setting limit bs) (take (limit - length results) b)
              results gated (run_batches-Kept limit bs)
              (try_hooks-Kept setting Inv sinks keepers between_rounds payload (count_batch s)
                (count_batch-Kept setting Inv s h)))

    cap-Kept :
        (limit n_calls : ℕ) (run : SessionRun) (s : Run (Session U))
        → Kept' s
        → Kept' (cap parts pool setting limit n_calls run s).1
    unfolding cap append
    cap-Kept limit n_calls run s h = elim (Option-cases run.stop) [
      | inr (stop, e) ↦ rw (e, cap) h
      | inl e ↦
          rw (e, cap)
            (if_split (λ (o : Outcome U SessionRun). Kept' o.1)
              (leb limit (length run.results) && ltb (length run.results) n_calls) (λ _. h)
              (λ _. h))
    ]

    on_loop-Kept :
        (limit n_calls : ℕ) (o : Outcome U SessionRun)
        → Kept' o.1
        → Kept' (on_loop parts pool setting limit n_calls o).1
    unfolding on_loop
    on_loop-Kept limit n_calls (raise e, s) h = h
    on_loop-Kept limit n_calls (ok run, s) h = cap-Kept limit n_calls run s h

    run_round-Kept :
        (limits : Limits) (calls : List ToolCall) (s : Run (Session U))
        → Kept' s
        → Kept' (run_round parts pool setting limits calls s).1
    run_round-Kept limits calls s h =
        on_loop-Kept limits.max_iterations (length calls)
          (run_batches parts pool setting limits.max_iterations
            (batches_of parts pool setting limits calls) [] s)
          (run_batches-Kept limits.max_iterations (batches_of parts pool setting limits calls) [] s
            h)

-- A round of calls, whether it returns or raises, keeps an invariant of what lies under the session,
-- the workspace included, if every middleware keeps it, and every tool keeps it when it runs on a
-- payload that a guard like the sandbox check allows; such a guard stands in the chain before a tool,
-- runs again after a mutation, and decides, wherever the invariant holds, by the payload (for the
-- sandbox check the invariant says that the symbolic links of the workspace are as they were); and the
-- pool only runs the calls that it gets. No tool runs on another payload, in a sequential batch, a
-- parallel one or the fallback of one.
pub run_session-Kept :
    {U : Type 0} (parts : String → List String) (pool : Pool U) (setting : Setting U)
    (Inv : U → Type 0)
    (keepers : (point : LifecyclePoint)
      → AllKeepers (λ (w : Session U). Inv w.rest) (setting.hooks.chains point))
    (decide : HookPayload → Decision)
    (yes_or_no : (p : HookPayload) → ((decide p).action ≡ allow) ⊎ ((decide p).action ≡ deny))
    (checked : HasCheckerIn
      (λ (w : Session U). Inv w.rest)
      decide
      (setting.hooks.chains before_tool_exec))
    (tools : (p : HookPayload) (c : ToolCall) (w : Session U)
      → p.tool_call ≡ some c
      → (decide p).action ≡ allow
      → Inv w.rest
      → Inv (run_tool setting.tools c w).1.rest)
    (only : OnlyRuns pool) (limits : Limits) (calls : List ToolCall) (s : Run (Session U))
    → Inv s.world.rest
    → Inv (run_session parts pool setting limits calls s).1.world.rest
unfolding run_session hook_decision_sink
run_session-Kept parts pool setting Inv keepers decide yes_or_no checked tools only limits calls s
      h =
    run_round-Kept (with_sink setting) Inv (λ d p w k. k) keepers decide yes_or_no checked tools
      parts pool only limits calls s h
