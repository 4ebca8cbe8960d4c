-- ===== src/Session/SafeBatch.antt =====
-- loop.py: a parallel batch keeps what the tools keep on checked payloads.
use first_agent_dev.Prelude.{
  String, ◌≡◌, ◌⊎◌, inl, inr, Option, none, some, List, [], ◌∷◌, Option-cases,
}
use first_agent_dev.Hooks.Types.{
  Result, ok, raise, LifecyclePoint, before_tool_exec, after_tool_exec, ToolResult, ToolCall,
  HookPayload, allow, deny, Decision,
}
use first_agent_dev.Hooks.Registry.{Run}
use first_agent_dev.Hooks.Cases.{Result-cases}
use first_agent_dev.Hooks.Recheck.{HasCheckerIn}
use first_agent_dev.Hooks.Keeps.{AllKeepers, SinkKeeps}
use first_agent_dev.Session.Types.{
  Session, Tried, returned, refused, crashed, default_tool_result_for_denial, record_tool_call,
}
use first_agent_dev.Session.Tools.{run_tool}
use first_agent_dev.Session.Execute.{Outcome, Setting, new_payload, run_call}
use first_agent_dev.Session.Parallel.{
  Pool, Waited, Slot, denied_slot, pending_slot, ResultsMap, exec_calls, add_slot, on_gather_denied,
  on_gather, gather, settled, run_fallback, on_pool, run_pool, Finished, add_result, on_finish,
  finish_one, finish, on_finished, on_results, on_gathered, execute_batch_parallel,
}
use first_agent_dev.Session.Safe.{
  Kept, record_tool_call-Kept, record_tool_result-Kept, stop_at-Kept, try_hooks-Kept, LetPass,
  try_hooks-LetPass, run_call-Kept,
}

abbrev pub Each : {A : Type 0} → (A → Type 0) → List A → Type 0
Each P [] = Unit {0}
Each P (x ∷ xs) = P x × Each P xs

-- A pool that does no more than to run the calls it gets: it keeps what every one of these runs keeps.
abbrev pub OnlyRuns : {U : Type 0} → Pool U → Type 1
OnlyRuns {U} pool =
    (K : Run (Session U) → Type 0) (run : ToolCall → Run (Session U) → Outcome U ToolResult)
    (calls : List ToolCall) (s : Run (Session U))
    → Each (λ c. (s' : Run (Session U)) → K s' → K (run c s').1) calls
    → K s
    → K (pool run calls s).1

module _ {U : Type 0} (setting : Setting U) (Inv : U → Type 0)
    (sinks : SinkKeeps (λ (w : Session U). Inv w.rest) setting.hooks.event_sink)
    (keepers : (point : LifecyclePoint)
      → AllKeepers (λ (w : Session U). Inv w.rest) (setting.hooks.chains point))
    (decide : HookPayload → Decision)
    (yes_or_no : (p : HookPayload) → ((decide p).action ≡ allow) ⊎ ((decide p).action ≡ deny))
    (checked : HasCheckerIn
      (λ (w : Session U). Inv w.rest)
      decide
      (setting.hooks.chains before_tool_exec))
    (tools : (p : HookPayload) (c : ToolCall) (w : Session U)
      → p.tool_call ≡ some c
      → (decide p).action ≡ allow
      → Inv w.rest
      → Inv (run_tool setting.tools c w).1.rest) where
  abbrev Kept' : Run (Session U) → Type 0
  Kept' = Kept setting Inv

  -- A slot that runs has a payload that was let pass.
  abbrev SlotOk : Slot → Type 0
  SlotOk (denied_slot r) = Unit {0}
  SlotOk (pending_slot p) = (decide p).action ≡ allow

  abbrev SlotsOk : Result (List Slot) → Type 0
  SlotsOk (ok slots) = Each SlotOk slots
  SlotsOk (raise e) = Unit {0}

  abbrev GatherKept : Outcome U (List Slot) → Type 0
  GatherKept o = SlotsOk o.0 × Kept' o.1

  module _ (rest : Run (Session U) → Outcome U (List Slot))
      (k : (s : Run (Session U)) → Kept' s → GatherKept (rest s)) where
    add_slot-Kept :
        (slot : Slot) (o : Outcome U (List Slot))
        → SlotOk slot
        → GatherKept o
        → GatherKept (add_slot setting rest slot o)
    unfolding add_slot
    add_slot-Kept slot (raise e, s) h (g, i) = (tt, i)
    add_slot-Kept slot (ok slots, s) h (g, i) = ((h, g), i)

    on_gather_denied-Kept :
        (c : ToolCall) (r : Result ToolResult) (s : Run (Session U))
        → Kept' s
        → GatherKept (on_gather_denied setting rest c r s)
    unfolding on_gather_denied
    on_gather_denied-Kept c (raise e) s h = (tt, h)
    on_gather_denied-Kept c (ok r) s h =
        add_slot-Kept (denied_slot r) _ tt (k _ (record_tool_result-Kept setting Inv c r s h))

    on_gather-Kept :
        (c : ToolCall) (t : Tried HookPayload × Run (Session U))
        → LetPass setting Inv sinks keepers decide yes_or_no checked tools t.0
        → Kept' t.1
        → GatherKept (on_gather setting rest c t)
    unfolding on_gather
    on_gather-Kept c (crashed e, s) a h = (tt, h)
    on_gather-Kept c (returned p, s) a h = add_slot-Kept (pending_slot p) _ a (k s h)
    on_gather-Kept c (refused reason, s) a h =
        on_gather_denied-Kept c (default_tool_result_for_denial reason) s h

  gather-Kept :
      (cs : List ToolCall) (s : Run (Session U)) → Kept' s → GatherKept (gather setting cs s)
  unfolding gather
  gather-Kept [] s h = (tt, h)
  gather-Kept (c ∷ cs) s h =
      let payload = new_payload (some c) setting.role setting.acting_family in
      let s' = record_tool_call c s in
      on_gather-Kept (gather setting cs) (gather-Kept cs) c _
        (try_hooks-LetPass setting Inv sinks keepers decide yes_or_no checked tools payload s'
          (record_tool_call-Kept setting Inv c s h))
        (try_hooks-Kept setting Inv sinks keepers before_tool_exec payload s'
          (record_tool_call-Kept setting Inv c s h))

  abbrev RunKept : ToolCall → Type 0
  RunKept c = (s : Run (Session U)) → Kept' s → Kept' (run_call setting c s).1

  exec_calls-Kept : (slots : List Slot) → Each SlotOk slots → Each RunKept (exec_calls slots)
  unfolding exec_calls
  exec_calls-Kept [] h = tt
  exec_calls-Kept (denied_slot r ∷ slots) (h, hs) = exec_calls-Kept slots hs
  exec_calls-Kept (pending_slot p ∷ slots) (h, hs) = elim (Option-cases p.tool_call) [
    | inl n ↦ rw (n, exec_calls) (exec_calls-Kept slots hs)
    | inr (c, e) ↦
        rw (e, exec_calls)
          (
            (λ s i.
                run_call-Kept setting Inv sinks keepers decide yes_or_no checked tools p c s e h i),
            exec_calls-Kept slots hs,
          )
  ]

  run_fallback-Kept :
      (cs : List ToolCall) (m : ResultsMap) (s : Run (Session U))
      → Each RunKept cs
      → Kept' s
      → Kept' (run_fallback setting cs m s).1
  unfolding run_fallback
  run_fallback-Kept [] m s k h = h
  run_fallback-Kept (c ∷ cs) m s (k, ks) h =
      let h' = k s h in
      elim (Result-cases (settled setting (run_call setting c s).0)) [
        | inr (e, q) ↦ rw (q, run_fallback) h'
        | inl (r, q) ↦ rw (q, run_fallback) (run_fallback-Kept cs _ _ ks h')
      ]

  on_pool-Kept :
      (cs : List ToolCall) (o : Option Waited × Run (Session U))
      → Each RunKept cs
      → Kept' o.1
      → Kept' (on_pool setting cs o).1
  unfolding on_pool
  on_pool-Kept cs (none, s) k h = run_fallback-Kept cs [] s k h
  on_pool-Kept cs (some w, s) k h = h

  run_pool-Kept :
      (pool : Pool U) (cs : List ToolCall) (s : Run (Session U))
      → OnlyRuns pool
      → Each RunKept cs
      → Kept' s
      → Kept' (run_pool setting pool cs s).1
  unfolding run_pool
  run_pool-Kept pool [] s only k h = h
  run_pool-Kept pool (c ∷ cs) s only k h =
      on_pool-Kept (c ∷ cs) _ k (only Kept' (run_call setting) (c ∷ cs) s k h)

  add_result-Kept : (r : ToolResult) (o : Finished U) → Kept' o.1 → Kept' (add_result setting r o).1
  unfolding add_result
  add_result-Kept r (raise e, s) h = h
  add_result-Kept r (ok (rs, d), s) h = h

  module _ (rest : Option String → Run (Session U) → Finished U)
      (k : (d : Option String) (s : Run (Session U)) → Kept' s → Kept' (rest d s).1) where
    on_finish-Kept :
        (c : ToolCall) (r : ToolResult) (d : Option String)
        (t : Tried HookPayload × Run (Session U))
        → Kept' t.1
        → Kept' (on_finish setting rest c r d t).1
    unfolding on_finish
    on_finish-Kept c r d (crashed e, s) h = h
    on_finish-Kept c r d (returned p, s) h =
        add_result-Kept r _ (k d _ (record_tool_result-Kept setting Inv c r s h))
    on_finish-Kept c r d (refused reason, s) h =
        add_result-Kept r _ (k (some reason) _ (record_tool_result-Kept setting Inv c r s h))

    finish_one-Kept :
        (p : HookPayload) (c : Option ToolCall) (m : ResultsMap) (d : Option String)
        (s : Run (Session U))
        → Kept' s
        → Kept' (finish_one setting rest p c m d s).1
    unfolding finish_one
    finish_one-Kept p none m d s h = add_result-Kept _ _ (k d s h)
    finish_one-Kept p (some c) m d s h =
        on_finish-Kept c _ d _ (try_hooks-Kept setting Inv sinks keepers after_tool_exec _ s h)

  finish-Kept :
      (slots : List Slot) (m : ResultsMap) (d : Option String) (s : Run (Session U))
      → Kept' s
      → Kept' (finish setting slots m d s).1
  unfolding finish
  finish-Kept [] m d s h = h
  finish-Kept (denied_slot r ∷ slots) m d s h = add_result-Kept r _ (finish-Kept slots m d s h)
  finish-Kept (pending_slot p ∷ slots) m d s h =
      finish_one-Kept (finish setting slots m) (finish-Kept slots m) p p.tool_call m d s h

  on_finished-Kept : (o : Finished U) → Kept' o.1 → Kept' (on_finished setting o).1
  unfolding on_finished
  on_finished-Kept (raise e, s) h = h
  on_finished-Kept (ok (rs, none), s) h = h
  on_finished-Kept (ok (rs, some d), s) h = stop_at-Kept setting Inv after_tool_exec d s h

  on_results-Kept :
      (slots : List Slot) (o : Outcome U ResultsMap)
      → Kept' o.1
      → Kept' (on_results setting slots o).1
  unfolding on_results
  on_results-Kept slots (raise e, s) h = h
  on_results-Kept slots (ok m, s) h = on_finished-Kept _ (finish-Kept slots m none s h)

  on_gathered-Kept :
      (pool : Pool U) (o : Outcome U (List Slot))
      → OnlyRuns pool
      → GatherKept o
      → Kept' (on_gathered setting pool o).1
  unfolding on_gathered
  on_gathered-Kept pool (raise e, s) only (g, h) = h
  on_gathered-Kept pool (ok slots, s) only (g, h) =
      on_results-Kept slots _
        (run_pool-Kept pool (exec_calls slots) s only (exec_calls-Kept slots g) h)

  pub execute_batch_parallel-Kept :
      (pool : Pool U) (batch : List ToolCall) (s : Run (Session U))
      → OnlyRuns pool
      → Kept' s
      → Kept' (execute_batch_parallel setting pool batch s).1
  unfolding execute_batch_parallel
  execute_batch_parallel-Kept pool batch s only h =
      on_gathered-Kept pool _ only (gather-Kept batch s h)
