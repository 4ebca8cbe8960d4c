-- ===== src/Session/Parallel.antt =====
-- loop.py: `_execute_batch_parallel`. The pool of threads is a parameter.
use first_agent_dev.Prelude.{
  String, Option, none, some, List, [], ◌∷◌, str_eq, concat, if◌then◌else◌,
}
use first_agent_dev.Hooks.Types.{
  Error, permission_error, runtime_error, type_error, value_error, other_error, Result, ok, raise,
  before_tool_exec, after_tool_exec, ToolResult, ToolCall, HookPayload,
}
use first_agent_dev.Hooks.Registry.{Run}
use first_agent_dev.Session.Types.{
  StopInfo, Session, Tried, returned, refused, crashed, failure, fail,
  default_tool_result_for_denial, with_tool_result, record_tool_call, record_tool_result,
}
use first_agent_dev.Session.Execute.{Outcome, Setting, new_payload, run_call, try_hooks, stop_at}

-- `str(exc)`
unfoldable pub error_text : Error → String
error_text (permission_error t) = t
error_text (runtime_error t) = t
error_text (type_error t) = t
error_text (value_error t) = t
error_text (other_error _ t) = t

-- The two sets that `wait` gives, each in the order in which the loop goes through it, with what the
-- done futures came to.
pub record Waited : Type 0 where
  pub done : List (ToolCall × Result ToolResult)
  pub not_done : List ToolCall

-- `ThreadPoolExecutor`, `submit` and `wait`: the calls are run by the function it gets, at once, in some
-- order, and it may raise, which gives none.
abbrev pub Pool : Type 0 → Type 0
Pool U =
    (ToolCall → Run (Session U) → Outcome U ToolResult)
    → List ToolCall
    → Run (Session U)
    → Option Waited × Run (Session U)

-- An index of `payloads` and `denied_results`: a denied call's result, or the payload to run.
pub data Slot : Type 0 where
  denied_slot : ToolResult → Slot
  pending_slot : HookPayload → Slot

-- `results_map`, the newest entry first
abbrev pub ResultsMap : Type 0
ResultsMap = List (String × ToolResult)

unfoldable pub get_result : String → ResultsMap → Option ToolResult
get_result id [] = none
get_result id ((k, r) ∷ m) = if str_eq k id then some r else get_result id m

-- the calls of `exec_payloads`
unfoldable pub exec_calls : List Slot → List ToolCall
exec_calls [] = []
exec_calls (denied_slot _ ∷ slots) = exec_calls slots
exec_calls (pending_slot p ∷ slots) =
    let rest = exec_calls slots in elim p.tool_call [ none ↦ rest | some c ↦ c ∷ rest ]

-- the loops over the futures
abbrev future_result : Result ToolResult → ToolResult
future_result (ok r) = r
future_result (raise e) =
    failure "exec_failed" (concat ("Parallel exec failed: " ∷ error_text e ∷ []))

unfoldable pub collect_done : List (ToolCall × Result ToolResult) → ResultsMap → ResultsMap
unfolding error_text
collect_done [] m = m
collect_done ((c, r) ∷ cs) m = collect_done cs ((c.call_id, future_result r) ∷ m)

unfoldable pub collect_late : List ToolCall → ResultsMap → ResultsMap
collect_late [] m = m
collect_late (c ∷ cs) m =
    collect_late cs ((c.call_id, failure "exec_timeout" "Parallel exec timeout after 30s") ∷ m)

abbrev interrupted : String → ToolResult
interrupted message = failure "interrupted" message

-- the last loop's results, and `post_exec_denied`: the reason of the last denial after a call
abbrev pub Finished : Type 0 → Type 0
Finished U = Outcome U (List ToolResult × Option String)

module _ {U : Type 0} (setting : Setting U) where
  -- the first loop, on what BEFORE_TOOL_EXEC answers for a call; `rest` goes on with the later calls
  module _ (rest : Run (Session U) → Outcome U (List Slot)) where
    unfoldable pub add_slot : Slot → Outcome U (List Slot) → Outcome U (List Slot)
    add_slot slot (raise e, s) = (raise e, s)
    add_slot slot (ok slots, s) = (ok (slot ∷ slots), s)

    unfoldable pub on_gather_denied :
        ToolCall → Result ToolResult → Run (Session U) → Outcome U (List Slot)
    unfolding add_slot
    on_gather_denied c (raise e) s = (raise e, s)
    on_gather_denied c (ok r) s = add_slot (denied_slot r) (rest (record_tool_result c r s))

    unfoldable pub on_gather :
        ToolCall → Tried HookPayload × Run (Session U) → Outcome U (List Slot)
    unfolding on_gather_denied
    on_gather c (crashed e, s) = (raise e, s)
    on_gather c (refused reason, s) = on_gather_denied c (default_tool_result_for_denial reason) s
    on_gather c (returned p, s) = add_slot (pending_slot p) (rest s)

  unfoldable pub gather : List ToolCall → Run (Session U) → Outcome U (List Slot)
  unfolding on_gather
  gather [] s = (ok [], s)
  gather (c ∷ cs) s = on_gather (gather cs) c (
      try_hooks setting before_tool_exec (new_payload (some c) setting.role setting.acting_family)
        (record_tool_call c s))

  -- the fallback, when the pool has failed
  unfoldable pub note_failure : Error → Result ToolResult
  unfolding error_text
  note_failure e = fail "exec_failed" (error_text e)

  unfoldable pub settled : Result ToolResult → Result ToolResult
  unfolding note_failure
  settled (ok r) = ok r
  settled (raise e) = note_failure e

  unfoldable pub run_fallback : List ToolCall → ResultsMap → Run (Session U) → Outcome U ResultsMap
  unfolding settled
  run_fallback [] m s = (ok m, s)
  run_fallback (c ∷ cs) m s =
      let (r, s') = run_call setting c s in
      elim (settled r) [
        | raise e ↦ (raise e, s')
        | ok result ↦ run_fallback cs ((c.call_id, result) ∷ m) s'
      ]

  unfoldable pub on_pool : List ToolCall → Option Waited × Run (Session U) → Outcome U ResultsMap
  unfolding collect_done collect_late run_fallback
  on_pool calls (none, s) = run_fallback calls [] s
  on_pool calls (some w, s) = (ok (collect_late w.not_done (collect_done w.done [])), s)

  unfoldable pub run_pool : Pool U → List ToolCall → Run (Session U) → Outcome U ResultsMap
  unfolding on_pool
  run_pool pool [] s = (ok [], s)
  run_pool pool (c ∷ cs) s = on_pool (c ∷ cs) (pool (run_call setting) (c ∷ cs) s)

  unfoldable pub add_result : ToolResult → Finished U → Finished U
  add_result r (raise e, s) = (raise e, s)
  add_result r (ok (rs, post_denied), s) = (ok (r ∷ rs, post_denied), s)

  module _ (rest : Option String → Run (Session U) → Finished U) where
    unfoldable pub on_finish :
        ToolCall → ToolResult → Option String → Tried HookPayload × Run (Session U) → Finished U
    unfolding add_result
    on_finish c r post_denied (crashed e, s) = (raise e, s)
    on_finish c r post_denied (returned _, s) =
        add_result r (rest post_denied (record_tool_result c r s))
    on_finish c r post_denied (refused reason, s) =
        add_result r (rest (some reason) (record_tool_result c r s))

    unfoldable pub finish_one :
        HookPayload → Option ToolCall → ResultsMap → Option String → Run (Session U) → Finished U
    unfolding get_result on_finish
    finish_one p none m post_denied s =
        add_result (interrupted "Interrupted before execution, missing tool_result")
          (rest post_denied s)
    finish_one p (some c) m post_denied s =
        let r : ToolResult = elim (get_result c.call_id m) [
          | none ↦ interrupted "Interrupted, missing tool_result — synthetic"
          | some r ↦ r
        ] in
        on_finish c r post_denied (try_hooks setting after_tool_exec (with_tool_result r p) s)

  unfoldable pub finish : List Slot → ResultsMap → Option String → Run (Session U) → Finished U
  unfolding finish_one
  finish [] m post_denied s = (ok ([], post_denied), s)
  finish (denied_slot r ∷ slots) m post_denied s = add_result r (finish slots m post_denied s)
  finish (pending_slot p ∷ slots) m post_denied s =
      finish_one (finish slots m) p p.tool_call m post_denied s

  unfoldable pub on_finished : Finished U → Outcome U (List ToolResult × Option StopInfo)
  unfolding stop_at
  on_finished (raise e, s) = (raise e, s)
  on_finished (ok (rs, none), s) = (ok (rs, none), s)
  on_finished (ok (rs, some reason), s) =
      let (stop, s') = stop_at setting after_tool_exec reason s in (ok (rs, some stop), s')

  unfoldable pub on_results :
      List Slot → Outcome U ResultsMap → Outcome U (List ToolResult × Option StopInfo)
  unfolding finish on_finished
  on_results slots (raise e, s) = (raise e, s)
  on_results slots (ok m, s) = on_finished (finish slots m none s)

  unfoldable pub on_gathered :
      Pool U → Outcome U (List Slot) → Outcome U (List ToolResult × Option StopInfo)
  unfolding run_pool on_results
  on_gathered pool (raise e, s) = (raise e, s)
  on_gathered pool (ok slots, s) = on_results slots (run_pool pool (exec_calls slots) s)

  -- `_execute_batch_parallel`
  unfoldable pub execute_batch_parallel :
      Pool U → List ToolCall → Run (Session U) → Outcome U (List ToolResult × Option StopInfo)
  unfolding gather on_gathered exec_calls
  execute_batch_parallel pool batch s = on_gathered pool (gather batch s)
