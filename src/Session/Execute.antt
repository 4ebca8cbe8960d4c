-- ===== src/Session/Execute.antt =====
-- loop.py: `_execute_one_sequential`.
use first_agent_dev.Prelude.{String, Option, none, some}
use first_agent_dev.Hooks.Types.{
  no_entries, Result, ok, raise, LifecyclePoint, between_rounds, before_tool_exec, before_llm_call,
  after_llm_call, after_tool_exec, ToolResult, ToolCall, HookPayload,
}
use first_agent_dev.Hooks.Registry.{HookRegistry, Run, dispatch}
use first_agent_dev.Session.Types.{
  StopInfo, run_stopped, Session, Tried, returned, refused, crashed, tried, failure,
  default_tool_result_for_denial, with_tool_result, append, record_tool_call, record_tool_result,
}
use first_agent_dev.Session.Tools.{ToolRegistry, run_tool}

-- `LifecyclePoint.value`
abbrev pub point_value : LifecyclePoint → String
point_value between_rounds = "BETWEEN_ROUNDS"
point_value before_llm_call = "BEFORE_LLM_CALL"
point_value after_llm_call = "AFTER_LLM_CALL"
point_value before_tool_exec = "BEFORE_TOOL_EXEC"
point_value after_tool_exec = "AFTER_TOOL_EXEC"

-- `HookPayload(tool_call=..., role=role, acting_family=acting_family)`
abbrev pub new_payload : Option ToolCall → String → String → HookPayload
new_payload c role family = record {
  tool_call = c;
  tool_result = none;
  role = role;
  acting_family = family;
  context = no_entries;
}

-- What a call of the loop gives, and the state after it.
abbrev pub Outcome : Type 0 → Type 0 → Type 0
Outcome U A = Result A × Run (Session U)

-- The parameters that a round hands to every call.
pub record Setting (U : Type 0) : Type 0 where
  pub tools : ToolRegistry (Session U)
  pub hooks : HookRegistry (Session U)
  pub role : String
  pub acting_family : String

abbrev pub invalid_payload : ToolResult
invalid_payload = failure "invalid_payload" "hook payload lost tool call"

module _ {U : Type 0} (setting : Setting U) where
  -- `registry.dispatch`, which leaves the trace of the hooks alone
  unfoldable pub run_call : ToolCall → Run (Session U) → Outcome U ToolResult
  run_call c s = let (r, w) = run_tool setting.tools c s.world in (r, record s { world = w })

  -- `hooks.dispatch` inside a `try` with `except PermissionError`
  unfoldable pub try_hooks :
      LifecyclePoint → HookPayload → Run (Session U) → Tried HookPayload × Run (Session U)
  try_hooks point p s = let (r, s') = dispatch setting.hooks point p s in (tried r, s')

  -- the row and the `StopInfo` of a denial at a point
  unfoldable pub stop_at : LifecyclePoint → String → Run (Session U) → StopInfo × Run (Session U)
  stop_at point reason s =
      let stop : StopInfo = record { point = point_value point; reason = reason } in
      (stop, append (run_stopped stop) s)

  -- a call that BEFORE_TOOL_EXEC denied
  unfoldable pub on_denied :
      ToolCall → Result ToolResult → Run (Session U) → Outcome U (ToolResult × Option StopInfo)
  on_denied c (raise e) s = (raise e, s)
  on_denied c (ok r) s = (ok (r, none), record_tool_result c r s)

  -- after AFTER_TOOL_EXEC
  unfoldable pub on_after :
      ToolCall
      → ToolResult
      → Tried HookPayload × Run (Session U)
      → Outcome U (ToolResult × Option StopInfo)
  on_after c r (crashed e, s) = (raise e, s)
  on_after c r (returned _, s) = (ok (r, none), record_tool_result c r s)
  on_after c r (refused reason, s) =
      let (stop, s') = stop_at after_tool_exec reason s in
      (ok (r, some stop), record_tool_result c r s')

  -- after AFTER_TOOL_EXEC on a payload that lost its call: a denial is ignored
  unfoldable pub on_lost :
      ToolCall
      → ToolResult
      → Tried HookPayload × Run (Session U)
      → Outcome U (ToolResult × Option StopInfo)
  on_lost c r (crashed e, s) = (raise e, s)
  on_lost c r (_, s) = (ok (r, none), record_tool_result c r s)

  unfoldable pub on_run :
      HookPayload → ToolCall → Outcome U ToolResult → Outcome U (ToolResult × Option StopInfo)
  on_run p c (raise e, s) = (raise e, s)
  on_run p c (ok r, s) = on_after c r (try_hooks after_tool_exec (with_tool_result r p) s)

  -- on the payload that BEFORE_TOOL_EXEC gave back, and its call
  unfoldable pub on_effective :
      ToolCall
      → HookPayload
      → Option ToolCall
      → Run (Session U)
      → Outcome U (ToolResult × Option StopInfo)
  on_effective c p (some effective) s = on_run p effective (run_call effective s)
  on_effective c p none s =
      on_lost c invalid_payload (try_hooks after_tool_exec (with_tool_result invalid_payload p) s)

  unfoldable pub on_before :
      ToolCall → Tried HookPayload × Run (Session U) → Outcome U (ToolResult × Option StopInfo)
  on_before c (crashed e, s) = (raise e, s)
  on_before c (refused reason, s) = on_denied c (default_tool_result_for_denial reason) s
  on_before c (returned p, s) = on_effective c p p.tool_call s

  -- `_execute_one_sequential`
  unfoldable pub execute_one_sequential :
      ToolCall → Run (Session U) → Outcome U (ToolResult × Option StopInfo)
  unfolding on_before on_denied on_effective on_run on_after on_lost stop_at try_hooks run_call
  execute_one_sequential c s = on_before c (
      try_hooks before_tool_exec (new_payload (some c) setting.role setting.acting_family)
        (record_tool_call c s))
