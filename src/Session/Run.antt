-- ===== src/Session/Run.antt =====
-- loop.py: `run_session`.
use first_agent_dev.Prelude.{
  ℕ, ◌-◌, String, Bool, not, ◌||◌, Option, none, some, List, [], ◌∷◌, ◌++◌, length, take, map, show,
  concat, leb, ltb, ◌&&◌, ◌==◌, if◌then◌else◌,
}
use first_agent_dev.Hooks.Types.{
  ok, raise, between_rounds, ToolResult, ToolCall, HookPayload, DispatchRecord,
}
use first_agent_dev.Hooks.Registry.{Run}
use first_agent_dev.Session.Types.{
  StopInfo, Row, hook_decision, run_capped, Session, Tried, returned, refused, crashed, append,
  commit_search_paths, count_batch,
}
use first_agent_dev.Session.Batches.{should_parallelize_tool_batch, classify_batches}
use first_agent_dev.Session.Execute.{
  Outcome, Setting, new_payload, try_hooks, stop_at, execute_one_sequential,
}
use first_agent_dev.Session.Parallel.{Pool, execute_batch_parallel}

-- `_make_hook_decision_sink`
unfoldable pub hook_decision_sink :
    {U : Type 0} → DispatchRecord → HookPayload → Session U → Session U
hook_decision_sink d p s =
    let row : Row = elim p.tool_call [
      | none ↦ hook_decision d "" ""
      | some c ↦ hook_decision d c.name c.call_id
    ] in
    record s { log = s.log ++ row ∷ [] }

-- `hooks.set_event_sink(...)`. The registry is a value here, so nothing resets it after the round.
abbrev pub with_sink : {U : Type 0} → Setting U → Setting U
with_sink setting = record setting {
  hooks = record setting.hooks { event_sink = some hook_decision_sink };
}

-- `SessionRun`
pub record SessionRun : Type 0 where
  pub results : List ToolResult
  pub stop : Option StopInfo

-- The parameters of a round that stay the same through it.
pub record Limits : Type 0 where
  pub max_iterations : ℕ
  pub tool_batching_enabled : Bool

abbrev pub cap_reason : ℕ → ℕ → String
cap_reason used limit = concat (
    "iteration_cap: per-turn iteration limit ("
    ∷ show limit
    ∷ ") exceeded — used "
    ∷ show used
    ∷ " of "
    ∷ show limit
    ∷ [])

module _ {U : Type 0} (parts : String → List String) (pool : Pool U) (setting : Setting U) where
  -- the calls of a batch, one after the other
  module _ (rest : List ToolResult → Run (Session U) → Outcome U SessionRun) where
    unfoldable pub on_one :
        List ToolResult → Outcome U (ToolResult × Option StopInfo) → Outcome U SessionRun
    on_one results (raise e, s) = (raise e, s)
    on_one results (ok (r, none), s) = rest (results ++ r ∷ []) s
    on_one results (ok (r, some stop), s) =
        (ok (record { results = results ++ r ∷ []; stop = some stop }), s)

  unfoldable pub run_sequential :
      (List ToolResult → Run (Session U) → Outcome U SessionRun)
      → List ToolCall
      → List ToolResult
      → Run (Session U)
      → Outcome U SessionRun
  unfolding on_one
  run_sequential rest [] results s = rest results (commit_search_paths s)
  run_sequential rest (c ∷ cs) results s =
      on_one (run_sequential rest cs) results (execute_one_sequential setting c s)

  module _ (rest : List ToolResult → Run (Session U) → Outcome U SessionRun) where
    unfoldable pub on_batch :
        List ToolResult → Outcome U (List ToolResult × Option StopInfo) → Outcome U SessionRun
    on_batch results (raise e, s) = (raise e, s)
    on_batch results (ok (rs, none), s) = rest (results ++ rs) (commit_search_paths s)
    on_batch results (ok (rs, some stop), s) =
        (ok (record { results = results ++ rs; stop = some stop }), s)

    -- after the gate of a batch
    unfoldable pub on_gate :
        List ToolCall → List ToolResult → Tried HookPayload × Run (Session U) → Outcome U SessionRun
    unfolding run_sequential on_batch
    on_gate batch results (crashed e, s) = (raise e, s)
    on_gate batch results (refused reason, s) =
        let (stop, s') = stop_at setting between_rounds reason s in
        (ok (record { results = results; stop = some stop }), s')
    on_gate batch results (returned _, s) =
        if (length batch == 1) || not (should_parallelize_tool_batch parts setting.tools batch)
        then run_sequential rest batch results s
        else on_batch results (execute_batch_parallel setting pool batch s)

  -- The loop over the batches. A batch is cut to what remains; that leaves one that fits as it is.
  unfoldable pub run_batches :
      ℕ → List (List ToolCall) → List ToolResult → Run (Session U) → Outcome U SessionRun
  unfolding on_gate
  run_batches limit [] results s = (ok (record { results = results; stop = none }), s)
  run_batches limit (b ∷ bs) results s =
      let rest = run_batches limit bs in
      if leb limit (length results)
      then (ok (record { results = results; stop = none }), s)
      else on_gate rest (take (limit - length results) b) results (
          try_hooks setting between_rounds (new_payload none setting.role setting.acting_family)
            (count_batch s))

  -- the test after the loop
  unfoldable pub cap : ℕ → ℕ → SessionRun → Run (Session U) → Outcome U SessionRun
  unfolding append
  cap limit n_calls run s =
      let used = length run.results in
      elim run.stop [
        | some _ ↦ (ok run, s)
        | none ↦
            if leb limit used && ltb used n_calls
            then (
              ok (record run {
                stop = some (record { point = "iteration_cap"; reason = cap_reason used limit });
              }),
              append (run_capped (cap_reason used limit) used limit setting.role) s,
            )
            else (ok run, s)
      ]

  unfoldable pub on_loop : ℕ → ℕ → Outcome U SessionRun → Outcome U SessionRun
  unfolding cap
  on_loop limit n_calls (raise e, s) = (raise e, s)
  on_loop limit n_calls (ok run, s) = cap limit n_calls run s

  unfoldable pub batches_of : Limits → List ToolCall → List (List ToolCall)
  batches_of limits calls =
      if limits.tool_batching_enabled
      then classify_batches parts setting.tools calls
      else map (λ c. c ∷ []) calls

  abbrev pub run_round : Limits → List ToolCall → Run (Session U) → Outcome U SessionRun
  run_round limits calls s =
      on_loop limits.max_iterations (length calls)
        (run_batches limits.max_iterations (batches_of limits calls) [] s)

unfoldable pub run_session :
    {U : Type 0}
    → (String → List String)
    → Pool U
    → Setting U
    → Limits
    → List ToolCall
    → Run (Session U)
    → Outcome U SessionRun
unfolding run_batches on_loop batches_of
run_session parts pool setting limits calls s =
    run_round parts pool (with_sink setting) limits calls s
