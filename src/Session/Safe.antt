-- ===== src/Session/Safe.antt =====
-- loop.py: the tools of a round run only on payloads that a checking guard has let pass, so that what
-- they keep on those, the whole round keeps.
use mathlib.Core.Path.{subst⁻¹}
use first_agent_dev.Prelude.{
  str_eq, suc, String, ◌≡◌, refl, ◌||◌, ◌⊎◌, Option, none, some, if_split,
}
use first_agent_dev.Hooks.Types.{
  Result, ok, raise, permission_error, runtime_error, type_error, value_error, other_error,
  LifecyclePoint, before_tool_exec, after_tool_exec, ToolResult, ToolCall, HookPayload, allow, deny,
  Decision,
}
use first_agent_dev.Hooks.Registry.{Run, dispatch}
use first_agent_dev.Hooks.Recheck.{HasCheckerIn}
use first_agent_dev.Hooks.Passes.{dispatch-PassesIn}
use first_agent_dev.Hooks.Keeps.{AllKeepers, SinkKeeps, dispatch-Holds}
use first_agent_dev.Session.Types.{
  Session, Tried, returned, refused, crashed, tried, default_tool_result_for_denial,
  with_tool_result, append, get_text, track_path, record_tool_call, record_tool_result,
  commit_search_paths, count_batch,
}
use first_agent_dev.Session.Tools.{run_tool}
use first_agent_dev.Session.Execute.{
  Outcome, Setting, new_payload, invalid_payload, run_call, try_hooks, stop_at, on_denied, on_after,
  on_lost, on_run, on_effective, on_before, execute_one_sequential,
}

module _ {U : Type 0} (setting : Setting U) (Inv : U → Type 0) where
  abbrev pub Kept : Run (Session U) → Type 0
  Kept s = Inv s.world.rest

  -- What the loop itself does to the session leaves the rest alone.
  track_path-rest :
      (c : ToolCall) (p : Option String) (w : Session U) → (track_path c p w).rest ≡ w.rest
  unfolding track_path
  track_path-rest c none w = refl
  track_path-rest c (some p) w =
      if_split (λ (w' : Session U). w'.rest ≡ w.rest) (str_eq c.name "fs_read_file") (λ _. refl)
        (λ _.
          if_split (λ (w' : Session U). w'.rest ≡ w.rest)
            (str_eq c.name "fs_write_file" || str_eq c.name "fs_edit_file") (λ _. refl) (λ _. refl))

  pub record_tool_call-Kept :
      (c : ToolCall) (s : Run (Session U)) → Kept s → Kept (record_tool_call c s)
  unfolding record_tool_call append
  record_tool_call-Kept c s h =
      subst⁻¹ Inv
        (track_path-rest c (get_text "path" c.params) (record s.world { turn = suc s.world.turn }))
        h

  pub record_tool_result-Kept :
      (c : ToolCall) (r : ToolResult) (s : Run (Session U))
      → Kept s
      → Kept (record_tool_result c r s)
  unfolding record_tool_result append
  record_tool_result-Kept c r s h = h

  pub stop_at-Kept :
      (point : LifecyclePoint) (reason : String) (s : Run (Session U))
      → Kept s
      → Kept (stop_at setting point reason s).1
  unfolding stop_at append
  stop_at-Kept point reason s h = h

  pub commit_search_paths-Kept : (s : Run (Session U)) → Kept s → Kept (commit_search_paths s)
  unfolding commit_search_paths
  commit_search_paths-Kept s h = h

  pub count_batch-Kept : (s : Run (Session U)) → Kept s → Kept (count_batch s)
  unfolding count_batch
  count_batch-Kept s h = h

  module _ (sinks : SinkKeeps (λ (w : Session U). Inv w.rest) setting.hooks.event_sink)
      (keepers : (point : LifecyclePoint)
        → AllKeepers (λ (w : Session U). Inv w.rest) (setting.hooks.chains point)) where
    pub try_hooks-Kept :
        (point : LifecyclePoint) (p : HookPayload) (s : Run (Session U))
        → Kept s
        → Kept (try_hooks setting point p s).1
    unfolding try_hooks
    try_hooks-Kept point p s h =
        dispatch-Holds (λ (w : Session U). Inv w.rest) setting.hooks point p s sinks (keepers point)
          h

    module _ (decide : HookPayload → Decision)
        (yes_or_no : (p : HookPayload) → ((decide p).action ≡ allow) ⊎ ((decide p).action ≡ deny))
        (checked : HasCheckerIn
          (λ (w : Session U). Inv w.rest)
          decide
          (setting.hooks.chains before_tool_exec))
        (tools : (p : HookPayload) (c : ToolCall) (w : Session U)
          → p.tool_call ≡ some c
          → (decide p).action ≡ allow
          → Inv w.rest
          → Inv (run_tool setting.tools c w).1.rest) where
      -- A payload that BEFORE_TOOL_EXEC gives back has been let pass.
      abbrev pub LetPass : Tried HookPayload → Type 0
      LetPass (returned p) = (decide p).action ≡ allow
      LetPass _ = Unit {0}

      tried-LetPass :
          (r : Result HookPayload)
          → ((p : HookPayload) → r ≡ ok p → (decide p).action ≡ allow)
          → LetPass (tried r)
      unfolding tried
      tried-LetPass (ok p) h = h p refl
      tried-LetPass (raise (permission_error t)) h = tt
      tried-LetPass (raise (runtime_error t)) h = tt
      tried-LetPass (raise (type_error t)) h = tt
      tried-LetPass (raise (value_error t)) h = tt
      tried-LetPass (raise (other_error c t)) h = tt

      pub try_hooks-LetPass :
          (p : HookPayload) (s : Run (Session U))
          → Kept s
          → LetPass (try_hooks setting before_tool_exec p s).0
      unfolding try_hooks
      try_hooks-LetPass p s h =
          tried-LetPass (dispatch setting.hooks before_tool_exec p s).0 (λ q e.
            dispatch-PassesIn (λ (w : Session U). Inv w.rest) decide yes_or_no setting.hooks
              before_tool_exec p s sinks (keepers before_tool_exec) h e checked)

      pub run_call-Kept :
          (p : HookPayload) (c : ToolCall) (s : Run (Session U))
          → p.tool_call ≡ some c
          → (decide p).action ≡ allow
          → Kept s
          → Kept (run_call setting c s).1
      unfolding run_call
      run_call-Kept p c s e a h = tools p c s.world e a h

      on_denied-Kept :
          (c : ToolCall) (r : Result ToolResult) (s : Run (Session U))
          → Kept s
          → Kept (on_denied setting c r s).1
      unfolding on_denied
      on_denied-Kept c (raise e) s h = h
      on_denied-Kept c (ok r) s h = record_tool_result-Kept c r s h

      on_after-Kept :
          (c : ToolCall) (r : ToolResult) (t : Tried HookPayload × Run (Session U))
          → Kept t.1
          → Kept (on_after setting c r t).1
      unfolding on_after
      on_after-Kept c r (crashed e, s) h = h
      on_after-Kept c r (returned p, s) h = record_tool_result-Kept c r s h
      on_after-Kept c r (refused reason, s) h =
          record_tool_result-Kept c r _ (stop_at-Kept after_tool_exec reason s h)

      on_lost-Kept :
          (c : ToolCall) (r : ToolResult) (t : Tried HookPayload × Run (Session U))
          → Kept t.1
          → Kept (on_lost setting c r t).1
      unfolding on_lost
      on_lost-Kept c r (crashed e, s) h = h
      on_lost-Kept c r (returned p, s) h = record_tool_result-Kept c r s h
      on_lost-Kept c r (refused reason, s) h = record_tool_result-Kept c r s h

      on_run-Kept :
          (p : HookPayload) (c : ToolCall) (o : Outcome U ToolResult)
          → Kept o.1
          → Kept (on_run setting p c o).1
      unfolding on_run
      on_run-Kept p c (raise e, s) h = h
      on_run-Kept p c (ok r, s) h =
          on_after-Kept c r _ (try_hooks-Kept after_tool_exec (with_tool_result r p) s h)

      on_effective-Kept :
          (c : ToolCall) (p : HookPayload) (effective : Option ToolCall) (s : Run (Session U))
          → p.tool_call ≡ effective
          → (decide p).action ≡ allow
          → Kept s
          → Kept (on_effective setting c p effective s).1
      unfolding on_effective
      on_effective-Kept c p none s e a h =
          on_lost-Kept c invalid_payload _ (try_hooks-Kept after_tool_exec _ s h)
      on_effective-Kept c p (some x) s e a h = on_run-Kept p x _ (run_call-Kept p x s e a h)

      on_before-Kept :
          (c : ToolCall) (t : Tried HookPayload × Run (Session U))
          → LetPass t.0
          → Kept t.1
          → Kept (on_before setting c t).1
      unfolding on_before
      on_before-Kept c (crashed e, s) a h = h
      on_before-Kept c (refused reason, s) a h =
          on_denied-Kept c (default_tool_result_for_denial reason) s h
      on_before-Kept c (returned p, s) a h = on_effective-Kept c p p.tool_call s refl a h

      pub execute_one_sequential-Kept :
          (c : ToolCall) (s : Run (Session U))
          → Kept s
          → Kept (execute_one_sequential setting c s).1
      unfolding execute_one_sequential
      execute_one_sequential-Kept c s h =
          let payload = new_payload (some c) setting.role setting.acting_family in
          let s' = record_tool_call c s in
          on_before-Kept c _ (try_hooks-LetPass payload s' (record_tool_call-Kept c s h))
            (try_hooks-Kept before_tool_exec payload s' (record_tool_call-Kept c s h))
