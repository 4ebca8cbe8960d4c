-- ===== src/Hooks/Tests.antt =====
-- Small chains, and a guard that sees one call again and again.
use first_agent_dev.Prelude.{
  List, ℕ, ◌+◌, String, ◌≡◌, refl, Bool, true, false, none, some, ◌⊎◌, inl, inr, [], ◌∷◌, ◌++◌,
  str_eq, if◌then◌else◌, arith,
}
use first_agent_dev.Hooks.Types.{
  LifecyclePoint, after_tool_exec, ok, before_tool_exec, between_rounds, no_entries, ToolCall,
  ToolResult, HookPayload, allow, deny, Decision, allowed, modified,
}
use first_agent_dev.Hooks.Registry.{
  Middleware, HookRegistry, Run, register, validate_middleware, attach, dispatch, dispatch_from,
  ask, record_step, replay, on_answer, on_action, on_modify, on_replay, middleware_name,
}
use first_agent_dev.Hooks.Passes.{dispatch-Passes}
use first_agent_dev.Hooks.Registration.{copies, register-register, register-chains}
use first_agent_dev.Hooks.Blockers.{
  rate_limit, Matching, detect, detect_error, Blocker, handle_blocker,
}
use first_agent_dev.Hooks.Suppression.{
  Windowed, after_events, Failure, blocked, Failure-Blocks, Failure-others,
}
use first_agent_dev.Hooks.LoopGuard.Scan.{Config, LoopGuard, new, Hashing, handle}
use first_agent_dev.Hooks.LoopGuard.Stuck.{Stuck, Denies}
use first_agent_dev.Hooks.LoopGuard.Runs.{Inv, Reachable, begin, step, Reachable-Inv, handle-Stuck}

abbrev payload : HookPayload
payload = record {
  tool_call = none;
  tool_result = none;
  role = "coder";
  acting_family = "a";
  context = no_entries;
}

-- lets everything pass but the planner
abbrev decide : HookPayload → Decision
decide p = record {
  action = if str_eq p.role "planner" then deny else allow;
  reason = "no planner";
  payload = none;
}

yes_or_no : (p : HookPayload) → ((decide p).action ≡ allow) ⊎ ((decide p).action ≡ deny)
yes_or_no p = choose (str_eq p.role "planner")
  where
    choose :
        (b : Bool) → ((if b then deny else allow) ≡ allow) ⊎ ((if b then deny else allow) ≡ deny)
    choose true = inr refl
    choose false = inl refl

abbrev checker : Middleware ℕ
checker = record {
  identity = 1;
  name = "Checker";
  class_name = "Checker";
  attaches_to = before_tool_exec ∷ [];
  uses_llm = false;
  family = "";
  revalidates_after_modify = true;
  handle = some (λ point p w. (ok (decide p), w));
  observe = none;
}

-- gives the call to `role`
abbrev renamer : String → Middleware ℕ
renamer role = record checker {
  identity = 2;
  name = "Renamer";
  class_name = "Renamer";
  revalidates_after_modify = false;
  handle = some (λ point p w. (ok (modified (record p { role = role })), w + 1));
}

abbrev empty_registry : HookRegistry ℕ
empty_registry = record { chains = λ q. []; registered = []; event_sink = none }

abbrev chain : String → HookRegistry ℕ
chain role = record empty_registry { chains = λ q. checker ∷ renamer role ∷ [] }

abbrev fresh : Run ℕ
fresh = record { world = 0; dispatch_trace = [] }

dispatched :
    (dispatch (chain "eval") before_tool_exec payload fresh).0
    ≡ ok (record payload { role = "eval" })
unfolding dispatch dispatch_from ask record_step replay on_answer on_action on_modify on_replay
    middleware_name
dispatched = refl

-- the replay catches a change that the checker would not have let pass
refused :
    (p : HookPayload) → (dispatch (chain "planner") before_tool_exec payload fresh).0 ≡ ok p → ⊥
unfolding dispatch dispatch_from ask record_step replay on_answer on_action on_modify on_replay
    middleware_name
refused p h = cc

dispatch-Passes_example : (decide (record payload { role = "eval" })).action ≡ allow
dispatch-Passes_example =
    dispatch-Passes decide yes_or_no (chain "eval") before_tool_exec payload fresh dispatched
      (inl (record { handles = refl; revalidates = refl }))

abbrev registered : HookRegistry ℕ
registered = record empty_registry {
  registered = 1 ∷ [];
  chains = attach checker (before_tool_exec ∷ []) empty_registry.chains;
}

registered_lem : register checker "a" empty_registry ≡ ok registered
unfolding register validate_middleware
registered_lem = refl

register-register_example : register checker "a" registered ≡ ok registered
register-register_example = register-register checker "a" empty_registry registered registered_lem

register-chains_example :
    registered.chains before_tool_exec
    ≡ [] ++ copies checker "a" before_tool_exec (before_tool_exec ∷ [])
register-chains_example =
    register-chains checker "a" empty_registry registered before_tool_exec refl registered_lem

abbrev config : Config
config = record {
  repeat_warn = 1;
  circuit_breaker = 2;
  window = 4;
  pingpong_warn_cycles = 1;
  pingpong_break_cycles = 2;
}

abbrev hashing : Hashing
hashing = record { dumps = λ e. "{}"; sha256_12 = λ s. s }

abbrev guard : LoopGuard
guard = record { config = config; has_sink = true; observations = []; warned = []; emitted = [] }

guard_lem : new config true ≡ ok guard
unfolding new
guard_lem = refl

abbrev calling : HookPayload
calling = record payload {
  tool_call = some (record { name = "read"; params = no_entries; call_id = "1" });
}

-- one call, twice
abbrev looping : LoopGuard
looping =
    (handle hashing before_tool_exec calling (handle hashing before_tool_exec calling guard).1).1

looping_lem : Reachable hashing config true looping
looping_lem = step before_tool_exec calling (step before_tool_exec calling (begin guard_lem))

Reachable-Inv_example : Inv looping
Reachable-Inv_example = Reachable-Inv hashing looping_lem

handle-Stuck_example :
    let r = (handle hashing between_rounds calling looping).0 in
    (Stuck looping.config looping.observations × Denies r)
    ⊎ (¬ Stuck looping.config looping.observations × (r ≡ ok allowed))
handle-Stuck_example = handle-Stuck hashing calling looping_lem

abbrev matching : Matching
matching = record {
  rate_limit_message = λ s. false;
  lockfile_message = λ s. false;
  auth_expired_message = λ s. false;
  tenths = λ n. "";
}

abbrev clock : ℕ → ℕ × ℕ
clock w = (w, w)

abbrev limiter : Blocker
limiter = record { category = rate_limit; suppression = 30000; observed_at = [] }

abbrev reading : ToolCall
reading = record { name = "read"; params = no_entries; call_id = "1" }

abbrev too_many : ToolResult
too_many = record {
  summary = "429";
  result = none;
  error = some (record { code = "http_429"; message = ""; retryable = true });
  artifacts = [];
}

abbrev limited : HookPayload
limited = record calling { tool_result = some too_many }

detected : detect matching rate_limit too_many ≡ true
unfolding detect detect_error
detected = refl

limited_lem : Failure matching clock rate_limit limited reading
limited_lem = record { result = too_many; called = refl; returned = refl; detected = detected }

abbrev writing : HookPayload
writing = record payload { tool_call = some (record reading { name = "write" }) }

-- The tool is called, and denied, before it is called again; another tool fails in between.
abbrev between : List (LifecyclePoint × HookPayload × ℕ)
between =
    (before_tool_exec, calling, 15)
    ∷ (after_tool_exec, record writing { tool_result = some too_many }, 18)
    ∷ []

Failure-Blocks_example :
    Windowed matching clock 30010 calling 20
      (after_events matching clock between (blocked matching clock limited (limiter, 10)))
Failure-Blocks_example =
    Failure-Blocks matching clock limited calling reading reading limiter 10 20 between
      (omega arith) limited_lem refl refl refl

Failure-others_example :
    (handle_blocker matching clock before_tool_exec writing
      (blocked matching clock limited (limiter, 10), 20)).0
    ≡ (handle_blocker matching clock before_tool_exec writing (limiter, 20)).0
Failure-others_example =
    Failure-others matching clock limited writing reading (record reading { name = "write" })
      limiter 10 20 limited_lem refl refl
