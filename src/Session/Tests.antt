-- ===== src/Session/Tests.antt =====
-- A round with two tools, of which the guard lets one run.
use mathlib.Core.Path.{subst}
use first_agent_dev.Prelude.{
  sym, ◌≢◌, ℕ, ◌≤◌, suc, String, ◌≡◌, refl, true, false, none, some, is_some, ◌⊎◌, inl, inr, List,
  [], ◌∷◌, length, flatten, all, str_eq, ◌==◌, if◌then◌else◌, Bool-cases, Option-cases, some_inj,
}
use first_agent_dev.Hooks.Types.{
  text, no_entries, entry, Result, ok, LifecyclePoint, before_tool_exec, ToolCall, ToolResult,
  HookPayload, allow, deny, Decision, allowed,
}
use first_agent_dev.Hooks.Registry.{
  dispatch, dispatch_from, on_answer, ask, on_action, Handle, Middleware, Run,
}
use first_agent_dev.Hooks.Keeps.{AllKeepers}
use first_agent_dev.Session.Types.{
  tried, fail, Session, count_batch, record_tool_call, track_path, record_tool_result,
  commit_search_paths,
}
use first_agent_dev.Session.Tools.{handled, ToolRegistry, run_tool, lookup, on_handled}
use first_agent_dev.Session.Batches.{classify_batches}
use first_agent_dev.Session.Grouping.{flatten-classify_batches}
use first_agent_dev.Session.Clash.{harmless, classify_batches-harmless}
use first_agent_dev.Session.Execute.{try_hooks, execute_one_sequential, Outcome, Setting}
use first_agent_dev.Session.Parallel.{execute_batch_parallel, Pool}
use first_agent_dev.Session.Run.{hook_decision_sink, cap_reason, Limits, SessionRun, run_session}
use first_agent_dev.Session.Bounds.{length-run_session}
use first_agent_dev.Session.SafeBatch.{Each, OnlyRuns}
use first_agent_dev.Session.SafeRun.{run_session-Kept}

abbrev read : String → String → ToolCall
read id path = record {
  name = "fs_read_file";
  params = entry "path" (text path) no_entries;
  call_id = id;
}

abbrev bash : ToolCall
bash = record { name = "fs_run_bash"; params = no_entries; call_id = "b" }

abbrev round : List ToolCall
round = read "1" "a/x" ∷ read "2" "b" ∷ read "3" "a" ∷ bash ∷ read "4" "c" ∷ []

abbrev done_text : ToolResult
done_text = record { summary = "done"; result = none; error = none; artifacts = [] }

-- The state counts the commands that have run.
abbrev tools : ToolRegistry (Session ℕ)
tools =
    record {
      spec = record {
        name = "fs_read_file";
        permission = "read";
        handler = λ p w. (handled done_text, w);
      };
      validator = λ p. none;
    }
    ∷ record {
      spec = record {
        name = "fs_run_bash";
        permission = "workspace";
        handler = λ p w. (handled done_text, record w { rest = suc w.rest });
      };
      validator = λ p. none;
    }
    ∷ []

-- three files, of which one is a directory of another
abbrev parts : String → List String
parts p = if str_eq p "a/x" then "a" ∷ "x" ∷ [] else p ∷ []

batches :
    classify_batches parts tools round
    ≡ (read "1" "a/x" ∷ read "2" "b" ∷ [])
      ∷ (read "3" "a" ∷ [])
      ∷ (bash ∷ [])
      ∷ (read "4" "c" ∷ [])
      ∷ []
unfolding classify_batches
batches = refl

flatten-classify_batches_example : flatten (classify_batches parts tools round) ≡ round
flatten-classify_batches_example = flatten-classify_batches parts tools round

classify_batches-harmless_example :
    all (harmless parts tools) (classify_batches parts tools round) ≡ true
classify_batches-harmless_example = classify_batches-harmless parts tools round

decide : HookPayload → Decision
decide p = elim p.tool_call [
  | none ↦ allowed
  | some c ↦
      if str_eq "fs_run_bash" c.name
      then record { action = deny; reason = "no commands"; payload = none }
      else allowed
]

yes_or_no : (p : HookPayload) → ((decide p).action ≡ allow) ⊎ ((decide p).action ≡ deny)
unfolding decide
yes_or_no p = elim (Option-cases p.tool_call) [
  | inl n ↦ inl (rw n refl)
  | inr (c, e) ↦ elim (Bool-cases (str_eq "fs_run_bash" c.name)) [
    | inl y ↦ inr (rw e (rw y refl))
    | inr n ↦ inl (rw e (rw n refl))
  ]
]

-- a guard that decides so as long as no command has run, and then lets nothing pass
abbrev guard : Handle (Session ℕ)
guard point p w = (
  ok (
      if w.rest == 0
      then decide p
      else record { action = deny; reason = "commands have run"; payload = none }),
  w,
)

abbrev checker : Middleware (Session ℕ)
checker = record {
  identity = 1;
  name = "Sandbox";
  class_name = "Sandbox";
  attaches_to = before_tool_exec ∷ [];
  uses_llm = false;
  family = "";
  revalidates_after_modify = true;
  handle = some guard;
  observe = none;
}

abbrev setting : Setting ℕ
setting = record {
  tools = tools;
  hooks = record { chains = λ q. checker ∷ []; registered = []; event_sink = none };
  role = "coder";
  acting_family = "";
}

-- A pool that runs the calls one after the other.
run_all :
    (ToolCall → Run (Session ℕ) → Outcome ℕ ToolResult)
    → List ToolCall
    → Run (Session ℕ)
    → List (ToolCall × Result ToolResult) × Run (Session ℕ)
run_all run [] s = ([], s)
run_all run (c ∷ cs) s =
    let (r, s') = run c s in let (rs, s'') = run_all run cs s' in ((c, r) ∷ rs, s'')

pool : Pool ℕ
unfolding run_all
pool run cs s = let (rs, s') = run_all run cs s in (some (record { done = rs; not_done = [] }), s')

abbrev fresh : Run (Session ℕ)
fresh = record {
  world = record {
    log = [];
    turn = 0;
    batch_turn = 0;
    observations = [];
    read_set = [];
    write_set = [];
    last_search_paths = [];
    pending_search_paths = [];
    rest = 0;
  };
  dispatch_trace = [];
}

abbrev limits : Limits
limits = record { max_iterations = 4; tool_batching_enabled = true }

abbrev refused : ToolResult
refused = record {
  summary = "no commands";
  result = none;
  error = some (record { code = "hook_deny"; message = "no commands"; retryable = false });
  artifacts = [];
}

-- The command is refused, and the last call is over the limit.
abbrev capped : SessionRun
capped = record {
  results = done_text ∷ done_text ∷ done_text ∷ refused ∷ [];
  stop = some (record { point = "iteration_cap"; reason = cap_reason 4 4 });
}

ran : (run_session parts pool setting limits round fresh).0 ≡ ok capped
unfolding run_session pool decide classify_batches try_hooks tried dispatch dispatch_from on_answer
    ask on_action execute_batch_parallel execute_one_sequential run_tool on_handled fail
    hook_decision_sink count_batch record_tool_call track_path record_tool_result
    commit_search_paths
ran = refl

length-run_session_example :
    (length capped.results ≤ 4)
    × (length capped.results ≤ 5)
    × ((is_some capped.stop ≡ true) ⊎ (length capped.results ≡ 5))
length-run_session_example = length-run_session parts pool setting limits round fresh ran

some≢none : {A : Type 0} {a : A} → some a ≢ none
some≢none e = cc

keepers :
    (point : LifecyclePoint)
    → AllKeepers (λ (w : Session ℕ). w.rest ≡ 0) (setting.hooks.chains point)
keepers point = (
  record {
    handles = λ handle e.
        subst
          (λ (f : Handle (Session ℕ)).
            (q : LifecyclePoint) (p : HookPayload) (w : Session ℕ)
            → w.rest ≡ 0
            → (f q p w).1.rest ≡ 0)
          (some_inj e) (λ q p w h. h);
    observes = λ observe e. absurd (some≢none (sym e));
  },
  tt,
)

run_all-keeps :
    (K : Run (Session ℕ) → Type 0) (run : ToolCall → Run (Session ℕ) → Outcome ℕ ToolResult)
    (cs : List ToolCall) (s : Run (Session ℕ))
    → Each (λ c. (s' : Run (Session ℕ)) → K s' → K (run c s').1) cs
    → K s
    → K (run_all run cs s).1
unfolding run_all
run_all-keeps K run [] s k h = h
run_all-keeps K run (c ∷ cs) s (k, ks) h = run_all-keeps K run cs (run c s).1 ks (k s h)

only_run : OnlyRuns pool
unfolding pool
only_run K run cs s k h = run_all-keeps K run cs s k h

tools-keep :
    (p : HookPayload) (c : ToolCall) (w : Session ℕ)
    → p.tool_call ≡ some c
    → (decide p).action ≡ allow
    → w.rest ≡ 0
    → (run_tool tools c w).1.rest ≡ 0
unfolding decide run_tool lookup on_handled
tools-keep p c w e a h = elim (Bool-cases (str_eq "fs_read_file" c.name)) [
  | inl y ↦ rw (y, run_tool) h
  | inr n ↦ elim (Bool-cases (str_eq "fs_run_bash" c.name)) [
    | inr m ↦ rw (n, m, run_tool) h
    | inl y ↦ cc (rw y at (rw e at a))
  ]
]

run_session-Kept_example : (run_session parts pool setting limits round fresh).1.world.rest ≡ 0
run_session-Kept_example =
    run_session-Kept parts pool setting (λ n. n ≡ 0) keepers decide yes_or_no
      (inl (record {
        handle = guard;
        handles = refl;
        answers = λ point p w h. rw h refl;
        revalidates = refl;
      }))
      tools-keep only_run limits round fresh refl
