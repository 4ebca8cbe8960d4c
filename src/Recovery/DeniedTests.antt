-- ===== src/Recovery/DeniedTests.antt =====
-- A guard whose reason reads like a time-out.
use first_agent_dev.Prelude.{
  ℕ, String, ◌≡◌, refl, ◌⊎◌, Bool, false, Option, none, some, [], ◌∷◌, str_eq,
}
use first_agent_dev.Hooks.Types.{ok, before_tool_exec, no_entries, ToolError, ToolCall, deny}
use first_agent_dev.Hooks.Registry.{
  Middleware, Run, dispatch, dispatch_from, on_answer, ask, on_action,
}
use first_agent_dev.Session.Types.{
  Session, StopInfo, refused, tried, failure, fail, record_tool_call,
}
use first_agent_dev.Session.Execute.{Setting, new_payload, try_hooks, execute_one_sequential}
use first_agent_dev.Recovery.Classify.{
  classify_result, category_of_code, category_for, code_to_category, keyword_to_category,
}
use first_agent_dev.Recovery.Denied.{
  escalation, execute_one_sequential-escalates, Matched, category_for-Matched,
}

abbrev lower : String → String
lower s = s

abbrev includes : String → String → Bool
includes keyword message = str_eq keyword message

abbrev guard : Middleware (Session ℕ)
guard = record {
  identity = 1;
  name = "Guard";
  class_name = "Guard";
  attaches_to = before_tool_exec ∷ [];
  uses_llm = false;
  family = "";
  revalidates_after_modify = false;
  handle =
      some (λ point p w. (ok (record { action = deny; reason = "timeout"; payload = none }), w));
  observe = none;
}

abbrev setting : Setting ℕ
setting = record {
  tools = [];
  hooks = record { chains = λ q. guard ∷ []; registered = []; event_sink = none };
  role = "coder";
  acting_family = "";
}

abbrev call : ToolCall
call = record { name = "fs_run_bash"; params = no_entries; call_id = "1" }

abbrev fresh : Run (Session ℕ)
fresh = record {
  world = record {
    log = [];
    turn = 0;
    batch_turn = 0;
    observations = [];
    read_set = [];
    write_set = [];
    last_search_paths = [];
    pending_search_paths = [];
    rest = 0;
  };
  dispatch_trace = [];
}

denied :
    (try_hooks setting before_tool_exec
      (new_payload (some call) "coder" "")
      (record_tool_call call fresh)).0
    ≡ refused "timeout"
unfolding try_hooks dispatch tried dispatch_from on_answer ask on_action
denied = refl

done : (execute_one_sequential setting call fresh).0 ≡ ok (failure "hook_deny" "timeout", none)
unfolding execute_one_sequential tried dispatch dispatch_from on_answer ask on_action fail
done = refl

execute_one_sequential-escalates_example :
    (◌≡◌ {A = Option StopInfo} none none)
    × (classify_result lower includes (failure "hook_deny" "timeout") "fs_run_bash"
        ≡ some (escalation "fs_run_bash" "timeout"))
execute_one_sequential-escalates_example =
    execute_one_sequential-escalates lower includes setting call fresh "timeout" "fs_run_bash"
      denied done

abbrev crash : ToolError
crash = record { code = "internal_error"; message = "timeout"; retryable = false }

category_for-Matched_example :
    (category_of_code crash.code code_to_category ≡ some (category_for lower includes crash))
    ⊎ ((category_of_code crash.code code_to_category ≡ none)
        × Matched lower includes "timeout" (category_for lower includes crash) keyword_to_category)
category_for-Matched_example = category_for-Matched lower includes crash
