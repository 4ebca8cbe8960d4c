-- ===== src/Hooks/ConfinedTests.antt =====
-- The sandbox hook alone in a chain, and a call to write a file of the workspace `/w`.
use first_agent_dev.Prelude.{
  ℕ, String, ◌≡◌, refl, true, false, none, some, inl, [], ◌∷◌, str_eq, if◌then◌else◌, Option-cases,
  inr, some_inj, ◌≢◌, sym,
}
use mathlib.Core.Path.{subst}
use first_agent_dev.Hooks.Types.{
  text, no_entries, entry, get_entry, ok, before_tool_exec, LifecyclePoint, ToolCall, HookPayload,
}
use first_agent_dev.Hooks.Registry.{
  Handle, Middleware, HookRegistry, Run, dispatch, dispatch_from, on_answer, ask, on_action,
}
use first_agent_dev.Hooks.Keeps.{AllKeepers}
use first_agent_dev.Hooks.Sandbox.{
  Disk, text_of, is_contained, is_relative_to, decision_of, handle_path, sandbox_call,
  handle_sandbox,
}
use first_agent_dev.Hooks.Confined.{Inside, dispatch-Inside}

abbrev disk : Disk ℕ
disk = record {
  parts = λ s. s ∷ [];
  has_dollar = λ s. false;
  strip = λ s. s;
  repr = λ s. s;
  expandvars = λ s w. s;
  resolve_against = λ s w. if str_eq s "a" then some ("w" ∷ "a" ∷ []) else none;
  base = λ w. "w" ∷ [];
  show_parts = λ s. "";
  evaluate_bash = λ s w. none;
}

abbrev writing : ToolCall
writing = record {
  name = "fs_write_file";
  params = entry "path" (text "a") no_entries;
  call_id = "1";
}

abbrev payload : HookPayload
payload = record {
  tool_call = some writing;
  tool_result = none;
  role = "coder";
  acting_family = "";
  context = no_entries;
}

abbrev sandbox : Middleware ℕ
sandbox = record {
  identity = 1;
  name = "sandbox";
  class_name = "SandboxHook";
  attaches_to = before_tool_exec ∷ [];
  uses_llm = false;
  family = "";
  revalidates_after_modify = true;
  handle = some (handle_sandbox disk);
  observe = none;
}

abbrev registry : HookRegistry ℕ
registry = record { chains = λ q. sandbox ∷ []; registered = []; event_sink = none }

abbrev fresh : Run ℕ
fresh = record { world = 0; dispatch_trace = [] }

passed : (dispatch registry before_tool_exec payload fresh).0 ≡ ok payload
unfolding dispatch dispatch_from on_answer ask on_action handle_sandbox sandbox_call handle_path
    decision_of is_contained is_relative_to get_entry
passed = refl

steady :
    (point : LifecyclePoint) (p : HookPayload) (v : ℕ)
    → v ≡ 0
    → (handle_sandbox disk point p v).0 ≡ (handle_sandbox disk before_tool_exec p 0).0
unfolding handle_sandbox
steady point p v h = rw h refl

handle_sandbox-keeps :
    (q : LifecyclePoint) (p : HookPayload) (w : ℕ) → w ≡ 0 → (handle_sandbox disk q p w).1 ≡ 0
unfolding handle_sandbox
handle_sandbox-keeps q p w h = elim (Option-cases p.tool_call) [
  | inl n ↦ rw (n, handle_sandbox) h
  | inr (c, e) ↦ rw (e, handle_sandbox) h
]

some≢none : {A : Type 0} {a : A} → some a ≢ none
some≢none e = cc

keepers : AllKeepers (λ (n : ℕ). n ≡ 0) (sandbox ∷ [])
keepers = (
  record {
    handles = λ handle e.
        subst
          (λ (f : Handle ℕ).
            (q : LifecyclePoint) (p : HookPayload) (w : ℕ) → w ≡ 0 → (f q p w).1 ≡ 0)
          (some_inj e) handle_sandbox-keeps;
    observes = λ observe e. absurd (some≢none (sym e));
  },
  tt,
)

dispatch-Inside_example :
    (path : String) × (text_of (get_entry "path" writing.params) ≡ some path) × Inside disk 0 path
dispatch-Inside_example =
    dispatch-Inside disk 0 (λ n. n ≡ 0) (λ c r h. absurd (some≢none (sym h))) steady registry
      payload fresh writing tt keepers (inl (record { handles = refl; revalidates = refl })) refl
      passed refl refl
