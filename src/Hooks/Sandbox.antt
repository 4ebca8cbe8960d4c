-- ===== src/Hooks/Sandbox.antt =====
-- hooks/builtin.py, `SandboxHook.handle`, and sandbox/path_containment.py, `is_contained`. `W` is the
-- world with the file system and the environment; pathlib, `os.path.expandvars`, `str.strip` and the
-- bash gate of sandbox/bash_gate.py, with the hook's workspace and flags, are parameters.
use first_agent_dev.Prelude.{
  String, Bool, true, false, not, ◌&&◌, ◌||◌, Option, none, some, List, [], ◌∷◌, any, truthy,
  str_eq, concat, if◌then◌else◌,
}
use first_agent_dev.Hooks.Types.{
  Object, text, get_entry, Result, ok, ToolCall, HookPayload, LifecyclePoint, Decision, allowed,
  deny_with,
}

pub record Disk (W : Type 0) : Type 0 where
  -- `Path(s).parts`, and `"$" in s`
  pub parts : String → List String
  pub has_dollar : String → Bool
  pub strip : String → String
  pub repr : String → String
  pub expandvars : String → W → String
  -- the parts of `resolve_against(s, base)` and of `base.resolve(strict=False)`
  pub resolve_against : String → W → Option (List String)
  pub base : W → List String
  pub show_parts : List String → String
  -- `evaluate_bash`: none where it allows, or the reason
  pub evaluate_bash : String → W → Option String

abbrev pub fs_path_tools : List String
fs_path_tools = "fs_read_file" ∷ "fs_write_file" ∷ []

-- `canonical.relative_to(base)` succeeds
unfoldable pub is_relative_to : List String → List String → Bool
is_relative_to xs [] = true
is_relative_to [] (b ∷ bs) = false
is_relative_to (x ∷ xs) (b ∷ bs) = str_eq x b && is_relative_to xs bs

abbrev pub text_of : Option Object → Option String
text_of (some (text t)) = some t
text_of _ = none

module _ {W : Type 0} (disk : Disk W) where
  -- `is_contained`: none where the path is contained, or the reason why not
  unfoldable pub is_contained : String → W → Option String
  is_contained t w =
      if any (str_eq "..") (disk.parts t)
      then some (concat ("path contains `..` traversal component: " ∷ disk.repr t ∷ []))
      else if disk.has_dollar (disk.expandvars t w)
      then some (
          concat (
            "path contains unresolved shell variable: "
            ∷ disk.repr t
            ∷ " (bash will expand `$VAR` at execution time, which can "
            ∷ "escape the workspace if the variable is undefined)"
            ∷ []))
      else (elim (disk.resolve_against t w) [
        | none ↦ some (concat ("could not resolve path: " ∷ disk.repr t ∷ []))
        | some canonical ↦
            if is_relative_to canonical (disk.base w)
            then none
            else some (
                concat (
                  "resolved path "
                  ∷ disk.show_parts canonical
                  ∷ " is outside base "
                  ∷ disk.show_parts (disk.base w)
                  ∷ []))
      ])

  -- `Decision.allow()`, or `Decision.deny` with the reason
  unfoldable pub decision_of : Option String → Result Decision
  decision_of none = ok allowed
  decision_of (some reason) = deny_with reason

  abbrev pub escaping : Option String → Option String
  escaping none = none
  escaping (some reason) = some (concat ("path escapes workspace: " ∷ reason ∷ []))

  unfoldable pub handle_bash : Option String → W → Result Decision
  unfolding decision_of
  handle_bash none w = deny_with "bash command must be a string"
  handle_bash (some command) w = decision_of (disk.evaluate_bash command w)

  unfoldable pub handle_path : Option String → W → Result Decision
  unfolding decision_of is_contained
  handle_path none w = deny_with "path must be a non-empty string"
  handle_path (some path) w =
      if truthy path
      then decision_of (escaping (is_contained path w))
      else deny_with "path must be a non-empty string"

  -- `isinstance(x, str) and bool(x.strip())`
  abbrev pub is_given : Option String → Bool
  is_given none = false
  is_given (some t) = truthy (disk.strip t)

  abbrev pub artifact_only : ToolCall → Bool
  artifact_only c =
      is_given (text_of (get_entry "artifact_id" c.params))
      && not (is_given (text_of (get_entry "path" c.params)))

  unfoldable pub sandbox_call : ToolCall → W → Result Decision
  unfolding handle_bash handle_path
  sandbox_call c w =
      if str_eq c.name "fs_run_bash" || str_eq c.name "fs_spawn_subagent"
      then handle_bash (text_of (get_entry "command" c.params)) w
      else if any (str_eq c.name) fs_path_tools
      then (if str_eq c.name "fs_read_file" && artifact_only c
          then ok allowed
          else handle_path (text_of (get_entry "path" c.params)) w)
      else ok allowed

  -- `SandboxHook.handle`
  unfoldable pub handle_sandbox : LifecyclePoint → HookPayload → W → Result Decision × W
  unfolding sandbox_call
  handle_sandbox point p w = elim p.tool_call [
    | none ↦ (ok allowed, w)
    | some c ↦ (sandbox_call c w, w)
  ]
