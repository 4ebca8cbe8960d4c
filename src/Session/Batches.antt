-- ===== src/Session/Batches.antt =====
-- loop.py: which calls run together. `parts` is `Path(p).parts` of pathlib.
use first_agent_dev.Prelude.{
  String, Bool, true, false, not, ◌&&◌, ◌||◌, Option, none, some, List, [], ◌∷◌, ◌++◌, length, take,
  any, truthy, str_eq, leb, ◌==◌, if◌then◌else◌, min,
}
use first_agent_dev.Hooks.Types.{ok, raise, ToolCall}
use first_agent_dev.Session.Types.{get_text}
use first_agent_dev.Session.Tools.{ToolRegistry, lookup}

abbrev pub never_parallel_tools : List String
never_parallel_tools =
    "fs_checkpoint" ∷ "fs_undo" ∷ "fs_send_ctrl_c" ∷ "fs_write_file" ∷ "fs_edit_file"
    ∷ "fs_run_bash" ∷ "invoke_workflow" ∷ []

abbrev pub parallel_safe_tools : List String
parallel_safe_tools =
    "fs_search" ∷ "fs_read_file" ∷ "fs_chronicle_search" ∷ "fs_usage" ∷ "fs_list_tasks" ∷ "fs_diff"
    ∷ "fs_reach" ∷ []

abbrev pub path_scoped_tools : List String
path_scoped_tools = "fs_read_file" ∷ "fs_write_file" ∷ "fs_edit_file" ∷ []

-- `name in tools`
abbrev pub is_in : String → List String → Bool
is_in name tools = any (str_eq name) tools

-- `==` on lists of texts
unfoldable pub same_texts : List String → List String → Bool
same_texts [] [] = true
same_texts (x ∷ xs) (y ∷ ys) = str_eq x y && same_texts xs ys
same_texts _ _ = false

-- `_paths_overlap`, on the parts of the paths
unfoldable pub paths_overlap : List String → List String → Bool
unfolding same_texts
paths_overlap left right =
    let common = min (length left) (length right) in
    if common == 0 then false else same_texts (take common left) (take common right)

module _ (parts : String → List String) where
  unfoldable pub extract_parallel_scope_path : ToolCall → Option (List String)
  unfolding get_text
  extract_parallel_scope_path c = elim (get_text "path" c.params) [
    | some p ↦ if truthy p then some (parts p) else none
    | none ↦ none
  ]

  -- `scoped` of `classify_batches`
  unfoldable pub scope_of : ToolCall → Option (List String)
  unfolding extract_parallel_scope_path
  scope_of c = if is_in c.name path_scoped_tools then extract_parallel_scope_path c else none

  -- `scoped and any(_paths_overlap(scoped, p) for p in reserved)`
  unfoldable pub collides : Option (List String) → List (List String) → Bool
  unfolding paths_overlap
  collides none reserved = false
  collides (some scoped) reserved = any (paths_overlap scoped) reserved

  -- `[scoped] if scoped else []`
  abbrev pub reserve : Option (List String) → List (List String)
  reserve none = []
  reserve (some scoped) = scoped ∷ []

  module _ {W : Type 0} (tools : ToolRegistry W) where
    -- a tool that is registered with the permission `read`
    unfoldable pub is_read_tool : String → Bool
    unfolding lookup
    is_read_tool name = elim (lookup name tools) [
      | raise _ ↦ false
      | ok t ↦ str_eq t.spec.permission "read"
    ]

    -- the second loop of `_should_parallelize_tool_batch`
    unfoldable pub disjoint_scopes : List ToolCall → List (List String) → Bool
    unfolding extract_parallel_scope_path paths_overlap is_read_tool
    disjoint_scopes [] reserved = true
    disjoint_scopes (c ∷ cs) reserved =
        if is_in c.name path_scoped_tools
        then (elim (extract_parallel_scope_path c) [
          | none ↦ false
          | some scoped ↦
              not (any (paths_overlap scoped) reserved)
              && disjoint_scopes cs (reserved ++ scoped ∷ [])
        ])
        else (is_in c.name parallel_safe_tools || is_read_tool c.name)
          && disjoint_scopes cs reserved

    unfoldable pub should_parallelize_tool_batch : List ToolCall → Bool
    unfolding disjoint_scopes
    should_parallelize_tool_batch calls =
        if leb (length calls) 1
        then false
        else if any (λ c. is_in c.name never_parallel_tools) calls
        then false
        else disjoint_scopes calls []

    unfoldable pub is_parallelizable : ToolCall → Bool
    unfolding is_read_tool
    is_parallelizable c =
        if is_in c.name never_parallel_tools
        then false
        else is_read_tool c.name || is_in c.name parallel_safe_tools

    -- the loop of `classify_batches`, with `current` and `reserved_in_current`
    unfoldable pub classify_from :
        List ToolCall → List ToolCall → List (List String) → List (List ToolCall)
    unfolding is_parallelizable scope_of collides should_parallelize_tool_batch
    classify_from [] [] reserved = []
    classify_from [] current reserved = current ∷ []
    classify_from (c ∷ cs) [] reserved =
        let scoped = scope_of c in
        let alone = classify_from cs [] reserved in
        let flushed = classify_from cs (c ∷ []) (reserve scoped) in
        let started = classify_from cs (c ∷ []) (reserved ++ reserve scoped) in
        if is_parallelizable c
        then if collides scoped reserved then [] ∷ flushed else started
        else (c ∷ []) ∷ alone
    classify_from (c ∷ cs) (d ∷ ds) reserved =
        let scoped = scope_of c in
        let alone = classify_from cs [] [] in
        let flushed = classify_from cs (c ∷ []) (reserve scoped) in
        let joined = classify_from cs (d ∷ ds ++ c ∷ []) (reserved ++ reserve scoped) in
        if not (is_parallelizable c)
        then (d ∷ ds) ∷ (c ∷ []) ∷ alone
        else if collides scoped reserved
        then (d ∷ ds) ∷ flushed
        else if should_parallelize_tool_batch (d ∷ ds ++ c ∷ [])
        then joined
        else (d ∷ ds) ∷ flushed

    unfoldable pub classify_batches : List ToolCall → List (List ToolCall)
    unfolding classify_from
    classify_batches calls = classify_from calls [] []
