-- ===== src/Session/Types.antt =====
-- state.py and loop.py: the session's state and its log, and how a call that may raise is read.
use first_agent_dev.Prelude.{
  ℕ, suc, String, false, Option, none, some, List, [], ◌∷◌, ◌++◌, truthy, str_eq, any,
  if◌then◌else◌, ◌||◌,
}
use first_agent_dev.Hooks.Types.{
  Object, get_entry, text, Entries, Error, permission_error, runtime_error, type_error, value_error,
  other_error, Result, ok, raise, ToolResult, ToolCall, HookPayload, DispatchRecord,
}
use first_agent_dev.Hooks.Registry.{Run}

-- `StopInfo`, with its point as a text
pub record StopInfo : Type 0 where
  pub point : String
  pub reason : String

-- The rows that the loop appends to the log, by their kinds. `run_capped` is the `run_stopped` row of
-- the iteration cap, with what was used, the limit and the role.
pub data Row : Type 0 where
  tool_call : ToolCall → Row
  tool_result : ToolCall → ToolResult → Row
  hook_decision : DispatchRecord → String → String → Row
  run_stopped : StopInfo → Row
  run_capped : String → ℕ → ℕ → String → Row

-- `SessionState`; `rest` is what the middlewares and the tools have for themselves, the workspace
-- included. The sets of paths are lists without repetitions.
pub record Session (U : Type 0) : Type 0 where
  pub log : List Row
  pub turn : ℕ
  pub batch_turn : ℕ
  pub observations : List String
  pub read_set : List String
  pub write_set : List String
  pub last_search_paths : List String
  pub pending_search_paths : List String
  pub rest : U

-- What a `try` with `except PermissionError` sees of a call.
pub data Tried (A : Type 0) : Type 0 where
  returned : A → Tried A
  refused : String → Tried A
  crashed : Error → Tried A

unfoldable pub tried : {A : Type 0} → Result A → Tried A
tried (ok a) = returned a
tried (raise (permission_error t)) = refused t
tried (raise (runtime_error t)) = crashed (runtime_error t)
tried (raise (type_error t)) = crashed (type_error t)
tried (raise (value_error t)) = crashed (value_error t)
tried (raise (other_error c t)) = crashed (other_error c t)

-- `ToolResult.fail` with a message that is not empty
abbrev pub failure : String → String → ToolResult
failure code message = record {
  summary = message;
  result = none;
  error = some (record { code = code; message = message; retryable = false });
  artifacts = [];
}

-- `ToolResult.fail`, not retryable
unfoldable pub fail : String → String → Result ToolResult
fail code message =
    if truthy message
    then ok (failure code message)
    else raise (value_error "tool result summary is required")

-- `default_tool_result_for_denial`
abbrev pub default_tool_result_for_denial : String → Result ToolResult
default_tool_result_for_denial reason = fail "hook_deny" reason

-- `HookPayload.with_tool_result`
abbrev pub with_tool_result : ToolResult → HookPayload → HookPayload
with_tool_result r p = record p { tool_result = some r }

-- a text under a key, if `isinstance(mapping.get(key), str)`
unfoldable pub as_text : Option Object → Option String
as_text (some (text t)) = some t
as_text _ = none

unfoldable pub get_text : String → Entries → Option String
unfolding get_entry as_text
get_text key m = as_text (get_entry key m)

-- a set's `add` and `|=`
abbrev pub add : String → List String → List String
add x xs = if any (str_eq x) xs then xs else xs ++ x ∷ []

unfoldable pub add_all : List String → List String → List String
add_all [] xs = xs
add_all (y ∷ ys) xs = add_all ys (add y xs)

module _ {U : Type 0} where
  -- `EventLog.append`: the row as it is given, before its texts are redacted. An error of the database
  -- under the log is not modelled.
  unfoldable pub append : Row → Run (Session U) → Run (Session U)
  append row s = record s { world = record s.world { log = s.world.log ++ row ∷ [] } }

  -- the paths that a call reads or writes
  unfoldable pub track_path : ToolCall → Option String → Session U → Session U
  track_path c none s = s
  track_path c (some p) s =
      if str_eq c.name "fs_read_file"
      then record s { read_set = add p s.read_set }
      else if str_eq c.name "fs_write_file" || str_eq c.name "fs_edit_file"
      then record s { write_set = add p s.write_set }
      else s

  unfoldable pub record_tool_call : ToolCall → Run (Session U) → Run (Session U)
  record_tool_call c s = append (tool_call c) (record s {
    world = track_path c (get_text "path" c.params) (record s.world { turn = suc s.world.turn });
  })

  -- `record_tool_result`, and the summary that every caller adds to the observations after it
  unfoldable pub record_tool_result : ToolCall → ToolResult → Run (Session U) → Run (Session U)
  unfolding append
  record_tool_result c r s =
      let s' = append (tool_result c r) s in
      record s' {
        world = record s'.world { observations = s'.world.observations ++ r.summary ∷ [] };
      }

  unfoldable pub commit_search_paths : Run (Session U) → Run (Session U)
  commit_search_paths s = record s {
    world = record s.world {
      last_search_paths = add_all s.world.pending_search_paths s.world.last_search_paths;
      pending_search_paths = [];
    };
  }

  -- `state.batch_turn += 1`
  unfoldable pub count_batch : Run (Session U) → Run (Session U)
  count_batch s = record s { world = record s.world { batch_turn = suc s.world.batch_turn } }
