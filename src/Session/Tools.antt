-- ===== src/Session/Tools.antt =====
-- registry.py: `ToolRegistry`. The validators that fastjsonschema compiles and the handlers are values
-- of the registry, and `W` is the state that handlers change.
use first_agent_dev.Prelude.{
  String, true, Option, none, some, List, [], ◌∷◌, truthy, str_eq, concat, if◌then◌else◌,
}
use first_agent_dev.Hooks.Types.{
  Entries, Error, other_error, Result, ok, raise, ToolResult, ToolCall,
}
use first_agent_dev.Session.Types.{failure}

-- How a handler ends: with a result, or with an exception of some class and text.
pub data Handled : Type 0 where
  handled : ToolResult → Handled
  handler_raised : String → String → Handled

-- What `JsonSchemaValueException` tells: its message, and its path with `/` between the parts.
pub record Invalid : Type 0 where
  pub message : String
  pub path : String

pub record ToolSpec (W : Type 0) : Type 0 where
  pub name : String
  pub permission : String
  pub handler : Entries → W → Handled × W

-- A registered tool, with the validator of its schema: an entry of `_tools` and of `_validators`.
pub record Registered (W : Type 0) : Type 0 where
  pub spec : ToolSpec W
  pub validator : Entries → Option Invalid

abbrev pub ToolRegistry : Type 0 → Type 0
ToolRegistry W = List (Registered W)

abbrev not_registered : String → Error
not_registered name =
    other_error "KeyError" (concat ("'tool is not registered: " ∷ name ∷ "'" ∷ []))

abbrev invalid_params : Invalid → ToolResult
invalid_params e =
    let message = concat (e.message ∷ " at " ∷ (if truthy e.path then e.path else "<root>") ∷ []) in
    record {
      summary = message;
      result = none;
      error = some (record { code = "invalid_params"; message = message; retryable = true });
      artifacts = [];
    }

module _ {W : Type 0} where
  unfoldable pub lookup : String → ToolRegistry W → Result (Registered W)
  lookup name [] = raise (not_registered name)
  lookup name (t ∷ ts) = if str_eq t.spec.name name then ok t else lookup name ts

  abbrev validate_with : Registered W → ToolCall → Option ToolResult
  validate_with t c = elim (t.validator c.params) [ none ↦ none | some e ↦ some (invalid_params e) ]

  unfoldable pub validate : ToolRegistry W → ToolCall → Result (Option ToolResult)
  validate tools c = elim (lookup c.name tools) [
    | raise e ↦ raise e
    | ok t ↦ ok (validate_with t c)
  ]

  -- the `try` around the handler
  unfoldable pub on_handled : Handled × W → Result ToolResult × W
  on_handled (handled r, w) = (ok r, w)
  on_handled (handler_raised kind t, w) =
      (ok (failure "internal_error" (concat ("tool handler raised " ∷ kind ∷ ": " ∷ t ∷ []))), w)

  -- `ToolRegistry.dispatch`; both dictionaries have the same names.
  unfoldable pub run_tool : ToolRegistry W → ToolCall → W → Result ToolResult × W
  run_tool tools c w = elim (lookup c.name tools) [
    | raise e ↦ (raise e, w)
    | ok t ↦ elim (validate_with t c) [
      | some r ↦ (ok r, w)
      | none ↦ on_handled (t.spec.handler c.params w)
    ]
  ]
