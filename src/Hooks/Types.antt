-- ===== src/Hooks/Types.antt =====
-- hooks/base.py and registry.py: what middlewares see, and what they answer.
use first_agent_dev.Prelude.{
  ℤ, String, Bool, true, false, Option, none, some, List, truthy, str_eq, if◌then◌else◌,
}

-- Any Python object that a tool takes or returns.
mutual
  pub data Object : Type 0 where
    text : String → Object
    flag : Bool → Object
    number : ℤ → Object
    absent : Object
    mapping : Entries → Object
    listing : Objects → Object

  pub data Entries : Type 0 where
    no_entries : Entries
    entry : String → Object → Entries → Entries

  pub data Objects : Type 0 where
    no_objects : Objects
    object : Object → Objects → Objects

-- `mapping.get(key)`
unfoldable pub get_entry : String → Entries → Option Object
get_entry key no_entries = none
get_entry key (entry k v r) = if str_eq k key then some v else get_entry key r

-- The exceptions that the chain raises or lets through, with their texts.
pub data Error : Type 0 where
  permission_error runtime_error type_error value_error : String → Error
  other_error : String → String → Error

pub data Result {ℓ} (A : Type ℓ) : Type ℓ where
  ok : A → Result A
  raise : Error → Result A

pub data LifecyclePoint : Type 0 where
  between_rounds before_llm_call after_llm_call before_tool_exec after_tool_exec : LifecyclePoint

-- `a is b` on lifecycle points
abbrev pub same_point : LifecyclePoint → LifecyclePoint → Bool
same_point between_rounds between_rounds = true
same_point before_llm_call before_llm_call = true
same_point after_llm_call after_llm_call = true
same_point before_tool_exec before_tool_exec = true
same_point after_tool_exec after_tool_exec = true
same_point _ _ = false

pub record ToolError : Type 0 where
  pub code : String
  pub message : String
  pub retryable : Bool

pub record ToolResult : Type 0 where
  pub summary : String
  pub result : Option Object
  pub error : Option ToolError
  pub artifacts : List String

pub record ToolCall : Type 0 where
  pub name : String
  pub params : Entries
  pub call_id : String

pub record HookPayload : Type 0 where
  pub tool_call : Option ToolCall
  pub tool_result : Option ToolResult
  pub role : String
  pub acting_family : String
  pub context : Entries

-- `Decision.action` is a text; every text but three is `other`.
pub data Action : Type 0 where
  allow deny modify : Action
  other : String → Action

pub record Decision : Type 0 where
  pub action : Action
  pub reason : String
  pub payload : Option HookPayload

abbrev pub allowed : Decision
allowed = record { action = allow; reason = ""; payload = none }

-- `Decision.deny`
unfoldable pub deny_with : String → Result Decision
deny_with reason =
    if truthy reason
    then ok (record { action = deny; reason = reason; payload = none })
    else raise (value_error "deny reason is required")

abbrev pub modified : HookPayload → Decision
modified p = record { action = modify; reason = ""; payload = some p }

-- What a step of the chain records: a guard's action, or how an observer ended.
pub data Step : Type 0 where
  decided : Action → Step
  observed observer_error_swallowed : Step

pub record DispatchRecord : Type 0 where
  pub middleware : String
  pub point : LifecyclePoint
  pub decision : Step
  pub reason : String
