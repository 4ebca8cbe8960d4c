-- ===== src/Providers/Messages.antt =====
-- providers/message_rules.py and the request type of providers/base.py. `F` stands for Python's
-- floating-point numbers.
use first_agent_dev.Prelude.{
  ℕ, ◌+◌, ℤ, String, Bool, true, false, not, ◌&&◌, ◌||◌, Option, none, some, List, [], ◌∷◌, ◌++◌,
  filter, str_eq, contains, if◌then◌else◌,
}
use first_agent_dev.Hooks.Types.{Object}

-- What the rules read of a message: its role, the ids of the tool calls that it declares and the id
-- that it resolves, where `or ""` has been applied to an id that is missing.
pub record Message : Type 0 where
  pub role : Option String
  pub tool_calls : List String
  pub tool_call_id : String
  pub content : Object

pub record RequestInfo (F : Type 0) : Type 0 where
  pub model_slug : String
  pub messages : List Message
  pub temperature : Option F
  pub max_tokens : Option ℤ
  pub top_p : Option F
  pub tools : List Object
  pub extras : List (String × Object)
  pub thinking_mode : String

pub record MessageRules : Type 0 where
  pub allows_trailing_assistant : Bool
  pub requires_user_after_tool : Bool
  pub requires_top_p_one_when_greedy : Bool
  pub supports_prompt_cache : Bool

-- The texts of the source, as data. It sorts the two sets of ids and drops duplicates in the text.
pub data Violation : Type 0 where
  trailing_assistant unknown_final_role : Violation
  user_after_tool : ℕ → Violation
  dangling orphaned : List String → Violation

-- `msg.get("role") == role`
abbrev pub has_role : String → Message → Bool
has_role role m = elim m.role [ none ↦ false | some r ↦ str_eq r role ]

abbrev pub known_role : Message → Bool
known_role m = has_role "user" m || has_role "tool" m || has_role "assistant" m

-- the checks of `messages[-1]`
unfoldable pub final_violations : Bool → List Message → List Violation
final_violations trailing [] = []
final_violations trailing (m ∷ []) =
    if has_role "assistant" m && not trailing
    then trailing_assistant ∷ []
    else if known_role m
    then []
    else unknown_final_role ∷ []
final_violations trailing (m ∷ n ∷ r) = final_violations trailing (n ∷ r)

-- the loop over neighbours; i is the index of the second one
unfoldable pub pair_violations : ℕ → List Message → List Violation
pair_violations i (m ∷ n ∷ r) =
    let rest = pair_violations (i + 1) (n ∷ r) in
    if has_role "user" n && has_role "tool" m then user_after_tool i ∷ rest else rest
pair_violations i _ = []

unfoldable pub declared : List Message → List String
declared [] = []
declared (m ∷ r) = if has_role "assistant" m then m.tool_calls ++ declared r else declared r

unfoldable pub resolved : List Message → List String
resolved [] = []
resolved (m ∷ r) =
    if has_role "assistant" m
    then resolved r
    else if has_role "tool" m
    then m.tool_call_id ∷ resolved r
    else resolved r

-- `xs - ys`
abbrev pub minus : List String → List String → List String
minus xs ys = filter (λ x. not (contains x ys)) xs

abbrev pub unless_empty : (List String → Violation) → List String → List Violation
unless_empty v [] = []
unless_empty v (x ∷ xs) = v (x ∷ xs) ∷ []

unfoldable pub validate_message_order : List Message → Bool → Bool → List Violation
unfolding final_violations pair_violations declared resolved
validate_message_order ms trailing after_tool =
    final_violations trailing ms
    ++ (if after_tool then [] else pair_violations 1 ms)
    ++ unless_empty dangling (minus (declared ms) (resolved ms))
    ++ unless_empty orphaned (minus (resolved ms) (declared ms))

-- the two numbers that the rules on sampling read
pub record Floats (F : Type 0) : Type 0 where
  pub is_zero : F → Bool
  pub one : F

-- `a if a is not None else b`
abbrev pub or_else {ℓ} : {A : Type ℓ} → Option A → Option A → Option A
or_else none b = b
or_else (some a) b = some a

-- a request that may be sent, or the violations that keep it back
pub data Checked (F : Type 0) : Type 0 where
  valid : RequestInfo F → Checked F
  violating : Violation → List Violation → Checked F

abbrev pub judged : {F : Type 0} → List Violation → RequestInfo F → Checked F
judged [] r = valid r
judged (v ∷ vs) r = violating v vs

module _ {F : Type 0} (floats : Floats F) where
  abbrev pub greedy : Option F → Bool
  greedy none = false
  greedy (some t) = floats.is_zero t

  abbrev pub pin_top_p : Bool → Option F → Option F → RequestInfo F → RequestInfo F
  pin_top_p true temp none r = if greedy temp then record r { top_p = some floats.one } else r
  pin_top_p _ _ _ r = r

  abbrev is_cache_key : String × Object → Bool
  is_cache_key (k, _) = str_eq k "prompt_cache_key" || str_eq k "prompt_cache_retention"

  abbrev pub strip_cache : Bool → RequestInfo F → RequestInfo F
  strip_cache true r = r
  strip_cache false r = record r { extras = filter (λ x. not (is_cache_key x)) r.extras }

  -- what is left of the request where it is valid
  unfoldable pub normalize : MessageRules → Option F → Option F → RequestInfo F → RequestInfo F
  normalize rules temperature top_p r = strip_cache rules.supports_prompt_cache (
      pin_top_p rules.requires_top_p_one_when_greedy (or_else temperature r.temperature)
        (or_else top_p r.top_p) r)

  unfoldable pub validate_and_normalize :
      RequestInfo F → MessageRules → Option F → Option F → Checked F
  unfolding normalize
  validate_and_normalize r rules temperature top_p =
      judged
        (validate_message_order r.messages rules.allows_trailing_assistant
          rules.requires_user_after_tool)
        (normalize rules temperature top_p r)
