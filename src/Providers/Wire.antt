-- ===== src/Providers/Wire.antt =====
-- What reaches the adapters.
use first_agent_dev.Prelude.{
  ◌≡◌, String, true, false, Option, none, some, List, [], ◌∷◌, ◌++◌, not, ◌&&◌, is_some, str_eq,
  if◌then◌else◌,
}
use first_agent_dev.Providers.Messages.{
  RequestInfo, MessageRules, Checked, valid, violating, greedy, validate_message_order, or_else,
}
use first_agent_dev.Providers.Ready.{uncached_keys}
use first_agent_dev.Providers.Chain.{ChainEntry, Sampling, Env, State, entry_request}

-- The sampling that a caller asks for, or else the role's; a thinking request carries none.
abbrev pub asked : {F : Type 0} → RequestInfo F → Option F → Option F → Option F
asked request own default =
    if str_eq request.thinking_mode "thinking" then none else or_else own default

-- What goes to the provider of an entry for a request: the request's messages, in the order that the
-- rules of the provider ask for, for the model of the entry; the sampling asked for, but with a top_p
-- of one where the rules want it at zero temperature and none is asked for; and no key of the prompt
-- cache where the provider has none.
pub record Conforms {F R W : Type 0} (env : Env F R W) (sampling : Sampling F)
    (request : RequestInfo F) (x : ChainEntry × RequestInfo F) : Type 0 where
  pub rules : MessageRules
  pub declared : env.rules_of x.0.provider ≡ some rules
  pub messages : x.1.messages ≡ request.messages
  pub ordered :
      validate_message_order x.1.messages rules.allows_trailing_assistant
        rules.requires_user_after_tool
      ≡ []
  pub model : x.1.model_slug ≡ x.0.model
  pub temperature : x.1.temperature ≡ asked request request.temperature sampling.temperature
  pub top_p : x.1.top_p ≡ (
      if rules.requires_top_p_one_when_greedy
        && greedy env.floats (asked request request.temperature sampling.temperature)
        && not (is_some (asked request request.top_p sampling.top_p))
      then some env.floats.one
      else asked request request.top_p sampling.top_p)
  pub uncached : rules.supports_prompt_cache ≡ false → uncached_keys x.1.extras ≡ true

abbrev pub AllConform :
    {F R W : Type 0}
    → Env F R W
    → Sampling F
    → RequestInfo F
    → List (ChainEntry × RequestInfo F)
    → Type 0
AllConform env sampling request [] = Unit
AllConform env sampling request (x ∷ xs) =
    Conforms env sampling request x × AllConform env sampling request xs

module _ {F R W : Type 0} (env : Env F R W) (id : String) (sampling : Sampling F)
    (request : RequestInfo F) where
  -- what a check hands on for an entry
  abbrev Passed : ChainEntry → Checked F → Type 0
  Passed e (valid r) = Conforms env sampling request (e, r)
  Passed e (violating v vs) = Unit

  abbrev asked_of : ChainEntry → RequestInfo F
  asked_of e = entry_request env id sampling request e

  -- The requests that were sent after those in `before` conform.
  module _ (before : List (ChainEntry × RequestInfo F)) where
    abbrev Good : State F W → Type 0
    Good s =
        (new : List (ChainEntry × RequestInfo F)) × (s.sent ≡ before ++ new)
        × AllConform env sampling request new
