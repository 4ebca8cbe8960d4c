-- ===== src/Providers/Tests.antt =====
-- A chain of two entries, the first of which is limited in rate.
use first_agent_dev.Prelude.{
  pos, ℕ, ◌+◌, ◌<◌, String, ◌≡◌, refl, true, false, none, some, inl, ◌↔◌, List, [], ◌∷◌, length,
  str_eq, if◌then◌else◌, arith,
}
use first_agent_dev.Hooks.Types.{absent}
use first_agent_dev.Providers.Messages.{
  Message, RequestInfo, MessageRules, validate_message_order, validate_and_normalize, normalize,
  final_violations, pair_violations, declared, resolved,
}
use first_agent_dev.Providers.Chain.{
  ChainEntry, ChainConfig, Sampling, response, transient, Env, State, get_row, set_row, pop_row,
  cooldown_row, skipped, entry_request, on_reply, on_checked, try_entry, next_turn, try_chain,
  request_chain,
}
use first_agent_dev.Providers.Outcomes.{Reports, request_chain-Reports}
use first_agent_dev.Providers.Order.{WellOrdered, validate_message_order-WellOrdered}
use first_agent_dev.Providers.Cooldown.{cooled_at, transient-skipped, request_chain-row}

abbrev entry : String → ChainEntry
entry provider = record {
  provider = provider;
  model = "m";
  base_url = "https://example";
  api_key_env = "KEY";
  cooldown_seconds = 15;
  transport_retries = 2;
  timeout_seconds = 300;
  extra_headers = [];
  provider_params = [];
  provider_params_no_thinking = [];
}

abbrev rules : MessageRules
rules = record {
  allows_trailing_assistant = false;
  requires_user_after_tool = false;
  requires_top_p_one_when_greedy = false;
  supports_prompt_cache = true;
}

-- The world counts milliseconds. "busy" answers 429, and every other provider answers its name.
abbrev env : Env ℕ String ℕ
env = record {
  clock = λ w. (w, w + 1);
  get_env = λ s. some "secret";
  rules_of = λ s. some rules;
  call = λ e r k w. (
    if str_eq e.provider "busy" then transient 429 "rate_limited" 0 else response e.provider,
    w + 10,
  );
  floats = record { is_zero = λ n. false; one = 1 };
}

abbrev sampling : Sampling ℕ
sampling = record { temperature = none; max_tokens = none; top_p = none }

abbrev config : ChainConfig ℕ
config = record {
  role = "coder";
  name = "m";
  family = "m";
  chain = entry "busy" ∷ entry "free" ∷ [];
  context_limit = pos 150000;
  compaction_threshold = none;
  sampling = sampling;
}

abbrev asking : Message
asking = record { role = some "user"; tool_calls = []; tool_call_id = ""; content = absent }

abbrev request : RequestInfo ℕ
request = record {
  model_slug = "";
  messages = asking ∷ [];
  temperature = none;
  max_tokens = none;
  top_p = none;
  tools = [];
  extras = [];
  thinking_mode = "thinking";
}

abbrev fresh : State ℕ ℕ
fresh = record { world = 0; cooldowns = []; sent = [] }

-- the second provider answers, after one attempt that failed
two_attempts : length (request_chain env "id" config request fresh).1.sent ≡ 2
unfolding request_chain try_chain next_turn try_entry on_checked on_reply entry_request
    validate_and_normalize validate_message_order normalize final_violations pair_violations
    declared resolved get_row set_row pop_row cooldown_row
two_attempts = refl

request_chain-Reports_example : Reports 2 (request_chain env "id" config request fresh).0
request_chain-Reports_example = request_chain-Reports env "id" config request fresh

-- a call that was limited in rate, and the state that it leaves
abbrev limited : State ℕ ℕ
limited = (on_reply env "id" (entry "busy") 0 (transient 429 "rate_limited" 0) fresh).1

limited_world : limited.world ≡ 2
unfolding on_reply
limited_world = refl

early : (env.clock limited.world).0 < cooled_at env "id" fresh + 15000
unfolding on_reply
early = omega arith

transient-skipped_example :
    let (turn, s') = try_entry env "id" sampling request (entry "busy") limited in
    (turn ≡ skipped) × (s'.sent ≡ limited.sent)
transient-skipped_example =
    transient-skipped env "id" sampling request (entry "busy") 0 429 0 "rate_limited" fresh limited
      refl (inl early)

request_chain-row_example :
    get_row ("other", "m") (request_chain env "id" config request fresh).1.cooldowns
    ≡ get_row ("other", "m") fresh.cooldowns
request_chain-row_example =
    request_chain-row env "id" config request fresh ("other", "m") (refl, (refl, tt))

-- a call of a tool and its result
abbrev conversation : List Message
conversation =
    asking
    ∷ record asking { role = some "assistant"; tool_calls = "1" ∷ [] }
    ∷ record asking { role = some "tool"; tool_call_id = "1" }
    ∷ []

validate_message_order-WellOrdered_example :
    (validate_message_order conversation false false ≡ []) ↔ WellOrdered conversation false false
validate_message_order-WellOrdered_example =
    validate_message_order-WellOrdered conversation false false
