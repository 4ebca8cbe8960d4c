-- ===== src/Providers/Chain.antt =====
-- providers/chain.py: `ProviderChain.request`. Times are in milliseconds. `F` stands for Python's
-- floating-point numbers, `R` for the responses and `W` for the world.
use first_agent_dev.Prelude.{
  ℕ, ◌+◌, ◌*◌, max, ℤ, diff, String, Bool, false, ◌&&◌, Option, none, some, List, [], ◌∷◌, ◌++◌,
  str_eq, ltb, if◌then◌else◌,
}
use first_agent_dev.Hooks.Types.{Object}
use first_agent_dev.Providers.Messages.{
  RequestInfo, MessageRules, Floats, Checked, valid, violating, or_else, validate_and_normalize,
}

abbrev pub Extras : Type 0
Extras = List (String × Object)

pub record ChainEntry : Type 0 where
  pub provider : String
  pub model : String
  pub base_url : String
  pub api_key_env : String
  pub cooldown_seconds : ℕ
  pub transport_retries : ℕ
  pub timeout_seconds : ℕ
  pub extra_headers : List (String × String)
  pub provider_params : Extras
  pub provider_params_no_thinking : Extras

-- the role's defaults, `sampling.get(…)`
pub record Sampling (F : Type 0) : Type 0 where
  pub temperature : Option F
  pub max_tokens : Option ℤ
  pub top_p : Option F

pub record ChainConfig (F : Type 0) : Type 0 where
  pub role : String
  pub name : String
  pub family : String
  pub chain : List ChainEntry
  pub context_limit : ℤ
  pub compaction_threshold : Option ℤ
  pub sampling : Sampling F

pub record ChainAttemptRecord : Type 0 where
  pub provider : String
  pub slug : String
  pub status : ℕ
  pub ms : ℤ
  pub error : Option String

abbrev pub Key : Type 0
Key = String × String

pub record CooldownRow : Type 0 where
  pub provider : String
  pub slug : String
  pub started_at : ℕ
  pub expires_at : ℕ
  pub trigger_status : ℕ
  pub trigger_error : String
  pub retry_after_hint_ms : ℕ

abbrev pub Ledger : Type 0
Ledger = List (Key × CooldownRow)

abbrev pub same_key : Key → Key → Bool
same_key (p, m) (q, n) = str_eq p q && str_eq m n

-- a dictionary's `get`, `pop` and assignment
unfoldable pub get_row : Key → Ledger → Option CooldownRow
get_row k [] = none
get_row k ((q, row) ∷ r) = if same_key q k then some row else get_row k r

unfoldable pub pop_row : Key → Ledger → Ledger
pop_row k [] = []
pop_row k ((q, row) ∷ r) = let rest = pop_row k r in if same_key q k then rest else (q, row) ∷ rest

unfoldable pub set_row : Key → CooldownRow → Ledger → Ledger
set_row k row [] = (k, row) ∷ []
set_row k row ((q, old) ∷ r) =
    let rest = set_row k row r in if same_key q k then (q, row) ∷ r else (q, old) ∷ rest

-- `d.update(e)`
abbrev put : String × Object → Extras → Extras
put (k, v) [] = (k, v) ∷ []
put (k, v) ((q, old) ∷ r) =
    let rest = put (k, v) r in if str_eq q k then (q, v) ∷ r else (q, old) ∷ rest

abbrev update : Extras → Extras → Extras
update d [] = d
update d (x ∷ e) = update (put x d) e

-- How a call of a provider ends. `other_failure` is any exception that the chain lets through.
pub data Reply (R : Type 0) : Type 0 where
  response : R → Reply R
  request_shape auth_failed : ℕ → Reply R
  transient : ℕ → String → ℕ → Reply R
  other_failure : String → Reply R

-- What a call needs of its surroundings: the clock, the secrets, the table of providers and the
-- adapter that `provider_factory` builds for an entry, with the key that it is given.
pub record Env (F R W : Type 0) : Type 0 where
  pub clock : W → ℕ × W
  pub get_env : String → Option String
  pub rules_of : String → Option MessageRules
  pub call : ChainEntry → RequestInfo F → String → W → Reply R × W
  pub floats : Floats F

-- `sent` lists what went to the adapters.
pub record State (F W : Type 0) : Type 0 where
  pub world : W
  pub cooldowns : Ledger
  pub sent : List (ChainEntry × RequestInfo F)

pub data Answer (R : Type 0) : Type 0 where
  answered : R → String → List ChainAttemptRecord → Answer R
  exhausted : List ChainAttemptRecord → String → Answer R
  rejected : ℕ → String → String → Answer R
  crashed : String → Answer R

-- how the body of the loop ends for an entry
pub data Turn (R : Type 0) : Type 0 where
  skipped : Turn R
  won : R → ChainAttemptRecord → Turn R
  lost : ChainAttemptRecord → Turn R
  stopped : Answer R → Turn R

abbrev pub key_of : ChainEntry → Key
key_of e = (e.provider, e.model)

abbrev pub cooling : Option CooldownRow → ℕ → Bool
cooling none now = false
cooling (some row) now = ltb now row.expires_at

abbrev pub attempt : ChainEntry → ℕ → ℕ → ℕ → Option String → ChainAttemptRecord
attempt e start now status error = record {
  provider = e.provider;
  slug = e.model;
  status = status;
  ms = diff now start;
  error = error;
}

-- the row of the adaptive cooldown, from the second reading of the clock
unfoldable pub cooldown_row : ChainEntry → ℕ → ℕ → ℕ → String → ℕ → CooldownRow
cooldown_row e start now status kind retry_after = record {
  provider = e.provider;
  slug = e.model;
  started_at = start;
  expires_at = max (now + e.cooldown_seconds * 1000) (now + retry_after);
  trigger_status = status;
  trigger_error = kind;
  retry_after_hint_ms = retry_after;
}

module _ {F R W : Type 0} (env : Env F R W) (id : String) where
  -- the role's defaults, and the sampling that a thinking request drops
  unfoldable pub entry_request : Sampling F → RequestInfo F → ChainEntry → RequestInfo F
  entry_request sampling request e =
      let thinking = str_eq request.thinking_mode "thinking" in
      let extras = update request.extras e.provider_params in
      record request {
        model_slug = e.model;
        temperature = if thinking then none else or_else request.temperature sampling.temperature;
        max_tokens = or_else request.max_tokens sampling.max_tokens;
        top_p = if thinking then none else or_else request.top_p sampling.top_p;
        extras =
            if str_eq request.thinking_mode "no-thinking"
            then update extras e.provider_params_no_thinking
            else extras;
      }

  -- the branches on what the adapter does
  unfoldable pub on_reply : ChainEntry → ℕ → Reply R → State F W → Turn R × State F W
  unfolding cooldown_row
  on_reply e start (response r) s =
      let (now, w) = env.clock s.world in
      (
        won r (attempt e start now 200 none),
        record s { world = w; cooldowns = pop_row (key_of e) s.cooldowns },
      )
  on_reply e start (request_shape status) s =
      let (now, w) = env.clock s.world in
      (stopped (rejected status id e.provider), record s { world = w })
  on_reply e start (auth_failed status) s =
      let (now, w) = env.clock s.world in
      (lost (attempt e start now status (some "auth_failed")), record s { world = w })
  on_reply e start (transient status kind retry_after) s =
      let (now, w) = env.clock s.world in
      let (now_after, w') = env.clock w in
      (
        lost (attempt e start now status (some kind)),
        record s {
          world = w';
          cooldowns =
              set_row (key_of e) (cooldown_row e start now_after status kind retry_after)
                s.cooldowns;
        },
      )
  on_reply e start (other_failure text) s = (stopped (crashed text), s)

  unfoldable pub on_checked : ChainEntry → ℕ → Checked F → State F W → Turn R × State F W
  on_checked e start (violating v vs) s =
      let (now, w) = env.clock s.world in
      (stopped (rejected 400 id e.provider), record s { world = w })
  on_checked e start (valid r) s =
      let (reply, w) = env.call e r (or_empty (env.get_env e.api_key_env)) s.world in
      on_reply e start reply (record s { world = w; sent = s.sent ++ (e, r) ∷ [] })
    where
      or_empty : Option String → String
      or_empty none = ""
      or_empty (some k) = k

  -- the body of the loop
  unfoldable pub try_entry :
      Sampling F → RequestInfo F → ChainEntry → State F W → Turn R × State F W
  try_entry sampling request e s =
      let (now, w) = env.clock s.world in
      if cooling (get_row (key_of e) s.cooldowns) now
      then (skipped, record s { world = w })
      else (let (start, w') = env.clock w in
          let r = entry_request sampling request e in
          elim (env.rules_of e.provider) [
            | none ↦ (stopped (crashed "KeyError"), record s { world = w' })
            | some rules ↦
                on_checked e start (validate_and_normalize env.floats r rules r.temperature r.top_p)
                  (record s { world = w' })
          ])

  -- the end of the body; `onward` is the rest of the loop
  unfoldable pub next_turn :
      (List ChainAttemptRecord → State F W → Answer R × State F W)
      → List ChainAttemptRecord
      → Turn R
      → State F W
      → Answer R × State F W
  next_turn onward attempts skipped s = onward attempts s
  next_turn onward attempts (won r a) s = (answered r id (attempts ++ a ∷ []), s)
  next_turn onward attempts (lost a) s = onward (attempts ++ a ∷ []) s
  next_turn onward attempts (stopped answer) s = (answer, s)

  -- the loop over the chain, which has made `attempts`
  unfoldable pub try_chain :
      Sampling F
      → RequestInfo F
      → List ChainEntry
      → List ChainAttemptRecord
      → State F W
      → Answer R × State F W
  try_chain sampling request [] attempts s = (exhausted attempts id, s)
  try_chain sampling request (e ∷ es) attempts s =
      let (turn, s') = try_entry sampling request e s in
      next_turn (try_chain sampling request es) attempts turn s'

  unfoldable pub request_chain : ChainConfig F → RequestInfo F → State F W → Answer R × State F W
  request_chain config request s = try_chain config.sampling request config.chain [] s
