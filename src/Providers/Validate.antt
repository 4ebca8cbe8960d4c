-- ===== src/Providers/Validate.antt =====
-- providers/chain.py: `ChainConfig.validate`. A warning or an error is a value that keeps the index of its
-- entry in place of the text. `urlparse`, `strip`, `extract_family`, the environment and the table of
-- providers, with the adapter of each, are parameters; `urlparse` may raise.
use first_agent_dev.Prelude.{
  ℕ, ◌+◌, ℤ, clamp, String, Bool, false, not, ◌&&◌, ◌||◌, Option, none, some, is_some, List, [],
  ◌∷◌, ◌++◌, length, ltb, if◌then◌else◌, str_eq, truthy, contains,
}
use first_agent_dev.Providers.Chain.{ChainEntry, ChainConfig}

-- `malformed_url` is the ValueError of `urlparse`; the others are ConfigurationErrors.
pub data ConfigurationFault : Type 0 where
  empty_chain bad_limit bad_threshold threshold_over_limit adapter_missing : ConfigurationFault
  reserved_provider unknown_provider malformed_url insecure_url bad_scheme unnamed_key missing_key :
      ℕ → ConfigurationFault

pub data Warning : Type 0 where
  localhost_gateway : ℕ → Warning
  unknown_family : ℕ → Warning
  other_family : ℕ → String → Warning
  mixed_adapters : List String → Warning

pub data Validated : Type 0 where
  failing : ConfigurationFault → Validated
  passing : List Warning → Validated

pub record ParsedUrl : Type 0 where
  pub scheme : String
  pub hostname : Option String

pub record Sources : Type 0 where
  pub urlparse : String → Option ParsedUrl
  pub strip : String → String
  pub extract_family : String → Option String
  pub get_env : String → Option String
  pub adapter_of : String → Option String

abbrev pub localhost_hosts : List String
localhost_hosts = "localhost" ∷ "127.0.0.1" ∷ "0.0.0.0" ∷ []

abbrev pub reserved_provider_names : List String
reserved_provider_names = "__internal__" ∷ "__metadata__" ∷ "__fallback_marker__" ∷ []

-- `if not …: raise …`, before the rest
unfoldable pub require : Bool → ConfigurationFault → Validated → Validated
require ok fault onward = if ok then onward else failing fault

-- `warnings.append`
unfoldable pub append_warnings : List Warning → Validated → Validated
append_warnings ws (failing fault) = failing fault
append_warnings ws (passing later) = passing (ws ++ later)

abbrev pub is_positive : ℤ → Bool
is_positive n = ltb 0 (clamp n)

-- `onward` is the rest of `validate`
unfoldable pub validate_context_budget_settings : ℤ → Option ℤ → Validated → Validated
validate_context_budget_settings limit none onward = require (is_positive limit) bad_limit onward
validate_context_budget_settings limit (some threshold) onward =
    require (is_positive limit) bad_limit (
      require (is_positive threshold) bad_threshold
        (require (not (ltb (clamp limit) (clamp threshold))) threshold_over_limit onward))

abbrev pub is_local : Option String → Bool
is_local none = false
is_local (some host) = contains host localhost_hosts

unfoldable pub check_url : ℕ → Option ParsedUrl → Validated → Validated
check_url i none onward = failing (malformed_url i)
check_url i (some url) onward =
    if str_eq url.scheme "http"
    then require (is_local url.hostname) (insecure_url i)
        (append_warnings (localhost_gateway i ∷ []) onward)
    else require (str_eq url.scheme "https") (bad_scheme i) onward

unfoldable pub family_warnings : ℕ → String → Option String → List Warning
family_warnings i family none = unknown_family i ∷ []
family_warnings i family (some inferred) =
    if truthy family && not (str_eq inferred family) then other_family i inferred ∷ [] else []

-- `environ.get(…, "")`
abbrev pub or_blank : Option String → String
or_blank none = ""
or_blank (some s) = s

-- a set of texts, as a list without repetitions
unfoldable pub distinct_names : List String → List String
distinct_names [] = []
distinct_names (x ∷ xs) = let rest = distinct_names xs in if contains x rest then rest else x ∷ rest

-- the check of the adapters; `PROVIDERS[…]` raises for a name that is not in the table
unfoldable pub check_adapters : Option (List String) → Validated
check_adapters none = failing adapter_missing
check_adapters (some names) =
    if ltb 1 (length (distinct_names names))
    then passing (mixed_adapters (distinct_names names) ∷ [])
    else passing []

module _ (sources : Sources) (require_api_keys : Bool) where
  abbrev pub has_key : ChainEntry → Bool
  has_key e = truthy (sources.strip (or_blank (sources.get_env e.api_key_env)))

  -- the body of the loop; `onward` is what follows it
  unfoldable pub validate_entry : ℕ → String → ChainEntry → Validated → Validated
  validate_entry i family e onward =
      require (not (contains e.provider reserved_provider_names)) (reserved_provider i) (
        require (is_some (sources.adapter_of e.provider)) (unknown_provider i) (
          check_url i (sources.urlparse e.base_url) (
            require (truthy e.api_key_env) (unnamed_key i) (
              require (not require_api_keys || has_key e) (missing_key i) (
                append_warnings (family_warnings i family (sources.extract_family e.model))
                  onward)))))

  unfoldable pub validate_entries : ℕ → String → List ChainEntry → Validated → Validated
  validate_entries i family [] onward = onward
  validate_entries i family (e ∷ es) onward =
      validate_entry i family e (validate_entries (i + 1) family es onward)

-- the name of an adapter and the names of the others
abbrev pub with_adapter : Option String → Option (List String) → Option (List String)
with_adapter (some name) (some names) = some (name ∷ names)
with_adapter none names = none
with_adapter (some name) none = none

unfoldable pub adapters : (String → Option String) → List ChainEntry → Option (List String)
adapters adapter_of [] = some []
adapters adapter_of (e ∷ es) = with_adapter (adapter_of e.provider) (adapters adapter_of es)

module _ {F : Type 0} (sources : Sources) (require_api_keys : Bool) where
  unfoldable pub validate : ChainConfig F → Validated
  validate config = require (ltb 0 (length config.chain)) empty_chain (
      validate_context_budget_settings config.context_limit config.compaction_threshold (
        validate_entries sources require_api_keys 0 config.family config.chain
          (check_adapters (adapters sources.adapter_of config.chain))))
