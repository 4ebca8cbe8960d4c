-- ===== src/Providers/Blame.antt =====
-- providers/chain.py, `ChainConfig.validate`: what it accepts, and where it puts the blame.
use first_agent_dev.Prelude.{
  ℕ, ◌+◌, ℤ, clamp, String, ◌≡◌, refl, ap, ◌∙◌, Bool, true, false, not, ◌&&◌, ◌||◌, Option, none,
  some, is_some, List, [], ◌∷◌, length, ltb, str_eq, truthy, contains, eq_iff, Bool-cases, inl, inr,
}
use first_agent_dev.Providers.Chain.{ChainEntry, ChainConfig}
use first_agent_dev.Providers.Validate.{
  ConfigurationFault, Warning, Validated, failing, passing, ParsedUrl, Sources,
  reserved_provider_names, require, append_warnings, is_positive, validate_context_budget_settings,
  is_local, check_url, check_adapters, has_key, validate_entry, validate_entries, adapters,
  with_adapter, validate, empty_chain, bad_limit, bad_threshold, threshold_over_limit,
  adapter_missing, reserved_provider, unknown_provider, malformed_url, insecure_url, bad_scheme,
  unnamed_key, missing_key, distinct_names,
}

-- what an error is about
pub data Blame : Type 0 where
  no_adapter : Blame
  role_settings : Blame
  entry_at : ℕ → Blame

abbrev pub blame : ConfigurationFault → Blame
blame empty_chain = role_settings
blame bad_limit = role_settings
blame bad_threshold = role_settings
blame threshold_over_limit = role_settings
blame adapter_missing = no_adapter
blame (reserved_provider i) = entry_at i
blame (unknown_provider i) = entry_at i
blame (malformed_url i) = entry_at i
blame (insecure_url i) = entry_at i
blame (bad_scheme i) = entry_at i
blame (unnamed_key i) = entry_at i
blame (missing_key i) = entry_at i

abbrev pub blamed : Validated → Option Blame
blamed (failing fault) = some (blame fault)
blamed (passing ws) = none

abbrev pub or_blame : Bool → Blame → Option Blame → Option Blame
or_blame true at later = later
or_blame false at later = some at

abbrev pub secure : Option ParsedUrl → Bool
secure none = false
secure (some url) = str_eq url.scheme "https" || (str_eq url.scheme "http" && is_local url.hostname)

abbrev pub within : ℤ → Option ℤ → Bool
within limit none = true
within limit (some threshold) = is_positive threshold && not (ltb (clamp limit) (clamp threshold))

require-blame :
    (ok rest : Bool) (fault : ConfigurationFault) (onward : Validated) (later : Option Blame)
    → (ok ≡ true → blamed onward ≡ or_blame rest (blame fault) later)
    → blamed (require ok fault onward) ≡ or_blame (ok && rest) (blame fault) later
unfolding require
require-blame true rest fault onward later h = h refl
require-blame false rest fault onward later h = refl

-- the last test
require-blame_last :
    (ok : Bool) (fault : ConfigurationFault) (onward : Validated)
    → blamed (require ok fault onward) ≡ or_blame ok (blame fault) (blamed onward)
unfolding require
require-blame_last true fault onward = refl
require-blame_last false fault onward = refl

append_warnings-blame :
    (ws : List Warning) (v : Validated) → blamed (append_warnings ws v) ≡ blamed v
unfolding append_warnings
append_warnings-blame ws (failing fault) = refl
append_warnings-blame ws (passing later) = refl

http_not_https : (s : String) → str_eq s "http" ≡ true → str_eq s "https" ≡ false
http_not_https s e = rw ((eq_iff s "http").0 e) refl

or_false : (b : Bool) → (b || false) ≡ b
or_false true = refl
or_false false = refl

check_url-blame :
    (i : ℕ) (u : Option ParsedUrl) (onward : Validated) (rest : Bool) (later : Option Blame)
    → blamed onward ≡ or_blame rest (entry_at i) later
    → blamed (check_url i u onward) ≡ or_blame (secure u && rest) (entry_at i) later
unfolding check_url
check_url-blame i none onward rest later h = refl
check_url-blame i (some url) onward rest later h = elim (Bool-cases (str_eq url.scheme "http")) [
  | inl e ↦
      rw (e, http_not_https url.scheme e)
        (require-blame (is_local url.hostname) rest (insecure_url i) (append_warnings _ onward)
          later (λ _. append_warnings-blame _ onward ∙ h))
  | inr e ↦
      rw (e, or_false (str_eq url.scheme "https"))
        (require-blame (str_eq url.scheme "https") rest (bad_scheme i) onward later (λ _. h))
]

budget-blame :
    (limit : ℤ) (threshold : Option ℤ) (onward : Validated) (later : Option Blame)
    → blamed onward ≡ later
    → blamed (validate_context_budget_settings limit threshold onward)
      ≡ or_blame (is_positive limit && within limit threshold) role_settings later
unfolding validate_context_budget_settings
budget-blame limit none onward later h = require-blame _ true bad_limit onward later (λ _. h)
budget-blame limit (some threshold) onward later h = require-blame _ _ bad_limit _ later (λ _.
    require-blame _ _ bad_threshold _ later
      (λ _. require-blame_last _ threshold_over_limit onward ∙ ap (or_blame _ role_settings) h))

check_adapters-blame :
    (a : Option (List String)) → is_some a ≡ true → blamed (check_adapters a) ≡ none
unfolding check_adapters
check_adapters-blame none h = cc
check_adapters-blame (some names) h = elim (Bool-cases (ltb 1 (length (distinct_names names)))) [
  | inl e ↦ rw e refl
  | inr e ↦ rw e refl
]

with_adapter-is_some :
    (a : Option String) (b : Option (List String))
    → is_some a ≡ true
    → is_some b ≡ true
    → is_some (with_adapter a b) ≡ true
with_adapter-is_some none b h k = cc
with_adapter-is_some (some a) none h k = cc
with_adapter-is_some (some a) (some b) h k = refl

some_adapters : (adapter_of : String → Option String) → is_some (adapters adapter_of []) ≡ true
unfolding adapters
some_adapters adapter_of = refl

module _ (sources : Sources) (require_api_keys : Bool) where
  abbrev pub key_ok : ChainEntry → Bool
  key_ok e = not require_api_keys || has_key sources require_api_keys e

  abbrev pub entry_ok : ChainEntry → Bool
  entry_ok e =
      not (contains e.provider reserved_provider_names)
      && (is_some (sources.adapter_of e.provider)
          && (secure (sources.urlparse e.base_url) && (truthy e.api_key_env && key_ok e)))

  -- the first entry that is not in order
  abbrev pub first_bad : ℕ → List ChainEntry → Option Blame
  first_bad i [] = none
  first_bad i (e ∷ es) = let rest = first_bad (i + 1) es in or_blame (entry_ok e) (entry_at i) rest

  validate_entry-blame :
      (i : ℕ) (family : String) (e : ChainEntry) (onward : Validated) (later : Option Blame)
      → (is_some (sources.adapter_of e.provider) ≡ true → blamed onward ≡ later)
      → blamed (validate_entry sources require_api_keys i family e onward)
        ≡ or_blame (entry_ok e) (entry_at i) later
  unfolding validate_entry
  validate_entry-blame i family e onward later h =
      require-blame _ _ (reserved_provider i) _ later (λ _.
        require-blame _ _ (unknown_provider i) _ later (λ known.
          check_url-blame i (sources.urlparse e.base_url) _ _ later (
            require-blame _ _ (unnamed_key i) _ later (λ _.
              require-blame_last (key_ok e) (missing_key i) _
              ∙ ap (or_blame (key_ok e) (entry_at i)) (append_warnings-blame _ onward ∙ h known)))))

  adapters-cons :
      (e : ChainEntry) (es : List ChainEntry)
      → is_some (sources.adapter_of e.provider) ≡ true
      → is_some (adapters sources.adapter_of es) ≡ true
      → is_some (adapters sources.adapter_of (e ∷ es)) ≡ true
  unfolding adapters
  adapters-cons e es h k =
      with_adapter-is_some (sources.adapter_of e.provider) (adapters sources.adapter_of es) h k

  validate_entries-blame :
      (i : ℕ) (family : String) (es : List ChainEntry) (onward : Validated)
      → (is_some (adapters sources.adapter_of es) ≡ true → blamed onward ≡ none)
      → blamed (validate_entries sources require_api_keys i family es onward) ≡ first_bad i es
  unfolding validate_entries
  validate_entries-blame i family [] onward h = h (some_adapters sources.adapter_of)
  validate_entries-blame i family (e ∷ es) onward h =
      validate_entry-blame i family e _ (first_bad (i + 1) es) (λ known.
        validate_entries-blame (i + 1) family es onward (λ k. h (adapters-cons e es known k)))

module _ {F : Type 0} (sources : Sources) (require_api_keys : Bool) where
  abbrev pub settings_ok : ChainConfig F → Bool
  settings_ok config =
      is_positive config.context_limit && within config.context_limit config.compaction_threshold

  -- Whatever the configuration, validate accepts it exactly when its chain has an entry, its budget of
  -- context is in order and so is every entry: its provider is known and not reserved, its address is
  -- https or http to the local machine, and its key is named and, where keys are required, set. Otherwise
  -- the error is about the settings of the role where these are at fault, else about the first entry that
  -- is not in order; the lookup of an adapter never fails.
  pub validate-blame :
      (config : ChainConfig F)
      → blamed (validate sources require_api_keys config)
        ≡ or_blame
            (ltb 0 (length config.chain) && settings_ok config)
            role_settings
            (first_bad sources require_api_keys 0 config.chain)
  unfolding validate
  validate-blame config = require-blame _ _ empty_chain _ _ (λ _.
      budget-blame config.context_limit config.compaction_threshold _ _ (
        validate_entries-blame sources require_api_keys 0 config.family config.chain _
          (check_adapters-blame (adapters sources.adapter_of config.chain))))
