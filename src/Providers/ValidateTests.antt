-- ===== src/Providers/ValidateTests.antt =====
-- The configuration of a role whose second entry goes to a remote host by http.
use first_agent_dev.Prelude.{
  pos, ℕ, String, ◌≡◌, refl, true, ◌&&◌, none, some, [], ◌∷◌, length, ltb, str_eq, if◌then◌else◌,
  contains,
}
use first_agent_dev.Providers.Chain.{ChainEntry, ChainConfig}
use first_agent_dev.Providers.Validate.{
  failing, passing, localhost_gateway, unknown_family, mixed_adapters, insecure_url, bad_limit,
  Sources, require, append_warnings, validate_context_budget_settings, check_url, family_warnings,
  distinct_names, check_adapters, validate_entry, validate_entries, adapters, validate,
}
use first_agent_dev.Providers.Blame.{
  or_blame, role_settings, first_bad, settings_ok, blamed, validate-blame,
}

abbrev sources : Sources
sources = record {
  urlparse = λ s.
      if str_eq s "local"
      then some (record { scheme = "http"; hostname = some "127.0.0.1" })
      else if str_eq s "plain"
      then some (record { scheme = "http"; hostname = some "example" })
      else some (record { scheme = "https"; hostname = some s });
  strip = λ s. s;
  extract_family = λ s. none;
  get_env = λ s. some "secret";
  adapter_of = λ s. some (if str_eq s "claude" then "anthropic" else "openai");
}

abbrev entry : String → String → ChainEntry
entry provider url = record {
  provider = provider;
  model = "m";
  base_url = url;
  api_key_env = "KEY";
  cooldown_seconds = 15;
  transport_retries = 2;
  timeout_seconds = 300;
  extra_headers = [];
  provider_params = [];
  provider_params_no_thinking = [];
}

abbrev config : ℕ → String → ChainConfig ℕ
config limit url = record {
  role = "coder";
  name = "m";
  family = "m";
  chain = entry "groq" "local" ∷ entry "claude" url ∷ [];
  context_limit = pos limit;
  compaction_threshold = some (pos 9);
  sampling = record { temperature = none; max_tokens = none; top_p = none };
}

insecure_second : validate sources true (config 10 "plain") ≡ failing (insecure_url 1)
unfolding validate validate_context_budget_settings validate_entries validate_entry require
    check_url append_warnings contains
insecure_second = refl

no_context : validate sources true (config 0 "plain") ≡ failing bad_limit
unfolding validate validate_context_budget_settings require
no_context = refl

warned :
    validate sources true (config 10 "remote")
    ≡ passing (
        localhost_gateway 0
        ∷ unknown_family 0
        ∷ unknown_family 1
        ∷ mixed_adapters ("openai" ∷ "anthropic" ∷ [])
        ∷ [])
unfolding validate validate_context_budget_settings validate_entries validate_entry require
    check_url append_warnings contains family_warnings adapters check_adapters distinct_names
warned = refl

validate-blame_example :
    blamed (validate sources true (config 10 "plain"))
    ≡ or_blame
        (ltb 0 (length (config 10 "plain").chain) && settings_ok sources true (config 10 "plain"))
        role_settings
        (first_bad sources true 0 (config 10 "plain").chain)
validate-blame_example = validate-blame sources true (config 10 "plain")
