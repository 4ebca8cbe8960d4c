-- ===== src/Recovery/Classify.antt =====
-- recovery/classify.py: what to do after a failure. `lower` and `includes` (`keyword in message`) are
-- Python's.
use first_agent_dev.Prelude.{String, Bool, Option, none, some, List, [], ◌∷◌, str_eq, if◌then◌else◌}
use first_agent_dev.Hooks.Types.{ToolError, ToolResult}

pub data FailureCategory : Type 0 where
  invalid_arguments unexpected_environments provider_errors broken_build : FailureCategory
  verification_failed circular_fix context_exhausted rate_limited auth_failure : FailureCategory
  policy_denied unknown : FailureCategory

pub data RecoveryActionKind : Type 0 where
  rollback retry skip escalate : RecoveryActionKind

pub record RecoveryAction : Type 0 where
  pub kind : RecoveryActionKind
  pub category : FailureCategory
  pub target : String
  pub reason : String
  pub retryable : Bool

abbrev pub code_to_category : List (String × FailureCategory)
code_to_category =
    ("invalid_params", invalid_arguments)
    ∷ ("invalid_payload", invalid_arguments)
    ∷ ("hook_deny", policy_denied)
    ∷ ("read_failed", unexpected_environments)
    ∷ ("write_failed", unexpected_environments)
    ∷ ("command_timeout", provider_errors)
    ∷ ("command_failed", broken_build)
    ∷ ("audit_failure", unexpected_environments)
    ∷ []

abbrev pub keyword_to_category : List (String × FailureCategory)
keyword_to_category =
    ("rate limit", rate_limited)
    ∷ ("rate_limited", rate_limited)
    ∷ ("too many requests", rate_limited)
    ∷ ("429", rate_limited)
    ∷ ("unauthorized", auth_failure)
    ∷ ("forbidden", auth_failure)
    ∷ ("401", auth_failure)
    ∷ ("403", auth_failure)
    ∷ ("invalid api key", auth_failure)
    ∷ ("context length", context_exhausted)
    ∷ ("context_length", context_exhausted)
    ∷ ("maximum context", context_exhausted)
    ∷ ("token limit", context_exhausted)
    ∷ ("verification failed", verification_failed)
    ∷ ("dsv_violation", verification_failed)
    ∷ ("build failed", broken_build)
    ∷ ("compile error", broken_build)
    ∷ ("provider", provider_errors)
    ∷ ("connection", provider_errors)
    ∷ ("timeout", provider_errors)
    ∷ []

-- `_CATEGORY_TO_ACTION`
unfoldable pub category_to_action : FailureCategory → RecoveryActionKind
category_to_action invalid_arguments = retry
category_to_action unexpected_environments = retry
category_to_action provider_errors = retry
category_to_action broken_build = retry
category_to_action verification_failed = retry
category_to_action rate_limited = retry
category_to_action circular_fix = escalate
category_to_action context_exhausted = escalate
category_to_action auth_failure = escalate
category_to_action policy_denied = escalate
category_to_action unknown = escalate

-- `_CODE_TO_CATEGORY.get(code)`
unfoldable pub category_of_code : String → List (String × FailureCategory) → Option FailureCategory
category_of_code code [] = none
category_of_code code ((k, c) ∷ r) = if str_eq k code then some c else category_of_code code r

module _ (lower : String → String) (includes : String → String → Bool) where
  -- the loop over the keywords
  unfoldable pub category_of_message : String → List (String × FailureCategory) → FailureCategory
  category_of_message message [] = unknown
  category_of_message message ((keyword, c) ∷ r) =
      if includes keyword message then c else category_of_message message r

  unfoldable pub category_for : ToolError → FailureCategory
  unfolding category_of_code category_of_message
  category_for e = elim (category_of_code e.code code_to_category) [
    | some c ↦ c
    | none ↦ category_of_message (lower e.message) keyword_to_category
  ]

  unfoldable pub classify : ToolError → String → RecoveryAction
  unfolding category_for category_to_action
  classify e target = record {
    kind = category_to_action (category_for e);
    category = category_for e;
    target = target;
    reason = e.message;
    retryable = e.retryable;
  }

  unfoldable pub classify_result : ToolResult → String → Option RecoveryAction
  unfolding classify
  classify_result r target = elim r.error [ none ↦ none | some e ↦ some (classify e target) ]
