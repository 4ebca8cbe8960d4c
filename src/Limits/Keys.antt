-- ===== src/Limits/Keys.antt =====
-- inner_loop/runtime_limits.py: the limits, their defaults and their keys.
use first_agent_dev.Prelude.{
  ℕ, String, Bool, Option, none, some, List, [], ◌∷◌, any, str_eq, if◌then◌else◌,
}

-- `RuntimeLimits`; `F` are Python's floats.
pub record RuntimeLimits (F : Type 0) : Type 0 where
  pub max_iterations : ℕ
  pub bash_timeout_seconds : ℕ
  pub loop_guard_repeat_warn : ℕ
  pub loop_guard_circuit_breaker : ℕ
  pub loop_guard_window : ℕ
  pub loop_guard_pingpong_warn_cycles : ℕ
  pub loop_guard_pingpong_break_cycles : ℕ
  pub attempt_history_max_entries : ℕ
  pub attempt_history_max_age_seconds : ℕ
  pub qa_max_iterations : ℕ
  pub qa_max_consecutive_errors : ℕ
  pub qa_recurring_issue_threshold : ℕ
  pub rate_limit_suppression_seconds : ℕ
  pub lockfile_suppression_seconds : ℕ
  pub auth_expired_suppression_seconds : ℕ
  pub cost_budget_usd : Option F
  pub max_subagent_spawns_per_session : ℕ
  pub workflow_timeout_seconds : ℕ
  pub chat_escalation_gate : Bool
  pub max_workflow_invocations : ℕ
  pub calibration_epsilon : F
  pub min_flag_runs : ℕ

abbrev pub zero_allowed_keys : List String
zero_allowed_keys =
    "rate_limit_suppression_seconds" ∷ "lockfile_suppression_seconds"
    ∷ "auth_expired_suppression_seconds" ∷ "cost_budget_usd" ∷ []

abbrev pub float_keys : List String
float_keys = "cost_budget_usd" ∷ "calibration_epsilon" ∷ []

abbrev pub unit_interval_keys : List String
unit_interval_keys = "calibration_epsilon" ∷ []

abbrev pub bool_keys : List String
bool_keys = "chat_escalation_gate" ∷ []

-- `_ROLE_KEY_TO_NAME`
abbrev pub role_key_to_name : List (String × String)
role_key_to_name =
    ("max_iterations_planner", "planner")
    ∷ ("max_iterations_coder", "coder")
    ∷ ("max_iterations_eval", "eval")
    ∷ ("max_iterations_researcher", "researcher")
    ∷ ("max_iterations_code-reviewer", "code-reviewer")
    ∷ []

abbrev pub known_keys : List String
known_keys =
    "max_iterations" ∷ "bash_timeout_seconds" ∷ "loop_guard_repeat_warn"
    ∷ "loop_guard_circuit_breaker" ∷ "loop_guard_window" ∷ "loop_guard_pingpong_warn_cycles"
    ∷ "loop_guard_pingpong_break_cycles" ∷ "attempt_history_max_entries"
    ∷ "attempt_history_max_age_seconds" ∷ "qa_max_iterations" ∷ "qa_max_consecutive_errors"
    ∷ "qa_recurring_issue_threshold" ∷ "rate_limit_suppression_seconds"
    ∷ "lockfile_suppression_seconds" ∷ "auth_expired_suppression_seconds" ∷ "cost_budget_usd"
    ∷ "max_subagent_spawns_per_session" ∷ "workflow_timeout_seconds" ∷ "chat_escalation_gate"
    ∷ "max_workflow_invocations" ∷ "calibration_epsilon" ∷ "min_flag_runs"
    ∷ "max_iterations_planner" ∷ "max_iterations_coder" ∷ "max_iterations_eval"
    ∷ "max_iterations_researcher" ∷ "max_iterations_code-reviewer" ∷ []

-- `key in keys`
abbrev pub is_key : String → List String → Bool
is_key key keys = any (str_eq key) keys

-- `mapping.get(key)`
unfoldable pub find_key {ℓ} : {A : Type ℓ} → String → List (String × A) → Option A
find_key key [] = none
find_key key ((k, v) ∷ r) = if str_eq k key then some v else find_key key r

-- `_LIVE_ROLE_NAMES` and `ROLE_ITERATION_DEFAULTS`
abbrev pub live_role_names : List String
live_role_names = "planner" ∷ "coder" ∷ "eval" ∷ []

abbrev pub role_iteration_default : ℕ
role_iteration_default = 99
