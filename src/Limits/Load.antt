-- ===== src/Limits/Load.antt =====
-- inner_loop/runtime_limits.py: `load_runtime_limits` and `resolve_limits_for_role`, with
-- `strip_inline_comment` of _yaml_subset.py. Python's operations on texts and floats are parameters.
use first_agent_dev.Prelude.{
  ℕ, suc, ◌+◌, ℤ, pos, negsuc, String, Bool, true, false, not, ◌&&◌, ◌||◌, Option, none, some, List,
  [], ◌∷◌, ◌++◌, truthy, str_eq, concat, show, ltb, ◌==◌, min, if◌then◌else◌,
}
use first_agent_dev.Limits.Keys.{
  RuntimeLimits, zero_allowed_keys, float_keys, unit_interval_keys, bool_keys, role_key_to_name,
  known_keys, is_key, find_key, live_role_names, role_iteration_default,
}

-- Python's texts and floats, as the loader uses them.
pub record Python (F : Type 0) : Type 0 where
  pub splitlines : String → List String
  pub rstrip : String → String
  pub lstrip : String → String
  pub strip : String → String
  pub rstrip_colons : String → String
  pub starts_with_hash : String → Bool
  pub ends_with_colon : String → Bool
  pub size : String → ℕ
  -- `partition(":")`, none without a colon
  pub partition : String → Option (String × String)
  -- `find`, and `value[:n]`
  pub find : String → String → Option ℕ
  pub before : ℕ → String → String
  -- `strip('"').strip("'").lower()`
  pub plain : String → String
  pub repr : String → String
  pub int_of : String → Option ℤ
  pub float_of : String → Option F
  pub is_finite : F → Bool
  -- `0.0 < x <= 1.0`, `x < 0.0` and `x < 1.0`
  pub in_unit_interval : F → Bool
  pub below_zero : F → Bool
  pub below_one : F → Bool
  pub show_float : F → String
  pub five_hundredths : F

pub record RuntimeLimitsWarning : Type 0 where
  pub line_no : ℕ
  pub key : String
  pub detail : String

pub record RuntimeLimitsLoadResult (F : Type 0) : Type 0 where
  pub limits : RuntimeLimits F
  pub warnings : List RuntimeLimitsWarning
  pub role_iterations : List (String × ℕ)

-- What the loop has found, the newest value of a key first.
pub record Found (F : Type 0) : Type 0 where
  pub ints : List (String × ℕ)
  pub floats : List (String × F)
  pub bools : List (String × Bool)
  pub roles : List (String × ℕ)
  pub warnings : List RuntimeLimitsWarning
  pub in_block : Bool

-- `str(n)` of an integer
abbrev show_int : ℤ → String
show_int (pos n) = show n
show_int (negsuc n) = concat ("-" ∷ show (n + 1) ∷ [])

-- the warning for a number that is too small
abbrev small_detail : String → String → String
small_detail key number =
    if is_key key zero_allowed_keys
    then concat ("value must be non-negative: " ∷ number ∷ [])
    else concat ("value must be positive: " ∷ number ∷ [])

module _ {F : Type 0} where
  unfoldable pub note_warning : ℕ → String → String → Found F → Found F
  note_warning line_no key detail s = record s {
    warnings = s.warnings ++ record { line_no = line_no; key = key; detail = detail } ∷ [];
  }

  module _ (python : Python F) where
    unfoldable pub strip_inline_comment : String → String
    strip_inline_comment value = elim (python.find value " #") [
      | none ↦ elim (python.find value "\t#") [ none ↦ value | some tab ↦ python.before tab value ]
      | some space ↦ elim (python.find value "\t#") [
        | none ↦ python.before space value
        | some tab ↦ python.before (min space tab) value
      ]
    ]

    unfoldable pub accept_bool_key : String → String → ℕ → Found F → Found F
    unfolding note_warning
    accept_bool_key key value line_no s =
        let lowered = python.plain (python.strip value) in
        if is_key lowered ("true" ∷ "yes" ∷ "on" ∷ "1" ∷ [])
        then record s { bools = (key, true) ∷ s.bools }
        else if is_key lowered ("false" ∷ "no" ∷ "off" ∷ "0" ∷ [])
        then record s { bools = (key, false) ∷ s.bools }
        else note_warning line_no key (concat ("non-boolean value: " ∷ python.repr value ∷ [])) s

    unfoldable pub accept_float : String → String → ℕ → F → Found F → Found F
    unfolding note_warning
    accept_float key value line_no x s =
        let taken : Found F = record s { floats = (key, x) ∷ s.floats } in
        if not (python.is_finite x)
        then note_warning line_no key
            (concat ("value must be a finite number: " ∷ python.repr value ∷ [])) s
        else if is_key key unit_interval_keys
        then (if not (python.in_unit_interval x)
            then note_warning line_no key
                (concat ("value must be in (0.0, 1.0]: " ∷ python.show_float x ∷ [])) s
            else taken)
        else if (if is_key key zero_allowed_keys then python.below_zero x else python.below_one x)
        then note_warning line_no key (small_detail key (python.show_float x)) s
        else taken

    unfoldable pub accept_float_key : String → String → ℕ → Found F → Found F
    unfolding accept_float note_warning
    accept_float_key key value line_no s = elim (python.float_of value) [
      | none ↦ note_warning line_no key (concat ("non-numeric value: " ∷ python.repr value ∷ [])) s
      | some x ↦ accept_float key value line_no x s
    ]

    -- an integer that is large enough
    unfoldable pub take_int : String → ℕ → Found F → Found F
    take_int key n s = elim (find_key key role_key_to_name) [
      | none ↦ record s { ints = (key, n) ∷ s.ints }
      | some role ↦ record s { ints = (key, n) ∷ s.ints; roles = (role, n) ∷ s.roles }
    ]

    unfoldable pub accept_int : String → ℕ → ℤ → Found F → Found F
    unfolding take_int note_warning
    accept_int key line_no (negsuc n) s =
        note_warning line_no key (small_detail key (show_int (negsuc n))) s
    accept_int key line_no (pos n) s =
        if ltb n (if is_key key zero_allowed_keys then 0 else 1)
        then note_warning line_no key (small_detail key (show_int (pos n))) s
        else take_int key n s

    unfoldable pub accept_int_key : String → String → ℕ → Found F → Found F
    unfolding accept_int note_warning
    accept_int_key key value line_no s = elim (python.int_of value) [
      | none ↦ note_warning line_no key (concat ("non-integer value: " ∷ python.repr value ∷ [])) s
      | some n ↦ accept_int key line_no n s
    ]

    -- a line of the block with a key and a value
    unfoldable pub accept_key : String → String → ℕ → Found F → Found F
    unfolding accept_bool_key accept_float_key accept_int_key note_warning
    accept_key key value line_no s =
        if not (is_key key known_keys)
        then note_warning line_no key "unknown key" s
        else if is_key key bool_keys
        then accept_bool_key key value line_no s
        else if is_key key float_keys
        then accept_float_key key value line_no s
        else accept_int_key key value line_no s

    unfoldable pub accept_pair : Option (String × String) → ℕ → Found F → Found F
    unfolding accept_key strip_inline_comment
    accept_pair none line_no s = s
    accept_pair (some (key, rest)) line_no s =
        accept_key (python.strip key) (python.strip (strip_inline_comment rest)) line_no s

    -- the body of the loop over the lines
    unfoldable pub scan_limits_line : ℕ → String → Found F → Found F
    unfolding accept_pair
    scan_limits_line line_no raw s =
        let line = python.rstrip raw in
        let stripped = python.lstrip line in
        if not (truthy (python.strip line)) || python.starts_with_hash stripped
        then s
        else if python.size line == python.size stripped
        then record s {
          in_block =
              str_eq (python.rstrip_colons stripped) "runtime_limits"
              && python.ends_with_colon stripped;
        }
        else if not s.in_block
        then s
        else accept_pair (python.partition stripped) line_no s

    unfoldable pub scan_limits : ℕ → List String → Found F → Found F
    unfolding scan_limits_line
    scan_limits line_no [] s = s
    scan_limits line_no (raw ∷ r) s = scan_limits (suc line_no) r (scan_limits_line line_no raw s)

    -- `found.get(key, default)`
    abbrev pub or_anchor {ℓ} : {A : Type ℓ} → A → Option A → A
    or_anchor anchor none = anchor
    or_anchor anchor (some v) = v

    unfoldable pub limits_of : Found F → RuntimeLimits F
    unfolding find_key
    limits_of s =
        let int : String → ℕ → ℕ = λ key anchor. or_anchor anchor (find_key key s.ints) in
        record {
          max_iterations = int "max_iterations" 6;
          bash_timeout_seconds = int "bash_timeout_seconds" 30;
          loop_guard_repeat_warn = int "loop_guard_repeat_warn" 3;
          loop_guard_circuit_breaker = int "loop_guard_circuit_breaker" 5;
          loop_guard_window = int "loop_guard_window" 8;
          loop_guard_pingpong_warn_cycles = int "loop_guard_pingpong_warn_cycles" 3;
          loop_guard_pingpong_break_cycles = int "loop_guard_pingpong_break_cycles" 4;
          attempt_history_max_entries = int "attempt_history_max_entries" 50;
          attempt_history_max_age_seconds = int "attempt_history_max_age_seconds" 7200;
          qa_max_iterations = int "qa_max_iterations" 50;
          qa_max_consecutive_errors = int "qa_max_consecutive_errors" 3;
          qa_recurring_issue_threshold = int "qa_recurring_issue_threshold" 3;
          rate_limit_suppression_seconds = int "rate_limit_suppression_seconds" 30;
          lockfile_suppression_seconds = int "lockfile_suppression_seconds" 5;
          auth_expired_suppression_seconds = int "auth_expired_suppression_seconds" 0;
          cost_budget_usd = find_key "cost_budget_usd" s.floats;
          max_subagent_spawns_per_session = int "max_subagent_spawns_per_session" 3;
          workflow_timeout_seconds = int "workflow_timeout_seconds" 1800;
          chat_escalation_gate = or_anchor false (find_key "chat_escalation_gate" s.bools);
          max_workflow_invocations = int "max_workflow_invocations" 2;
          calibration_epsilon =
              or_anchor python.five_hundredths (find_key "calibration_epsilon" s.floats);
          min_flag_runs = int "min_flag_runs" 10;
        }

    abbrev pub nothing_found : Found F
    nothing_found = record {
      ints = [];
      floats = [];
      bools = [];
      roles = [];
      warnings = [];
      in_block = false;
    }

    unfoldable pub load_runtime_limits : String → RuntimeLimitsLoadResult F
    unfolding scan_limits limits_of
    load_runtime_limits t =
        let s = scan_limits 1 (python.splitlines t) nothing_found in
        record { limits = limits_of s; warnings = s.warnings; role_iterations = s.roles }

    unfoldable pub resolve_limits_for_role :
        RuntimeLimitsLoadResult F → Option String → RuntimeLimits F
    unfolding find_key
    resolve_limits_for_role loaded none = loaded.limits
    resolve_limits_for_role loaded (some role) =
        if is_key role live_role_names
        then record loaded.limits {
          max_iterations = or_anchor role_iteration_default (find_key role loaded.role_iterations);
        }
        else loaded.limits
