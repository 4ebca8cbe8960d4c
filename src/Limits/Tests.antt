-- ===== src/Limits/Tests.antt =====
-- A configuration with a cap of four attempts and a cap of no iterations, which is refused.
use first_agent_dev.Prelude.{
  ℕ, pos, ◌≡◌, refl, true, false, none, some, [], ◌∷◌, all, leb, str_eq, if◌then◌else◌, length,
}
use first_agent_dev.Limits.Load.{Python, load_runtime_limits, resolve_limits_for_role}
use first_agent_dev.Limits.Strict.{strict_limits, resolve_limits_for_role-strict}

abbrev python : Python ℕ
python = record {
  splitlines =
      λ s. "runtime_limits:" ∷ "  max_iterations: 0" ∷ "  attempt_history_max_entries: 4" ∷ [];
  rstrip = λ s. s;
  lstrip = λ s.
      if str_eq s "  max_iterations: 0"
      then "max_iterations: 0"
      else if str_eq s "  attempt_history_max_entries: 4"
      then "attempt_history_max_entries: 4"
      else s;
  strip = λ s. if str_eq s " 0" then "0" else if str_eq s " 4" then "4" else s;
  rstrip_colons = λ s. if str_eq s "runtime_limits:" then "runtime_limits" else s;
  starts_with_hash = λ s. false;
  ends_with_colon = λ s. str_eq s "runtime_limits:";
  size = λ s.
      if str_eq s "  max_iterations: 0"
      then 19
      else if str_eq s "  attempt_history_max_entries: 4"
      then 32
      else 1;
  partition = λ s.
      if str_eq s "max_iterations: 0"
      then some ("max_iterations", " 0")
      else if str_eq s "attempt_history_max_entries: 4"
      then some ("attempt_history_max_entries", " 4")
      else none;
  find = λ s t. none;
  before = λ n s. s;
  plain = λ s. s;
  repr = λ s. s;
  int_of = λ s. if str_eq s "4" then some (pos 4) else if str_eq s "0" then some (pos 0) else none;
  float_of = λ s. none;
  is_finite = λ x. true;
  in_unit_interval = λ x. true;
  below_zero = λ x. false;
  below_one = λ x. false;
  show_float = λ x. "";
  five_hundredths = 0;
}

-- the cap of attempts is taken, and the other line leaves a warning
four_attempts : (load_runtime_limits python "").limits.attempt_history_max_entries ≡ 4
unfolding load_runtime_limits
four_attempts = refl

one_warning : length (load_runtime_limits python "").warnings ≡ 1
unfolding load_runtime_limits
one_warning = refl

resolve_limits_for_role-strict_example :
    all (leb 1) (
      strict_limits python
        (resolve_limits_for_role python (load_runtime_limits python "") (some "coder")))
    ≡ true
resolve_limits_for_role-strict_example = resolve_limits_for_role-strict python "" (some "coder")
