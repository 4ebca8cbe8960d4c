-- ===== src/Limits/Strict.antt =====
-- inner_loop/runtime_limits.py: no limit that is loaded is zero where zero is not allowed.
use mathlib.Core.Path.{subst}
use first_agent_dev.Prelude.{
  some_inj, ℕ, String, ◌≡◌, refl, true, false, inl, inr, Option, none, some, List, [], ◌∷◌, all,
  str_eq, leb, if_split, Bool-cases, Option-cases, and_true,
}
use first_agent_dev.Limits.Keys.{
  RuntimeLimits, zero_allowed_keys, is_key, find_key, live_role_names,
}
use first_agent_dev.Limits.Load.{
  Python, Found, RuntimeLimitsLoadResult, scan_limits, or_anchor, limits_of, nothing_found,
  load_runtime_limits, resolve_limits_for_role,
}
use first_agent_dev.Limits.Positive.{
  allowed_entry, positive_entry, scan_limits-Sound, find_key-large,
}

find_key-positive :
    (m : List (String × ℕ)) (key : String) {n : ℕ}
    → find_key key m ≡ some n
    → all positive_entry m ≡ true
    → leb 1 n ≡ true
unfolding find_key
find_key-positive [] key h a = cc
find_key-positive ((k, v) ∷ r) key {n} h a =
    let (now, later) = and_true (positive_entry (k, v)) _ a in
    elim (Bool-cases (str_eq k key)) [
      | inl y ↦ subst (λ x. leb 1 x ≡ true) (some_inj (rw (y, find_key) at h)) now
      | inr q ↦ find_key-positive r key (rw (q, find_key) at h) later
    ]

module _ {F : Type 0} (python : Python F) where
  -- the limits that must not be zero
  unfoldable pub strict_limits : RuntimeLimits F → List ℕ
  strict_limits l =
      l.max_iterations ∷ l.bash_timeout_seconds ∷ l.loop_guard_repeat_warn
      ∷ l.loop_guard_circuit_breaker ∷ l.loop_guard_window ∷ l.loop_guard_pingpong_warn_cycles
      ∷ l.loop_guard_pingpong_break_cycles ∷ l.attempt_history_max_entries
      ∷ l.attempt_history_max_age_seconds ∷ l.qa_max_iterations ∷ l.qa_max_consecutive_errors
      ∷ l.qa_recurring_issue_threshold ∷ l.max_subagent_spawns_per_session
      ∷ l.workflow_timeout_seconds ∷ l.max_workflow_invocations ∷ l.min_flag_runs ∷ []

  module _ (s : Found F) (h : all allowed_entry s.ints ≡ true) where
    found_int :
        (key : String) (anchor : ℕ)
        → is_key key zero_allowed_keys ≡ false
        → leb 1 anchor ≡ true
        → leb 1 (or_anchor python anchor (find_key key s.ints)) ≡ true
    found_int key anchor z a = elim (Option-cases (find_key key s.ints)) [
      | inl q ↦ rw q a
      | inr (n, q) ↦ rw q (find_key-large s.ints key q h z)
    ]

    limits_of-strict : all (leb 1) (strict_limits (limits_of python s)) ≡ true
    unfolding limits_of strict_limits
    limits_of-strict =
        rw
          (
            found_int "max_iterations" 6 refl refl,
            found_int "bash_timeout_seconds" 30 refl refl,
            found_int "loop_guard_repeat_warn" 3 refl refl,
            found_int "loop_guard_circuit_breaker" 5 refl refl,
            found_int "loop_guard_window" 8 refl refl,
            found_int "loop_guard_pingpong_warn_cycles" 3 refl refl,
            found_int "loop_guard_pingpong_break_cycles" 4 refl refl,
            found_int "attempt_history_max_entries" 50 refl refl,
            found_int "attempt_history_max_age_seconds" 7200 refl refl,
            found_int "qa_max_iterations" 50 refl refl,
            found_int "qa_max_consecutive_errors" 3 refl refl,
            found_int "qa_recurring_issue_threshold" 3 refl refl,
            found_int "max_subagent_spawns_per_session" 3 refl refl,
            found_int "workflow_timeout_seconds" 1800 refl refl,
            found_int "max_workflow_invocations" 2 refl refl,
            found_int "min_flag_runs" 10 refl refl,
          )
          refl

  resolve-strict :
      (loaded : RuntimeLimitsLoadResult F) (role : Option String)
      → all (leb 1) (strict_limits loaded.limits) ≡ true
      → all positive_entry loaded.role_iterations ≡ true
      → all (leb 1) (strict_limits (resolve_limits_for_role python loaded role)) ≡ true
  unfolding resolve_limits_for_role strict_limits
  resolve-strict loaded none h k = h
  resolve-strict loaded (some role) h k =
      let (_, rest) = and_true (leb 1 loaded.limits.max_iterations) _ h in
      if_split (λ (l : RuntimeLimits F). all (leb 1) (strict_limits l) ≡ true)
        (is_key role live_role_names)
        (λ _. elim (Option-cases (find_key role loaded.role_iterations)) [
          | inl q ↦ rw q rest
          | inr (n, q) ↦
              let large : leb 1 n ≡ true = find_key-positive loaded.role_iterations role q k in
              rw q (rw (large, rest) refl)
        ])
        (λ _. h)

  -- Whatever the configuration says, every limit of a run but the suppression times and the budget of
  -- costs is at least one, for every role.
  pub resolve_limits_for_role-strict :
      (config : String) (role : Option String)
      → all
          (leb 1)
          (strict_limits (resolve_limits_for_role python (load_runtime_limits python config) role))
        ≡ true
  unfolding load_runtime_limits
  resolve_limits_for_role-strict config role =
      let s = scan_limits python 1 (python.splitlines config) (nothing_found python) in
      let (h, k) =
        scan_limits-Sound python 1 (python.splitlines config) (nothing_found python) (refl, refl) in
      resolve-strict (load_runtime_limits python config) role (limits_of-strict s h) k
