-- ===== src/Hooks/LoopGuard/Scan.antt =====
-- The guard: its thresholds, `_record`, `_scan` and `handle`.
use Prim.Native.Nat.{Ordering}
use Prim.Native.String.{compare}
use first_agent_dev.Prelude.{
  ℕ, ◌*◌, String, Bool, true, false, ◌&&◌, Option, none, some, List, [], ◌∷◌, ◌++◌, any, last,
  concat, show, str_eq, ltb, leb, if◌then◌else◌,
}
use first_agent_dev.Hooks.Types.{
  value_error, Result, ok, raise, LifecyclePoint, before_tool_exec, between_rounds, Entries,
  ToolCall, HookPayload, Decision, allowed, deny_with,
}
use first_agent_dev.Hooks.LoopGuard.Window.{Observation, same_call, push, sig_counts, cycles}

abbrev pub reason_prefix : String
reason_prefix = "LoopGuard: "

-- Which warning has fired. The source's keys are texts of the same parts.
pub data WarnKey : Type 0 where
  identical : String → WarnKey
  pingpong : Observation → Observation → WarnKey

-- The thresholds; a negative one fails the checks of `__init__` as 0 does.
pub record Config : Type 0 where
  pub repeat_warn : ℕ
  pub circuit_breaker : ℕ
  pub window : ℕ
  pub pingpong_warn_cycles : ℕ
  pub pingpong_break_cycles : ℕ

-- `emitted` is what reached the warn sink, where there is one.
pub record LoopGuard : Type 0 where
  pub config : Config
  pub open config use *
  pub has_sink : Bool
  pub observations : List Observation
  pub warned : List WarnKey
  pub emitted : List (String × String)

unfoldable pub new : Config → Bool → Result LoopGuard
new c has_sink =
    if ltb c.repeat_warn 1
    then raise (value_error "repeat_warn must be >= 1")
    else if ltb c.circuit_breaker c.repeat_warn
    then raise (value_error "circuit_breaker must be >= repeat_warn")
    else if ltb c.window c.circuit_breaker
    then raise (value_error "window must be >= circuit_breaker")
    else if ltb c.pingpong_warn_cycles 1
    then raise (value_error "pingpong_warn_cycles must be >= 1")
    else if ltb c.pingpong_break_cycles c.pingpong_warn_cycles
    then raise (value_error "pingpong_break_cycles must be >= pingpong_warn_cycles")
    else if ltb c.window (2 * c.pingpong_break_cycles)
    then raise
        (value_error "window must be >= 2 * pingpong_break_cycles (a full alternation must fit)")
    else ok
        (record { config = c; has_sink = has_sink; observations = []; warned = []; emitted = [] })

unfoldable pub same_key : WarnKey → WarnKey → Bool
same_key (identical s) (identical t) = str_eq s t
same_key (pingpong a b) (pingpong c d) = same_call a c && same_call b d
same_key _ _ = false

-- `if key not in self._warned: self._warned.add(key); self._emit_warn(detector, message)`
unfoldable pub warn_once : WarnKey → String → String → LoopGuard → LoopGuard
unfolding same_key
warn_once key detector message g = if any (same_key key) g.warned then g else record g {
  warned = key ∷ g.warned;
  emitted = if g.has_sink then g.emitted ++ (detector, message) ∷ [] else g.emitted;
}

abbrev pub repeat_reason : Observation → ℕ → ℕ → String
repeat_reason o n threshold = concat (
    reason_prefix
    ∷ "identical call "
    ∷ o.tool_name
    ∷ " ("
    ∷ o.params_hash
    ∷ ") repeated "
    ∷ show n
    ∷ " times (threshold "
    ∷ show threshold
    ∷ ")"
    ∷ [])

-- the warning of the loop over `sig_counts.items()`
unfoldable pub warn_repeat : Observation → ℕ → LoopGuard → LoopGuard
warn_repeat o n g =
    if leb g.repeat_warn n
    then warn_once (identical (concat (o.tool_name ∷ "|" ∷ o.params_hash ∷ [])))
        "identical_call_repeat"
        (concat (
          o.tool_name
          ∷ " repeated "
          ∷ show n
          ∷ " times (warn threshold "
          ∷ show g.repeat_warn
          ∷ ")"
          ∷ []))
        g
    else g

-- that loop; `none` when it ends without a deny
unfoldable pub scan_repeats :
    List (Observation × ℕ) → LoopGuard → Option (Result Decision) × LoopGuard
scan_repeats [] g = (none, g)
scan_repeats ((o, n) ∷ r) g =
    let rest = scan_repeats r (warn_repeat o n g) in
    if leb g.circuit_breaker n
    then (some (deny_with (repeat_reason o n g.circuit_breaker)), g)
    else rest

-- `sorted` on the two signatures of an alternation, which end the window
abbrev pub before : Observation → Observation → Bool
before a b = elim (compare a.tool_name b.tool_name) [
  | Ordering.lt ↦ true
  | Ordering.gt ↦ false
  | Ordering.eq ↦ elim (compare a.params_hash b.params_hash) [ Ordering.gt ↦ false | _ ↦ true ]
]

abbrev pub sorted_pair : List Observation → Option (Observation × Observation)
sorted_pair (a ∷ b ∷ _) = some (if before a b then (a, b) else (b, a))
sorted_pair _ = none

abbrev pub oscillation_reason : Observation → Observation → ℕ → ℕ → String
oscillation_reason a b n threshold = concat (
    reason_prefix
    ∷ "ping-pong oscillation between "
    ∷ a.tool_name
    ∷ " and "
    ∷ b.tool_name
    ∷ " ("
    ∷ show n
    ∷ " cycles, threshold "
    ∷ show threshold
    ∷ ")"
    ∷ [])

-- the second half of `_scan`, with n full cycles found
unfoldable pub scan_oscillation : ℕ → LoopGuard → Result Decision × LoopGuard
scan_oscillation n g = elim (sorted_pair (last 2 g.observations)) [
  | none ↦ (ok allowed, g)
  | some (a, b) ↦
      if leb g.pingpong_break_cycles n
      then (deny_with (oscillation_reason a b n g.pingpong_break_cycles), g)
      else if leb g.pingpong_warn_cycles n
      then (
        ok allowed,
        warn_once (pingpong a b) "pingpong_oscillation"
            (concat (
              "alternation between "
              ∷ a.tool_name
              ∷ " and "
              ∷ b.tool_name
              ∷ " reached "
              ∷ show n
              ∷ " cycles (warn threshold "
              ∷ show g.pingpong_warn_cycles
              ∷ ")"
              ∷ []))
            g,
      )
      else (ok allowed, g)
]

-- An empty window has no counts and no cycles, so the early return of `_scan` needs no case.
unfoldable pub after_repeats : Option (Result Decision) × LoopGuard → Result Decision × LoopGuard
after_repeats (some d, g) = (d, g)
after_repeats (none, g) = scan_oscillation (cycles g.observations) g

unfoldable pub scan : LoopGuard → Result Decision × LoopGuard
unfolding after_repeats
scan g = after_repeats (scan_repeats (sig_counts g.observations) g)

-- `canonical_params_hash` of attempt_history.py, over `json.dumps` and the first 12 hexadecimal
-- digits of SHA-256, which Python's library computes
pub record Hashing : Type 0 where
  pub dumps : Entries → String
  pub sha256_12 : String → String

module _ (hashing : Hashing) where
  unfoldable pub canonical_params_hash : String → Entries → String
  canonical_params_hash tool_name params =
      hashing.sha256_12 (concat (tool_name ∷ "|" ∷ hashing.dumps params ∷ []))

  unfoldable pub observation_of : ToolCall → Observation
  observation_of c = record {
    tool_name = c.name;
    params_hash = canonical_params_hash c.name c.params;
  }

  -- `_record`
  unfoldable pub record_call : HookPayload → LoopGuard → LoopGuard
  unfolding push
  record_call p g = elim p.tool_call [
    | none ↦ g
    | some c ↦ record g { observations = push g.window g.observations (observation_of c) }
  ]

  unfoldable pub handle : LifecyclePoint → HookPayload → LoopGuard → Result Decision × LoopGuard
  handle before_tool_exec p g = (ok allowed, record_call p g)
  handle between_rounds p g = scan g
  handle _ p g = (ok allowed, g)
