-- ===== src/Hooks/LoopGuard/Runs.antt =====
-- What holds of the guard at every point of a run.
use mathlib.Core.Path.{subst}
use first_agent_dev.Prelude.{
  ℕ, ◌*◌, suc, ◌≤◌, String, ◌≡◌, refl, Bool, true, false, Option, none, some, ◌⊎◌, inl, inr, List,
  [], ◌∷◌, ◌++◌, arith, Bool-cases, Option-cases, any, ltb_false→le, length, last, length-last,
  length-append, ltb, leb, if◌then◌else◌,
}
use first_agent_dev.Hooks.Types.{
  Error, Result, ok, raise, Decision, allowed, LifecyclePoint, HookPayload, before_tool_exec,
  between_rounds, before_llm_call, after_llm_call, after_tool_exec,
}
use first_agent_dev.Hooks.Cases.{ok_inj}
use first_agent_dev.Hooks.LoopGuard.Window.{Observation, push, sig_counts, cycles}
use first_agent_dev.Hooks.LoopGuard.Scan.{
  WarnKey, same_key, Config, LoopGuard, new, warn_once, warn_repeat, sorted_pair, scan_repeats,
  scan_oscillation, after_repeats, scan, Hashing, observation_of, record_call, handle,
}
use first_agent_dev.Hooks.LoopGuard.Stuck.{IsValid, Stuck, Denies, scan-decides}

-- no warning twice
abbrev pub Unique : List WarnKey → Type 0
Unique [] = Unit
Unique (k ∷ ks) = (any (same_key k) ks ≡ false) × Unique ks

pub record Inv (g : LoopGuard) : Type 0 where
  pub valid : IsValid g.config
  pub bounded : length g.observations ≤ g.window
  pub unique : Unique g.warned
  pub emits : length g.emitted ≤ length g.warned

above : (a b c : ℕ) → a ≤ b → b ≤ c → a ≤ c
above a b c h k = omega arith

-- a check of `__init__` that has let its arguments pass
passed :
    (b : Bool) (e : Error) (r : Result LoopGuard) {g : LoopGuard}
    → (if b then raise e else r) ≡ ok g
    → (b ≡ false) × (r ≡ ok g)
passed true e r h = cc
passed false e r h = (refl, h)

begun-Inv :
    (c : Config) (has_sink : Bool)
    → 1 ≤ c.circuit_breaker
    → 1 ≤ c.pingpong_break_cycles
    → Inv (record { config = c; has_sink = has_sink; observations = []; warned = []; emitted = [] })
begun-Inv c has_sink repeats breaks = record {
  valid = record { repeats = repeats; breaks = breaks };
  bounded = omega arith;
  unique = tt;
  emits = omega arith;
}

pub new-Inv : (c : Config) (has_sink : Bool) {g : LoopGuard} → new c has_sink ≡ ok g → Inv g
unfolding new
new-Inv c has_sink h =
    let (warn, h1) = passed (ltb c.repeat_warn 1) _ _ h in
    let (repeat, h2) = passed (ltb c.circuit_breaker c.repeat_warn) _ _ h1 in
    let (_, h3) = passed (ltb c.window c.circuit_breaker) _ _ h2 in
    let (cycle, h4) = passed (ltb c.pingpong_warn_cycles 1) _ _ h3 in
    let (break, h5) = passed (ltb c.pingpong_break_cycles c.pingpong_warn_cycles) _ _ h4 in
    let (_, h6) = passed (ltb c.window (2 * c.pingpong_break_cycles)) _ _ h5 in
    let w = ltb_false→le c.repeat_warn 1 warn in
    let r = ltb_false→le c.circuit_breaker c.repeat_warn repeat in
    let y = ltb_false→le c.pingpong_warn_cycles 1 cycle in
    let b = ltb_false→le c.pingpong_break_cycles c.pingpong_warn_cycles break in
    subst Inv (ok_inj h6) (
      begun-Inv c has_sink (above 1 c.repeat_warn c.circuit_breaker w r)
        (above 1 c.pingpong_warn_cycles c.pingpong_break_cycles y b))

emitted_length :
    (b : Bool) (xs : List (String × String)) (x : String × String) (n : ℕ)
    → length xs ≤ n
    → length (if b then xs ++ x ∷ [] else xs) ≤ suc n
emitted_length true xs x n h = omega (arith, length-append xs (x ∷ []))
emitted_length false xs x n h = omega arith

warn_once-Inv : (k : WarnKey) (d m : String) (g : LoopGuard) → Inv g → Inv (warn_once k d m g)
unfolding warn_once
warn_once-Inv k d m g v = elim (Bool-cases (any (same_key k) g.warned)) [
  | inl e ↦ rw (e, warn_once) v
  | inr e ↦
      rw (e, warn_once)
        (record {
          valid = v.valid;
          bounded = v.bounded;
          unique = (e, v.unique);
          emits = emitted_length g.has_sink g.emitted (d, m) (length g.warned) v.emits;
        })
]

warn_repeat-Inv : (o : Observation) (n : ℕ) (g : LoopGuard) → Inv g → Inv (warn_repeat o n g)
unfolding warn_repeat
warn_repeat-Inv o n g v = elim (Bool-cases (leb g.repeat_warn n)) [
  | inl e ↦ rw (e, warn_repeat) (warn_once-Inv _ _ _ g v)
  | inr e ↦ rw (e, warn_repeat) v
]

scan_repeats-Inv :
    (items : List (Observation × ℕ)) (g : LoopGuard) → Inv g → Inv (scan_repeats items g).1
unfolding scan_repeats
scan_repeats-Inv [] g v = v
scan_repeats-Inv ((o, n) ∷ r) g v = elim (Bool-cases (leb g.circuit_breaker n)) [
  | inl e ↦ rw e v
  | inr e ↦ rw e (scan_repeats-Inv r (warn_repeat o n g) (warn_repeat-Inv o n g v))
]

scan_oscillation-Inv : (n : ℕ) (g : LoopGuard) → Inv g → Inv (scan_oscillation n g).1
unfolding scan_oscillation
scan_oscillation-Inv n g v = elim (Option-cases (sorted_pair (last 2 g.observations))) [
  | inl e ↦ rw (e, scan_oscillation) v
  | inr (p, e) ↦ elim (Bool-cases (leb g.pingpong_break_cycles n)) [
    | inl q ↦ rw (e, q, scan_oscillation) v
    | inr q ↦ elim (Bool-cases (leb g.pingpong_warn_cycles n)) [
      | inl w ↦ rw (e, q, w, scan_oscillation) (warn_once-Inv _ _ _ g v)
      | inr w ↦ rw (e, q, w, scan_oscillation) v
    ]
  ]
]

after_repeats-Inv : (x : Option (Result Decision) × LoopGuard) → Inv x.1 → Inv (after_repeats x).1
unfolding after_repeats
after_repeats-Inv (some d, g) v = v
after_repeats-Inv (none, g) v = scan_oscillation-Inv (cycles g.observations) g v

scan-Inv : (g : LoopGuard) → Inv g → Inv (scan g).1
unfolding scan
scan-Inv g v = after_repeats-Inv _ (scan_repeats-Inv (sig_counts g.observations) g v)

module _ (hashing : Hashing) where
  record_call-Inv : (p : HookPayload) (g : LoopGuard) → Inv g → Inv (record_call hashing p g)
  unfolding record_call push
  record_call-Inv p g v = elim (Option-cases p.tool_call) [
    | inl e ↦ rw (e, record_call) v
    | inr (c, e) ↦
        rw (e, record_call)
          (record {
            valid = v.valid;
            bounded =
                omega
                  (arith, length-last g.window (g.observations ++ observation_of hashing c ∷ []));
            unique = v.unique;
            emits = v.emits;
          })
  ]

  pub handle-Inv :
      (point : LifecyclePoint) (p : HookPayload) (g : LoopGuard)
      → Inv g
      → Inv (handle hashing point p g).1
  unfolding handle
  handle-Inv before_tool_exec p g v = record_call-Inv p g v
  handle-Inv between_rounds p g v = scan-Inv g v
  handle-Inv before_llm_call p g v = v
  handle-Inv after_llm_call p g v = v
  handle-Inv after_tool_exec p g v = v

  -- the states of a guard from its construction on
  pub data Reachable (c : Config) (has_sink : Bool) : LoopGuard → Type 0 where
    begin : {g : LoopGuard} → new c has_sink ≡ ok g → Reachable c has_sink g
    step :
        {g : LoopGuard} (point : LifecyclePoint) (p : HookPayload)
        → Reachable c has_sink g
        → Reachable c has_sink (handle hashing point p g).1

  -- In every state of a run the window is not longer than its limit, no warning has fired twice, and
  -- the sink has got no more warnings than have fired.
  pub Reachable-Inv :
      {c : Config} {has_sink : Bool} {g : LoopGuard} → Reachable c has_sink g → Inv g
  Reachable-Inv (begin {g} h) = new-Inv _ _ h
  Reachable-Inv (step {g} point p r) = handle-Inv point p g (Reachable-Inv r)

  -- In every state of a run that `__init__` has accepted, the scan between two rounds denies, with a
  -- reason of the guard's own, if a call occurs as often in the window as the circuit breaker says or
  -- if the window ends in as many alternations of two calls as break a run; otherwise it allows.
  pub handle-Stuck :
      {c : Config} {has_sink : Bool} {g : LoopGuard} (p : HookPayload)
      → Reachable c has_sink g
      → let r = (handle hashing between_rounds p g).0 in
        (Stuck g.config g.observations × Denies r)
        ⊎ (¬ Stuck g.config g.observations × (r ≡ ok allowed))
  unfolding handle
  handle-Stuck {g = g} p r = scan-decides g (Reachable-Inv r).valid
