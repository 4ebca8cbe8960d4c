-- ===== src/Hooks/LoopGuard/Stuck.antt =====
-- What `_scan` decides: to stop the run just when it makes no progress.
use mathlib.Core.Path.{subst}
use first_agent_dev.Prelude.{
  ℕ, zero, suc, ◌≤◌, String, ◌≡◌, refl, sym, ap, ◌∙◌, Bool, true, false, none, some, ◌⊎◌, inl, inr,
  List, [], ◌∷◌, arith, Bool-cases, Option-cases, any, length, last, length-last, concat,
  truthy-concat, leb, leb→le, le→leb,
}
use first_agent_dev.Hooks.Types.{Result, ok, Decision, deny, allowed, deny_with}
use first_agent_dev.Hooks.LoopGuard.Window.{Observation, sig_counts, cycles}
use first_agent_dev.Hooks.LoopGuard.Scan.{
  WarnKey, same_key, Config, LoopGuard, warn_once, warn_repeat, reason_prefix, repeat_reason,
  sorted_pair, oscillation_reason, scan_repeats, scan_oscillation, after_repeats, scan,
}
use first_agent_dev.Hooks.LoopGuard.Calls.{occurrences}
use first_agent_dev.Hooks.LoopGuard.Counts.{reaches→occurs, occurs→reaches}
use first_agent_dev.Hooks.LoopGuard.Alternation.{Alternates}
use first_agent_dev.Hooks.LoopGuard.Cycles.{cycles→Alternates, Alternates→cycles, Alternates-length}

-- A window in which some call is repeated, or in which two calls have alternated, up to the
-- thresholds at which a run is stopped.
pub data Stuck (c : Config) (window : List Observation) : Type 0 where
  repeating : (o : Observation) → c.circuit_breaker ≤ occurrences o window → Stuck c window
  alternating : Alternates c.pingpong_break_cycles window → Stuck c window

-- a deny with a reason that the guard marks as its own
abbrev pub Denies : Result Decision → Type 0
Denies r =
    (t : List String) × (r
      ≡ ok (record { action = deny; reason = concat (reason_prefix ∷ t); payload = none }))

-- what the checks of `__init__` leave
pub record IsValid (c : Config) : Type 0 where
  pub repeats : 1 ≤ c.circuit_breaker
  pub breaks : 1 ≤ c.pingpong_break_cycles

deny_with-Denies : (t : List String) → Denies (deny_with (concat (reason_prefix ∷ t)))
unfolding deny_with
deny_with-Denies t = (t, rw (truthy-concat reason_prefix t (λ e. cc)))

-- the window and the thresholds are as before
pub record SameWindow (g h : LoopGuard) : Type 0 where
  pub config : g.config ≡ h.config
  pub observations : g.observations ≡ h.observations

pub warn_once-SameWindow :
    (k : WarnKey) (d m : String) (g : LoopGuard) → SameWindow (warn_once k d m g) g
unfolding warn_once
warn_once-SameWindow k d m g = elim (Bool-cases (any (same_key k) g.warned)) [
  | inl e ↦ rw (e, warn_once) (record { config = refl; observations = refl })
  | inr e ↦ rw (e, warn_once) (record { config = refl; observations = refl })
]

SameWindow-trans : {f g h : LoopGuard} → SameWindow f g → SameWindow g h → SameWindow f h
SameWindow-trans p q = record {
  config = p.config ∙ q.config;
  observations = p.observations ∙ q.observations;
}

warn_repeat-SameWindow :
    (o : Observation) (n : ℕ) (g : LoopGuard) → SameWindow (warn_repeat o n g) g
unfolding warn_repeat
warn_repeat-SameWindow o n g = elim (Bool-cases (leb g.repeat_warn n)) [
  | inl e ↦ rw (e, warn_repeat) (warn_once-SameWindow _ _ _ g)
  | inr e ↦ rw (e, warn_repeat) (record { config = refl; observations = refl })
]

abbrev reaches : ℕ → List (Observation × ℕ) → Bool
reaches n = any (λ e. leb n e.1)

-- The loop on the counts denies if one reaches the threshold, and else falls through.
scan_repeats-Denies :
    (items : List (Observation × ℕ)) (g : LoopGuard) (n : ℕ)
    → g.circuit_breaker ≡ n
    → reaches n items ≡ true
    → (r : Result Decision) × ((scan_repeats items g).0 ≡ some r) × Denies r
unfolding scan_repeats
scan_repeats-Denies [] g n e h = cc
scan_repeats-Denies ((o, m) ∷ r) g n e h = elim (Bool-cases (leb g.circuit_breaker m)) [
  | inl q ↦ (deny_with (repeat_reason o m g.circuit_breaker), rw q, deny_with-Denies _)
  | inr q ↦
      let same = warn_repeat-SameWindow o m g in
      let later : reaches n r ≡ true = rw (ap (λ b. leb b m) (sym e) ∙ q) at h in
      let (d, is, refused) =
        scan_repeats-Denies r (warn_repeat o m g) n (ap (λ c. c.circuit_breaker) same.config ∙ e)
          later in
      (d, rw q is, refused)
]

scan_repeats-none :
    (items : List (Observation × ℕ)) (g : LoopGuard) (n : ℕ)
    → g.circuit_breaker ≡ n
    → reaches n items ≡ false
    → ((scan_repeats items g).0 ≡ none) × SameWindow (scan_repeats items g).1 g
unfolding scan_repeats
scan_repeats-none [] g n e h = (refl, record { config = refl; observations = refl })
scan_repeats-none ((o, m) ∷ r) g n e h = elim (Bool-cases (leb n m)) [
  | inl q ↦ cc (rw q at h)
  | inr q ↦
      let same = warn_repeat-SameWindow o m g in
      let low : leb g.circuit_breaker m ≡ false = ap (λ b. leb b m) e ∙ q in
      let (is, w) =
        scan_repeats-none r (warn_repeat o m g) n (ap (λ c. c.circuit_breaker) same.config ∙ e)
          (rw q at h) in
      (rw low is, rw low (SameWindow-trans w same))
]

two_or_more :
    (xs : List Observation)
    → 2 ≤ length xs
    → (p : Observation × Observation) × (sorted_pair xs ≡ some p)
two_or_more [] h = absurd (omega arith)
two_or_more (a ∷ []) h = absurd (omega arith)
two_or_more (a ∷ b ∷ r) h = (_, refl)

scan_oscillation-Denies :
    (n : ℕ) (g : LoopGuard)
    → 2 ≤ length g.observations
    → g.pingpong_break_cycles ≤ n
    → Denies (scan_oscillation n g).0
unfolding scan_oscillation
scan_oscillation-Denies n g b h =
    let (p, e) =
      two_or_more (last 2 g.observations) (omega (arith, length-last 2 g.observations)) in
    let refused : (scan_oscillation n g).0
        ≡ deny_with (oscillation_reason p.0 p.1 n g.pingpong_break_cycles) =
      rw (e, le→leb g.pingpong_break_cycles n h, scan_oscillation) in
    subst Denies (sym refused) (deny_with-Denies _)

scan_oscillation-allowed :
    (n : ℕ) (g : LoopGuard)
    → leb g.pingpong_break_cycles n ≡ false
    → (scan_oscillation n g).0 ≡ ok allowed
unfolding scan_oscillation
scan_oscillation-allowed n g h = elim (Option-cases (sorted_pair (last 2 g.observations))) [
  | inl e ↦ rw (e, scan_oscillation)
  | inr (p, e) ↦ elim (Bool-cases (leb g.pingpong_warn_cycles n)) [
    | inl q ↦ rw (e, h, q, scan_oscillation)
    | inr q ↦ rw (e, h, q, scan_oscillation)
  ]
]

scan-repeats_lem :
    (g : LoopGuard)
    → reaches g.circuit_breaker (sig_counts g.observations) ≡ true
    → Denies (scan g).0
unfolding scan after_repeats
scan-repeats_lem g h =
    let (d, is, refused) =
      scan_repeats-Denies (sig_counts g.observations) g g.circuit_breaker refl h in
    let same : (scan g).0 ≡ d = rw (is, after_repeats, scan) in subst Denies (sym same) refused

scan-oscillation_lem :
    (g : LoopGuard)
    → reaches g.circuit_breaker (sig_counts g.observations) ≡ false
    → (h : LoopGuard) × SameWindow h g
      × ((scan g).0 ≡ (scan_oscillation (cycles h.observations) h).0)
unfolding scan after_repeats
scan-oscillation_lem g h =
    let (is, same) = scan_repeats-none (sig_counts g.observations) g g.circuit_breaker refl h in
    ((scan_repeats (sig_counts g.observations) g).1, same, rw (is, after_repeats, scan))

break-Alternates : (n : ℕ) (xs : List Observation) → 1 ≤ n → n ≤ cycles xs → Alternates n xs
break-Alternates zero xs p h = absurd (omega arith)
break-Alternates (suc k) xs p h = cycles→Alternates xs k h

not-Stuck :
    (c : Config) (xs : List Observation)
    → IsValid c
    → reaches c.circuit_breaker (sig_counts xs) ≡ false
    → leb c.pingpong_break_cycles (cycles xs) ≡ false
    → ¬ Stuck c xs
not-Stuck c xs v r l (repeating o n) =
    let hit = occurs→reaches c.circuit_breaker xs o v.repeats n in cc
not-Stuck c xs v r l (alternating a) =
    let hit =
      le→leb c.pingpong_break_cycles (cycles xs) (Alternates→cycles xs c.pingpong_break_cycles a) in
    cc

-- the second detector, on the window that the first has let through
decides_second :
    (g h : LoopGuard)
    → IsValid g.config
    → SameWindow h g
    → reaches g.circuit_breaker (sig_counts g.observations) ≡ false
    → let r = (scan_oscillation (cycles h.observations) h).0 in
      (Stuck g.config g.observations × Denies r)
      ⊎ (¬ Stuck g.config g.observations × (r ≡ ok allowed))
decides_second g h v same e =
    let test : leb h.pingpong_break_cycles (cycles h.observations)
        ≡ leb g.pingpong_break_cycles (cycles g.observations) =
      λ i. leb (same.config i).pingpong_break_cycles (cycles (same.observations i)) in
    elim (Bool-cases (leb g.pingpong_break_cycles (cycles g.observations))) [
      | inr q ↦ inr (
        not-Stuck g.config g.observations v e q,
        scan_oscillation-allowed (cycles h.observations) h (test ∙ q),
      )
      | inl q ↦
          let enough = leb→le g.pingpong_break_cycles (cycles g.observations) q in
          let a = break-Alternates g.pingpong_break_cycles g.observations v.breaks enough in
          inl (
            alternating a,
            scan_oscillation-Denies (cycles h.observations) h
                (subst (λ (xs : List Observation). 2 ≤ length xs) (sym same.observations)
                  (omega
                    (arith, Alternates-length g.observations g.pingpong_break_cycles a, v.breaks)))
                (leb→le h.pingpong_break_cycles (cycles h.observations) (test ∙ q)),
          )
    ]

-- With the thresholds of an accepted configuration, the scan between two rounds denies, with a reason
-- of the guard's own, if a call occurs as often in the window as the circuit breaker says or if the
-- window ends in as many alternations of two calls as break a run; otherwise it allows.
pub scan-decides :
    (g : LoopGuard)
    → IsValid g.config
    → (Stuck g.config g.observations × Denies (scan g).0)
      ⊎ (¬ Stuck g.config g.observations × ((scan g).0 ≡ ok allowed))
scan-decides g v = elim (Bool-cases (reaches g.circuit_breaker (sig_counts g.observations))) [
  | inl e ↦
      let (o, n) = reaches→occurs g.circuit_breaker g.observations e in
      inl (repeating o n, scan-repeats_lem g e)
  | inr e ↦
      let (h, same, is) = scan-oscillation_lem g e in
      elim (decides_second g h v same e) [
        | inl x ↦ inl (x.0, subst Denies (sym is) x.1)
        | inr x ↦ inr (x.0, is ∙ x.1)
      ]
]
