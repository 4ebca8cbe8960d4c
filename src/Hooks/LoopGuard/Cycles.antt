-- ===== src/Hooks/LoopGuard/Cycles.antt =====
-- `cycles` is the length of the longest alternation that ends the window.
use mathlib.Core.Path.{subst}
use first_agent_dev.Prelude.{
  ℕ, zero, suc, ◌+◌, ◌-◌, ◌*◌, ◌/◌, ◌≤◌, ◌<◌, ◌≡◌, sym, ap, ◌∙◌, Bool, true, inl, inr, List, ◌++◌,
  arith, Bool-cases, length, last, drop-split, last-append, length-append, length-last, leb, leb→le,
  leb_false→lt,
}
use first_agent_dev.Hooks.LoopGuard.Window.{Observation, alternates, cycles_from, cycles}
use first_agent_dev.Hooks.LoopGuard.Alternation.{
  alternate, Alternates, length-alternate, alternates-alternate, alternates→alternate,
  Alternates-suc,
}

-- the test of round k
abbrev passes : List Observation → ℕ → Bool
passes sigs k = alternates (last (2 * k) sigs)

cycles_from-above : (sigs : List Observation) (n c : ℕ) → c ≤ cycles_from sigs n c
unfolding cycles_from
cycles_from-above sigs zero c = omega arith
cycles_from-above sigs (suc n) c = elim (Bool-cases (passes sigs (suc c))) [
  | inl e ↦ rw e (omega (arith, cycles_from-above sigs n (suc c)))
  | inr e ↦ rw e (omega arith)
]

cycles_from-passes :
    (sigs : List Observation) (n c k : ℕ)
    → c < k
    → k ≤ cycles_from sigs n c
    → (k ≤ c + n) × (passes sigs k ≡ true)
unfolding cycles_from
cycles_from-passes sigs zero c k p h = absurd (omega arith)
cycles_from-passes sigs (suc n) c k p h = elim (Bool-cases (passes sigs (suc c))) [
  | inr e ↦ let h1 = rw e at h in absurd (omega arith)
  | inl e ↦ elim (Bool-cases (leb k (suc c))) [
    | inl q ↦
        let same : suc c ≡ k = omega (arith, leb→le k (suc c) q) in
        (omega arith, ap (passes sigs) (sym same) ∙ e)
    | inr q ↦
        let (bound, ok) =
          cycles_from-passes sigs n (suc c) k (leb_false→lt k (suc c) q) (rw e at h) in
        (omega arith, ok)
  ]
]

passes-cycles_from :
    (sigs : List Observation) (n c k : ℕ)
    → k ≤ c + n
    → ((j : ℕ) → j < k → passes sigs (suc j) ≡ true)
    → k ≤ cycles_from sigs n c
unfolding cycles_from
passes-cycles_from sigs zero c k b h = omega arith
passes-cycles_from sigs (suc n) c k b h = elim (Bool-cases (leb k c)) [
  | inl q ↦ omega (arith, leb→le k c q, cycles_from-above sigs (suc n) c)
  | inr q ↦ rw (h c (leb_false→lt k c q)) (passes-cycles_from sigs n (suc c) k (omega arith) h)
]

passes→Alternates :
    (sigs : List Observation) (k : ℕ)
    → 2 * suc k ≤ length sigs
    → passes sigs (suc k) ≡ true
    → Alternates (suc k) sigs
passes→Alternates sigs k b h =
    let tail = last (2 * suc k) sigs in
    let (a, b, differ, shape) =
      alternates→alternate tail k (omega (arith, length-last (2 * suc k) sigs)) h in
    let (pre, split) = drop-split (length sigs - 2 * suc k) sigs in
    record {
      pre = pre;
      first = a;
      second = b;
      differ = differ;
      shape = split ∙ ap (λ t. pre ++ t) shape;
    }

Alternates→passes :
    (sigs : List Observation) (k : ℕ) → Alternates (suc k) sigs → passes sigs (suc k) ≡ true
Alternates→passes sigs k h =
    let end = alternate h.first h.second (suc k) in
    let tail : last (2 * suc k) sigs ≡ end =
      ap (last (2 * suc k)) h.shape
      ∙ last-append h.pre end (2 * suc k) (sym (length-alternate h.first h.second (suc k))) in
    ap alternates tail ∙ alternates-alternate h.first h.second k h.differ

pub Alternates-length : (sigs : List Observation) (k : ℕ) → Alternates k sigs → 2 * k ≤ length sigs
Alternates-length sigs k h =
    let total : length sigs ≡ length h.pre + length (alternate h.first h.second k) =
      ap length h.shape ∙ length-append h.pre (alternate h.first h.second k) in
    omega (arith, total, length-alternate h.first h.second k)

Alternates-down : (sigs : List Observation) (d j : ℕ) → Alternates (d + j) sigs → Alternates j sigs
Alternates-down sigs zero j h = subst (λ n. Alternates n sigs) (omega arith) h
Alternates-down sigs (suc d) j h =
    Alternates-down sigs d j
      (Alternates-suc (d + j) sigs (subst (λ n. Alternates n sigs) (omega arith) h))

pub cycles→Alternates :
    (sigs : List Observation) (k : ℕ) → suc k ≤ cycles sigs → Alternates (suc k) sigs
unfolding cycles
cycles→Alternates sigs k h =
    let (bound, ok) = cycles_from-passes sigs (length sigs / 2) 0 (suc k) (omega arith) h in
    passes→Alternates sigs k (omega arith) ok

pub Alternates→cycles : (sigs : List Observation) (k : ℕ) → Alternates k sigs → k ≤ cycles sigs
unfolding cycles
Alternates→cycles sigs k h =
    passes-cycles_from sigs (length sigs / 2) 0 k (omega (arith, Alternates-length sigs k h))
      (λ j p.
        Alternates→passes sigs j (
          Alternates-down sigs (k - suc j) (suc j)
            (subst (λ n. Alternates n sigs) (omega arith) h)))
