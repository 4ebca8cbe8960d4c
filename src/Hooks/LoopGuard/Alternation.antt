-- ===== src/Hooks/LoopGuard/Alternation.antt =====
-- Alternations of two calls, and the test that the detector makes for them.
use mathlib.Core.List.{append_assoc}
use first_agent_dev.Prelude.{
  ℕ, zero, suc, ◌*◌, ◌≡◌, ◌≢◌, refl, sym, ap, ◌∙◌, true, ◌&&◌, inl, inr, List, [], ◌∷◌, ◌++◌, arith,
  Bool-cases, and_true, length, ◌==◌, if◌then◌else◌,
}
use first_agent_dev.Hooks.LoopGuard.Window.{
  Observation, same_call, member, distinct, has_period_two, alternates,
}
use first_agent_dev.Hooks.LoopGuard.Calls.{
  same_call_refl, same_call→≡, same_call_false→≢, ≢→same_call,
}

-- a, b, a, b, …
unfoldable pub alternate : Observation → Observation → ℕ → List Observation
alternate a b zero = []
alternate a b (suc k) = a ∷ b ∷ alternate a b k

-- k rounds of two different calls at the end of a window
pub record Alternates (k : ℕ) (xs : List Observation) : Type 0 where
  pub pre : List Observation
  pub first : Observation
  pub second : Observation
  pub differ : first ≢ second
  pub shape : xs ≡ pre ++ alternate first second k

pub length-alternate : (a b : Observation) (k : ℕ) → length (alternate a b k) ≡ 2 * k
unfolding alternate
length-alternate a b zero = omega arith
length-alternate a b (suc k) = omega (arith, length-alternate a b k)

has_period_two→alternate :
    (k : ℕ) (a b : Observation) (r : List Observation)
    → length r ≡ 2 * k
    → has_period_two (a ∷ b ∷ r) ≡ true
    → r ≡ alternate a b k
unfolding has_period_two alternate
has_period_two→alternate zero a b [] e h = refl
has_period_two→alternate zero a b (c ∷ r) e h = absurd (omega arith)
has_period_two→alternate (suc k) a b [] e h = absurd (omega arith)
has_period_two→alternate (suc k) a b (c ∷ []) e h = absurd (omega arith)
has_period_two→alternate (suc k) a b (c ∷ d ∷ r) e h =
    let (c_a, h1) = and_true (same_call c a) (same_call d b && has_period_two (c ∷ d ∷ r)) h in
    let (d_b, h2) = and_true (same_call d b) (has_period_two (c ∷ d ∷ r)) h1 in
    let first = same_call→≡ c a c_a in
    let second = same_call→≡ d b d_b in
    let rest = has_period_two→alternate k c d r (omega arith) h2 in
    ap (λ r. c ∷ d ∷ r) rest ∙ (λ i. first i ∷ second i ∷ alternate (first i) (second i) k)

distinct-alternate :
    (a b : Observation) (k : ℕ)
    → distinct (alternate a b (suc k)) ≡ (if same_call a b then 1 else 2)
unfolding distinct member alternate
distinct-alternate a b zero = elim (Bool-cases (same_call a b)) [ inl e ↦ rw e | inr e ↦ rw e ]
distinct-alternate a b (suc k) =
    let rest = distinct-alternate a b k in
    let a_a = same_call_refl a in
    let b_b = same_call_refl b in
    elim (Bool-cases (same_call a b)) [
      | inl e ↦ elim (Bool-cases (same_call b a)) [
        | inl q ↦ rw (e, q) (rw e at rest)
        | inr q ↦ rw (e, q, b_b) (rw e at rest)
      ]
      | inr e ↦ elim (Bool-cases (same_call b a)) [
        | inl q ↦ rw (e, q, a_a) (rw e at rest)
        | inr q ↦ rw (e, q, a_a, b_b) (rw e at rest)
      ]
    ]

has_period_two-alternate :
    (a b : Observation) (k : ℕ) → has_period_two (alternate a b (suc k)) ≡ true
unfolding has_period_two alternate
has_period_two-alternate a b zero = refl
has_period_two-alternate a b (suc k) =
    rw (same_call_refl a, same_call_refl b) (has_period_two-alternate a b k)

pub alternates-alternate :
    (a b : Observation) (k : ℕ) → a ≢ b → alternates (alternate a b (suc k)) ≡ true
unfolding alternates
alternates-alternate a b k n =
    rw (distinct-alternate a b k, ≢→same_call a b n, has_period_two-alternate a b k)

pub alternates→alternate :
    (t : List Observation) (k : ℕ)
    → length t ≡ 2 * suc k
    → alternates t ≡ true
    → (a b : Observation) × (a ≢ b) × (t ≡ alternate a b (suc k))
unfolding alternates alternate
alternates→alternate [] k e h = absurd (omega arith)
alternates→alternate (a ∷ []) k e h = absurd (omega arith)
alternates→alternate (a ∷ b ∷ r) k e h =
    let (two, period) = and_true (distinct (a ∷ b ∷ r) == 2) (has_period_two (a ∷ b ∷ r)) h in
    let shape : a ∷ b ∷ r ≡ alternate a b (suc k) =
      ap (λ r. a ∷ b ∷ r) (has_period_two→alternate k a b r (omega arith) period) in
    let counted : ((if same_call a b then 1 else 2) == 2) ≡ true =
      ap (λ n. n == 2) (sym (ap distinct shape ∙ distinct-alternate a b k)) ∙ two in
    (
      a,
      b,
      elim (Bool-cases (same_call a b)) [
        | inr q ↦ same_call_false→≢ a b q
        | inl q ↦ absurd (cc (rw q at counted))
      ],
      shape,
    )

-- A longer alternation ends in a shorter one.
pub Alternates-suc : (k : ℕ) (xs : List Observation) → Alternates (suc k) xs → Alternates k xs
unfolding alternate
Alternates-suc k xs h = record {
  pre = h.pre ++ h.first ∷ h.second ∷ [];
  first = h.first;
  second = h.second;
  differ = h.differ;
  shape =
      h.shape ∙ sym (append_assoc h.pre (h.first ∷ h.second ∷ []) (alternate h.first h.second k));
}
