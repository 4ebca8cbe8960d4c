-- ===== src/Hooks/LoopGuard/Counts.antt =====
-- The dictionary `sig_counts` holds how often each call occurs.
use first_agent_dev.Prelude.{
  ℕ, suc, ◌+◌, ◌≤◌, ◌≡◌, ap, ◌∙◌, Bool, true, false, inl, inr, List, [], ◌∷◌, arith, Bool-cases,
  leb, le→leb, leb→le, any, if◌then◌else◌,
}
use first_agent_dev.Hooks.LoopGuard.Window.{
  Observation, same_call, add_count, counts_from, sig_counts,
}
use first_agent_dev.Hooks.LoopGuard.Calls.{same_call_refl, same_call→≡, occurrences}

-- `acc.get(o, 0)`
unfoldable count_of : Observation → List (Observation × ℕ) → ℕ
count_of o [] = 0
count_of o ((k, n) ∷ r) = if same_call k o then n else count_of o r

count_of-add_count_same :
    (o : Observation) (acc : List (Observation × ℕ))
    → count_of o (add_count o acc) ≡ suc (count_of o acc)
unfolding count_of add_count
count_of-add_count_same o [] = rw (same_call_refl o)
count_of-add_count_same o ((k, n) ∷ r) = elim (Bool-cases (same_call k o)) [
  | inl e ↦ rw e (rw e (omega arith))
  | inr e ↦ rw e (rw e (count_of-add_count_same o r))
]

count_of-add_count_other :
    (o p : Observation) (acc : List (Observation × ℕ))
    → same_call p o ≡ false
    → count_of o (add_count p acc) ≡ count_of o acc
unfolding count_of add_count
count_of-add_count_other o p [] h = rw h
count_of-add_count_other o p ((k, n) ∷ r) h = elim (Bool-cases (same_call k p)) [
  | inl e ↦
      let k_o : same_call k o ≡ false = ap (λ x. same_call x o) (same_call→≡ k p e) ∙ h in
      rw e (rw k_o)
  | inr e ↦ rw e (elim (Bool-cases (same_call k o)) [
    | inl q ↦ rw q
    | inr q ↦ rw q (count_of-add_count_other o p r h)
  ])
]

count_of-counts_from :
    (o : Observation) (acc : List (Observation × ℕ)) (xs : List Observation)
    → count_of o (counts_from acc xs) ≡ count_of o acc + occurrences o xs
unfolding counts_from occurrences
count_of-counts_from o acc [] = omega arith
count_of-counts_from o acc (x ∷ xs) =
    count_of-counts_from o (add_count x acc) xs ∙ elim (Bool-cases (same_call x o)) [
      | inl e ↦
          let same : count_of o (add_count x acc) ≡ suc (count_of o acc) =
            ap (λ y. count_of o (add_count y acc)) (same_call→≡ x o e)
            ∙ count_of-add_count_same o acc in
          rw (e, same) (omega arith)
      | inr e ↦ rw (e, count_of-add_count_other o x acc e)
    ]

-- some entry has at least n
abbrev reaches : ℕ → List (Observation × ℕ) → Bool
reaches n = any (λ e. leb n e.1)

reaches-count_of :
    (n : ℕ) (o : Observation) (acc : List (Observation × ℕ))
    → 1 ≤ n
    → n ≤ count_of o acc
    → reaches n acc ≡ true
unfolding count_of
reaches-count_of n o [] p h = absurd (omega arith)
reaches-count_of n o ((k, m) ∷ r) p h = elim (Bool-cases (same_call k o)) [
  | inl e ↦ rw (le→leb n m (rw e at h))
  | inr e ↦ let rest = reaches-count_of n o r p (rw e at h) in ground arith
]

-- no entry has more than `f` says
abbrev Bounded : (Observation → ℕ) → List (Observation × ℕ) → Type 0
Bounded f [] = Unit
Bounded f ((k, n) ∷ r) = (n ≤ f k) × Bounded f r

unfoldable seen : Observation → (Observation → ℕ) → Observation → ℕ
seen p f k = if same_call p k then suc (f k) else f k

Bounded-seen :
    (p : Observation) (f : Observation → ℕ) (acc : List (Observation × ℕ))
    → Bounded f acc
    → Bounded (seen p f) acc
unfolding seen
Bounded-seen p f [] b = tt
Bounded-seen p f ((k, n) ∷ r) b = (ground (arith, b.0), Bounded-seen p f r b.1)

Bounded-add_count :
    (p : Observation) (f : Observation → ℕ) (acc : List (Observation × ℕ))
    → Bounded f acc
    → Bounded (seen p f) (add_count p acc)
unfolding seen add_count
Bounded-add_count p f [] b = (rw (same_call_refl p) (omega arith), tt)
Bounded-add_count p f ((k, n) ∷ r) b = elim (Bool-cases (same_call k p)) [
  | inl e ↦
      let p_k : same_call p k ≡ true = ap (same_call p) (same_call→≡ k p e) ∙ same_call_refl p in
      rw e (rw p_k (omega (arith, b.0)), Bounded-seen p f r b.1)
  | inr e ↦ rw e (ground (arith, b.0), Bounded-add_count p f r b.1)
]

Bounded-counts_from :
    (f : Observation → ℕ) (acc : List (Observation × ℕ)) (xs : List Observation)
    → Bounded f acc
    → Bounded (λ k. f k + occurrences k xs) (counts_from acc xs)
unfolding counts_from occurrences seen
Bounded-counts_from f acc [] b = weaken acc b
  where
    weaken :
        (acc : List (Observation × ℕ)) → Bounded f acc → Bounded (λ k. f k + occurrences k []) acc
    weaken [] b = tt
    weaken ((k, n) ∷ r) b = (omega (arith, b.0), weaken r b.1)
Bounded-counts_from f acc (x ∷ xs) b =
    move (counts_from (add_count x acc) xs)
      (Bounded-counts_from (seen x f) (add_count x acc) xs (Bounded-add_count x f acc b))
  where
    move :
        (acc : List (Observation × ℕ))
        → Bounded (λ k. seen x f k + occurrences k xs) acc
        → Bounded (λ k. f k + occurrences k (x ∷ xs)) acc
    move [] b = tt
    move ((k, n) ∷ r) b = (ground (arith, b.0), move r b.1)

reaches-Bounded :
    (n : ℕ) (f : Observation → ℕ) (acc : List (Observation × ℕ))
    → Bounded f acc
    → reaches n acc ≡ true
    → (o : Observation) × (n ≤ f o)
reaches-Bounded n f [] b h = cc
reaches-Bounded n f ((k, m) ∷ r) b h = elim (Bool-cases (leb n m)) [
  | inl e ↦ (k, omega (arith, leb→le n m e, b.0))
  | inr e ↦ reaches-Bounded n f r b.1 (rw e at h)
]

-- An entry reaches n just when some call occurs n times.
pub reaches→occurs :
    (n : ℕ) (xs : List Observation)
    → any (λ e. leb n e.1) (sig_counts xs) ≡ true
    → (o : Observation) × (n ≤ occurrences o xs)
unfolding sig_counts
reaches→occurs n xs h =
    let bounds = Bounded-counts_from (λ k. 0) [] xs tt in
    let (o, le) = reaches-Bounded n (λ k. 0 + occurrences k xs) (sig_counts xs) bounds h in
    (o, omega (arith, le))

pub occurs→reaches :
    (n : ℕ) (xs : List Observation) (o : Observation)
    → 1 ≤ n
    → n ≤ occurrences o xs
    → any (λ e. leb n e.1) (sig_counts xs) ≡ true
unfolding sig_counts count_of
occurs→reaches n xs o p h =
    reaches-count_of n o (sig_counts xs) p (omega (arith, count_of-counts_from o [] xs))
