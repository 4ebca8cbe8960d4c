-- ===== src/Recovery/Recent.antt =====
-- What the window holds after an attempt has been recorded.
use mathlib.Core.Path.{subst}
use first_agent_dev.Prelude.{
  ℕ, zero, suc, ◌+◌, ◌-◌, ◌≤◌, ◌≡◌, refl, sym, ap, ◌∙◌, Bool, true, some, inl, inr, List, [], ◌∷◌,
  ◌++◌, arith, Bool-cases, and_true, all, all-filter, length, length-append, length-last, drop,
  filter, eq_refl, ltb, le→leb, ltb_false→le,
}
use first_agent_dev.Recovery.Attempts.{
  AttemptHistoryEntry, AttemptHistory, recent, cap, prune, make_room, append, same_attempt,
  attempt_count,
}

all-drop {ℓ} :
    {A : Type ℓ} (p : A → Bool) (n : ℕ) (xs : List A) → all p xs ≡ true → all p (drop n xs) ≡ true
all-drop p zero xs h = h
all-drop p (suc n) [] h = h
all-drop p (suc n) (x ∷ xs) h = all-drop p n xs (and_true (p x) (all p xs) h).1

filter-append_last {ℓ} :
    {A : Type ℓ} (p : A → Bool) (xs : List A) (x : A)
    → p x ≡ true
    → filter p (xs ++ x ∷ []) ≡ filter p xs ++ x ∷ []
filter-append_last p [] x h = rw h
filter-append_last p (y ∷ xs) x h = elim (Bool-cases (p y)) [
  | inl e ↦ rw e (ap (λ r. y ∷ r) (filter-append_last p xs x h))
  | inr e ↦ rw e (filter-append_last p xs x h)
]

drop-append_last {ℓ} :
    {A : Type ℓ} (n : ℕ) (xs : List A) (x : A)
    → n ≤ length xs
    → drop n (xs ++ x ∷ []) ≡ drop n xs ++ x ∷ []
drop-append_last zero xs x h = refl
drop-append_last (suc n) [] x h = absurd (omega arith)
drop-append_last (suc n) (y ∷ xs) x h = drop-append_last n xs x (omega arith)

-- ends in x
abbrev pub EndsIn {ℓ} : {A : Type ℓ} → A → List A → Type ℓ
EndsIn {A = A} x xs = (before : List A) × (xs ≡ before ++ x ∷ [])

-- A window after the attempt e: within its cap, without old entries, and with e as the last of all,
-- so that e is counted; and the file has the same entries.
pub record Recorded (e : AttemptHistoryEntry) (h : AttemptHistory) : Type 0 where
  pub capped : length h.entries ≤ h.max_entries
  pub fresh : all (recent e.ts h.max_age) h.entries ≡ true
  pub newest : EndsIn e h.entries
  pub counted : 1 ≤ attempt_count e.tool_name e.params_hash h
  pub saved : h.file ≡ some h.entries

cap-length : (n : ℕ) (xs : List AttemptHistoryEntry) → 1 ≤ n → length (cap n xs) ≤ n
unfolding cap
cap-length zero xs h = absurd (omega arith)
cap-length (suc n) xs h = elim (Bool-cases (ltb (suc n) (length xs))) [
  | inl e ↦ rw (e, cap) (omega (arith, length-last (suc n) xs))
  | inr e ↦ rw (e, cap) (ltb_false→le (suc n) (length xs) e)
]

cap-fresh :
    (p : AttemptHistoryEntry → Bool) (n : ℕ) (xs : List AttemptHistoryEntry)
    → all p xs ≡ true
    → all p (cap n xs) ≡ true
unfolding cap
cap-fresh p zero xs h = elim (Bool-cases (ltb zero (length xs))) [
  | inl e ↦ rw (e, cap) h
  | inr e ↦ rw (e, cap) h
]
cap-fresh p (suc n) xs h = elim (Bool-cases (ltb (suc n) (length xs))) [
  | inl e ↦ rw (e, cap) (all-drop p (length xs - suc n) xs h)
  | inr e ↦ rw (e, cap) h
]

cap-EndsIn :
    (n : ℕ) (xs : List AttemptHistoryEntry) (e : AttemptHistoryEntry)
    → 1 ≤ n
    → EndsIn e (cap n (xs ++ e ∷ []))
unfolding cap
cap-EndsIn zero xs e h = absurd (omega arith)
cap-EndsIn (suc n) xs e h = elim (Bool-cases (ltb (suc n) (length (xs ++ e ∷ [])))) [
  | inl q ↦ (
    drop (length (xs ++ e ∷ []) - suc n) xs,
    rw (q, cap)
        (drop-append_last (length (xs ++ e ∷ []) - suc n) xs e
          (omega (arith, length-append xs (e ∷ [])))),
  )
  | inr q ↦ (xs, rw (q, cap))
]

count-EndsIn :
    (p : AttemptHistoryEntry → Bool) (e : AttemptHistoryEntry) (xs : List AttemptHistoryEntry)
    → p e ≡ true
    → EndsIn e xs
    → 1 ≤ length (filter p xs)
count-EndsIn p e xs h (before, is) =
    let counted : length (filter p xs) ≡ length (filter p before) + 1 =
      ap (λ r. length (filter p r)) is
      ∙ ap length (filter-append_last p before e h)
      ∙ length-append (filter p before) (e ∷ []) in
    omega (arith, counted)

-- With a cap of at least one, recording an attempt leaves a window within its cap, without an entry
-- older than the age limit, in which the attempt is the last entry and is counted; the file has the
-- entries of the window.
pub append-Recorded :
    (e : AttemptHistoryEntry) (h : AttemptHistory) → 1 ≤ h.max_entries → Recorded e (append e h)
unfolding append prune attempt_count
append-Recorded e h n =
    let old = make_room h.max_entries h.entries in
    let p = recent e.ts h.max_age in
    let p_e : p e ≡ true = le→leb e.ts (e.ts + h.max_age) (omega arith) in
    let ends : EndsIn e (prune e.ts h.max_entries h.max_age (old ++ e ∷ [])) =
      subst (λ xs. EndsIn e (cap h.max_entries xs)) (sym (filter-append_last p old e p_e))
        (cap-EndsIn h.max_entries (filter p old) e n) in
    record {
      capped = cap-length h.max_entries (filter p (old ++ e ∷ [])) n;
      fresh = cap-fresh p h.max_entries (filter p (old ++ e ∷ [])) (all-filter p (old ++ e ∷ []));
      newest = ends;
      counted =
          count-EndsIn (same_attempt e.tool_name e.params_hash) e
            (prune e.ts h.max_entries h.max_age (old ++ e ∷ []))
            (rw (eq_refl e.tool_name, eq_refl e.params_hash)) ends;
      saved = refl;
    }
