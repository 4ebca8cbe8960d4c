-- ===== src/Prelude/Texts.antt =====
-- Membership in lists of texts.
use mathlib.Core.Path.{◌≡◌, refl, sym, ap, ◌∙◌}
use mathlib.Core.Bool.{false, Bool, true, not, ◌||◌}
use mathlib.Core.Logic.{◌≢◌, inl, inr}
use mathlib.Core.List.{List, [], ◌∷◌}
use native.Mathlib.Omega.{arith}
use Prim.Native.String.{String}
use text.Mathlib.TextEquality.{eq_iff}
use text.Mathlib.TextLemmas.{append-eq-nil_iff}
use text.Mathlib.TextPositions.{eq_refl}
use first_agent_dev.Prelude.Tests.{Bool-cases}
use first_agent_dev.Prelude.Lists.{all, filter}
use first_agent_dev.Prelude.Text.{str_eq, truthy, contains, concat}

pub all-filter {ℓ} : {A : Type ℓ} (p : A → Bool) (xs : List A) → all p (filter p xs) ≡ true
all-filter p [] = refl
all-filter p (x ∷ xs) = elim (Bool-cases (p x)) [
  | inl e ↦ rw (e, filter) (rw (e, all-filter p xs))
  | inr e ↦ rw (e, filter) (all-filter p xs)
]

pub contains-cons :
    (d y : String) (ys : List String) → contains d ys ≡ true → contains d (y ∷ ys) ≡ true
unfolding contains
contains-cons d y ys h = ground arith

pub contains-head : (d : String) (ys : List String) → contains d (d ∷ ys) ≡ true
unfolding contains
contains-head d ys = rw (eq_refl d)

pub contains-filter :
    (p : String → Bool) (d : String) (ys : List String)
    → contains d ys ≡ true
    → p d ≡ true
    → contains d (filter p ys) ≡ true
unfolding contains
contains-filter p d [] h q = h
contains-filter p d (y ∷ ys) h q = elim (Bool-cases (str_eq d y)) [
  | inl e ↦ let py : p y ≡ true = ap p (sym ((eq_iff d y).0 e)) ∙ q in rw (py, filter) (rw e)
  | inr e ↦
      let rest = contains-filter p d ys (rw e at h) q in
      elim (Bool-cases (p y)) [
        | inl py ↦ rw (py, filter) (rw (e, rest))
        | inr py ↦ rw (py, filter) rest
      ]
]

pub all-weaken {ℓ} :
    {A : Type ℓ} (p q : A → Bool) (xs : List A)
    → ((x : A) → p x ≡ true → q x ≡ true)
    → all p xs ≡ true
    → all q xs ≡ true
all-weaken p q [] f h = refl
all-weaken p q (x ∷ xs) f h = ground (arith, f x, all-weaken p q xs f)

pub all-contains_self : (xs : List String) → all (λ d. contains d xs) xs ≡ true
all-contains_self [] = refl
all-contains_self (x ∷ xs) = rw (contains-head x xs) (
    all-weaken (λ d. contains d xs) (λ d. contains d (x ∷ xs)) xs (λ d. contains-cons d x xs)
      (all-contains_self xs))

-- what a filter takes away passes the test, and what it leaves is there
pub all-or-filter :
    (f : String → Bool) (xs : List String)
    → all (λ d. f d || contains d (filter (λ x. not (f x)) xs)) xs ≡ true
all-or-filter f xs =
    all-weaken (λ d. contains d xs) (λ d. f d || contains d (filter (λ x. not (f x)) xs)) xs
      (λ d h. elim (Bool-cases (f d)) [
        | inl e ↦ rw e
        | inr e ↦ rw (e, contains-filter (λ x. not (f x)) d xs h (rw e))
      ])
      (all-contains_self xs)

-- A text with a nonempty beginning is not empty.
pub truthy-concat : (s : String) (r : List String) → s ≢ "" → truthy (concat (s ∷ r)) ≡ true
unfolding concat
truthy-concat s r n = elim (Bool-cases (str_eq (concat (s ∷ r)) "")) [
  | inr e ↦ rw e
  | inl e ↦ absurd (n (append-eq-nil_iff.0 ((eq_iff (concat (s ∷ r)) "").0 e)).0)
]

pub contains-nil : (d : String) → contains d [] ≡ false
unfolding contains
contains-nil d = refl
