-- ===== src/Blackboard/Overlap.antt =====
-- blackboard/blackboard.py: whether lists of paths, taken as sets, have one in common.
use first_agent_dev.Prelude.{
  String, ◌≡◌, refl, sym, ap, ◌∙◌, Bool, true, false, ◌||◌, List, [], ◌∷◌, any, filter, str_eq,
  Bool-cases, inl, inr, eq_iff, any-append, any-ext, arith,
}
use first_agent_dev.Session.Types.{add, add_all}
use first_agent_dev.Blackboard.Entries.{set_of, is_among, common, nonempty}

any-among :
    (p : String → Bool) (x : String) (xs : List String)
    → is_among xs x ≡ true
    → p x ≡ true
    → any p xs ≡ true
any-among p x [] h k = cc
any-among p x (y ∷ ys) h k = elim (Bool-cases (str_eq x y)) [
  | inl e ↦ let py : p y ≡ true = ap p (sym ((eq_iff x y).0 e)) ∙ k in rw py refl
  | inr e ↦ let rest : any p ys ≡ true = any-among p x ys (rw e at h) k in ground (arith, rest)
]

or_absorb : (a b : Bool) → (b ≡ true → a ≡ true) → a ≡ a || b
or_absorb true b h = refl
or_absorb false true h = h refl
or_absorb false false h = refl

any-add : (p : String → Bool) (x : String) (xs : List String) → any p (add x xs) ≡ any p xs || p x
any-add p x xs = elim (Bool-cases (is_among xs x)) [
  | inl y ↦ rw y (or_absorb (any p xs) (p x) (any-among p x xs y))
  | inr n ↦ rw n (let end = any-append p xs (x ∷ []) in ground (arith, end))
]

any-add_all :
    (p : String → Bool) (ys xs : List String) → any p (add_all ys xs) ≡ any p xs || any p ys
unfolding add_all
any-add_all p [] xs = ground arith
any-add_all p (y ∷ ys) xs =
    let rest = any-add_all p ys (add y xs) in
    let here = any-add p y xs in ground (arith, rest, here)

pub any-set_of : (p : String → Bool) (xs : List String) → any p (set_of xs) ≡ any p xs
any-set_of p xs = any-add_all p xs []

nonempty-any : (xs : List String) → nonempty xs ≡ any (λ x. true) xs
nonempty-any [] = refl
nonempty-any (x ∷ xs) = refl

nonempty-filter : (p : String → Bool) (xs : List String) → nonempty (filter p xs) ≡ any p xs
nonempty-filter p [] = refl
nonempty-filter p (x ∷ xs) = elim (Bool-cases (p x)) [
  | inl y ↦ rw (y, filter) refl
  | inr n ↦ rw (n, filter) (nonempty-filter p xs)
]

pub nonempty-add_all : (ys xs : List String) → nonempty (add_all ys xs) ≡ nonempty xs || nonempty ys
nonempty-add_all ys xs =
    rw (nonempty-any (add_all ys xs), nonempty-any xs, nonempty-any ys)
      (any-add_all (λ x. true) ys xs)

-- Whether two lists of paths have one in common.
abbrev pub share : List String → List String → Bool
share xs ys = any (is_among ys) xs

pub nonempty-common :
    (xs ys : List String) → nonempty (common (set_of xs) (set_of ys)) ≡ share xs ys
nonempty-common xs ys =
    nonempty-filter (is_among (set_of ys)) (set_of xs)
    ∙ any-set_of (is_among (set_of ys)) xs
    ∙ any-ext (is_among (set_of ys)) (is_among ys) xs (λ x. any-set_of (str_eq x) ys)
