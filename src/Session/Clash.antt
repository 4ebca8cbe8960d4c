-- ===== src/Session/Clash.antt =====
-- loop.py: the calls of a parallel batch, each beside each other, and none that must run alone.
use first_agent_dev.Prelude.{
  any-append, sym, str_eq, eq_iff, take, min, suc, ◌==◌, String, ◌≡◌, refl, ◌∙◌, Bool, true, false,
  not, ◌||◌, List, [], ◌∷◌, ◌++◌, length, all, leb, arith, any, Option, none, some, ◌&&◌,
  Bool-cases, Option-cases, and_true, all-weaken, inl, inr,
}
use first_agent_dev.Hooks.Types.{ToolCall}
use first_agent_dev.Session.Grouping.{may_run, classify_batches-AllMayRun}
use first_agent_dev.Session.Tools.{ToolRegistry}
use first_agent_dev.Session.Batches.{
  scope_of, collides, should_parallelize_tool_batch, paths_overlap, is_in, never_parallel_tools,
  same_texts, path_scoped_tools, classify_batches, extract_parallel_scope_path, disjoint_scopes,
}

-- A path, as a list of its parts, starts with another one.
unfoldable pub starts_with : List String → List String → Bool
starts_with [] ys = true
starts_with (x ∷ xs) [] = false
starts_with (x ∷ xs) (y ∷ ys) = str_eq x y && starts_with xs ys

-- Two paths that have parts, one of which starts with the other.
abbrev pub nested : List String → List String → Bool
nested [] ys = false
nested (x ∷ xs) [] = false
nested (x ∷ xs) (y ∷ ys) = starts_with (x ∷ xs) (y ∷ ys) || starts_with (y ∷ ys) (x ∷ xs)

str_eq_sym : (a b : String) → str_eq a b ≡ str_eq b a
str_eq_sym a b = elim (Bool-cases (str_eq a b)) [
  | inl e ↦ rw ((eq_iff a b).0 e) refl
  | inr n ↦ elim (Bool-cases (str_eq b a)) [
    | inl e ↦ rw ((eq_iff b a).0 e) refl
    | inr k ↦ n ∙ sym k
  ]
]

same_texts-starts_with :
    (xs ys : List String)
    → same_texts (take (min (length xs) (length ys)) xs) (take (min (length xs) (length ys)) ys)
      ≡ starts_with xs ys || starts_with ys xs
unfolding same_texts starts_with
same_texts-starts_with [] ys = let z : min 0 (length ys) ≡ 0 = omega arith in rw z refl
same_texts-starts_with (x ∷ xs) [] = let z : min (length (x ∷ xs)) 0 ≡ 0 = omega arith in rw z refl
same_texts-starts_with (x ∷ xs) (y ∷ ys) =
    let m : min (suc (length xs)) (suc (length ys)) ≡ suc (min (length xs) (length ys)) =
      omega arith in
    let rest = same_texts-starts_with xs ys in
    rw (m, str_eq_sym y x)
      (elim (Bool-cases (str_eq x y)) [ inl e ↦ rw e rest | inr n ↦ rw n refl ])

paths_overlap-nested : (xs ys : List String) → paths_overlap xs ys ≡ nested xs ys
unfolding paths_overlap
paths_overlap-nested [] ys = let z : min 0 (length ys) ≡ 0 = omega arith in rw z refl
paths_overlap-nested (x ∷ xs) [] = let z : min (length (x ∷ xs)) 0 ≡ 0 = omega arith in rw z refl
paths_overlap-nested (x ∷ xs) (y ∷ ys) =
    let some_parts : (min (suc (length xs)) (suc (length ys)) == 0) ≡ false = ground arith in
    rw some_parts (same_texts-starts_with (x ∷ xs) (y ∷ ys))

module _ (parts : String → List String) where
  -- A path of a later call of which neither is within that of an earlier one, nor the other way.
  unfoldable clear_scope : List String → Option (List String) → Bool
  clear_scope earlier none = true
  clear_scope earlier (some later) = not (nested later earlier)

  -- Two calls that are not both confined to paths, or neither of whose paths starts with the other.
  unfoldable pub apart : ToolCall → ToolCall → Bool
  unfolding clear_scope
  apart c d = elim (scope_of parts c) [
    | none ↦ true
    | some earlier ↦ clear_scope earlier (scope_of parts d)
  ]

  -- every call apart from every later one
  unfoldable pub pairwise_apart : List ToolCall → Bool
  pairwise_apart [] = true
  pairwise_apart (c ∷ cs) = all (apart c) cs && pairwise_apart cs

  clear_of : List (List String) → ToolCall → Bool
  clear_of reserved c = not (collides parts (scope_of parts c) reserved)

  not-collides-append :
      (scoped : List String) (reserved : List (List String)) (later : Option (List String))
      → not (collides parts later (reserved ++ scoped ∷ [])) ≡ true
      → (not (collides parts later reserved) ≡ true) × (clear_scope scoped later ≡ true)
  unfolding collides clear_scope
  not-collides-append scoped reserved none h = (refl, refl)
  not-collides-append scoped reserved (some l) h =
      let same = paths_overlap-nested l scoped in
      ground (arith, any-append (paths_overlap l) reserved (scoped ∷ []), same)

  all-apart-unscoped :
      (c : ToolCall) (cs : List ToolCall) → scope_of parts c ≡ none → all (apart c) cs ≡ true
  unfolding apart
  all-apart-unscoped c [] e = refl
  all-apart-unscoped c (d ∷ ds) e = rw (e, apart) (all-apart-unscoped c ds e)

  clear_of-unscoped :
      (reserved : List (List String)) (c : ToolCall)
      → scope_of parts c ≡ none
      → clear_of reserved c ≡ true
  unfolding clear_of collides
  clear_of-unscoped reserved c e = rw e

  clear_of-scoped :
      (reserved : List (List String)) (c : ToolCall) (scoped : List String)
      → scope_of parts c ≡ some scoped
      → not (any (paths_overlap scoped) reserved) ≡ true
      → clear_of reserved c ≡ true
  unfolding clear_of collides
  clear_of-scoped reserved c scoped e h = rw e h

  scope_of-path :
      (c : ToolCall)
      → is_in c.name path_scoped_tools ≡ true
      → scope_of parts c ≡ extract_parallel_scope_path parts c
  unfolding scope_of
  scope_of-path c h = rw (h, scope_of)

  scope_of-other : (c : ToolCall) → is_in c.name path_scoped_tools ≡ false → scope_of parts c ≡ none
  unfolding scope_of
  scope_of-other c h = rw (h, scope_of)

  clear_of-append :
      (reserved : List (List String)) (scoped : List String) (c d : ToolCall)
      → scope_of parts c ≡ some scoped
      → clear_of (reserved ++ scoped ∷ []) d ≡ true
      → (clear_of reserved d ≡ true) × (apart c d ≡ true)
  unfolding clear_of apart
  clear_of-append reserved scoped c d e h =
      let (x, y) = not-collides-append scoped reserved (scope_of parts d) h in (x, rw (e, apart) y)

  module _ {W : Type 0} (tools : ToolRegistry W) where
    disjoint_scopes-apart :
        (cs : List ToolCall) (reserved : List (List String))
        → disjoint_scopes parts tools cs reserved ≡ true
        → (all (clear_of reserved) cs ≡ true) × (pairwise_apart cs ≡ true)
    unfolding disjoint_scopes pairwise_apart
    disjoint_scopes-apart [] reserved h = (refl, refl)
    disjoint_scopes-apart (c ∷ cs) reserved h = elim (Bool-cases (is_in c.name path_scoped_tools)) [
      | inr n ↦
          let e = scope_of-other c n in
          let (_, later) = and_true _ _ (rw (n, disjoint_scopes) at h) in
          let (clear, pairs) = disjoint_scopes-apart cs reserved later in
          (rw (clear_of-unscoped reserved c e, clear), rw (all-apart-unscoped c cs e, pairs))
      | inl y ↦ elim (Option-cases (extract_parallel_scope_path parts c)) [
        | inl e ↦ cc (rw (y, e, disjoint_scopes) at h)
        | inr (scoped, e) ↦
            let s : scope_of parts c ≡ some scoped = scope_of-path c y ∙ e in
            let (now, later) = and_true _ _ (rw (y, e, disjoint_scopes) at h) in
            let (clear, pairs) = disjoint_scopes-apart cs (reserved ++ scoped ∷ []) later in
            let both = clear_of-append reserved scoped c in
            let rest : all (clear_of reserved) cs ≡ true =
              all-weaken _ _ cs (λ d k. (both d s k).0) clear in
            let beside : all (apart c) cs ≡ true =
              all-weaken _ _ cs (λ d k. (both d s k).1) clear in
            (rw (clear_of-scoped reserved c scoped s now, rest), rw (beside, pairs))
      ]
    ]

    all-not-any {ℓ} :
        {A : Type ℓ} (p : A → Bool) (xs : List A)
        → any p xs ≡ false
        → all (λ x. not (p x)) xs ≡ true
    all-not-any p [] h = refl
    all-not-any p (x ∷ xs) h = ground (arith, all-not-any p xs)

    -- a batch that may run in parallel
    should_parallelize_tool_batch-apart :
        (calls : List ToolCall)
        → should_parallelize_tool_batch parts tools calls ≡ true
        → (all (λ c. not (is_in c.name never_parallel_tools)) calls ≡ true)
          × (pairwise_apart calls ≡ true)
    unfolding should_parallelize_tool_batch
    should_parallelize_tool_batch-apart calls h = elim (Bool-cases (leb (length calls) 1)) [
      | inl y ↦ cc (rw (y, should_parallelize_tool_batch) at h)
      | inr n ↦ elim (Bool-cases (any (λ c. is_in c.name never_parallel_tools) calls)) [
        | inl y ↦ cc (rw (n, y, should_parallelize_tool_batch) at h)
        | inr k ↦ (
          all-not-any _ calls k,
          (disjoint_scopes-apart calls [] (rw (n, k, should_parallelize_tool_batch) at h)).1,
        )
      ]
    ]

    -- a batch of one call, or of calls that do not stand in each other's way
    unfoldable pub harmless : List ToolCall → Bool
    harmless b =
        leb (length b) 1
        || (all (λ c. not (is_in c.name never_parallel_tools)) b && pairwise_apart b)

    harmless-may_run : (b : List ToolCall) → may_run parts tools b ≡ true → harmless b ≡ true
    unfolding harmless
    harmless-may_run b h = elim (Bool-cases (leb (length b) 1)) [
      | inl y ↦ rw y
      | inr n ↦ let (x, y) = should_parallelize_tool_batch-apart b (rw n at h) in rw (n, x, y)
    ]

    -- Each batch of a round is one call, or calls none of which is of a tool that must run alone, and
    -- of no two of which the paths that they are confined to have parts of which the ones start with the
    -- others. The comparison is of the paths as they are written, part by part: `..` is not resolved,
    -- and the path `.`, which has no parts, is not nested with any.
    pub classify_batches-harmless :
        (calls : List ToolCall) → all harmless (classify_batches parts tools calls) ≡ true
    classify_batches-harmless calls =
        all-weaken (may_run parts tools) harmless (classify_batches parts tools calls)
          harmless-may_run (classify_batches-AllMayRun parts tools calls)
