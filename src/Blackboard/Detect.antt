-- ===== src/Blackboard/Detect.antt =====
-- blackboard/blackboard.py: which entries a new one conflicts with.
use first_agent_dev.Prelude.{
  String, none, some, ◌++◌, Option-cases, ◌≡◌, refl, ap, ◌∙◌, Bool, true, false, not, ◌&&◌, ◌||◌,
  Option, List, [], ◌∷◌, any, filter, map, str_eq, if◌then◌else◌, Bool-cases, inl, inr, eq_iff,
  arith, if_split,
}
use first_agent_dev.Limits.Keys.{find_key}
use first_agent_dev.Session.Types.{add_all}
use first_agent_dev.Blackboard.Overlap.{share, nonempty-add_all, nonempty-common}
use first_agent_dev.Blackboard.Entries.{
  BlackboardEntry, Conflict, set_of, common, nonempty, should_check_conflict, is_same_writer,
  assumption_violated_by, is_told, and_more, conflict_between, is_skipped, detect_among,
  detect_conflict, first_text, base_violated, content_violated,
}

-- The base commit that an entry depends on, or an empty text.
abbrev pub base_of : BlackboardEntry → String
base_of e = base_text (find_key "base_commit" e.version_dependencies)
  where
    base_text : Option String → String
    base_text none = ""
    base_text (some base) = base

-- Both entries know the commit that they are based on, and it is not the same one.
abbrev pub rebased : BlackboardEntry → BlackboardEntry → Bool
rebased new old =
    not (str_eq (base_of new) "")
    && not (str_eq (base_of old) "")
    && not (str_eq (base_of new) (base_of old))

-- The run that made the old entry is known and is the one that makes the new entry.
abbrev pub own : String → BlackboardEntry → Bool
own writer old = str_eq writer old.run_id && not (str_eq old.run_id "")

-- The old entry is the one that the new one names as its parent.
abbrev pub succeeds : BlackboardEntry → BlackboardEntry → Bool
succeeds new old = elim new.parent_id [ none ↦ false | some parent ↦ str_eq parent old.id ]

-- The list starts with a text that is not empty.
abbrev pub starts_with_text : List String → Bool
starts_with_text [] = false
starts_with_text (x ∷ xs) = not (str_eq x "")

skipped : {b : Bool} (c : Bool) → b ≡ true → not b && c ≡ false
skipped {b} c h = ground arith

is_same_writer-own :
    (writer : String) (old : BlackboardEntry) → is_same_writer writer old ≡ own writer old
unfolding is_same_writer
is_same_writer-own writer old = elim (Bool-cases (str_eq writer old.run_id)) [
  | inl e ↦
      let same : str_eq writer "" ≡ str_eq old.run_id "" =
        ap (λ t. str_eq t "") ((eq_iff writer old.run_id).0 e) in
      ground (arith, same, e)
  | inr n ↦ ground (arith, n)
]

should_check_conflict-succeeds :
    (new old : BlackboardEntry) → should_check_conflict new old ≡ not (succeeds new old)
unfolding should_check_conflict
should_check_conflict-succeeds new old = elim (Option-cases new.parent_id) [
  | inl n ↦ rw (n, should_check_conflict) refl
  | inr (p, e) ↦ rw (e, should_check_conflict) refl
]

and_false : (b : Bool) → (b && false) ≡ false
and_false true = refl
and_false false = refl

and_true_right : (b : Bool) → (b && true) ≡ b
and_true_right true = refl
and_true_right false = refl

abbrev first_of : List String → Option String
first_of [] = none
first_of (x ∷ xs) = some x

module _ (includes : String → String → Bool) where
  first_text-never :
      (p : String → Bool) (xs : List String)
      → ((x : String) → p x ≡ false)
      → first_text includes p xs ≡ none
  unfolding first_text
  first_text-never p [] h = refl
  first_text-never p (x ∷ xs) h = rw (h x, first_text) (first_text-never p xs h)

  first_text-filter :
      (p q : String → Bool) (xs : List String)
      → ((x : String) → p x ≡ q x)
      → first_text includes p xs ≡ first_of (filter q xs)
  unfolding first_text
  first_text-filter p q [] h = refl
  first_text-filter p q (x ∷ xs) h = elim (Bool-cases (q x)) [
    | inl y ↦ rw (h x, y, first_text) refl
    | inr n ↦ rw (h x, n, first_text) (first_text-filter p q xs h)
  ]

module _ (includes : String → String → Bool) (show_set : List String → String) where
  -- The assumptions of the new entry that mention the old one's base commit, where the two differ in
  -- it, and then those that mention a file that the old one has written with another content.
  abbrev pub broken : BlackboardEntry → BlackboardEntry → List String
  broken new old =
      (if rebased new old
        then filter (λ a. includes (base_of old) a || includes "base_commit" a) new.assumptions
        else [])
      ++ (if str_eq old.content_hash new.content_hash
          then []
          else filter (λ a. any (λ f. includes f a) old.write_set) new.assumptions)

  base_violated-first :
      (new old : BlackboardEntry)
      → base_violated includes new old
        ≡ first_of (
            if rebased new old
            then filter (λ a. includes (base_of old) a || includes "base_commit" a) new.assumptions
            else [])
  unfolding base_violated
  base_violated-first new old =
      elim (Option-cases (find_key "base_commit" new.version_dependencies)) [
        | inl n ↦ rw (n, base_violated) refl
        | inr (b, e) ↦ elim (Option-cases (find_key "base_commit" old.version_dependencies)) [
          | inl n ↦ elim (Bool-cases (str_eq b "")) [
            | inl y ↦ rw (e, n, base_violated) (rw y refl)
            | inr y ↦ rw (e, n, base_violated) (rw y refl)
          ]
          | inr (a, k) ↦
              elim (Bool-cases (not (str_eq b "") && not (str_eq a "") && not (str_eq b a))) [
                | inl y ↦
                    rw (e, k, base_violated)
                      (rw y (first_text-filter includes _ _ new.assumptions (λ x. refl)))
                | inr y ↦ rw (e, k, base_violated) (rw y refl)
              ]
        ]
      ]

  content_violated-first :
      (new old : BlackboardEntry)
      → content_violated includes new old
        ≡ first_of (
            if str_eq old.content_hash new.content_hash
            then []
            else filter (λ a. any (λ f. includes f a) old.write_set) new.assumptions)
  unfolding content_violated
  content_violated-first new old = elim (Bool-cases (str_eq old.content_hash new.content_hash)) [
    | inl e ↦ rw e (first_text-never includes _ new.assumptions (λ a. and_false _))
    | inr n ↦ rw n (first_text-filter includes _ _ new.assumptions (λ a. and_true_right _))
  ]

  told-either :
      (a b : Option String) (xs ys : List String)
      → a ≡ first_of xs
      → b ≡ first_of ys
      → is_told includes show_set (elim a [ some x ↦ some x | none ↦ b ])
        ≡ starts_with_text (xs ++ ys)
  told-either a b [] [] p q = rw p (rw q refl)
  told-either a b [] (y ∷ ys) p q = rw p (rw q refl)
  told-either a b (x ∷ xs) ys p q = rw p refl

  told-broken :
      (new old : BlackboardEntry)
      → is_told includes show_set (assumption_violated_by includes new old)
        ≡ starts_with_text (broken new old)
  unfolding assumption_violated_by
  told-broken new old =
      told-either _ _ _ _ (base_violated-first new old) (content_violated-first new old)

  -- Two entries touch the same path in one of the three ways, or an assumption of the later one is
  -- broken by the earlier one. (The code reads the first broken one only, as none if it is empty.)
  unfoldable pub interferes : BlackboardEntry → BlackboardEntry → Bool
  interferes new old =
      share new.write_set old.write_set
      || share new.read_set old.write_set
      || share old.read_set new.write_set
      || starts_with_text (broken new old)

  -- An entry that another writer has made, of which the new one is not the successor, and with which
  -- it interferes.
  unfoldable pub clashes : String → BlackboardEntry → BlackboardEntry → Bool
  unfolding interferes
  clashes writer new old =
      not (str_eq old.id new.id)
      && not (own writer old)
      && not (succeeds new old)
      && interferes new old

  -- the ids of the entries that conflicts name
  abbrev pub named_by : List Conflict → List String
  named_by cs = map (λ (c : Conflict). c.conflicting_entry_id) cs

  overlap-share :
      (new old : BlackboardEntry)
      → nonempty (
          add_all (common (set_of old.read_set) (set_of new.write_set)) (
            add_all
              (common (set_of new.read_set) (set_of old.write_set))
              (common (set_of new.write_set) (set_of old.write_set))))
        ≡ share new.write_set old.write_set
          || share new.read_set old.write_set
          || share old.read_set new.write_set
  overlap-share new old =
      let ww = common (set_of new.write_set) (set_of old.write_set) in
      let rs = common (set_of new.read_set) (set_of old.write_set) in
      rw
        (
          nonempty-add_all (common (set_of old.read_set) (set_of new.write_set)) (add_all rs ww),
          nonempty-add_all rs ww,
          nonempty-common new.write_set old.write_set,
          nonempty-common new.read_set old.write_set,
          nonempty-common old.read_set new.write_set,
        )
        refl

  -- What a conflict between two entries adds to the result.
  conflict_between-named :
      (new old : BlackboardEntry) (rest : List Conflict)
      → named_by (and_more includes show_set (conflict_between includes show_set new old) rest)
        ≡ (if interferes new old then old.id ∷ named_by rest else named_by rest)
  unfolding conflict_between interferes
  conflict_between-named new old rest =
      rw (overlap-share new old, told-broken new old, conflict_between)
        (if_split
          (λ (c : Option Conflict).
            named_by (and_more includes show_set c rest)
            ≡ (if interferes new old then old.id ∷ named_by rest else named_by rest))
          (share new.write_set old.write_set
            || share new.read_set old.write_set
            || share old.read_set new.write_set
            || starts_with_text (broken new old))
          (λ y. rw y refl) (λ n. rw n refl))

  module _ (writer : String) (new : BlackboardEntry) where
    skipped-clashes :
        (old : BlackboardEntry)
        → clashes writer new old
          ≡ not (is_skipped includes show_set writer new old) && interferes new old
    unfolding clashes is_skipped
    skipped-clashes old =
        let own_run = is_same_writer-own writer old in
        let successor = should_check_conflict-succeeds new old in ground (arith, own_run, successor)

    detect_among-named :
        (entries : List BlackboardEntry)
        → named_by (detect_among includes show_set writer new entries)
          ≡ map (λ (e : BlackboardEntry). e.id) (filter (clashes writer new) entries)
    unfolding detect_among
    detect_among-named [] = refl
    detect_among-named (old ∷ r) =
        let rest = detect_among-named r in
        let skips = skipped-clashes old in
        elim (Bool-cases (is_skipped includes show_set writer new old)) [
          | inl y ↦
              let free : clashes writer new old ≡ false = skips ∙ skipped (interferes new old) y in
              rw (y, detect_among) (rw (free, filter) rest)
          | inr n ↦
              let named =
                conflict_between-named new old (detect_among includes show_set writer new r) in
              elim (Bool-cases (interferes new old)) [
                | inl i ↦
                    let clash : clashes writer new old ≡ true = rw (skips, n, i) refl in
                    rw (n, detect_among)
                      (rw (clash, filter) (named ∙ rw i (ap (λ ids. old.id ∷ ids) rest)))
                | inr i ↦
                    let free : clashes writer new old ≡ false = rw (skips, n, i) refl in
                    rw (n, detect_among) (rw (free, filter) (named ∙ rw i rest))
              ]
        ]

    -- The conflicts that a new entry has are, in order, with just those other entries of its type that a
    -- run made which is unknown or not the writer's, which it does not name as its parent, and that
    -- share a path with it in one of the three ways or break an assumption of it: one that mentions
    -- their base commit, where both know one and the two differ, or else one that mentions a file they
    -- have written with another content. Of the broken assumptions the first counts, if it is not empty.
    pub detect_conflict-named :
        (entries : List BlackboardEntry)
        → named_by (detect_conflict includes show_set writer new entries)
          ≡ map
              (λ (e : BlackboardEntry). e.id)
              (filter
                (clashes writer new)
                (filter (λ e. str_eq e.entry_type new.entry_type) entries))
    unfolding detect_conflict
    detect_conflict-named entries =
        detect_among-named (filter (λ e. str_eq e.entry_type new.entry_type) entries)
