-- ===== src/Blackboard/Entries.antt =====
-- blackboard/blackboard.py: entries, and when two of them conflict. A set is a list without
-- repetitions; `includes` (`part in text`) and the printing of a set are Python's.
use first_agent_dev.Prelude.{
  String, Bool, true, false, not, ◌&&◌, ◌||◌, Option, none, some, List, [], ◌∷◌, ◌++◌, any, filter,
  truthy, str_eq, concat, if◌then◌else◌,
}
use first_agent_dev.Limits.Keys.{find_key}
use first_agent_dev.Session.Types.{add_all}

-- `BlackboardEntry`, without the payload and the fields that detection does not read
pub record BlackboardEntry : Type 0 where
  pub id : String
  pub entry_type : String
  pub content_hash : String
  pub parent_id : Option String
  pub read_set : List String
  pub write_set : List String
  pub assumptions : List String
  pub version_dependencies : List (String × String)
  pub run_id : String

pub record Conflict : Type 0 where
  pub entry_id : String
  pub conflicting_entry_id : String
  pub reason : String
  pub read_write_overlap : List String
  pub assumption_violated : Option String

-- `set(xs)`, `a & b` and `bool(a)`
abbrev pub set_of : List String → List String
set_of xs = add_all xs []

abbrev pub is_among : List String → String → Bool
is_among xs x = any (str_eq x) xs

abbrev pub common : List String → List String → List String
common a b = filter (is_among b) a

abbrev pub nonempty {ℓ} : {A : Type ℓ} → List A → Bool
nonempty [] = false
nonempty (_ ∷ _) = true

unfoldable pub should_check_conflict : BlackboardEntry → BlackboardEntry → Bool
should_check_conflict new old = elim new.parent_id [
  | none ↦ true
  | some parent ↦ not (str_eq parent old.id)
]

unfoldable pub is_same_writer : String → BlackboardEntry → Bool
is_same_writer writer_run_id old =
    truthy writer_run_id && truthy old.run_id && str_eq writer_run_id old.run_id

module _ (includes : String → String → Bool) where
  -- the first text that passes a test
  unfoldable pub first_text : (String → Bool) → List String → Option String
  first_text p [] = none
  first_text p (x ∷ xs) = if p x then some x else first_text p xs

  -- `new_base and old_base and new_base != old_base`, with the old base
  abbrev diverging : Option String → Option String → Option String
  diverging none old = none
  diverging (some new_base) none = none
  diverging (some new_base) (some old_base) =
      if truthy new_base && truthy old_base && not (str_eq new_base old_base)
      then some old_base
      else none

  unfoldable pub base_violated : BlackboardEntry → BlackboardEntry → Option String
  unfolding find_key first_text
  base_violated new old =
      elim (diverging (find_key "base_commit" new.version_dependencies)
        (find_key "base_commit" old.version_dependencies)) [
          | none ↦ none
          | some old_base ↦
              first_text (λ a. includes old_base a || includes "base_commit" a) new.assumptions
        ]

  unfoldable pub content_violated : BlackboardEntry → BlackboardEntry → Option String
  unfolding first_text
  content_violated new old =
      first_text
        (λ a.
          any (λ f. includes f a) old.write_set && not (str_eq old.content_hash new.content_hash))
        new.assumptions

  unfoldable pub assumption_violated_by : BlackboardEntry → BlackboardEntry → Option String
  unfolding base_violated content_violated
  assumption_violated_by new old = elim (base_violated new old) [
    | some a ↦ some a
    | none ↦ content_violated new old
  ]

  module _ (show_set : List String → String) where
    -- `"; ".join(parts)` with the ending
    unfoldable pub join_parts : List String → String
    join_parts [] = ""
    join_parts (x ∷ []) = x
    join_parts (x ∷ y ∷ r) = concat (x ∷ "; " ∷ join_parts (y ∷ r) ∷ [])

    abbrev pub violated_text : Option String → List String
    violated_text none = []
    violated_text (some a) =
        if truthy a then concat ("assumption violated '" ∷ a ∷ "'" ∷ []) ∷ [] else []

    unfoldable pub build_conflict_reason :
        List String → List String → List String → Option String → String
    unfolding join_parts
    build_conflict_reason ww rw_set wr violated = concat (
        join_parts (
          (if nonempty ww then concat ("write/write overlap " ∷ show_set ww ∷ []) ∷ [] else [])
          ++ (if nonempty rw_set
              then concat ("read/write stale " ∷ show_set rw_set ∷ []) ∷ []
              else [])
          ++ (if nonempty wr then concat ("write/read invalidate " ∷ show_set wr ∷ []) ∷ [] else [])
          ++ violated_text violated)
        ∷ " — concurrent without coordination"
        ∷ [])

    -- `bool(text or None)`
    abbrev pub is_told : Option String → Bool
    is_told none = false
    is_told (some a) = truthy a

    -- the body of the loop, after the tests that skip an entry
    unfoldable pub conflict_between : BlackboardEntry → BlackboardEntry → Option Conflict
    unfolding assumption_violated_by build_conflict_reason
    conflict_between new old =
        let new_write = set_of new.write_set in
        let new_read = set_of new.read_set in
        let old_write = set_of old.write_set in
        let old_read = set_of old.read_set in
        let ww = common new_write old_write in
        let rw_set = common new_read old_write in
        let wr = common old_read new_write in
        let all_overlap = add_all wr (add_all rw_set ww) in
        let violated = assumption_violated_by new old in
        if nonempty all_overlap || is_told violated
        then some (record {
          entry_id = new.id;
          conflicting_entry_id = old.id;
          reason = build_conflict_reason ww rw_set wr violated;
          read_write_overlap = all_overlap;
          assumption_violated = violated;
        })
        else none

    -- the tests that skip an entry
    unfoldable pub is_skipped : String → BlackboardEntry → BlackboardEntry → Bool
    unfolding is_same_writer should_check_conflict
    is_skipped writer new old =
        str_eq old.id new.id || is_same_writer writer old || not (should_check_conflict new old)

    -- the loop of `detect_conflict` over the entries that the query has given
    abbrev pub and_more : Option Conflict → List Conflict → List Conflict
    and_more none r = r
    and_more (some c) r = c ∷ r

    unfoldable pub detect_among : String → BlackboardEntry → List BlackboardEntry → List Conflict
    unfolding is_skipped conflict_between
    detect_among writer new [] = []
    detect_among writer new (old ∷ r) =
        let rest = detect_among writer new r in
        if is_skipped writer new old then rest else and_more (conflict_between new old) rest

    -- `detect_conflict`, on the entries of the board; `query` gives those of the type
    unfoldable pub detect_conflict : String → BlackboardEntry → List BlackboardEntry → List Conflict
    unfolding detect_among
    detect_conflict writer new entries =
        detect_among writer new (filter (λ e. str_eq e.entry_type new.entry_type) entries)
