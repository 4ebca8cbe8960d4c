-- ===== src/Blackboard/Tests.antt =====
-- Two writers of one file, and a writer who comes back to it.
use first_agent_dev.Prelude.{String, ◌≡◌, refl, Bool, none, List, [], ◌∷◌, map, filter, str_eq}
use first_agent_dev.Limits.Keys.{find_key}
use first_agent_dev.Blackboard.Entries.{BlackboardEntry, detect_conflict}
use first_agent_dev.Blackboard.Detect.{clashes, named_by, detect_conflict-named}

abbrev includes : String → String → Bool
includes part whole = str_eq part whole

abbrev show_set : List String → String
show_set xs = ""

abbrev written : String → String → BlackboardEntry
written id writer = record {
  id = id;
  entry_type = "write_file";
  content_hash = id;
  parent_id = none;
  read_set = [];
  write_set = "a.py" ∷ [];
  assumptions = [];
  version_dependencies = [];
  run_id = writer;
}

abbrev board : List BlackboardEntry
board =
    written "1" "alice"
    ∷ written "2" "bob"
    ∷ record (written "3" "carol") { write_set = "b.py" ∷ [] }
    ∷ []

-- Only the entry of the other writer of the file is named.
bob_alone :
    map
      (λ (e : BlackboardEntry). e.id)
      (filter
        (clashes includes show_set "alice" (written "4" "alice"))
        (filter (λ e. str_eq e.entry_type "write_file") board))
    ≡ "2" ∷ []
unfolding clashes find_key
bob_alone = refl

detect_conflict-named_example :
    named_by includes show_set
      (detect_conflict includes show_set "alice" (written "4" "alice") board)
    ≡ map
        (λ (e : BlackboardEntry). e.id)
        (filter
          (clashes includes show_set "alice" (written "4" "alice"))
          (filter (λ e. str_eq e.entry_type "write_file") board))
detect_conflict-named_example =
    detect_conflict-named includes show_set "alice" (written "4" "alice") board
