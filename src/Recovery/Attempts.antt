-- ===== src/Recovery/Attempts.antt =====
-- `AttemptHistory`. Times are in milliseconds, and the file holds the entries that it was last given.
use first_agent_dev.Prelude.{
  ℕ, zero, suc, ◌+◌, String, Bool, ◌&&◌, Option, some, List, [], ◌∷◌, ◌++◌, length, drop, last,
  filter, str_eq, leb, ltb, if◌then◌else◌,
}

pub record AttemptHistoryEntry : Type 0 where
  pub ts : ℕ
  pub tool_name : String
  pub params_hash : String
  pub error_code : String
  pub error_message : String
  pub recovery_action : String
  pub recovery_category : String

pub record AttemptHistory : Type 0 where
  pub max_entries : ℕ
  pub max_age : ℕ
  pub entries : List AttemptHistoryEntry
  pub file : Option (List AttemptHistoryEntry)

-- `xs[-n:]`, which is the whole list for 0
abbrev pub tail_slice {ℓ} : {A : Type ℓ} → ℕ → List A → List A
tail_slice zero xs = xs
tail_slice (suc n) xs = last (suc n) xs

-- `entry.ts >= now - max_age`, without the difference
abbrev pub recent : ℕ → ℕ → AttemptHistoryEntry → Bool
recent now max_age e = leb now (e.ts + max_age)

-- `_prune` on the entries
unfoldable pub cap : ℕ → List AttemptHistoryEntry → List AttemptHistoryEntry
cap max_entries xs = if ltb max_entries (length xs) then tail_slice max_entries xs else xs

unfoldable pub prune : ℕ → ℕ → ℕ → List AttemptHistoryEntry → List AttemptHistoryEntry
unfolding cap
prune now max_entries max_age xs = cap max_entries (filter (recent now max_age) xs)

-- `self.entries[-(self.max_entries - 1) :]`, where the cap is reached; for a cap of 0 that is
-- `self.entries[1:]`
abbrev pub all_but_one : ℕ → List AttemptHistoryEntry → List AttemptHistoryEntry
all_but_one zero xs = drop 1 xs
all_but_one (suc m) xs = tail_slice m xs

unfoldable pub make_room : ℕ → List AttemptHistoryEntry → List AttemptHistoryEntry
make_room max_entries xs = if leb max_entries (length xs) then all_but_one max_entries xs else xs

-- `append` of an entry whose time is `now`
unfoldable pub append : AttemptHistoryEntry → AttemptHistory → AttemptHistory
unfolding prune make_room
append e h =
    let entries =
      prune e.ts h.max_entries h.max_age (make_room h.max_entries h.entries ++ e ∷ []) in
    record h { entries = entries; file = some entries }

abbrev pub same_attempt : String → String → AttemptHistoryEntry → Bool
same_attempt tool_name params_hash e =
    str_eq e.tool_name tool_name && str_eq e.params_hash params_hash

unfoldable pub attempt_count : String → String → AttemptHistory → ℕ
attempt_count tool_name params_hash h =
    length (filter (same_attempt tool_name params_hash) h.entries)
