-- ===== src/Pause/Sentinels.antt =====
-- orchestration/pause.py: the files of the state directory, and the budgets. Times are milliseconds;
-- `clock` is `time.time`.
use first_agent_dev.Prelude.{
  ℕ, ◌/◌, String, Bool, Option, none, some, is_some, [], ◌∷◌, concat, show,
}

pub data PauseKind : Type 0 where
  rate_limit auth : PauseKind

pub data ResumeOutcome : Type 0 where
  resumed timed_out : ResumeOutcome

pub record PauseBudget : Type 0 where
  pub max_wait_ms : ℕ
  pub check_interval_ms : ℕ

unfoldable pub default_budget : PauseKind → PauseBudget
default_budget rate_limit = record { max_wait_ms = 7200000; check_interval_ms = 30000 }
default_budget auth = record { max_wait_ms = 86400000; check_interval_ms = 10000 }

-- The sentinels of a state directory, with their bodies, and the rest of the world, in which others may
-- write sentinels too. A file is replaced at once.
pub record Place (U : Type 0) : Type 0 where
  pub rate_limit_pause : Option String
  pub auth_pause : Option String
  pub resume : Option String
  pub rest : U

module _ {U : Type 0} where
  abbrev pub get_pause : PauseKind → Place U → Option String
  get_pause rate_limit s = s.rate_limit_pause
  get_pause auth s = s.auth_pause

  abbrev pub set_pause : PauseKind → Option String → Place U → Place U
  set_pause rate_limit body s = record s { rate_limit_pause = body }
  set_pause auth body s = record s { auth_pause = body }

  -- the two `unlink`s
  abbrev pub clear : PauseKind → Place U → Place U
  clear kind s = set_pause kind none (record s { resume = none })

  unfoldable pub is_paused : PauseKind → Place U → Bool
  is_paused kind s = is_some (get_pause kind s)

  module _ (clock : Place U → ℕ × Place U) where
    -- `f"{int(now())} {reason}\n"`
    unfoldable pub write_pause : PauseKind → String → Place U → Place U
    write_pause kind reason s =
        let (t, s') = clock s in
        set_pause kind (some (concat (show (t / 1000) ∷ " " ∷ reason ∷ "\n" ∷ []))) s'

    unfoldable pub write_resume : Place U → Place U
    write_resume s =
        let (t, s') = clock s in record s' { resume = some (concat (show (t / 1000) ∷ "\n" ∷ [])) }
