-- ===== src/Pause/Wait.antt =====
-- orchestration/pause.py: `wait_for_resume`.
use first_agent_dev.Prelude.{
  ℕ, zero, suc, ◌+◌, ◌<◌, Option, none, some, is_some, leb, if◌then◌else◌,
}
use first_agent_dev.Pause.Sentinels.{
  PauseKind, ResumeOutcome, resumed, timed_out, PauseBudget, default_budget, Place, clear,
}

-- `now` and `sleeper`; others may do what they like while the process sleeps.
pub record Waiting (U : Type 0) : Type 0 where
  pub clock : Place U → ℕ × Place U
  pub sleeper : ℕ → Place U → Place U

module _ {U : Type 0} (env : Waiting U) where
  module _ (kind : PauseKind) (deadline interval : ℕ) where
    -- the turn of the loop; `again` is the next one
    unfoldable pub poll :
        (Place U → Option ResumeOutcome × Place U) → Place U → Option ResumeOutcome × Place U
    poll again s =
        if is_some s.resume
        then (some resumed, clear kind s)
        else (let (t, s') = env.clock s in
            if leb deadline t then (some timed_out, s') else again (env.sleeper interval s'))

    -- the `while True`, on fuel: none when it has run out
    unfoldable pub polls : ℕ → Place U → Option ResumeOutcome × Place U
    unfolding poll
    polls zero s = (none, s)
    polls (suc n) s = poll (polls n) s

  -- `budget or _BUDGETS[kind]`
  abbrev pub chosen_budget : PauseKind → Option PauseBudget → PauseBudget
  chosen_budget kind none = default_budget kind
  chosen_budget kind (some b) = b

  -- One turn for each millisecond of the wait, and one more.
  unfoldable pub wait_for_resume :
      PauseKind → Option PauseBudget → Place U → Option ResumeOutcome × Place U
  unfolding polls default_budget
  wait_for_resume kind budget s =
      let b = chosen_budget kind budget in
      let (start, s') = env.clock s in
      polls kind (start + b.max_wait_ms) b.check_interval_ms (suc b.max_wait_ms) s'

  -- The state at the next turn of the loop, and at the turns after it.
  abbrev pub turn : ℕ → Place U → Place U
  turn interval s = env.sleeper interval (env.clock s).1

  unfoldable pub turns : ℕ → ℕ → Place U → Place U
  turns interval zero s = s
  turns interval (suc k) s = turns interval k (turn interval s)

  -- The clock shows a time before the deadline at the first turns.
  unfoldable pub InTime : ℕ → ℕ → ℕ → Place U → Type 0
  InTime deadline interval zero s = Unit {0}
  InTime deadline interval (suc k) s =
      ((env.clock s).0 < deadline) × InTime deadline interval k (turn interval s)
