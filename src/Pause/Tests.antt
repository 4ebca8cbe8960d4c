-- ===== src/Pause/Tests.antt =====
-- A clock that sleeping moves on, and an operator who resumes after a second.
use first_agent_dev.Prelude.{
  ℕ, ◌+◌, ◌≤◌, ◌≡◌, refl, true, Option, none, some, is_some, ltb, if◌then◌else◌, arith,
}
use first_agent_dev.Pause.Sentinels.{rate_limit, resumed, PauseBudget, Place}
use first_agent_dev.Pause.Wait.{turns, InTime, Waiting, wait_for_resume}
use first_agent_dev.Pause.Ends.{Ended, wait_for_resume-Ended, wait_for_resume-notices}

-- the rest of the world is the time
abbrev env : Waiting ℕ
env = record {
  clock = λ s. (s.rest, s);
  sleeper = λ i s. record s {
    rest = s.rest + i;
    resume = if ltb 1000 (s.rest + i) then some "go" else s.resume;
  };
}

abbrev time : Place ℕ → ℕ
time s = s.rest

reads : (s : Place ℕ) → ((env.clock s).0 ≡ time s) × (time s ≤ time (env.clock s).1)
reads s = (refl, omega arith)

sleeps : (i : ℕ) (s : Place ℕ) → time s + i ≤ time (env.sleeper i s)
sleeps i s = omega arith

abbrev paused : Place ℕ
paused = record { rate_limit_pause = some "0 http_429"; auth_pause = none; resume = none; rest = 0 }

abbrev budget : Option PauseBudget
budget = some (record { max_wait_ms = 5000; check_interval_ms = 600 })

wait_for_resume-Ended_example :
    Ended env time reads sleeps rate_limit 5000 (wait_for_resume env rate_limit budget paused)
wait_for_resume-Ended_example =
    wait_for_resume-Ended env time reads sleeps rate_limit budget paused (omega arith)

in_time : InTime env 5000 600 2 paused
unfolding InTime
in_time = (omega arith, (omega arith, tt))

there : is_some (turns env 600 2 paused).resume ≡ true
unfolding turns
there = refl

wait_for_resume-notices_example : (wait_for_resume env rate_limit budget paused).0 ≡ some resumed
wait_for_resume-notices_example =
    wait_for_resume-notices env time reads sleeps rate_limit budget paused 2 (omega arith) in_time
      there
