-- ===== src/Pause/Ends.antt =====
-- orchestration/pause.py: the wait ends, rightly, and a resume in time is noticed.
use mathlib.Core.Path.{subst}
use first_agent_dev.Prelude.{
  ℕ, zero, suc, ◌+◌, ◌≤◌, ◌<◌, ◌≡◌, refl, true, false, ◌⊎◌, inl, inr, Option, none, some, is_some,
  leb, Bool-cases, leb→le, leb_false→lt, arith,
}
use first_agent_dev.Pause.Sentinels.{
  PauseKind, rate_limit, auth, ResumeOutcome, resumed, timed_out, PauseBudget, Place, get_pause,
  clear,
}
use first_agent_dev.Pause.Wait.{
  turn, turns, InTime, Waiting, poll, polls, chosen_budget, wait_for_resume,
}

lt→leb_false : (a b : ℕ) → b < a → leb a b ≡ false
lt→leb_false a b h = ground arith

module _ {U : Type 0} (env : Waiting U) (time : Place U → ℕ)
    (reads : (s : Place U) → ((env.clock s).0 ≡ time s) × (time s ≤ time (env.clock s).1))
    (sleeps : (i : ℕ) (s : Place U) → time s + i ≤ time (env.sleeper i s)) where
  -- how a wait may end
  abbrev pub Ended : PauseKind → ℕ → Option ResumeOutcome × Place U → Type 0
  Ended kind deadline r =
      ((r.0 ≡ some resumed) × (r.1.resume ≡ none) × (get_pause kind r.1 ≡ none))
      ⊎ ((r.0 ≡ some timed_out) × (deadline ≤ time r.1))

  clear-Ended :
      (kind : PauseKind) (deadline : ℕ) (s : Place U)
      → Ended kind deadline (some resumed, clear kind s)
  clear-Ended rate_limit deadline s = inl (refl, refl, refl)
  clear-Ended auth deadline s = inl (refl, refl, refl)

  turn-later : (interval : ℕ) (s : Place U) → 1 ≤ interval → time s < time (turn env interval s)
  turn-later interval s h =
      let (_, after) = reads s in let slept = sleeps interval (env.clock s).1 in omega arith

  module _ (kind : PauseKind) (deadline interval : ℕ) (positive : 1 ≤ interval) where
    poll-Ended :
        (again : Place U → Option ResumeOutcome × Place U) (s : Place U)
        → (time s < deadline → Ended kind deadline (again (turn env interval s)))
        → Ended kind deadline (poll env kind deadline interval again s)
    unfolding poll
    poll-Ended again s go = elim (Bool-cases (is_some s.resume)) [
      | inl y ↦ rw (y, poll) (clear-Ended kind deadline s)
      | inr r ↦
          let (now, after) = reads s in
          elim (Bool-cases (leb deadline (env.clock s).0)) [
            | inl y ↦
                let late = leb→le deadline (env.clock s).0 y in
                rw (r, y, poll) (inr (refl, omega arith))
            | inr y ↦
                let early = leb_false→lt deadline (env.clock s).0 y in
                rw (r, y, poll) (go (omega arith))
          ]
    ]

    polls-Ended :
        (n : ℕ) (s : Place U)
        → deadline ≤ time s + n
        → Ended kind deadline (polls env kind deadline interval (suc n) s)
    unfolding polls
    polls-Ended zero s h =
        poll-Ended (polls env kind deadline interval zero) s (λ early. absurd (omega arith))
    polls-Ended (suc n) s h = poll-Ended (polls env kind deadline interval (suc n)) s (λ early.
        polls-Ended n (turn env interval s)
          (let later = turn-later interval s positive in omega arith))

    poll-resumed :
        (again : Place U → Option ResumeOutcome × Place U) (s : Place U)
        → (is_some s.resume ≡ true)
          ⊎ (((env.clock s).0 < deadline) × ((again (turn env interval s)).0 ≡ some resumed))
        → (poll env kind deadline interval again s).0 ≡ some resumed
    unfolding poll
    poll-resumed again s h = elim (Bool-cases (is_some s.resume)) [
      | inl y ↦ rw (y, poll) refl
      | inr r ↦ elim h [
        | inl y ↦ cc
        | inr (early, go) ↦
            let open_yet = lt→leb_false deadline (env.clock s).0 early in rw (r, open_yet, poll) go
      ]
    ]

    polls-resumed :
        (k n : ℕ) (s : Place U)
        → deadline ≤ time s + n
        → InTime env deadline interval k s
        → is_some (turns env interval k s).resume ≡ true
        → (polls env kind deadline interval (suc n) s).0 ≡ some resumed
    unfolding polls turns InTime
    polls-resumed zero n s h e r = poll-resumed (polls env kind deadline interval n) s (inl r)
    polls-resumed (suc k) zero s h (early, e) r = let (now, after) = reads s in absurd (omega arith)
    polls-resumed (suc k) (suc n) s h (early, e) r =
        poll-resumed (polls env kind deadline interval (suc n)) s (
          inr (
            early,
            polls-resumed k n (turn env interval s)
                (let later = turn-later interval s positive in omega arith) e r,
          ))

  -- With a clock that shows the time, a sleep that lasts, and an interval of at least a millisecond, the
  -- wait ends: with a resume, and then both sentinels are gone, or with a time-out, and then the whole
  -- budget has passed.
  pub wait_for_resume-Ended :
      (kind : PauseKind) (budget : Option PauseBudget) (s : Place U)
      → 1 ≤ (chosen_budget env kind budget).check_interval_ms
      → Ended kind
          (time s + (chosen_budget env kind budget).max_wait_ms)
          (wait_for_resume env kind budget s)
  unfolding wait_for_resume
  wait_for_resume-Ended kind budget s positive =
      let b = chosen_budget env kind budget in
      let (now, after) = reads s in
      let ended =
        polls-Ended kind ((env.clock s).0 + b.max_wait_ms) b.check_interval_ms positive
          b.max_wait_ms (env.clock s).1 (omega arith) in
      subst (λ t. Ended kind (t + b.max_wait_ms) (wait_for_resume env kind budget s)) now ended

  -- A resume sentinel that is there at some turn of the loop, before which the clock has not shown the
  -- end of the budget, is noticed: the wait ends with a resume.
  pub wait_for_resume-notices :
      (kind : PauseKind) (budget : Option PauseBudget) (s : Place U) (k : ℕ)
      → 1 ≤ (chosen_budget env kind budget).check_interval_ms
      → InTime env
          ((env.clock s).0 + (chosen_budget env kind budget).max_wait_ms)
          (chosen_budget env kind budget).check_interval_ms
          k
          (env.clock s).1
      → is_some
          (turns env (chosen_budget env kind budget).check_interval_ms k (env.clock s).1).resume
        ≡ true
      → (wait_for_resume env kind budget s).0 ≡ some resumed
  unfolding wait_for_resume
  wait_for_resume-notices kind budget s k positive e r =
      let b = chosen_budget env kind budget in
      let (now, after) = reads s in
      polls-resumed kind ((env.clock s).0 + b.max_wait_ms) b.check_interval_ms positive k
        b.max_wait_ms (env.clock s).1 (omega arith) e r
