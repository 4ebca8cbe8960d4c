-- ===== src/Providers/Outcomes.antt =====
-- What a request through the chain reports.
use first_agent_dev.Prelude.{
  ℕ, suc, ◌+◌, ◌≤◌, String, ◌≡◌, ◌≢◌, refl, none, inl, inr, List, [], ◌∷◌, ◌++◌, arith, length,
  length-append, Bool-cases, Option-cases,
}
use first_agent_dev.Providers.Messages.{RequestInfo, Checked, valid, violating}
use first_agent_dev.Providers.Chain.{
  ChainEntry, ChainConfig, ChainAttemptRecord, Sampling, Reply, response, request_shape,
  auth_failed, transient, other_failure, Env, State, Answer, answered, exhausted, rejected, crashed,
  Turn, skipped, won, lost, stopped, cooling, get_row, key_of, on_reply, on_checked, try_entry,
  next_turn, try_chain, request_chain,
}

abbrev pub Failed : ChainAttemptRecord → Type 0
Failed a = a.error ≢ none

abbrev pub AllFailed : List ChainAttemptRecord → Type 0
AllFailed [] = Unit
AllFailed (a ∷ r) = Failed a × AllFailed r

-- The report of an answer over a chain of n entries. A response is that of the last attempt, and all
-- the attempts before it failed; a chain that is exhausted has no attempt that did not fail.
abbrev pub Reports : {R : Type 0} → ℕ → Answer R → Type 0
Reports n (answered r id attempts) =
    (before : List ChainAttemptRecord) × (last : ChainAttemptRecord) × (attempts
      ≡ before ++ last ∷ [])
    × AllFailed before
    × (last.status ≡ 200)
    × (last.error ≡ none)
    × (length attempts ≤ n)
Reports n (exhausted attempts id) = AllFailed attempts × (length attempts ≤ n)
Reports n (rejected status id provider) = Unit
Reports n (crashed text) = Unit

-- the answer of a request that stops in the middle of the chain
abbrev IsStop : {R : Type 0} → Answer R → Type 0
IsStop (answered r id attempts) = ⊥
IsStop (exhausted attempts id) = ⊥
IsStop (rejected status id provider) = Unit
IsStop (crashed text) = Unit

abbrev Turns : {R : Type 0} → Turn R → Type 0
Turns skipped = Unit
Turns (won r a) = (a.status ≡ 200) × (a.error ≡ none)
Turns (lost a) = Failed a
Turns (stopped answer) = IsStop answer

AllFailed-append :
    (xs : List ChainAttemptRecord) (a : ChainAttemptRecord)
    → AllFailed xs
    → Failed a
    → AllFailed (xs ++ a ∷ [])
AllFailed-append [] a h f = (f, tt)
AllFailed-append (x ∷ xs) a h f = (h.0, AllFailed-append xs a h.1 f)

IsStop-Reports : {R : Type 0} (n : ℕ) (a : Answer R) → IsStop a → Reports n a
IsStop-Reports n (answered r id attempts) h = absurd h
IsStop-Reports n (exhausted attempts id) h = absurd h
IsStop-Reports n (rejected status id provider) h = tt
IsStop-Reports n (crashed text) h = tt

module _ {F R W : Type 0} (env : Env F R W) (id : String) where
  on_reply-Turns :
      (e : ChainEntry) (start : ℕ) (r : Reply R) (s : State F W)
      → Turns (on_reply env id e start r s).0
  unfolding on_reply
  on_reply-Turns e start (response r) s = (refl, refl)
  on_reply-Turns e start (request_shape status) s = tt
  on_reply-Turns e start (auth_failed status) s = λ h. cc
  on_reply-Turns e start (transient status kind retry_after) s = λ h. cc
  on_reply-Turns e start (other_failure text) s = tt

  on_checked-Turns :
      (e : ChainEntry) (start : ℕ) (c : Checked F) (s : State F W)
      → Turns (on_checked env id e start c s).0
  unfolding on_checked
  on_checked-Turns e start (valid r) s = on_reply-Turns e start _ _
  on_checked-Turns e start (violating v vs) s = tt

  module _ (sampling : Sampling F) (request : RequestInfo F) where
    try_entry-Turns :
        (e : ChainEntry) (s : State F W) → Turns (try_entry env id sampling request e s).0
    unfolding try_entry
    try_entry-Turns e s =
        elim (Bool-cases (cooling (get_row (key_of e) s.cooldowns) (env.clock s.world).0)) [
          | inl q ↦ rw (q, try_entry) tt
          | inr q ↦ elim (Option-cases (env.rules_of e.provider)) [
            | inl n ↦ rw (q, n, try_entry) tt
            | inr (rules, y) ↦ rw (q, y, try_entry) (on_checked-Turns e _ _ _)
          ]
        ]

    next_turn-Reports :
        (onward : List ChainAttemptRecord → State F W → Answer R × State F W) (n m : ℕ)
        → ((attempts : List ChainAttemptRecord) (s : State F W)
            → AllFailed attempts
            → length attempts + m ≤ n
            → Reports n (onward attempts s).0)
        → (attempts : List ChainAttemptRecord) (t : Turn R) (s : State F W) → Turns t
        → AllFailed attempts
        → length attempts + suc m ≤ n
        → Reports n (next_turn env id onward attempts t s).0
    unfolding next_turn
    next_turn-Reports onward n m go attempts skipped s h f b = go attempts s f (omega arith)
    next_turn-Reports onward n m go attempts (won r a) s h f b =
        (attempts, a, refl, f, h.0, h.1, omega (arith, length-append attempts (a ∷ [])))
    next_turn-Reports onward n m go attempts (lost a) s h f b =
        go (attempts ++ a ∷ []) s (AllFailed-append attempts a f h)
          (omega (arith, length-append attempts (a ∷ [])))
    next_turn-Reports onward n m go attempts (stopped answer) s h f b = IsStop-Reports n answer h

    try_chain-Reports :
        (n : ℕ) (es : List ChainEntry) (attempts : List ChainAttemptRecord) (s : State F W)
        → AllFailed attempts
        → length attempts + length es ≤ n
        → Reports n (try_chain env id sampling request es attempts s).0
    unfolding try_chain
    try_chain-Reports n [] attempts s f b = (f, omega arith)
    try_chain-Reports n (e ∷ es) attempts s f b =
        next_turn-Reports (try_chain env id sampling request es) n (length es)
          (λ attempts s. try_chain-Reports n es attempts s) attempts _ _ (try_entry-Turns e s) f b

  -- A response of `request` is reported as the last attempt, with status 200 and no error, after
  -- attempts that all failed; where the chain is exhausted every attempt failed; and no answer has
  -- more attempts than the chain has entries.
  pub request_chain-Reports :
      (config : ChainConfig F) (request : RequestInfo F) (s : State F W)
      → Reports (length config.chain) (request_chain env id config request s).0
  unfolding request_chain
  request_chain-Reports config request s =
      try_chain-Reports config.sampling request (length config.chain) config.chain [] s tt
        (omega arith)
