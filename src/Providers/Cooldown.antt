-- ===== src/Providers/Cooldown.antt =====
-- The cooldown ledger, which all roles share.
use first_agent_dev.Prelude.{
  ℕ, ◌+◌, ◌*◌, ◌<◌, max, ◌≡◌, refl, ap, ◌∙◌, String, true, false, Option, none, some, ◌⊎◌, inl, inr,
  List, [], ◌∷◌, ◌++◌, arith, Bool-cases, Option-cases, and_true, str_eq, eq_iff, eq_refl, ltb,
}
use first_agent_dev.Providers.Messages.{RequestInfo, Checked, valid, violating}
use first_agent_dev.Providers.Chain.{
  ChainEntry, ChainConfig, ChainAttemptRecord, Sampling, Key, CooldownRow, Ledger, same_key,
  get_row, pop_row, set_row, cooldown_row, Reply, response, request_shape, auth_failed, transient,
  other_failure, Env, State, Answer, Turn, skipped, won, lost, stopped, cooling, key_of, on_reply,
  on_checked, try_entry, next_turn, try_chain, request_chain,
}

same_key_refl : (k : Key) → same_key k k ≡ true
same_key_refl k = rw (eq_refl k.0, eq_refl k.1)

same_key→≡ : (j k : Key) → same_key j k ≡ true → j ≡ k
same_key→≡ j k h =
    let (p, m) = and_true (str_eq j.0 k.0) (str_eq j.1 k.1) h in
    λ i. ((eq_iff j.0 k.0).0 p i, (eq_iff j.1 k.1).0 m i)

-- a row that has just been set
pub get_row-set_row :
    (k : Key) (row : CooldownRow) (l : Ledger) → get_row k (set_row k row l) ≡ some row
unfolding get_row set_row
get_row-set_row k row [] = rw (same_key_refl k)
get_row-set_row k row ((q, old) ∷ r) = elim (Bool-cases (same_key q k)) [
  | inl e ↦ rw e (rw e)
  | inr e ↦ rw e (rw e (get_row-set_row k row r))
]

pub get_row-pop_row : (k : Key) (l : Ledger) → get_row k (pop_row k l) ≡ none
unfolding get_row pop_row
get_row-pop_row k [] = refl
get_row-pop_row k ((q, old) ∷ r) = elim (Bool-cases (same_key q k)) [
  | inl e ↦ rw e (get_row-pop_row k r)
  | inr e ↦ rw e (rw e (get_row-pop_row k r))
]

other_key : (j k q : Key) → same_key j k ≡ false → same_key q j ≡ true → same_key q k ≡ false
other_key j k q h e = ap (λ x. same_key x k) (same_key→≡ q j e) ∙ h

get_row-set_row_other :
    (j k : Key) (row : CooldownRow) (l : Ledger)
    → same_key j k ≡ false
    → get_row k (set_row j row l) ≡ get_row k l
unfolding get_row set_row
get_row-set_row_other j k row [] h = rw h
get_row-set_row_other j k row ((q, old) ∷ r) h = elim (Bool-cases (same_key q j)) [
  | inl e ↦ rw e (rw (other_key j k q h e))
  | inr e ↦ rw e (elim (Bool-cases (same_key q k)) [
    | inl y ↦ rw y
    | inr y ↦ rw y (get_row-set_row_other j k row r h)
  ])
]

get_row-pop_row_other :
    (j k : Key) (l : Ledger) → same_key j k ≡ false → get_row k (pop_row j l) ≡ get_row k l
unfolding get_row pop_row
get_row-pop_row_other j k [] h = refl
get_row-pop_row_other j k ((q, old) ∷ r) h = elim (Bool-cases (same_key q j)) [
  | inl e ↦ rw e (rw (other_key j k q h e) (get_row-pop_row_other j k r h))
  | inr e ↦ rw e (elim (Bool-cases (same_key q k)) [
    | inl y ↦ rw y
    | inr y ↦ rw y (get_row-pop_row_other j k r h)
  ])
]

abbrev pub Away : Key → List ChainEntry → Type 0
Away k [] = Unit
Away k (e ∷ es) = (same_key (key_of e) k ≡ false) × Away k es

lt→ltb : (a b : ℕ) → a < b → ltb a b ≡ true
lt→ltb a b h = ground arith

module _ {F R W : Type 0} (env : Env F R W) (id : String) where
  -- when `on_reply` reads the clock for the cooldown
  abbrev pub cooled_at : State F W → ℕ
  cooled_at s = (env.clock (env.clock s.world).1).0

  transient-row :
      (e : ChainEntry) (start status retry_after : ℕ) (kind : String) (s : State F W)
      → get_row
          (key_of e)
          (on_reply env id e start (transient status kind retry_after) s).1.cooldowns
        ≡ some (cooldown_row e start (cooled_at s) status kind retry_after)
  unfolding on_reply
  transient-row e start status retry_after kind s = get_row-set_row (key_of e) _ s.cooldowns

  module _ (sampling : Sampling F) (request : RequestInfo F) where
    -- An entry that has failed with a transient error is skipped, with nothing sent, by every later
    -- turn that finds its row, as long as the configured cooldown or the time of `Retry-After` has not
    -- passed since.
    pub transient-skipped :
        (e : ChainEntry) (start status retry_after : ℕ) (kind : String) (s later : State F W)
        → get_row (key_of e) later.cooldowns
          ≡ get_row
              (key_of e)
              (on_reply env id e start (transient status kind retry_after) s).1.cooldowns
        → ((env.clock later.world).0 < cooled_at s + e.cooldown_seconds * 1000)
          ⊎ ((env.clock later.world).0 < cooled_at s + retry_after)
        → let (turn, s') = try_entry env id sampling request e later in
          (turn ≡ skipped) × (s'.sent ≡ later.sent)
    unfolding try_entry cooldown_row
    transient-skipped e start status retry_after kind s later same early =
        let now = (env.clock later.world).0 in
        let row = cooldown_row e start (cooled_at s) status kind retry_after in
        let found = same ∙ transient-row e start status retry_after kind s in
        let late : now < max (cooled_at s + e.cooldown_seconds * 1000) (cooled_at s + retry_after) =
          elim early [ inl h ↦ omega arith | inr h ↦ omega arith ] in
        let cold : cooling (get_row (key_of e) later.cooldowns) now ≡ true =
          ap (λ o. cooling o now) found ∙ lt→ltb now row.expires_at late in
        (rw (cold, try_entry), rw (cold, try_entry))

    module _ (k : Key) where
      abbrev row_of : State F W → Option CooldownRow
      row_of s = get_row k s.cooldowns

      on_reply-row :
          (e : ChainEntry) (start : ℕ) (r : Reply R) (s : State F W)
          → same_key (key_of e) k ≡ false
          → row_of (on_reply env id e start r s).1 ≡ row_of s
      unfolding on_reply
      on_reply-row e start (response r) s h = get_row-pop_row_other (key_of e) k s.cooldowns h
      on_reply-row e start (request_shape status) s h = refl
      on_reply-row e start (auth_failed status) s h = refl
      on_reply-row e start (transient status kind retry_after) s h =
          get_row-set_row_other (key_of e) k _ s.cooldowns h
      on_reply-row e start (other_failure text) s h = refl

      on_checked-row :
          (e : ChainEntry) (start : ℕ) (c : Checked F) (s : State F W)
          → same_key (key_of e) k ≡ false
          → row_of (on_checked env id e start c s).1 ≡ row_of s
      unfolding on_checked
      on_checked-row e start (violating v vs) s h = refl
      on_checked-row e start (valid r) s h = on_reply-row e start _ _ h

      try_entry-row :
          (e : ChainEntry) (s : State F W)
          → same_key (key_of e) k ≡ false
          → row_of (try_entry env id sampling request e s).1 ≡ row_of s
      unfolding try_entry
      try_entry-row e s h =
          elim (Bool-cases (cooling (get_row (key_of e) s.cooldowns) (env.clock s.world).0)) [
            | inl q ↦ rw (q, try_entry)
            | inr q ↦ elim (Option-cases (env.rules_of e.provider)) [
              | inl n ↦ rw (q, n, try_entry)
              | inr (rules, y) ↦ rw (q, y, try_entry) (on_checked-row e _ _ _ h)
            ]
          ]

      next_turn-row :
          (onward : List ChainAttemptRecord → State F W → Answer R × State F W)
          → ((attempts : List ChainAttemptRecord) (s : State F W)
              → row_of (onward attempts s).1 ≡ row_of s)
          → (attempts : List ChainAttemptRecord) (t : Turn R) (s : State F W)
          → row_of (next_turn env id onward attempts t s).1 ≡ row_of s
      unfolding next_turn
      next_turn-row onward go attempts skipped s = go attempts s
      next_turn-row onward go attempts (won r a) s = refl
      next_turn-row onward go attempts (lost a) s = go (attempts ++ a ∷ []) s
      next_turn-row onward go attempts (stopped answer) s = refl

      try_chain-row :
          (es : List ChainEntry) (attempts : List ChainAttemptRecord) (s : State F W)
          → Away k es
          → row_of (try_chain env id sampling request es attempts s).1 ≡ row_of s
      unfolding try_chain
      try_chain-row [] attempts s h = refl
      try_chain-row (e ∷ es) attempts s h =
          next_turn-row (try_chain env id sampling request es)
            (λ attempts s. try_chain-row es attempts s h.1) attempts _ _
          ∙ try_entry-row e s h.0

  -- A request leaves the row of every key as it was that is not the key of an entry of its chain.
  pub request_chain-row :
      (config : ChainConfig F) (request : RequestInfo F) (s : State F W) (k : Key)
      → Away k config.chain
      → get_row k (request_chain env id config request s).1.cooldowns ≡ get_row k s.cooldowns
  unfolding request_chain
  request_chain-row config request s k h =
      try_chain-row config.sampling request k config.chain [] s h
