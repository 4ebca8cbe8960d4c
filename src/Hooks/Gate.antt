-- ===== src/Hooks/Gate.antt =====
-- The gate of a blocker, inside its suppression window and after it.
use mathlib.Core.Path.{subst}
use first_agent_dev.Prelude.{
  ℕ, ◌+◌, ◌-◌, ◌≤◌, ◌<◌, String, ◌≡◌, ◌≢◌, sym, ap, ◌∙◌, false, none, some, inl, inr, List, [], ◌∷◌,
  arith, Bool-cases, Option-cases, str_eq, eq_iff, eq_refl, concat, truthy-concat, leb, le→leb,
  ◌==◌,
}
use first_agent_dev.Hooks.Types.{
  Result, ok, ToolCall, HookPayload, Decision, deny, allowed, deny_with,
}
use first_agent_dev.Hooks.Blockers.{
  BlockerCategory, rate_limit, lockfile, auth_expired, category_text, Matching, Blocker, get_time,
  set_time, block_reason, gate_since, gate,
}

abbrev pub Blocks : Result Decision → Type 0
Blocks r = (reason : String) × (r ≡ ok (record { action = deny; reason = reason; payload = none }))

pub get_time-set_time :
    (t : String) (at : ℕ) (l : List (String × ℕ)) → get_time t (set_time t at l) ≡ some at
unfolding get_time set_time
get_time-set_time t at [] = rw (eq_refl t)
get_time-set_time t at ((k, old) ∷ r) = elim (Bool-cases (str_eq k t)) [
  | inl e ↦ rw e (rw e)
  | inr e ↦ rw e (rw e (get_time-set_time t at r))
]

pub get_time-set_time_other :
    (t u : String) (at : ℕ) (l : List (String × ℕ))
    → str_eq t u ≡ false
    → get_time u (set_time t at l) ≡ get_time u l
unfolding get_time set_time
get_time-set_time_other t u at [] h = rw h
get_time-set_time_other t u at ((k, old) ∷ r) h = elim (Bool-cases (str_eq k t)) [
  | inl e ↦
      let k_u : str_eq k u ≡ false = ap (λ x. str_eq x u) ((eq_iff k t).0 e) ∙ h in rw e (rw k_u)
  | inr e ↦ rw e (elim (Bool-cases (str_eq k u)) [
    | inl y ↦ rw y
    | inr y ↦ rw y (get_time-set_time_other t u at r h)
  ])
]

category_text-nonempty : (c : BlockerCategory) → category_text c ≢ ""
unfolding category_text
category_text-nonempty rate_limit h = cc
category_text-nonempty lockfile h = cc
category_text-nonempty auth_expired h = cc

deny_with-Blocks :
    (c : BlockerCategory) (t : List String) → Blocks (deny_with (concat (category_text c ∷ t)))
unfolding deny_with
deny_with-Blocks c t = (
  concat (category_text c ∷ t),
  rw (truthy-concat (category_text c) t (category_text-nonempty c)),
)

pub lt→leb_false : (a b : ℕ) → b < a → leb a b ≡ false
lt→leb_false a b h = ground arith

module _ {W : Type 0} (matching : Matching) (time_source : W → ℕ × W) where
  pub gate-late :
      (q : HookPayload) (c : ToolCall) (at : ℕ) (b : Blocker) (w : W)
      → q.tool_call ≡ some c
      → get_time c.name b.observed_at ≡ some at
      → at + b.suppression ≤ (time_source w).0
      → (gate matching time_source q (b, w)).0 ≡ ok allowed
  unfolding gate gate_since
  gate-late q c at b w call seen late = elim (Bool-cases (b.suppression == 0)) [
    | inl z ↦ rw (z, gate)
    | inr z ↦
        rw (z, call, seen, le→leb (at + b.suppression) (time_source w).0 late, gate, gate_since)
  ]

  pub gate-early :
      (q : HookPayload) (c : ToolCall) (at : ℕ) (b : Blocker) (w : W)
      → q.tool_call ≡ some c
      → get_time c.name b.observed_at ≡ some at
      → (b.suppression == 0) ≡ false
      → (time_source w).0 < at + b.suppression
      → Blocks (gate matching time_source q (b, w)).0
  unfolding gate gate_since
  gate-early q c at b w call seen some_time early =
      let now = (time_source w).0 in
      let refused : (gate matching time_source q (b, w)).0
          ≡ deny_with (block_reason matching b c.name (at + b.suppression - now)) =
        rw (some_time, call, seen, lt→leb_false (at + b.suppression) now early, gate, gate_since) in
      subst Blocks (sym refused) (deny_with-Blocks b.category _)

  pub gate-blocker :
      (p : HookPayload) (b : Blocker) (w : W) → (gate matching time_source p (b, w)).1.0 ≡ b
  unfolding gate gate_since
  gate-blocker p b w = elim (Bool-cases (b.suppression == 0)) [
    | inl z ↦ rw (z, gate)
    | inr z ↦ elim (Option-cases p.tool_call) [
      | inl n ↦ rw (z, n, gate)
      | inr (c, e) ↦ elim (Option-cases (get_time c.name b.observed_at)) [
        | inl n ↦ rw (z, e, n, gate)
        | inr (at, y) ↦ elim (Bool-cases (leb (at + b.suppression) (time_source w).0)) [
          | inl l ↦ rw (z, e, y, gate) (rw (l, gate_since))
          | inr l ↦ rw (z, e, y, gate) (rw (l, gate_since))
        ]
      ]
    ]
  ]

  pub gate-same :
      (q : HookPayload) (d : ToolCall) (b : Blocker) (times : List (String × ℕ)) (w : W)
      → q.tool_call ≡ some d
      → get_time d.name times ≡ get_time d.name b.observed_at
      → (gate matching time_source q (record b { observed_at = times }, w)).0
        ≡ (gate matching time_source q (b, w)).0
  unfolding gate gate_since
  gate-same q d b times w call same = elim (Bool-cases (b.suppression == 0)) [
    | inl z ↦ rw (z, gate)
    | inr z ↦ elim (Option-cases (get_time d.name b.observed_at)) [
      | inl n ↦ rw (z, call, same, n, gate)
      | inr (at, y) ↦ elim (Bool-cases (leb (at + b.suppression) (time_source w).0)) [
        | inl l ↦ rw (z, call, same, y, gate) (rw (l, gate_since))
        | inr l ↦ rw (z, call, same, y, gate) (rw (l, gate_since))
      ]
    ]
  ]
