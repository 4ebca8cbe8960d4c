-- ===== src/Hooks/Suppression.antt =====
-- The suppression window of a blocker.
use mathlib.Core.Path.{subst, subst⁻¹}
use first_agent_dev.Prelude.{
  Bool, refl, ◌&&◌, any, ℕ, ◌+◌, ◌≤◌, ◌<◌, String, ◌≡◌, ap, ◌∙◌, true, false, none, some, ◌⊎◌, inl,
  inr, List, [], ◌∷◌, arith, Bool-cases, Option-cases, str_eq, leb, leb→le, leb_false→lt, ◌==◌,
}
use first_agent_dev.Hooks.Types.{
  LifecyclePoint, between_rounds, before_llm_call, after_llm_call, ok, before_tool_exec,
  after_tool_exec, ToolResult, ToolCall, HookPayload, allowed,
}
use first_agent_dev.Hooks.Gate.{
  Blocks, get_time-set_time, get_time-set_time_other, gate-late, gate-early, gate-blocker,
  gate-same,
}
use first_agent_dev.Hooks.Blockers.{
  BlockerCategory, Matching, detect, Blocker, get_time, set_time, observe_result, observe, gate,
  handle_blocker,
}

module _ {W : Type 0} (matching : Matching) (time_source : W → ℕ × W) where
  -- A failure that a blocker looks for, of a call of the tool `c.name`.
  pub record Failure (category : BlockerCategory) (p : HookPayload) (c : ToolCall) : Type 0 where
    pub result : ToolResult
    pub called : p.tool_call ≡ some c
    pub returned : p.tool_result ≡ some result
    pub detected : detect matching category result ≡ true

  after-Failure :
      (p : HookPayload) (c : ToolCall) (b : Blocker) (w : W)
      → Failure b.category p c
      → (handle_blocker matching time_source after_tool_exec p (b, w)).1 ≡ (
        record b { observed_at = set_time c.name (time_source w).0 b.observed_at },
        (time_source w).1,
      )
  unfolding handle_blocker observe observe_result
  after-Failure p c b w f = rw (f.called, f.returned, f.detected, observe, observe_result)

  -- the blocker after a failure
  abbrev pub blocked : HookPayload → Blocker × W → Blocker
  blocked p s = (handle_blocker matching time_source after_tool_exec p s).1.0

  blocked-Failure :
      (p : HookPayload) (c : ToolCall) (b : Blocker) (w : W)
      → Failure b.category p c
      → blocked p (b, w)
        ≡ record b { observed_at = set_time c.name (time_source w).0 b.observed_at }
  blocked-Failure p c b w f = ap (λ s. s.0) (after-Failure p c b w f)

  -- Something that the hooks are told of: the point, the payload and the moment.
  abbrev pub Event : Type 0
  Event = LifecyclePoint × HookPayload × W

  -- one more failure of the tool that the blocker looks for
  abbrev pub renews : BlockerCategory → String → Event → Bool
  renews category tool (after_tool_exec, p, w) = elim p.tool_call [
    | none ↦ false
    | some c ↦ elim p.tool_result [
      | none ↦ false
      | some r ↦ str_eq c.name tool && detect matching category r
    ]
  ]
  renews category tool (_, p, w) = false

  abbrev pub after_event : Event → Blocker → Blocker
  after_event (point, p, w) b = (handle_blocker matching time_source point p (b, w)).1.0

  abbrev pub after_events : List Event → Blocker → Blocker
  after_events [] b = b
  after_events (e ∷ es) b = after_events es (after_event e b)

  -- what the blocker knows of a tool
  record SameFor (tool : String) (b b' : Blocker) : Type 0 where
    pub category : b'.category ≡ b.category
    pub suppression : b'.suppression ≡ b.suppression
    pub time : get_time tool b'.observed_at ≡ get_time tool b.observed_at

  same_for : (tool : String) (b : Blocker) → SameFor tool b b
  same_for tool b = record { category = refl; suppression = refl; time = refl }

  observe_result-SameFor :
      (tool : String) (c : ToolCall) (r : ToolResult) (b : Blocker) (w : W)
      → (str_eq c.name tool && detect matching b.category r) ≡ false
      → SameFor tool b (observe_result matching time_source c r (b, w)).0
  unfolding observe_result
  observe_result-SameFor tool c r b w h = elim (Bool-cases (detect matching b.category r)) [
    | inr n ↦ rw (n, observe_result) (same_for tool b)
    | inl y ↦
        let other : str_eq c.name tool ≡ false = ground (arith, h, y) in
        rw (y, observe_result)
          (record {
            category = refl;
            suppression = refl;
            time = get_time-set_time_other c.name tool (time_source w).0 b.observed_at other;
          })
  ]

  after_event-SameFor :
      (tool : String) (e : Event) (b : Blocker)
      → renews b.category tool e ≡ false
      → SameFor tool b (after_event e b)
  unfolding handle_blocker observe
  after_event-SameFor tool (before_tool_exec, p, w) b h =
      subst⁻¹ (SameFor tool b) (gate-blocker matching time_source p b w) (same_for tool b)
  after_event-SameFor tool (after_tool_exec, p, w) b h = elim (Option-cases p.tool_call) [
    | inl n ↦ rw (n, observe) (same_for tool b)
    | inr (c, e) ↦ elim (Option-cases p.tool_result) [
      | inl n ↦ rw (e, n, observe) (same_for tool b)
      | inr (r, y) ↦ rw (e, y, observe) (observe_result-SameFor tool c r b w (rw (e, y) at h))
    ]
  ]
  after_event-SameFor tool (between_rounds, p, w) b h = same_for tool b
  after_event-SameFor tool (before_llm_call, p, w) b h = same_for tool b
  after_event-SameFor tool (after_llm_call, p, w) b h = same_for tool b

  after_events-SameFor :
      (tool : String) (es : List Event) (b : Blocker)
      → any (renews b.category tool) es ≡ false
      → SameFor tool b (after_events es b)
  after_events-SameFor tool [] b h = same_for tool b
  after_events-SameFor tool (e ∷ es) b h =
      let now : renews b.category tool e ≡ false = ground (arith, h) in
      let later : any (renews b.category tool) es ≡ false = ground (arith, h) in
      let one = after_event-SameFor tool e b now in
      let rest =
        after_events-SameFor tool es (after_event e b)
          (ap (λ k. any (renews k tool) es) one.category ∙ later) in
      record {
        category = rest.category ∙ one.category;
        suppression = rest.suppression ∙ one.suppression;
        time = rest.time ∙ one.time;
      }

  -- Denied before the end of the window, and let pass after it.
  abbrev pub Windowed : ℕ → HookPayload → W → Blocker → Type 0
  Windowed until q later b =
      let r = (handle_blocker matching time_source before_tool_exec q (b, later)).0 in
      (((time_source later).0 < until) × Blocks r)
      ⊎ ((until ≤ (time_source later).0) × (r ≡ ok allowed))

  gate-Windowed :
      (q : HookPayload) (c : ToolCall) (at : ℕ) (b : Blocker) (later : W)
      → q.tool_call ≡ some c
      → get_time c.name b.observed_at ≡ some at
      → 1 ≤ b.suppression
      → Windowed (at + b.suppression) q later b
  unfolding handle_blocker
  gate-Windowed q c at b later call seen gating =
      elim (Bool-cases (leb (at + b.suppression) (time_source later).0)) [
        | inr e ↦
            let early = leb_false→lt (at + b.suppression) (time_source later).0 e in
            inl (
              early,
              gate-early matching time_source q c at b later call seen
                  (positive b.suppression gating) early,
            )
        | inl e ↦
            let late = leb→le (at + b.suppression) (time_source later).0 e in
            inr (late, gate-late matching time_source q c at b later call seen late)
      ]
    where
      positive : (n : ℕ) → 1 ≤ n → (n == 0) ≡ false
      positive n h = ground arith

  -- After a failure that a gating blocker looks for, every call of the tool, up to the next such
  -- failure of it and whatever else the hooks are told of in between (calls of this tool that were
  -- denied or let pass, and anything of other tools), is denied as long as the suppression window has
  -- not passed since the failure, and let pass once it has.
  pub Failure-Blocks :
      (p q : HookPayload) (c d : ToolCall) (b : Blocker) (w later : W) (between : List Event)
      → 1 ≤ b.suppression
      → Failure b.category p c
      → any (renews b.category c.name) between ≡ false
      → q.tool_call ≡ some d
      → d.name ≡ c.name
      → Windowed
          ((time_source w).0 + b.suppression)
          q
          later
          (after_events between (blocked p (b, w)))
  Failure-Blocks p q c d b w later between gating f quiet call same =
      let at = (time_source w).0 in
      let b' = record b { observed_at = set_time c.name at b.observed_at } in
      let kept = after_events-SameFor c.name between b' quiet in
      let seen : get_time d.name (after_events between b').observed_at ≡ some at =
        ap (λ t. get_time t (after_events between b').observed_at) same
        ∙ kept.time
        ∙ get_time-set_time c.name at b.observed_at in
      subst⁻¹ (λ x. Windowed (at + b.suppression) q later (after_events between x))
        (blocked-Failure p c b w f)
        (subst (λ n. Windowed (at + n) q later (after_events between b')) kept.suppression
          (gate-Windowed q d at (after_events between b') later call seen
            (subst⁻¹ (λ n. 1 ≤ n) kept.suppression gating)))

  -- A failure of one tool changes nothing for the calls of another.
  pub Failure-others :
      (p q : HookPayload) (c d : ToolCall) (b : Blocker) (w later : W)
      → Failure b.category p c
      → q.tool_call ≡ some d
      → str_eq c.name d.name ≡ false
      → (handle_blocker matching time_source before_tool_exec q (blocked p (b, w), later)).0
        ≡ (handle_blocker matching time_source before_tool_exec q (b, later)).0
  unfolding handle_blocker
  Failure-others p q c d b w later f call other =
      ap (λ x. (gate matching time_source q (x, later)).0) (blocked-Failure p c b w f)
      ∙ gate-same matching time_source q d b (set_time c.name (time_source w).0 b.observed_at) later
          call (get_time-set_time_other c.name d.name (time_source w).0 b.observed_at other)
