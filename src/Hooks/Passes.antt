-- ===== src/Hooks/Passes.antt =====
-- The payload that a dispatch returns has passed every guard that runs again after a mutation.
use mathlib.Core.Path.{subst, subst⁻¹}
use first_agent_dev.Prelude.{
  String, ◌≡◌, refl, sym, ap, ◌∙◌, Bool, true, false, Option, none, some, ◌⊎◌, inl, inr, List, [],
  ◌∷◌, ◌++◌, Option-cases, some_inj,
}
use first_agent_dev.Hooks.Types.{
  Result, ok, raise, LifecyclePoint, HookPayload, Action, allow, deny, modify, other, Decision,
  DispatchRecord,
}
use first_agent_dev.Hooks.Cases.{ok_inj}
use first_agent_dev.Hooks.Registry.{
  Handle, Middleware, HookRegistry, Run, middleware_name, ask, replay, on_replay, on_modify,
  on_action, on_answer, dispatch_from, dispatch,
}
use first_agent_dev.Hooks.Keeps.{
  IsKeeper, AllKeepers, SinkKeeps, AllKeepers-append, record_step-Holds, ask-Holds, replay-Holds,
}
use first_agent_dev.Hooks.Recheck.{
  HasChecker, IsCheckerIn, HasCheckerIn, Passes, HasCheckerIn-append, ask-decide, replay-Passes,
  not_modify,
}

module _ {W : Type 0} (Inv : W → Type 0) (sink : Option (DispatchRecord → HookPayload → W → W))
    (point : LifecyclePoint) (sinks : SinkKeeps Inv sink) (decide : HookPayload → Decision)
    (yes_or_no : (p : HookPayload) → ((decide p).action ≡ allow) ⊎ ((decide p).action ≡ deny)) where
  -- A branch that ends well goes on with some payload `q`, of which something is known.
  abbrev Onward :
      (HookPayload → Type 0)
      → (Bool → HookPayload → Run W → Result HookPayload × Run W)
      → HookPayload
      → Type 0
  Onward Known onward p' =
      (b : Bool) × (q : HookPayload) × (s' : Run W) × ((onward b q s').0 ≡ ok p')
      × Inv s'.world
      × Known q

  module _ (done : List (Middleware W)) (keepers : AllKeepers Inv done)
      (onward : Bool → HookPayload → Run W → Result HookPayload × Run W) where
    on_replay-Onward :
        (q : HookPayload) (r : Result (Unit {0}) × Run W) {p' : HookPayload}
        → (on_replay sink point done onward q r).0 ≡ ok p'
        → ((onward true q r.1).0 ≡ ok p') × (u : Unit {0}) × (r.0 ≡ ok u)
    unfolding on_replay
    on_replay-Onward q (raise e, s) h = cc
    on_replay-Onward q (ok u, s) h = (h, u, refl)

    on_modify-Onward :
        (mutated : Bool) (payload : Option HookPayload) (s : Run W) {p' : HookPayload}
        → Inv s.world
        → (on_modify sink point done onward mutated payload s).0 ≡ ok p'
        → Onward
            (λ q. HasCheckerIn Inv decide done → Passes Inv sink point sinks decide yes_or_no q)
            onward
            p'
    unfolding on_modify
    on_modify-Onward true payload s i h = cc
    on_modify-Onward false none s i h = cc
    on_modify-Onward false (some q) s i h =
        let (go, u, e) = on_replay-Onward q (replay sink point done q s) h in
        (
          true,
          q,
          (replay sink point done q s).1,
          go,
          replay-Holds Inv sink point sinks done q s keepers i,
          λ c. replay-Passes Inv sink point sinks decide yes_or_no done q s keepers i e c,
        )

    on_action-Onward :
        (a : Action) (mutated : Bool) (p : HookPayload) (d : Decision) (s : Run W)
        {p' : HookPayload}
        → Inv s.world
        → (on_action sink point done onward a mutated p d s).0 ≡ ok p'
        → Onward
            (λ q.
              (HasCheckerIn Inv decide done
                → Passes Inv sink point sinks decide yes_or_no p
                → Passes Inv sink point sinks decide yes_or_no q)
              × ((a ≡ modify) ⊎ ((a ≡ allow) × (q ≡ p))))
            onward
            p'
    unfolding on_action
    on_action-Onward allow mutated p d s i h = (mutated, p, s, h, i, (λ c x. x, inr (refl, refl)))
    on_action-Onward deny mutated p d s i h = cc
    on_action-Onward (other t) mutated p d s i h = cc
    on_action-Onward modify mutated p d s i h =
        let (b, q, s', go, i', known) = on_modify-Onward mutated d.payload s i h in
        (b, q, s', go, i', (λ c x. known c, inl refl))

    -- A checker among those that ran still passes, and so does the guard itself, if it is one.
    on_answer-Onward :
        (mutated : Bool) (p : HookPayload) (r : Result Decision × Run W) {p' : HookPayload}
        → Inv r.1.world
        → (on_answer sink point done onward mutated p r).0 ≡ ok p'
        → Onward
            (λ q.
              (HasCheckerIn Inv decide done
                → Passes Inv sink point sinks decide yes_or_no p
                → Passes Inv sink point sinks decide yes_or_no q)
              × (r.0 ≡ ok (decide p) → Passes Inv sink point sinks decide yes_or_no q))
            onward
            p'
    unfolding on_answer
    on_answer-Onward mutated p (raise e, s) i h = cc
    on_answer-Onward mutated p (ok d, s) i h =
        let (b, q, s', go, i', known) = on_action-Onward d.action mutated p d s i h in
        (
          b,
          q,
          s',
          go,
          i',
          (
            known.0,
            λ e.
                let same : d ≡ decide p = ok_inj e in
                elim known.1 [
                  | inl k ↦ absurd (
                      not_modify Inv sink point sinks decide yes_or_no p
                        (ap (λ (y : Decision). y.action) (sym same) ∙ k))
                  | inr (k, z) ↦
                      subst⁻¹ (Passes Inv sink point sinks decide yes_or_no) z
                        (ap (λ (y : Decision). y.action) (sym same) ∙ k)
                ],
          ),
        )

  checker-asked :
      (m : Middleware W) (handle : Handle W) (name : String) (p : HookPayload) (s : Run W)
      → Inv s.world
      → m.handle ≡ some handle
      → IsCheckerIn Inv decide m
      → (ask sink point name handle p s).0 ≡ ok (decide p)
  checker-asked m handle name p s i e c =
      let same : c.handle ≡ handle = some_inj (sym c.handles ∙ e) in
      subst (λ (h : Handle W). (ask sink point name h p s).0 ≡ ok (decide p)) same
        (ask-decide Inv sink point sinks decide yes_or_no name c.handle p s
          (c.answers point p s.world i))

  dispatch_from-Onward :
      (done : List (Middleware W)) (m : Middleware W) (ms : List (Middleware W)) (mutated : Bool)
      (p : HookPayload) (s : Run W) {p' : HookPayload}
      → AllKeepers Inv done
      → IsKeeper Inv m
      → Inv s.world
      → (dispatch_from sink point done (m ∷ ms) mutated p s).0 ≡ ok p'
      → Onward
          (λ q.
            (HasCheckerIn Inv decide done
              → Passes Inv sink point sinks decide yes_or_no p
              → Passes Inv sink point sinks decide yes_or_no q)
            × (IsCheckerIn Inv decide m → Passes Inv sink point sinks decide yes_or_no q))
          (dispatch_from sink point (done ++ m ∷ []) ms)
          p'
  unfolding dispatch_from
  dispatch_from-Onward done m ms mutated p s ks k i h = elim (Option-cases m.handle) [
    | inl n ↦ elim (Option-cases m.observe) [
      | inl o ↦ cc (rw (n, o, dispatch_from) at h)
      | inr (observe, o) ↦ (
        mutated,
        p,
        _,
        rw (n, o, dispatch_from) at h,
        record_step-Holds Inv sink point sinks sink _ p _ sinks
            (k.observes observe o point p s.world i),
        (λ c x. x, λ c. cc (c.handles)),
      )
    ]
    | inr (handle, e) ↦
        let onward = dispatch_from sink point (done ++ m ∷ []) ms in
        let name = middleware_name m in
        let (b, q, s', go, i', known) =
          on_answer-Onward done ks onward mutated p (ask sink point name handle p s)
            (ask-Holds Inv sink point sinks name handle p s (k.handles handle e point) i)
            (rw (e, dispatch_from) at h) in
        (b, q, s', go, i', (known.0, λ c. known.1 (checker-asked m handle name p s i e c)))
  ]

  moved :
      (done : List (Middleware W)) (m : Middleware W) (ms : List (Middleware W))
      → HasCheckerIn Inv decide done ⊎ HasCheckerIn Inv decide (m ∷ ms)
      → HasCheckerIn Inv decide (done ++ m ∷ []) ⊎ HasCheckerIn Inv decide ms
  moved [] m ms (inl c) = absurd c
  moved [] m ms (inr (inl c)) = inl (inl c)
  moved [] m ms (inr (inr c)) = inr c
  moved (d ∷ ds) m ms (inl (inl c)) = inl (inl c)
  moved (d ∷ ds) m ms (inl (inr c)) = elim (moved ds m ms (inl c)) [
    | inl x ↦ inl (inr x)
    | inr x ↦ inr x
  ]
  moved (d ∷ ds) m ms (inr c) = elim (moved ds m ms (inr c)) [ inl x ↦ inl (inr x) | inr x ↦ inr x ]

  pub dispatch_from-Passes :
      (done ms : List (Middleware W)) (mutated : Bool) (p : HookPayload) (s : Run W)
      {p' : HookPayload}
      → AllKeepers Inv done
      → AllKeepers Inv ms
      → Inv s.world
      → (dispatch_from sink point done ms mutated p s).0 ≡ ok p'
      → (HasCheckerIn Inv decide done → Passes Inv sink point sinks decide yes_or_no p)
      → HasCheckerIn Inv decide done ⊎ HasCheckerIn Inv decide ms
      → Passes Inv sink point sinks decide yes_or_no p'
  unfolding dispatch_from
  dispatch_from-Passes done [] mutated p s kd ks i h known (inl c) =
      subst (Passes Inv sink point sinks decide yes_or_no) (ok_inj h) (known c)
  dispatch_from-Passes done [] mutated p s kd ks i h known (inr c) = absurd c
  dispatch_from-Passes done (m ∷ ms) mutated p s kd (k, ks) i h known which =
      let (b, q, s', go, i', after) = dispatch_from-Onward done m ms mutated p s kd k i h in
      dispatch_from-Passes (done ++ m ∷ []) ms b q s'
        (AllKeepers-append Inv done (m ∷ []) kd (k, tt)) ks i' go
        (λ c. elim (HasCheckerIn-append Inv sink point sinks decide yes_or_no done (m ∷ []) c) [
          | inl x ↦ after.0 x (known x)
          | inr x ↦ elim x [ inl y ↦ after.1 y | inr y ↦ absurd y ]
        ])
        (moved done m ms which)

-- What keeps nothing in particular.
abbrev Nothing : {W : Type 0} → W → Type 0
Nothing w = Unit

all_keepers : {W : Type 0} (ms : List (Middleware W)) → AllKeepers Nothing ms
all_keepers [] = tt
all_keepers (m ∷ ms) =
    (record { handles = λ h e q p w i. tt; observes = λ h e q p w i. tt }, all_keepers ms)

sink_keeps :
    {W : Type 0} (sink : Option (DispatchRecord → HookPayload → W → W)) → SinkKeeps Nothing sink
sink_keeps none = tt
sink_keeps (some sink) = λ d p w i. tt

HasChecker-In :
    {W : Type 0} (decide : HookPayload → Decision) (ms : List (Middleware W))
    → HasChecker decide ms
    → HasCheckerIn Nothing decide ms
HasChecker-In decide [] c = absurd c
HasChecker-In decide (m ∷ ms) (inl c) = inl (record {
  handle = λ point p w. (ok (decide p), w);
  handles = c.handles;
  answers = λ point p w i. refl;
  revalidates = c.revalidates;
})
HasChecker-In decide (m ∷ ms) (inr c) = inr (HasChecker-In decide ms c)

module _ {W : Type 0} (decide : HookPayload → Decision)
    (yes_or_no : (p : HookPayload) → ((decide p).action ≡ allow) ⊎ ((decide p).action ≡ deny)) where
  -- A guard that answers allow or deny by the payload alone and asks to run again after a mutation has
  -- allowed the payload that a dispatch returns, wherever it stands in the chain and whatever the other
  -- middlewares answer, change or raise.
  pub dispatch-Passes :
      (reg : HookRegistry W) (point : LifecyclePoint) (p : HookPayload) (s : Run W)
      {p' : HookPayload}
      → (dispatch reg point p s).0 ≡ ok p'
      → HasChecker decide (reg.chains point)
      → (decide p').action ≡ allow
  unfolding dispatch
  dispatch-Passes reg point p s h c =
      dispatch_from-Passes Nothing reg.event_sink point (sink_keeps reg.event_sink) decide yes_or_no
        [] (reg.chains point) false p s tt (all_keepers (reg.chains point)) tt h (λ x. absurd x)
        (inr (HasChecker-In decide (reg.chains point) c))

-- As in `dispatch-Passes`, for a guard that decides so in the states of an invariant, which every
-- middleware keeps.
pub dispatch-PassesIn :
    {W : Type 0} (Inv : W → Type 0) (decide : HookPayload → Decision)
    (yes_or_no : (p : HookPayload) → ((decide p).action ≡ allow) ⊎ ((decide p).action ≡ deny))
    (reg : HookRegistry W) (point : LifecyclePoint) (p : HookPayload) (s : Run W) {p' : HookPayload}
    → SinkKeeps Inv reg.event_sink
    → AllKeepers Inv (reg.chains point)
    → Inv s.world
    → (dispatch reg point p s).0 ≡ ok p'
    → HasCheckerIn Inv decide (reg.chains point)
    → (decide p').action ≡ allow
unfolding dispatch
dispatch-PassesIn Inv decide yes_or_no reg point p s sinks ks i h c =
    dispatch_from-Passes Inv reg.event_sink point sinks decide yes_or_no [] (reg.chains point) false
      p s tt ks i h (λ x. absurd x) (inr c)
