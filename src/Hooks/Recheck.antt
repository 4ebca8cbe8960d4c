-- ===== src/Hooks/Recheck.antt =====
-- What a dispatch guarantees of a guard that asks to run again after a mutation, as the sandbox does.
use first_agent_dev.Prelude.{
  String, ◌≡◌, ◌≢◌, refl, true, Option, some, ◌⊎◌, inl, inr, List, [], ◌∷◌, ◌++◌, Option-cases,
  Bool-cases, concat,
}
use first_agent_dev.Hooks.Types.{
  ok, LifecyclePoint, HookPayload, allow, deny, modify, Decision, DispatchRecord,
}
use first_agent_dev.Hooks.Cases.{Result-cases, Action-cases}
use first_agent_dev.Hooks.Keeps.{IsKeeper, AllKeepers, SinkKeeps, ask-Holds}
use first_agent_dev.Hooks.Registry.{Handle, Middleware, Run, middleware_name, ask, replay}

-- A guard that decides by `decide` alone, whatever the state, and asks to run again after a mutation.
pub record IsChecker {W : Type 0} (decide : HookPayload → Decision) (m : Middleware W)
    : Type 0 where
  pub handles : m.handle ≡ some (λ point p w. (ok (decide p), w))
  pub revalidates : m.revalidates_after_modify ≡ true

abbrev pub HasChecker : {W : Type 0} → (HookPayload → Decision) → List (Middleware W) → Type 0
HasChecker decide [] = ⊥
HasChecker decide (m ∷ ms) = IsChecker decide m ⊎ HasChecker decide ms

-- A guard that decides by `decide` in every state in which `Inv` holds, and asks to run again after a
-- mutation.
pub record IsCheckerIn {W : Type 0} (Inv : W → Type 0) (decide : HookPayload → Decision)
    (m : Middleware W) : Type 0 where
  pub handle : Handle W
  pub handles : m.handle ≡ some handle
  pub answers :
      (point : LifecyclePoint) (p : HookPayload) (w : W)
      → Inv w
      → (handle point p w).0 ≡ ok (decide p)
  pub revalidates : m.revalidates_after_modify ≡ true

abbrev pub HasCheckerIn :
    {W : Type 0} → (W → Type 0) → (HookPayload → Decision) → List (Middleware W) → Type 0
HasCheckerIn Inv decide [] = ⊥
HasCheckerIn Inv decide (m ∷ ms) = IsCheckerIn Inv decide m ⊎ HasCheckerIn Inv decide ms

module _ {W : Type 0} (Inv : W → Type 0) (sink : Option (DispatchRecord → HookPayload → W → W))
    (point : LifecyclePoint) (sinks : SinkKeeps Inv sink) (decide : HookPayload → Decision)
    (yes_or_no : (p : HookPayload) → ((decide p).action ≡ allow) ⊎ ((decide p).action ≡ deny)) where
  abbrev pub Passes : HookPayload → Type 0
  Passes p = (decide p).action ≡ allow

  pub HasCheckerIn-append :
      (ms ns : List (Middleware W))
      → HasCheckerIn Inv decide (ms ++ ns)
      → HasCheckerIn Inv decide ms ⊎ HasCheckerIn Inv decide ns
  HasCheckerIn-append [] ns h = inr h
  HasCheckerIn-append (m ∷ ms) ns (inl h) = inl (inl h)
  HasCheckerIn-append (m ∷ ms) ns (inr h) = elim (HasCheckerIn-append ms ns h) [
    | inl x ↦ inl (inr x)
    | inr x ↦ inr x
  ]

  -- what a checker answers
  pub ask-decide :
      (name : String) (handle : Handle W) (p : HookPayload) (s : Run W)
      → (handle point p s.world).0 ≡ ok (decide p)
      → (ask sink point name handle p s).0 ≡ ok (decide p)
  unfolding ask
  ask-decide name handle p s h = rw (h, ask) refl

  -- A replay that ends well has asked every checker in it, and each has let the payload pass.
  replay-deny :
      (m : Middleware W) (ms : List (Middleware W)) (p : HookPayload) (s : Run W) {u : Unit {0}}
      → IsCheckerIn Inv decide m
      → Inv s.world
      → (decide p).action ≡ deny
      → (replay sink point (m ∷ ms) p s).0 ≢ ok u
  unfolding replay
  replay-deny m ms p s c i d h =
      let name = concat (middleware_name m ∷ "@replay" ∷ []) in
      let asked = ask-decide name c.handle p s (c.answers point p s.world i) in
      let h1 = rw (c.handles, c.revalidates, replay) at h in
      let h2 = rw asked at h1 in cc (rw d at h2)

  replay-tail :
      (m : Middleware W) (ms : List (Middleware W)) (p : HookPayload) (s : Run W) {u : Unit {0}}
      → IsKeeper Inv m
      → Inv s.world
      → (replay sink point (m ∷ ms) p s).0 ≡ ok u
      → (s' : Run W) × Inv s'.world × ((replay sink point ms p s').0 ≡ ok u)
  unfolding replay
  replay-tail m ms p s k i h = elim (Option-cases m.handle) [
    | inl n ↦ (s, i, rw (n, replay) at h)
    | inr (handle, e) ↦ elim (Bool-cases m.revalidates_after_modify) [
      | inr n ↦ (s, i, rw (e, n, replay) at h)
      | inl y ↦
          let h1 = rw (e, y, replay) at h in
          let name = concat (middleware_name m ∷ "@replay" ∷ []) in
          let asked = ask sink point name handle p s in
          let i' = ask-Holds Inv sink point sinks name handle p s (k.handles handle e point) i in
          elim (Result-cases asked.0) [
            | inr (x, q) ↦ cc (rw q at h1)
            | inl (d, q) ↦
                let h2 = rw q at h1 in
                elim (Action-cases d.action) [
                  | inl k ↦ (asked.1, i', rw k at h2)
                  | inr (inl k) ↦ cc (rw k at h2)
                  | inr (inr (inl k)) ↦ cc (rw k at h2)
                  | inr (inr (inr (t, k))) ↦ (asked.1, i', rw k at h2)
                ]
          ]
    ]
  ]

  pub replay-Passes :
      (ms : List (Middleware W)) (p : HookPayload) (s : Run W) {u : Unit {0}}
      → AllKeepers Inv ms
      → Inv s.world
      → (replay sink point ms p s).0 ≡ ok u
      → HasCheckerIn Inv decide ms
      → Passes p
  replay-Passes [] p s k i h c = absurd c
  replay-Passes (m ∷ ms) p s k i h (inl c) = elim (yes_or_no p) [
    | inl a ↦ a
    | inr d ↦ absurd (replay-deny m ms p s c i d h)
  ]
  replay-Passes (m ∷ ms) p s (k, ks) i h (inr c) =
      let (s', i', h') = replay-tail m ms p s k i h in replay-Passes ms p s' ks i' h' c

  pub not_modify : (p : HookPayload) → (decide p).action ≢ modify
  not_modify p h = elim (yes_or_no p) [ inl a ↦ cc | inr d ↦ cc ]
