-- ===== src/Hooks/Keeps.antt =====
-- hooks/base.py: what every middleware keeps, a dispatch keeps.
use first_agent_dev.Prelude.{
  String, ◌≡◌, Bool, true, false, Option, none, some, inl, inr, List, [], ◌∷◌, ◌++◌, Option-cases,
  Bool-cases, concat,
}
use first_agent_dev.Hooks.Types.{
  Result, ok, raise, LifecyclePoint, HookPayload, Action, allow, deny, modify, other, Decision,
  DispatchRecord,
}
use first_agent_dev.Hooks.Cases.{Result-cases, Action-cases}
use first_agent_dev.Hooks.Registry.{
  Handle, Observe, Middleware, HookRegistry, Run, middleware_name, ask, replay, record_step,
  on_replay, on_modify, on_action, on_answer, dispatch_from, dispatch,
}

module _ {W : Type 0} (Inv : W → Type 0) where
  -- A middleware that keeps an invariant of the state, whatever it answers.
  pub record IsKeeper (m : Middleware W) : Type 0 where
    pub handles :
        (handle : Handle W)
        → m.handle ≡ some handle
        → (point : LifecyclePoint) (p : HookPayload) (w : W) → Inv w
        → Inv (handle point p w).1
    pub observes :
        (observe : Observe W)
        → m.observe ≡ some observe
        → (point : LifecyclePoint) (p : HookPayload) (w : W) → Inv w
        → Inv (observe point p w).1

  abbrev pub AllKeepers : List (Middleware W) → Type 0
  AllKeepers [] = Unit {0}
  AllKeepers (m ∷ ms) = IsKeeper m × AllKeepers ms

  abbrev pub SinkKeeps : Option (DispatchRecord → HookPayload → W → W) → Type 0
  SinkKeeps none = Unit {0}
  SinkKeeps (some sink) = (d : DispatchRecord) (p : HookPayload) (w : W) → Inv w → Inv (sink d p w)

  pub AllKeepers-append :
      (ms ns : List (Middleware W)) → AllKeepers ms → AllKeepers ns → AllKeepers (ms ++ ns)
  AllKeepers-append [] ns h k = k
  AllKeepers-append (m ∷ ms) ns (h, hs) k = (h, AllKeepers-append ms ns hs k)

  -- an invariant of the state of a run
  abbrev pub Holds : Run W → Type 0
  Holds s = Inv s.world

  module _ (sink : Option (DispatchRecord → HookPayload → W → W)) (point : LifecyclePoint)
      (sinks : SinkKeeps sink) where
    pub record_step-Holds :
        (k : Option (DispatchRecord → HookPayload → W → W)) (d : DispatchRecord) (p : HookPayload)
        (s : Run W)
        → SinkKeeps k
        → Holds s
        → Holds (record_step k d p s)
    unfolding record_step
    record_step-Holds none d p s k h = h
    record_step-Holds (some f) d p s k h = k d p s.world h

    pub ask-Holds :
        (name : String) (handle : Handle W) (p : HookPayload) (s : Run W)
        → ((q : HookPayload) (w : W) → Inv w → Inv (handle point q w).1)
        → Holds s
        → Holds (ask sink point name handle p s).1
    unfolding ask
    ask-Holds name handle p s k h =
        let h' = k p s.world h in
        elim (Result-cases (handle point p s.world).0) [
          | inl (d, e) ↦ rw (e, ask) (record_step-Holds sink _ p _ sinks h')
          | inr (x, e) ↦ rw (e, ask) h'
        ]

    pub replay-Holds :
        (ms : List (Middleware W)) (p : HookPayload) (s : Run W)
        → AllKeepers ms
        → Holds s
        → Holds (replay sink point ms p s).1
    unfolding replay
    replay-Holds [] p s k h = h
    replay-Holds (m ∷ ms) p s (k, ks) h = elim (Option-cases m.handle) [
      | inl n ↦ rw (n, replay) (replay-Holds ms p s ks h)
      | inr (handle, e) ↦ elim (Bool-cases m.revalidates_after_modify) [
        | inr n ↦ rw (e, n, replay) (replay-Holds ms p s ks h)
        | inl y ↦
            let name = concat (middleware_name m ∷ "@replay" ∷ []) in
            let asked = ask sink point name handle p s in
            let h' = ask-Holds name handle p s (k.handles handle e point) h in
            elim (Result-cases asked.0) [
              | inr (x, q) ↦ rw (e, y, replay) (rw q h')
              | inl (d, q) ↦ elim (Action-cases d.action) [
                | inl a ↦ rw (e, y, replay) (rw q (rw a (replay-Holds ms p asked.1 ks h')))
                | inr (inl a) ↦ rw (e, y, replay) (rw q (rw a h'))
                | inr (inr (inl a)) ↦ rw (e, y, replay) (rw q (rw a h'))
                | inr (inr (inr (t, a))) ↦
                    rw (e, y, replay) (rw q (rw a (replay-Holds ms p asked.1 ks h')))
              ]
            ]
      ]
    ]

    module _ (done : List (Middleware W)) (keepers : AllKeepers done)
        (onward : Bool → HookPayload → Run W → Result HookPayload × Run W)
        (rest : (b : Bool) (q : HookPayload) (s : Run W) → Holds s → Holds (onward b q s).1) where
      on_replay-Holds :
          (q : HookPayload) (r : Result (Unit {0}) × Run W)
          → Holds r.1
          → Holds (on_replay sink point done onward q r).1
      unfolding on_replay
      on_replay-Holds q (raise e, s) h = h
      on_replay-Holds q (ok u, s) h = rest true q s h

      on_modify-Holds :
          (mutated : Bool) (payload : Option HookPayload) (s : Run W)
          → Holds s
          → Holds (on_modify sink point done onward mutated payload s).1
      unfolding on_modify
      on_modify-Holds true payload s h = h
      on_modify-Holds false none s h = h
      on_modify-Holds false (some q) s h = on_replay-Holds q _ (replay-Holds done q s keepers h)

      on_action-Holds :
          (a : Action) (mutated : Bool) (p : HookPayload) (d : Decision) (s : Run W)
          → Holds s
          → Holds (on_action sink point done onward a mutated p d s).1
      unfolding on_action
      on_action-Holds allow mutated p d s h = rest mutated p s h
      on_action-Holds deny mutated p d s h = h
      on_action-Holds modify mutated p d s h = on_modify-Holds mutated d.payload s h
      on_action-Holds (other t) mutated p d s h = h

      on_answer-Holds :
          (mutated : Bool) (p : HookPayload) (r : Result Decision × Run W)
          → Holds r.1
          → Holds (on_answer sink point done onward mutated p r).1
      unfolding on_answer
      on_answer-Holds mutated p (raise e, s) h = h
      on_answer-Holds mutated p (ok d, s) h = on_action-Holds d.action mutated p d s h

    dispatch_from-Holds :
        (done ms : List (Middleware W)) (mutated : Bool) (p : HookPayload) (s : Run W)
        → AllKeepers done
        → AllKeepers ms
        → Holds s
        → Holds (dispatch_from sink point done ms mutated p s).1
    unfolding dispatch_from
    dispatch_from-Holds done [] mutated p s d k h = h
    dispatch_from-Holds done (m ∷ ms) mutated p s d (k, ks) h =
        let onward = dispatch_from sink point (done ++ m ∷ []) ms in
        let rest : (b : Bool) (q : HookPayload) (s' : Run W) → Holds s' → Holds (onward b q s').1 =
          λ b q s'.
            dispatch_from-Holds (done ++ m ∷ []) ms b q s'
              (AllKeepers-append done (m ∷ []) d (k, tt)) ks in
        elim (Option-cases m.handle) [
          | inr (handle, e) ↦
              rw (e, dispatch_from)
                (on_answer-Holds done d onward rest mutated p _
                  (ask-Holds (middleware_name m) handle p s (k.handles handle e point) h))
          | inl n ↦ elim (Option-cases m.observe) [
            | inl o ↦ rw (n, o, dispatch_from) h
            | inr (observe, o) ↦
                rw (n, o, dispatch_from)
                  (rest mutated p _
                    (record_step-Holds sink _ p _ sinks (k.observes observe o point p s.world h)))
          ]
        ]

  pub dispatch-Holds :
      (reg : HookRegistry W) (point : LifecyclePoint) (p : HookPayload) (s : Run W)
      → SinkKeeps reg.event_sink
      → AllKeepers (reg.chains point)
      → Holds s
      → Holds (dispatch reg point p s).1
  unfolding dispatch
  dispatch-Holds reg point p s sinks k h =
      dispatch_from-Holds reg.event_sink point sinks [] (reg.chains point) false p s tt k h
