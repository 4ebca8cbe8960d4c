-- ===== src/Hooks/Registry.antt =====
-- hooks/base.py: `HookRegistry`. The state `W` of the middlewares is threaded through their calls.
-- The chain of a point is fixed while it runs.
use first_agent_dev.Prelude.{
  ℕ, String, Bool, true, false, not, ◌&&◌, Option, none, some, is_some, List, [], ◌∷◌, ◌++◌, any,
  truthy, str_eq, concat, ◌==◌, if◌then◌else◌,
}
use first_agent_dev.Hooks.Types.{
  permission_error, runtime_error, type_error, value_error, Result, ok, raise, LifecyclePoint,
  same_point, HookPayload, Action, allow, deny, modify, other, Decision, decided, observed,
  observer_error_swallowed, DispatchRecord,
}

abbrev pub Handle : Type 0 → Type 0
Handle W = LifecyclePoint → HookPayload → W → Result Decision × W

-- An observer that raises gives the text of its exception.
abbrev pub Observe : Type 0 → Type 0
Observe W = LifecyclePoint → HookPayload → W → Option String × W

-- A middleware has a `handle` if it is a `GuardMiddleware`, and an `observe` if it is an
-- `ObserverMiddleware`.
pub record Middleware (W : Type 0) : Type 0 where
  pub identity : ℕ
  pub name : String
  pub class_name : String
  pub attaches_to : List LifecyclePoint
  pub uses_llm : Bool
  pub family : String
  pub revalidates_after_modify : Bool
  pub handle : Option (Handle W)
  pub observe : Option (Observe W)

-- The sink may raise; what it did to the state stays.
pub record HookRegistry (W : Type 0) : Type 0 where
  pub chains : LifecyclePoint → List (Middleware W)
  pub registered : List ℕ
  pub event_sink : Option (DispatchRecord → HookPayload → W → W)

-- the state that a dispatch changes
pub record Run (W : Type 0) : Type 0 where
  pub world : W
  pub dispatch_trace : List DispatchRecord

-- `is_guard == is_observer`
abbrev same_bool : Bool → Bool → Bool
same_bool true true = true
same_bool false false = true
same_bool _ _ = false

abbrev attached : List LifecyclePoint → Bool
attached [] = false
attached (_ ∷ _) = true

module _ {W : Type 0} where
  unfoldable pub middleware_name : Middleware W → String
  middleware_name m = if truthy m.name then m.name else m.class_name

  abbrev validate_family : Middleware W → String → Result (Unit {0})
  validate_family m acting_family =
      if not m.uses_llm
      then ok tt
      else if not (truthy m.family)
      then raise (value_error "LLM-using middleware must declare family")
      else if truthy acting_family && str_eq m.family acting_family
      then raise (value_error "LLM-using middleware family must be disjoint")
      else ok tt

  unfoldable pub validate_middleware : Middleware W → String → Result (Unit {0})
  validate_middleware m acting_family =
      if same_bool (is_some m.handle) (is_some m.observe)
      then raise (type_error "middleware must subclass exactly one middleware base")
      else if not (attached m.attaches_to)
      then raise (value_error "middleware must attach to at least one lifecycle point")
      else validate_family m acting_family

  -- `for point in attaches_to: chains[point].append(m)`
  unfoldable pub attach :
      Middleware W
      → List LifecyclePoint
      → (LifecyclePoint → List (Middleware W))
      → LifecyclePoint
      → List (Middleware W)
  attach m [] chains q = chains q
  attach m (p ∷ ps) chains q =
      attach m ps (λ r. if same_point p r then chains r ++ m ∷ [] else chains r) q

  unfoldable pub register : Middleware W → String → HookRegistry W → Result (HookRegistry W)
  unfolding validate_middleware
  register m acting_family reg = elim (validate_middleware m acting_family) [
    | raise e ↦ raise e
    | ok _ ↦
        if any (λ i. i == m.identity) reg.registered
        then ok reg
        else ok (record reg {
          registered = m.identity ∷ reg.registered;
          chains = attach m m.attaches_to reg.chains;
        })
  ]

  -- `_record`
  unfoldable pub record_step :
      Option (DispatchRecord → HookPayload → W → W) → DispatchRecord → HookPayload → Run W → Run W
  record_step none d p s = record s { dispatch_trace = s.dispatch_trace ++ d ∷ [] }
  record_step (some sink) d p s = record {
    world = sink d p s.world;
    dispatch_trace = s.dispatch_trace ++ d ∷ [];
  }

  module _ (sink : Option (DispatchRecord → HookPayload → W → W)) (point : LifecyclePoint) where
    -- a guard answers, and its answer is recorded under `name`; an exception goes through unrecorded
    unfoldable pub ask : String → Handle W → HookPayload → Run W → Result Decision × Run W
    unfolding record_step
    ask name handle p s =
        let (r, w) = handle point p s.world in
        let s' = record s { world = w } in
        (elim r [
          | raise e ↦ (raise e, s')
          | ok d ↦ (
            ok d,
            record_step sink
                (record {
                  middleware = name;
                  point = point;
                  decision = decided d.action;
                  reason = d.reason;
                })
                p s',
          )
        ])

    -- `replayed` of the inner loop: a guard that asks for it runs again on the mutated payload
    unfoldable pub replay : List (Middleware W) → HookPayload → Run W → Result (Unit {0}) × Run W
    replay [] p s = (ok tt, s)
    replay (m ∷ ms) p s = elim m.handle [
      | some handle ↦ elim m.revalidates_after_modify [
        | false ↦ replay ms p s
        | true ↦
            let (r, s') = ask (concat (middleware_name m ∷ "@replay" ∷ [])) handle p s in
            elim r [
              | raise e ↦ (raise e, s')
              | ok d ↦ elim d.action [
                | deny ↦ (raise (permission_error d.reason), s')
                | modify ↦ (raise (runtime_error "hook_double_mutation"), s')
                | _ ↦ replay ms p s'
              ]
            ]
      ]
      | none ↦ replay ms p s
    ]

    unfoldable pub observation : Middleware W → Option String → DispatchRecord
    observation m none = record {
      middleware = middleware_name m;
      point = point;
      decision = observed;
      reason = "";
    }
    observation m (some text) = record {
      middleware = middleware_name m;
      point = point;
      decision = observer_error_swallowed;
      reason = text;
    }

    -- The branches of the loop on a guard's answer. `onward` is the rest of the chain, and `done` is
    -- `chain[:run_index]`.
    module _ (done : List (Middleware W))
        (onward : Bool → HookPayload → Run W → Result HookPayload × Run W) where
      unfoldable pub on_replay :
          HookPayload → Result (Unit {0}) × Run W → Result HookPayload × Run W
      on_replay p (raise e, s) = (raise e, s)
      on_replay p (ok _, s) = onward true p s

      unfoldable pub on_modify : Bool → Option HookPayload → Run W → Result HookPayload × Run W
      on_modify true payload s = (raise (runtime_error "hook_double_mutation"), s)
      on_modify false none s = (raise (runtime_error "hook_modify_without_payload"), s)
      on_modify false (some p) s = on_replay p (replay done p s)

      unfoldable pub on_action :
          Action → Bool → HookPayload → Decision → Run W → Result HookPayload × Run W
      on_action allow mutated p d s = onward mutated p s
      on_action deny mutated p d s = (raise (permission_error d.reason), s)
      on_action modify mutated p d s = on_modify mutated d.payload s
      on_action (other a) mutated p d s =
          (raise (runtime_error (concat ("unknown hook decision: " ∷ a ∷ []))), s)

      unfoldable pub on_answer :
          Bool → HookPayload → Result Decision × Run W → Result HookPayload × Run W
      on_answer mutated p (raise e, s) = (raise e, s)
      on_answer mutated p (ok d, s) = on_action d.action mutated p d s

    -- the `while` loop
    unfoldable pub dispatch_from :
        List (Middleware W)
        → List (Middleware W)
        → Bool
        → HookPayload
        → Run W
        → Result HookPayload × Run W
    dispatch_from done [] mutated p s = (ok p, s)
    dispatch_from done (m ∷ ms) mutated p s =
        let onward = dispatch_from (done ++ m ∷ []) ms in
        elim m.handle [
          | some handle ↦ on_answer done onward mutated p (ask (middleware_name m) handle p s)
          | none ↦ elim m.observe [
            | some observe ↦
                let (failed, w) = observe point p s.world in
                onward mutated p
                  (record_step sink (observation m failed) p (record s { world = w }))
            | none ↦ (
              raise (type_error (concat ("unsupported middleware type: " ∷ m.class_name ∷ []))),
              s,
            )
          ]
        ]

  unfoldable pub dispatch :
      HookRegistry W → LifecyclePoint → HookPayload → Run W → Result HookPayload × Run W
  dispatch reg point p s = dispatch_from reg.event_sink point [] (reg.chains point) false p s
