-- ===== src/Hooks/Confined.antt =====
-- What a dispatch with the sandbox hook in its chain lets through.
use first_agent_dev.Prelude.{
  String, ◌≡◌, refl, ap, ◌∙◌, true, false, Option, none, some, ◌⊎◌, inl, inr, List, [], ◌∷◌, ◌++◌,
  any, truthy, truthy-concat, str_eq, eq_iff, ◌||◌, ◌&&◌, and_true, Bool-cases, Option-cases,
  concat, if_split, ◌≢◌,
}
use first_agent_dev.Hooks.Types.{
  Result, ok, LifecyclePoint, before_tool_exec, ToolCall, HookPayload, get_entry, allow, deny,
  Decision, allowed, deny_with,
}
use first_agent_dev.Hooks.Cases.{ok_inj}
use first_agent_dev.Hooks.Registry.{Middleware, HookRegistry, Run, dispatch}
use first_agent_dev.Hooks.Keeps.{AllKeepers, SinkKeeps}
use first_agent_dev.Hooks.Recheck.{HasCheckerIn}
use first_agent_dev.Hooks.Passes.{dispatch-PassesIn}
use first_agent_dev.Hooks.Sandbox.{
  Disk, text_of, is_relative_to, is_contained, decision_of, escaping, handle_bash, handle_path,
  artifact_only, fs_path_tools, sandbox_call, handle_sandbox,
}

-- an answer that is a decision to allow or to deny
abbrev Answered : Result Decision → Type 0
Answered r = (d : Decision) × (r ≡ ok d) × ((d.action ≡ allow) ⊎ (d.action ≡ deny))

deny_with-Answered : (reason : String) → truthy reason ≡ true → Answered (deny_with reason)
unfolding deny_with
deny_with-Answered reason h =
    (record { action = deny; reason = reason; payload = none }, rw h refl, inr refl)

deny_with-not_allowed :
    (reason : String) (d : Decision) → deny_with reason ≡ ok d → d.action ≢ allow
unfolding deny_with
deny_with-not_allowed reason d h a = elim (Bool-cases (truthy reason)) [
  | inr n ↦ cc (rw n at h)
  | inl y ↦ let same : deny ≡ d.action = ap (λ (x : Decision). x.action) (ok_inj (rw y at h)) in cc
]

is_relative_to-append :
    (xs base : List String)
    → is_relative_to xs base ≡ true
    → (rest : List String) × (xs ≡ base ++ rest)
unfolding is_relative_to
is_relative_to-append xs [] h = (xs, refl)
is_relative_to-append [] (b ∷ bs) h = cc
is_relative_to-append (x ∷ xs) (b ∷ bs) h =
    let (e, k) = and_true (str_eq x b) _ h in
    let (rest, same) = is_relative_to-append xs bs k in (rest, rw ((eq_iff x b).0 e, same) refl)

module _ {W : Type 0} (disk : Disk W) (w : W) where
  -- A path without `..` that resolves to a place at or under the workspace.
  pub record Inside (path : String) : Type 0 where
    pub canonical : List String
    pub rest : List String
    pub direct : any (str_eq "..") (disk.parts path) ≡ false
    pub resolves : disk.resolve_against path w ≡ some canonical
    pub under : canonical ≡ disk.base w ++ rest

  is_contained-Inside : (path : String) → is_contained disk path w ≡ none → Inside path
  unfolding is_contained
  is_contained-Inside path h = elim (Bool-cases (any (str_eq "..") (disk.parts path))) [
    | inl y ↦ cc (rw (y, is_contained) at h)
    | inr n ↦ elim (Bool-cases (disk.has_dollar (disk.expandvars path w))) [
      | inl y ↦ cc (rw (n, y, is_contained) at h)
      | inr m ↦ elim (Option-cases (disk.resolve_against path w)) [
        | inl q ↦ cc (rw (n, m, q, is_contained) at h)
        | inr (canonical, q) ↦
            let h1 = rw (n, m, q, is_contained) at h in
            elim (Bool-cases (is_relative_to canonical (disk.base w))) [
              | inr k ↦ cc (rw k at h1)
              | inl k ↦
                  let (rest, same) = is_relative_to-append canonical (disk.base w) k in
                  record {
                    canonical = canonical;
                    rest = rest;
                    direct = n;
                    resolves = q;
                    under = same;
                  }
            ]
      ]
    ]
  ]

  decision_of-Allowed :
      (o : Option String) (d : Decision)
      → decision_of disk (escaping disk o) ≡ ok d
      → d.action ≡ allow
      → o ≡ none
  unfolding decision_of deny_with
  decision_of-Allowed none d h a = refl
  decision_of-Allowed (some reason) d h a =
      absurd (deny_with-not_allowed (concat ("path escapes workspace: " ∷ reason ∷ [])) d h a)

  handle_path-Inside :
      (o : Option String) (d : Decision)
      → handle_path disk o w ≡ ok d
      → d.action ≡ allow
      → (path : String) × (o ≡ some path) × Inside path
  unfolding handle_path deny_with
  handle_path-Inside none d h a =
      absurd (deny_with-not_allowed "path must be a non-empty string" d h a)
  handle_path-Inside (some path) d h a = elim (Bool-cases (truthy path)) [
    | inl y ↦ (
      path,
      refl,
      is_contained-Inside path
          (decision_of-Allowed (is_contained disk path w) d (rw (y, handle_path) at h) a),
    )
    | inr n ↦
        absurd
          (deny_with-not_allowed "path must be a non-empty string" d (rw (n, handle_path) at h) a)
  ]

  sandbox-call :
      (p : HookPayload) (c : ToolCall) (d : Decision)
      → p.tool_call ≡ some c
      → (handle_sandbox disk before_tool_exec p w).0 ≡ ok d
      → sandbox_call disk c w ≡ ok d
  unfolding handle_sandbox
  sandbox-call p c d call h = rw (call, handle_sandbox) at h

  write-Inside :
      (c : ToolCall) (d : Decision)
      → c.name ≡ "fs_write_file"
      → sandbox_call disk c w ≡ ok d
      → d.action ≡ allow
      → (path : String) × (text_of (get_entry "path" c.params) ≡ some path) × Inside path
  unfolding sandbox_call
  write-Inside c d name h a =
      handle_path-Inside (text_of (get_entry "path" c.params)) d (rw (name, sandbox_call) at h) a

  module _ (speaks : (c r : String) → disk.evaluate_bash c w ≡ some r → truthy r ≡ true) where
    handle_bash-Answered : (o : Option String) → Answered (handle_bash disk o w)
    unfolding handle_bash decision_of
    handle_bash-Answered none = deny_with-Answered "bash command must be a string" refl
    handle_bash-Answered (some c) = elim (Option-cases (disk.evaluate_bash c w)) [
      | inl n ↦ rw (n, handle_bash) (allowed, refl, inl refl)
      | inr (r, e) ↦ rw (e, handle_bash) (deny_with-Answered r (speaks c r e))
    ]

    handle_path-Answered : (o : Option String) → Answered (handle_path disk o w)
    unfolding handle_path decision_of
    handle_path-Answered none = deny_with-Answered "path must be a non-empty string" refl
    handle_path-Answered (some path) = elim (Bool-cases (truthy path)) [
      | inr n ↦ rw (n, handle_path) (deny_with-Answered "path must be a non-empty string" refl)
      | inl y ↦ elim (Option-cases (is_contained disk path w)) [
        | inl n ↦ rw (y, n, handle_path) (allowed, refl, inl refl)
        | inr (r, e) ↦
            rw (y, e, handle_path)
              (deny_with-Answered _ (truthy-concat "path escapes workspace: " (r ∷ []) (λ k. cc)))
      ]
    ]

    sandbox_call-Answered : (c : ToolCall) → Answered (sandbox_call disk c w)
    unfolding sandbox_call
    sandbox_call-Answered c =
        if_split Answered (str_eq c.name "fs_run_bash" || str_eq c.name "fs_spawn_subagent")
          (λ _. handle_bash-Answered (text_of (get_entry "command" c.params)))
          (λ _.
            if_split Answered (any (str_eq c.name) fs_path_tools)
              (λ _.
                if_split Answered (str_eq c.name "fs_read_file" && artifact_only disk c)
                  (λ _. (allowed, refl, inl refl))
                  (λ _. handle_path-Answered (text_of (get_entry "path" c.params))))
              (λ _. (allowed, refl, inl refl)))

    handle_sandbox-Answered :
        (p : HookPayload) → Answered (handle_sandbox disk before_tool_exec p w).0
    unfolding handle_sandbox
    handle_sandbox-Answered p = elim (Option-cases p.tool_call) [
      | inl n ↦ rw (n, handle_sandbox) (allowed, refl, inl refl)
      | inr (c, e) ↦ rw (e, handle_sandbox) (sandbox_call-Answered c)
    ]

    -- what the hook decides in the state `w`
    abbrev decides : HookPayload → Decision
    decides p = (handle_sandbox-Answered p).0

    -- a payload that the hook allows, with a call to write a file
    allowed-Inside :
        (p : HookPayload) (c : ToolCall)
        → (decides p).action ≡ allow
        → p.tool_call ≡ some c
        → c.name ≡ "fs_write_file"
        → (path : String) × (text_of (get_entry "path" c.params) ≡ some path) × Inside path
    allowed-Inside p c a call name =
        write-Inside c (decides p) name
          (sandbox-call p c (decides p) call (handle_sandbox-Answered p).1) a

  -- The sandbox hook as it stands in a chain of hooks.
  pub record IsSandbox (m : Middleware W) : Type 0 where
    pub handles : m.handle ≡ some (handle_sandbox disk)
    pub revalidates : m.revalidates_after_modify ≡ true

  abbrev pub HasSandbox : List (Middleware W) → Type 0
  HasSandbox [] = ⊥
  HasSandbox (m ∷ ms) = IsSandbox m ⊎ HasSandbox ms

  module _ (speaks : (c r : String) → disk.evaluate_bash c w ≡ some r → truthy r ≡ true)
      (Inv : W → Type 0)
      (steady : (point : LifecyclePoint) (p : HookPayload) (v : W)
        → Inv v
        → (handle_sandbox disk point p v).0 ≡ (handle_sandbox disk before_tool_exec p w).0) where
    HasSandbox-HasCheckerIn :
        (ms : List (Middleware W)) → HasSandbox ms → HasCheckerIn Inv (decides speaks) ms
    HasSandbox-HasCheckerIn [] h = absurd h
    HasSandbox-HasCheckerIn (m ∷ ms) (inr h) = inr (HasSandbox-HasCheckerIn ms h)
    HasSandbox-HasCheckerIn (m ∷ ms) (inl h) = inl (record {
      handle = handle_sandbox disk;
      handles = h.handles;
      answers = λ point p v i. steady point p v i ∙ (handle_sandbox-Answered speaks p).1;
      revalidates = h.revalidates;
    })

-- A call to write a file that comes out of a dispatch to the hooks before a tool, the sandbox hook
-- anywhere among them, however the middlewares have changed it, has a path without `..` that resolves,
-- in the state `w`, to a place at or under the workspace. The hook answers as in `w` in every state of
-- an invariant (the links of the workspace and the environment are as they were) that holds and that
-- the middlewares keep, and the bash gate gives a reason when it refuses.
pub dispatch-Inside :
    {W : Type 0} (disk : Disk W) (w : W) (Inv : W → Type 0)
    (speaks : (c r : String) → disk.evaluate_bash c w ≡ some r → truthy r ≡ true)
    (steady : (point : LifecyclePoint) (p : HookPayload) (v : W)
      → Inv v
      → (handle_sandbox disk point p v).0 ≡ (handle_sandbox disk before_tool_exec p w).0)
    (reg : HookRegistry W) (p : HookPayload) (s : Run W) {p' : HookPayload} (c : ToolCall)
    → SinkKeeps Inv reg.event_sink
    → AllKeepers Inv (reg.chains before_tool_exec)
    → HasSandbox disk w (reg.chains before_tool_exec)
    → Inv s.world
    → (dispatch reg before_tool_exec p s).0 ≡ ok p'
    → p'.tool_call ≡ some c
    → c.name ≡ "fs_write_file"
    → (path : String) × (text_of (get_entry "path" c.params) ≡ some path) × Inside disk w path
dispatch-Inside disk w Inv speaks steady reg p s {p'} c sinks keepers has i done call name =
    allowed-Inside disk w speaks p' c
      (dispatch-PassesIn Inv (decides disk w speaks)
        (λ q. (handle_sandbox-Answered disk w speaks q).2) reg before_tool_exec p s sinks keepers i
        done (HasSandbox-HasCheckerIn disk w speaks Inv steady (reg.chains before_tool_exec) has))
      call name
