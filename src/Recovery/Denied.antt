-- ===== src/Recovery/Denied.antt =====
-- recovery/classify.py with loop.py: what a round of calls leads to when a guard has denied a call.
use mathlib.Core.Path.{subst, subst⁻¹}
use first_agent_dev.Prelude.{
  String, ◌≡◌, refl, sym, ap, ◌∙◌, Bool, true, false, Option, none, some, truthy, List, [], ◌∷◌,
  ◌++◌, all, not, ◌⊎◌, Option-cases, Bool-cases, inl, inr,
}
use first_agent_dev.Hooks.Types.{ok, before_tool_exec, ToolError, ToolResult, ToolCall, HookPayload}
use first_agent_dev.Hooks.Registry.{Run}
use first_agent_dev.Hooks.Cases.{ok_inj}
use first_agent_dev.Session.Types.{
  Session, StopInfo, Tried, refused, returned, crashed, failure, fail,
  default_tool_result_for_denial, record_tool_call,
}
use first_agent_dev.Session.Execute.{
  Outcome, Setting, new_payload, try_hooks, on_denied, on_before, execute_one_sequential,
}
use first_agent_dev.Recovery.Classify.{
  FailureCategory, policy_denied, unknown, code_to_category, keyword_to_category,
  category_of_message, escalate, RecoveryAction, category_of_code, category_for, category_to_action,
  classify, classify_result,
}

abbrev pub escalation : String → String → RecoveryAction
escalation target reason = record {
  kind = escalate;
  category = policy_denied;
  target = target;
  reason = reason;
  retryable = false;
}

module _ (lower : String → String) (includes : String → String → Bool) where
  failure-escalates :
      (reason target : String)
      → classify_result lower includes (failure "hook_deny" reason) target
        ≡ some (escalation target reason)
  unfolding classify_result classify category_for category_to_action category_of_code
  failure-escalates reason target = refl

  module _ {U : Type 0} (setting : Setting U) where
    on_denied-escalates :
        (c : ToolCall) (reason target : String) (s : Run (Session U)) {r : ToolResult}
        {stop : Option StopInfo}
        → (on_denied setting c (default_tool_result_for_denial reason) s).0 ≡ ok (r, stop)
        → (stop ≡ none)
          × (classify_result lower includes r target ≡ some (escalation target reason))
    unfolding on_denied fail
    on_denied-escalates c reason target s {r} {stop} h = elim (Bool-cases (truthy reason)) [
      | inr n ↦ cc (rw (n, fail) at h)
      | inl y ↦
          let same : ◌≡◌ {A = ToolResult × Option StopInfo} (failure "hook_deny" reason, none)
              (r, stop) =
            ok_inj (rw (y, fail) at h) in
          (
            sym (ap (λ x. x.1) same),
            subst (λ x. classify_result lower includes x target ≡ some (escalation target reason))
                (ap (λ x. x.0) same) (failure-escalates reason target),
          )
    ]

    on_before-refused :
        (c : ToolCall) (reason : String) (t : Tried HookPayload × Run (Session U))
        → t.0 ≡ refused reason
        → on_before setting c t ≡ on_denied setting c (default_tool_result_for_denial reason) t.1
    unfolding on_before
    on_before-refused c reason (returned p, s) e = cc
    on_before-refused c reason (crashed x, s) e = cc
    on_before-refused c reason (refused r, s) e =
        let same : r ≡ reason = cc in
        ap (λ x. on_denied setting c (default_tool_result_for_denial x) s) same

    -- A call that a guard denies before it runs does not stop the round, and its result is always
    -- classified as a denial by policy to escalate, with the guard's reason, whatever words that has.
    pub execute_one_sequential-escalates :
        (c : ToolCall) (s : Run (Session U)) (reason target : String) {r : ToolResult}
        {stop : Option StopInfo}
        → (try_hooks setting before_tool_exec
            (new_payload (some c) setting.role setting.acting_family)
            (record_tool_call c s)).0
          ≡ refused reason
        → (execute_one_sequential setting c s).0 ≡ ok (r, stop)
        → (stop ≡ none)
          × (classify_result lower includes r target ≡ some (escalation target reason))
    unfolding execute_one_sequential on_before
    execute_one_sequential-escalates c s reason target denied h =
        on_denied-escalates c reason target _ (
          ap (λ (o : Outcome U (ToolResult × Option StopInfo)). o.0)
            (sym (
              on_before-refused c reason
                (try_hooks setting before_tool_exec
                  (new_payload (some c) setting.role setting.acting_family) (record_tool_call c s))
                denied))
          ∙ h)

  -- the first keyword of a table that a message has
  abbrev pub FirstMatch : String → FailureCategory → List (String × FailureCategory) → Type 0
  FirstMatch message c m =
      (pre : List (String × FailureCategory)) × (keyword : String) × (post : List
        (String × FailureCategory))
      × (m ≡ pre ++ (keyword, c) ∷ post)
      × (includes keyword message ≡ true)
      × (all (λ kc. not (includes kc.0 message)) pre ≡ true)

  abbrev pub Matched : String → FailureCategory → List (String × FailureCategory) → Type 0
  Matched message c m =
      FirstMatch message c m ⊎ ((c ≡ unknown) × (all (λ kc. not (includes kc.0 message)) m ≡ true))

  skip-Matched :
      (message keyword : String) (d c : FailureCategory) (m : List (String × FailureCategory))
      → includes keyword message ≡ false
      → Matched message c m
      → Matched message c ((keyword, d) ∷ m)
  skip-Matched message keyword d c m n (inl (pre, k, post, e, y, none_before)) =
      inl ((keyword, d) ∷ pre, k, post, ap (λ r. (keyword, d) ∷ r) e, y, rw (n, none_before) refl)
  skip-Matched message keyword d c m n (inr (e, a)) = inr (e, rw (n, a) refl)

  category_of_message-Matched :
      (message : String) (m : List (String × FailureCategory))
      → Matched message (category_of_message lower includes message m) m
  unfolding category_of_message
  category_of_message-Matched message [] = inr (refl, refl)
  category_of_message-Matched message ((keyword, c) ∷ r) =
      elim (Bool-cases (includes keyword message)) [
        | inl y ↦
            subst⁻¹ (λ x. Matched message x ((keyword, c) ∷ r))
              (let first : category_of_message lower includes message ((keyword, c) ∷ r) ≡ c =
                  rw (y, category_of_message) refl in
                first)
              (inl ([], keyword, r, refl, y, refl))
        | inr n ↦
            subst⁻¹ (λ x. Matched message x ((keyword, c) ∷ r))
              (let later : category_of_message lower includes message ((keyword, c) ∷ r)
                    ≡ category_of_message lower includes message r =
                  rw (n, category_of_message) refl in
                later)
              (skip-Matched message keyword c _ r n (category_of_message-Matched message r))
      ]

  -- An error with a code of the table is of the category that the table gives the code; any other is of
  -- the category of the first keyword of the ordered list that its lower-case message has, or unknown
  -- when it has none.
  pub category_for-Matched :
      (e : ToolError)
      → (category_of_code e.code code_to_category ≡ some (category_for lower includes e))
        ⊎ ((category_of_code e.code code_to_category ≡ none)
            × Matched (lower e.message) (category_for lower includes e) keyword_to_category)
  unfolding category_for
  category_for-Matched e = elim (Option-cases (category_of_code e.code code_to_category)) [
    | inr (c, q) ↦ inl (
        q
        ∙ ap some
            (let direct : c ≡ category_for lower includes e = rw (q, category_for) refl in direct))
    | inl n ↦ inr (
      n,
      subst⁻¹ (λ x. Matched (lower e.message) x keyword_to_category)
          (let indirect : category_for lower includes e
                ≡ category_of_message lower includes (lower e.message) keyword_to_category =
              rw (n, category_for) refl in
            indirect)
          (category_of_message-Matched (lower e.message) keyword_to_category),
    )
  ]
