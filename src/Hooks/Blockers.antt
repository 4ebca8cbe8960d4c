-- ===== src/Hooks/Blockers.antt =====
-- hooks/blockers.py: the blockers. Times are in milliseconds, and `W` is the world that has the clock.
use first_agent_dev.Prelude.{
  ℕ, ◌+◌, ◌-◌, ℤ, pos, negsuc, String, Bool, false, ◌||◌, Option, none, some, List, [], ◌∷◌, any,
  str_eq, concat, leb, ◌==◌, if◌then◌else◌,
}
use first_agent_dev.Hooks.Types.{
  value_error, Result, ok, raise, LifecyclePoint, before_tool_exec, after_tool_exec, ToolError,
  ToolResult, ToolCall, HookPayload, Decision, allowed, deny_with,
}

pub data BlockerCategory : Type 0 where
  rate_limit lockfile auth_expired : BlockerCategory

unfoldable pub category_text : BlockerCategory → String
category_text rate_limit = "rate_limit"
category_text lockfile = "lockfile"
category_text auth_expired = "auth_expired"

-- The searches of the three regular expressions, and `f"{seconds:.1f}"` of a number of milliseconds.
pub record Matching : Type 0 where
  pub rate_limit_message : String → Bool
  pub lockfile_message : String → Bool
  pub auth_expired_message : String → Bool
  pub tenths : ℕ → String

abbrev pub rate_limit_codes : List String
rate_limit_codes = "rate_limited" ∷ "rate_limit" ∷ "http_429" ∷ "too_many_requests" ∷ []

abbrev pub auth_expired_codes : List String
auth_expired_codes = "auth_expired" ∷ "unauthorized" ∷ "http_401" ∷ "token_expired" ∷ []

unfoldable pub detect_error : Matching → BlockerCategory → ToolError → Bool
detect_error m rate_limit e = any (str_eq e.code) rate_limit_codes || m.rate_limit_message e.message
detect_error m lockfile e = m.lockfile_message e.message
detect_error m auth_expired e =
    any (str_eq e.code) auth_expired_codes || m.auth_expired_message e.message

-- `_detect` of the three subclasses
unfoldable pub detect : Matching → BlockerCategory → ToolResult → Bool
detect m category r = elim r.error [ none ↦ false | some e ↦ detect_error m category e ]

pub record Blocker : Type 0 where
  pub category : BlockerCategory
  pub suppression : ℕ
  pub observed_at : List (String × ℕ)

-- The class attributes: 30 and 5 seconds, and none for `AuthExpiredBlocker`, which only observes.
unfoldable pub default_suppression : BlockerCategory → ℕ
default_suppression rate_limit = 30000
default_suppression lockfile = 5000
default_suppression auth_expired = 0

-- `__init__`, with the argument `suppression_seconds`
unfoldable pub new_blocker : BlockerCategory → Option ℤ → Result Blocker
unfolding default_suppression
new_blocker category none =
    ok
      (record { category = category; suppression = default_suppression category; observed_at = [] })
new_blocker category (some (pos n)) =
    ok (record { category = category; suppression = n; observed_at = [] })
new_blocker category (some (negsuc n)) = raise (value_error "suppression_seconds must be >= 0")

-- a dictionary's `get` and assignment
unfoldable pub get_time : String → List (String × ℕ) → Option ℕ
get_time t [] = none
get_time t ((k, at) ∷ r) = if str_eq k t then some at else get_time t r

unfoldable pub set_time : String → ℕ → List (String × ℕ) → List (String × ℕ)
set_time t at [] = (t, at) ∷ []
set_time t at ((k, old) ∷ r) =
    let rest = set_time t at r in if str_eq k t then (k, at) ∷ r else (k, old) ∷ rest

abbrev pub block_reason : Matching → Blocker → String → ℕ → String
block_reason m b tool left = concat (
    category_text b.category
    ∷ " blocker active for "
    ∷ tool
    ∷ ": "
    ∷ m.tenths left
    ∷ "s remaining in suppression window"
    ∷ [])

module _ {W : Type 0} (matching : Matching) (time_source : W → ℕ × W) where
  -- `_observe` on a call and its result
  unfoldable pub observe_result : ToolCall → ToolResult → Blocker × W → Blocker × W
  observe_result c r (b, w) =
      let (now, w') = time_source w in
      if detect matching b.category r
      then (record b { observed_at = set_time c.name now b.observed_at }, w')
      else (b, w)

  unfoldable pub observe : HookPayload → Blocker × W → Blocker × W
  observe p s = elim p.tool_call [
    | none ↦ s
    | some c ↦ elim p.tool_result [ none ↦ s | some r ↦ observe_result c r s ]
  ]

  -- `_gate` on a call that has been observed at a time; `elapsed >= suppression` without the difference
  unfoldable pub gate_since : ToolCall → ℕ → Blocker × W → Result Decision × (Blocker × W)
  gate_since c at (b, w) =
      let (now, w') = time_source w in
      if leb (at + b.suppression) now
      then (ok allowed, (b, w'))
      else (deny_with (block_reason matching b c.name (at + b.suppression - now)), (b, w'))

  unfoldable pub gate : HookPayload → Blocker × W → Result Decision × (Blocker × W)
  gate p (b, w) = if b.suppression == 0 then (ok allowed, (b, w)) else (elim p.tool_call [
    | none ↦ (ok allowed, (b, w))
    | some c ↦ elim (get_time c.name b.observed_at) [
      | none ↦ (ok allowed, (b, w))
      | some at ↦ gate_since c at (b, w)
    ]
  ])

  unfoldable pub handle_blocker :
      LifecyclePoint → HookPayload → Blocker × W → Result Decision × (Blocker × W)
  handle_blocker before_tool_exec p s = gate p s
  handle_blocker after_tool_exec p s = (ok allowed, observe p s)
  handle_blocker _ p s = (ok allowed, s)
