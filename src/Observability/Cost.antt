-- ===== src/Observability/Cost.antt =====
-- observability/cost_guardian.py: `CostGuardian`. Python's floats and its texts are parameters.
use first_agent_dev.Prelude.{
  ℕ, ◌+◌, ℤ, pos, negsuc, String, Bool, not, ◌&&◌, Option, none, some, List, [], ◌∷◌, ◌++◌, str_eq,
  concat, show, if◌then◌else◌,
}
use first_agent_dev.Hooks.Types.{
  value_error, Result, ok, raise, LifecyclePoint, before_tool_exec, after_tool_exec, ToolResult,
  ToolCall, HookPayload, Decision, allowed, deny_with,
}

-- `float`, with the operations that the guardian uses
pub record Floats : Type 1 where
  pub Float : Type 0
  pub zero : Float
  pub plus : Float → Float → Float
  pub greater : Float → Float → Bool
  pub is_finite : Float → Bool
  -- `f"{x:.6f}"`
  pub six_digits : Float → String

-- What the extractor does with texts: `raw[len(PREFIX):]` if `raw.startswith(PREFIX)`, `split(",")`,
-- `partition("=")` where there is a `=`, `strip`, and `int` and `float`, which may fail.
pub record Parsing (F : Floats) : Type 0 where
  pub without_prefix : String → Option String
  pub split_commas : String → List String
  pub partition : String → Option (String × String)
  pub strip : String → String
  pub int_of : String → Option ℤ
  pub float_of : String → Option F.Float
  -- `f"{name!r}"`
  pub quoted : String → String

module _ (F : Floats) where
  pub record CostObservation : Type 0 where
    pub tokens_in : ℕ
    pub tokens_out : ℕ
    pub usd : F.Float

  -- a finite number that is not negative
  abbrev pub is_amount : F.Float → Bool
  is_amount x = F.is_finite x && not (F.greater F.zero x)

  -- `CostObservation(...)` with its checks
  unfoldable pub new_observation : ℤ → ℤ → F.Float → Result CostObservation
  new_observation (negsuc _) _ _ = raise (value_error "tokens_in must be >= 0")
  new_observation (pos i) (negsuc _) _ = raise (value_error "tokens_out must be >= 0")
  new_observation (pos i) (pos o) usd =
      if not (F.is_finite usd)
      then raise (value_error "usd must be a finite number (not NaN/Inf)")
      else if F.greater F.zero usd
      then raise (value_error "usd must be >= 0")
      else ok (record { tokens_in = i; tokens_out = o; usd = usd })

  pub record CostRollup : Type 0 where
    pub tokens_in : ℕ
    pub tokens_out : ℕ
    pub usd : F.Float
    pub samples : ℕ

  abbrev pub empty_rollup : CostRollup
  empty_rollup = record { tokens_in = 0; tokens_out = 0; usd = F.zero; samples = 0 }

  unfoldable pub add_observation : CostObservation → CostRollup → CostRollup
  add_observation o r = record {
    tokens_in = r.tokens_in + o.tokens_in;
    tokens_out = r.tokens_out + o.tokens_out;
    usd = F.plus r.usd o.usd;
    samples = r.samples + 1;
  }

  module _ (P : Parsing F) where
    -- `fields`, the newest first, and its `get`
    unfoldable pub cost_fields : List String → List (String × String) → List (String × String)
    cost_fields [] fields = fields
    cost_fields (pair ∷ r) fields = elim (P.partition pair) [
      | none ↦ cost_fields r fields
      | some kv ↦ cost_fields r ((P.strip kv.0, P.strip kv.1) ∷ fields)
    ]

    unfoldable pub cost_field : String → List (String × String) → String
    cost_field key [] = "0"
    cost_field key ((k, v) ∷ r) = if str_eq k key then v else cost_field key r

    -- the `try`: none for an artifact that is skipped
    abbrev valid_observation : Result CostObservation → Option CostObservation
    valid_observation (ok o) = some o
    valid_observation (raise _) = none

    unfoldable pub parse_numbers : Option ℤ → Option ℤ → Option F.Float → Option CostObservation
    unfolding new_observation
    parse_numbers (some i) (some o) (some usd) = valid_observation (new_observation i o usd)
    parse_numbers _ _ _ = none

    unfoldable pub parse_artifact : String → Option CostObservation
    unfolding cost_fields cost_field parse_numbers
    parse_artifact body =
        let fields = cost_fields (P.split_commas body) [] in
        parse_numbers (P.int_of (cost_field "tokens_in" fields))
          (P.int_of (cost_field "tokens_out" fields)) (P.float_of (cost_field "usd" fields))

    abbrev keep : Option CostObservation → List CostObservation → List CostObservation
    keep none r = r
    keep (some o) r = o ∷ r

    unfoldable pub extract_from : List String → List CostObservation
    unfolding parse_artifact
    extract_from [] = []
    extract_from (raw ∷ r) =
        let rest = extract_from r in
        elim (P.without_prefix raw) [ none ↦ rest | some body ↦ keep (parse_artifact body) rest ]

    unfoldable pub default_cost_extractor : ToolResult → List CostObservation
    unfolding extract_from
    default_cost_extractor r = extract_from r.artifacts

  -- A row of kind `cost_observation`: the observation, the rollup after it, the call's name and id.
  pub record CostRow : Type 0 where
    pub sample : CostObservation
    pub rollup : CostRollup
    pub tool_name : String
    pub tool_call_id : String

  -- The guardian, with the rows that it has appended to its log.
  pub record CostGuardian : Type 0 where
    pub budget_usd : Option F.Float
    pub extractor : ToolResult → List CostObservation
    pub has_log : Bool
    pub rollup : CostRollup
    pub rows : List CostRow

  -- `__init__`
  unfoldable pub new_guardian :
      Option F.Float → (ToolResult → List CostObservation) → Bool → Result CostGuardian
  new_guardian none extractor has_log = ok (record {
    budget_usd = none;
    extractor = extractor;
    has_log = has_log;
    rollup = empty_rollup;
    rows = [];
  })
  new_guardian (some budget) extractor has_log =
      if not (F.is_finite budget)
      then raise (value_error "budget_usd must be a finite number (not NaN/Inf)")
      else if F.greater F.zero budget
      then raise (value_error "budget_usd must be None or >= 0 (0 = observe-only)")
      else ok (record {
        budget_usd = some budget;
        extractor = extractor;
        has_log = has_log;
        rollup = empty_rollup;
        rows = [];
      })

  -- the loop of `_observe`
  abbrev call_texts : Option ToolCall → String × String
  call_texts none = ("", "")
  call_texts (some c) = (c.name, c.call_id)

  unfoldable pub observe_all : Option ToolCall → List CostObservation → CostGuardian → CostGuardian
  unfolding add_observation
  observe_all c [] g = g
  observe_all c (o ∷ os) g =
      let rollup = add_observation o g.rollup in
      let row : CostRow = record {
        sample = o;
        rollup = rollup;
        tool_name = (call_texts c).0;
        tool_call_id = (call_texts c).1;
      } in
      observe_all c os
        (record g { rollup = rollup; rows = if g.has_log then g.rows ++ row ∷ [] else g.rows })

  unfoldable pub observe_cost : HookPayload → CostGuardian → CostGuardian
  unfolding observe_all
  observe_cost p g = elim p.tool_result [
    | none ↦ g
    | some r ↦ observe_all p.tool_call (g.extractor r) g
  ]

  module _ (P : Parsing F) where
    abbrev pub over_budget_reason : Option ToolCall → F.Float → CostRollup → String
    over_budget_reason c budget r = concat (
        "CostGuardian: session usd "
        ∷ F.six_digits r.usd
        ∷ " exceeds budget "
        ∷ F.six_digits budget
        ∷ " (samples="
        ∷ show r.samples
        ∷ "; next call to "
        ∷ P.quoted (call_texts c).0
        ∷ " denied)"
        ∷ [])

    unfoldable pub gate_cost : HookPayload → CostGuardian → Result Decision
    gate_cost p g = elim g.budget_usd [
      | none ↦ ok allowed
      | some budget ↦
          if not (F.greater budget F.zero)
          then ok allowed
          else if F.greater g.rollup.usd budget
          then deny_with (over_budget_reason p.tool_call budget g.rollup)
          else ok allowed
    ]

    unfoldable pub handle_cost :
        LifecyclePoint → HookPayload → CostGuardian → Result Decision × CostGuardian
    unfolding gate_cost observe_cost
    handle_cost before_tool_exec p g = (gate_cost p g, g)
    handle_cost after_tool_exec p g = (ok allowed, observe_cost p g)
    handle_cost _ p g = (ok allowed, g)
