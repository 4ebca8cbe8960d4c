-- ===== src/Workflow/Controller.antt =====
-- workflow_controller.py: the configuration of a run, its environment, and one stage.
use first_agent_dev.Prelude.{
  ℕ, String, Bool, true, false, Option, none, some, List, [], ◌∷◌, any, str_eq, truthy, concat,
  if◌then◌else◌,
}
use first_agent_dev.Hooks.Types.{Entries}
use first_agent_dev.Workflow.Artifacts.{EvalVerdict, EvalReport, FlowState, FlowStatus}
use first_agent_dev.Workflow.Parse.{Patterns}

-- The roles that a stage may run as; the source's are texts.
pub data Role : Type 0 where
  planner coder eval : Role
  other : String → Role

abbrev pub role_text : Role → String
role_text planner = "planner"
role_text coder = "coder"
role_text eval = "eval"
role_text (other s) = s

-- `a == b` on roles
abbrev pub same : Role → Role → Bool
same planner planner = true
same coder coder = true
same eval eval = true
same (other s) (other t) = str_eq s t
same _ _ = false

-- `role in roles`
abbrev pub has : Role → List Role → Bool
has r = any (same r)

abbrev pub deadline_exit_code : ℕ
deadline_exit_code = 124

abbrev pub deadline_marker : String
deadline_marker = "workflow deadline exceeded"

abbrev pub default_max_repairs : ℕ
default_max_repairs = 2

abbrev pub max_repairs_ceiling : ℕ
max_repairs_ceiling = 3

abbrev pub default_max_replans : ℕ
default_max_replans = 1

abbrev pub max_replans_ceiling : ℕ
max_replans_ceiling = 2

-- `WorkflowContext`: what every stage shares. Paths, transport and secrets are only handed on.
pub record Context : Type 0 where
  pub run_id : String
  pub base_task : Option String
  pub per_role_task : Role → Option String
  pub deadline_mono : Option ℕ
  pub plan_path : Option String

pub record Progress : Type 0 where
  pub plan_version : ℕ
  pub repair_round : ℕ
  pub replan_round : ℕ

abbrev pub start : Progress
start = record { plan_version = 1; repair_round = 0; replan_round = 0 }

-- The arguments of `run_stage_fn` that differ between stages.
pub record StageArgs : Type 0 where
  pub role : Role
  pub task : Option String
  pub resume : Bool

-- What a stage leaves: its exit code, and the final texts that it put in its `outcome_sink`.
pub record StageOutcome : Type 0 where
  pub code : ℕ
  pub sink : List String

pub record StageResult : Type 0 where
  pub role : Role
  pub exit_code : ℕ
  pub eval_report : Option EvalReport

-- What surrounds the controller, over a world `W`.
pub record Env (W : Type 0) : Type 0 where
  -- `time.monotonic()`
  pub monotonic : W → ℕ × W
  -- `run_stage_fn`
  pub run_stage_fn : StageArgs → W → StageOutcome × W
  -- `plan_path.read_text()`, `none` on an `OSError`
  pub read_text : String → W → Option String
  -- `_eval_evidence_block`
  pub evidence_block : W → String
  -- `_eval_independence_mapping` of the loaded configuration, `none` when it cannot be loaded
  pub eval_independence : W → Option Entries
  -- whether `load_flow_state` can read back what was written
  pub readable : W → Bool
  -- `plan_ids.extract_plan_id`, `extract_plan_ids(…).slices`, `canonical_slice_id`
  pub extract_plan_id : String → Option String
  pub extract_slices : String → List String
  pub canonical_slice_id : String → String
  -- the patterns of workflow_artifacts.py
  pub patterns : Patterns

-- The two artifacts on disk, and the calls of `run_stage_fn` so far.
pub record State (W : Type 0) : Type 0 where
  pub world : W
  pub flow_state : Option FlowState
  pub eval_report : Option EvalReport
  pub calls : List StageArgs

unfoldable pub status_for_role : Role → FlowStatus
status_for_role planner = FlowStatus.planning
status_for_role coder = FlowStatus.coding
status_for_role eval = FlowStatus.evaluating
status_for_role (other _) = FlowStatus.coding

unfoldable pub terminal_status : EvalVerdict → FlowStatus
terminal_status EvalVerdict.pass = FlowStatus.done
terminal_status EvalVerdict.repair_required = FlowStatus.repair_required
terminal_status EvalVerdict.replan_required = FlowStatus.replan_required
terminal_status EvalVerdict.blocked = FlowStatus.failed

unfoldable pub terminal_status_without_eval : Bool → FlowStatus × String
terminal_status_without_eval true = (FlowStatus.failed, "eval stage produced no verdict")
terminal_status_without_eval false = (FlowStatus.done, "")

-- `value or default`
abbrev pub or_default : Option String → Option String → Option String
or_default none d = d
or_default (some s) d = if truthy s then some s else d

unfoldable pub task_for : Context → Role → Option String
task_for ctx r = or_default (ctx.per_role_task r) ctx.base_task

abbrev pub text_or : Option String → String → String
text_or none d = d
text_or (some s) d = s

-- `text or default`
abbrev pub text_unless_empty : Option String → String → String
text_unless_empty none d = d
text_unless_empty (some s) d = if truthy s then s else d

abbrev pub with_evidence : Option String → String → Option String
with_evidence task evidence =
    if truthy evidence
    then (elim task [
      | none ↦ some evidence
      | some t ↦ if truthy t then some (concat (t ∷ "\n\n" ∷ evidence ∷ [])) else some evidence
    ])
    else task
