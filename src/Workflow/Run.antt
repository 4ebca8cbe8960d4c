-- ===== src/Workflow/Run.antt =====
-- workflow_controller.py: `run_workflow` and what it makes of the artifact that is left. The
-- best-effort export to the global history is left out.
use first_agent_dev.Prelude.{
  and_return, ℕ, String, Bool, true, false, Option, none, some, List, [], ◌∷◌, concat, ◌==◌, str_eq,
  if◌then◌else◌,
}
use first_agent_dev.Workflow.Artifacts.{FlowState, FlowStatus}
use first_agent_dev.Workflow.Controller.{Role, role_text, Context, start, Env, State}
use first_agent_dev.Workflow.Stage.{flow}
use first_agent_dev.Workflow.Modes.{Done, rounds, run_adaptive, run_linear}

module _ {W : Type 0} (env : Env W) (ctx : Context) where
  -- `none` where the artifact cannot be read, or is another run's
  unfoldable pub read_back_terminal_state : State W → Option FlowState
  read_back_terminal_state s =
      if env.readable s.world
      then (elim s.flow_state [
        | none ↦ none
        | some f ↦ if str_eq f.run_id ctx.run_id then some f else none
      ])
      else none

abbrev pub is_done : FlowStatus → Bool
is_done FlowStatus.done = true
is_done _ = false

unfoldable pub workflow_exit_code : ℕ → Option FlowState → ℕ
workflow_exit_code code none = code
workflow_exit_code code (some f) = if code == 0 then (if is_done f.status then 0 else 1) else code

pub data Mode : Type 0 where
  linear adaptive : Mode

abbrev pub mode_text : Mode → String
mode_text linear = "linear"
mode_text adaptive = "adaptive"

-- What `run_workflow` returns, and the artifacts that it leaves.
pub record Outcome (W : Type 0) : Type 0 where
  pub exit_code : ℕ
  pub terminal : Option FlowState
  pub state : State W

module _ {W : Type 0} (env : Env W) (ctx : Context) where
  abbrev initial_status : Role → FlowStatus
  initial_status Role.planner = FlowStatus.planning
  initial_status _ = FlowStatus.plan_ready

  unfoldable pub initialized : Mode → Role → W → State W
  initialized mode first w = record {
    world = w;
    flow_state = some (
        flow ctx (initial_status first) (role_text first) start "workflow"
          (concat ("workflow initialized (mode=" ∷ mode_text mode ∷ ")" ∷ [])) "" "" true "");
    eval_report = none;
    calls = [];
  }

  unfoldable pub run_mode : Mode → List Role → ℕ → ℕ → State W → Option (Done W)
  run_mode adaptive roles max_repairs max_replans s =
      run_adaptive env ctx (rounds max_repairs max_replans) roles max_repairs max_replans s
  run_mode linear roles max_repairs max_replans s = some (run_linear env ctx roles s)

  unfoldable pub outcome : Done W → Outcome W
  outcome d =
      let terminal = read_back_terminal_state env ctx d.state in
      record {
        exit_code = workflow_exit_code d.code terminal;
        terminal = terminal;
        state = d.state;
      }

  -- The list of roles is `first ∷ rest`: the program reads `roles[0]`.
  unfoldable pub run_workflow : Mode → Role → List Role → ℕ → ℕ → W → Option (Outcome W)
  run_workflow mode first rest max_repairs max_replans w =
      and_return outcome
        (run_mode mode (first ∷ rest) max_repairs max_replans (initialized mode first w))
