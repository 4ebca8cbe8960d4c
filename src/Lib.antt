-- ===== src/Lib.antt =====
-- First-Agent: a model of the deterministic core of the agent harness under src/fa.
--
-- The harness runs a coding agent. Three parts of it decide what happens to a run, and they are
-- modelled here as functions that thread a state. `run_workflow` runs the stages planner, coder and
-- eval, reads the judgement of the last one and decides about another round. Inside a stage every
-- call of a tool goes through the middleware chain, in which guards allow, deny or change it; one of
-- them, the loop guard, stops a run that makes no progress, and the blockers hold back a tool for a
-- while after it has failed in a way that a repetition does not mend; the cost guardian denies every
-- call once the budget is spent. The session loop takes the calls that a model makes in one answer,
-- groups them into batches, and runs each call between two dispatches of that chain. Every call of a
-- model goes through the provider chain, which tries the configured providers in order. When a provider
-- asks for a break, the harness waits for a resume sentinel. A stage is a parameter of the workflow
-- (`run_stage_fn`, as in the program), so the workflow meets the other parts only in what a stage
-- returns.
--
-- Prelude: Boolean tests on numbers, lists measured by native numbers, texts, Python's int.
--
-- Workflow: src/fa/inner_loop/workflow_controller.py and workflow_artifacts.py.
--   Artifacts    the enumerations, `StepResult`, `EvalFinding`, `EvalReport`, `FlowState`
--   Parse        `parse_eval_report` with its scanners, over patterns for a line
--   Slices       `validate_slice_ids`, the check of the evaluator's slices against the plan
--   Json, Forms  `_as_str` to `_as_dict_list`; `to_json_dict` and `from_json_dict` of the artifacts
--   Controller   `WorkflowContext`, `WorkflowProgress`, `StageResult`, the surroundings (clock, stage
--                function, files, plan reader), `task_for`, the tables of states
--   Stage        `_run_stage`, `_deadline_exceeded`, `build_eval_report` and the artifacts' writers
--   Routes       the budgets, `_canonical_loop_roles`, what `_run_adaptive` does with a verdict
--   Modes        `_run_initial_roles`, `_run_linear`, `_run_adaptive`
--   Run          `read_back_terminal_state`, `workflow_exit_code`, `run_workflow`
--   Budget, Calls, Verdict, Accept, Exit, Failure, Deadline, Evidence, Coverage, RoundTrip hold the
--   proofs.
-- Hooks: src/fa/inner_loop/hooks/base.py, loop_guard.py and blockers.py, and the call types of
-- registry.py.
--   Types        payloads, decisions, lifecycle points, exceptions as values
--   Registry     `HookRegistry.register`, `dispatch` with its replay, `_record`
--   LoopGuard    Window: `_record` and the two counts; Scan: `__init__`, `_scan`, `handle`
--   Blockers     `BlockerMiddleware` and its three subclasses
--   Sandbox      `SandboxHook.handle` of builtin.py, with `is_contained` of
--                src/fa/sandbox/path_containment.py; Confined holds the proofs
--   Cases, Recheck, Passes, Keeps, Registration, Gate, Suppression and LoopGuard's other children hold
--   the proofs.
-- Session: src/fa/inner_loop/loop.py, with registry.py and state.py.
--   Types        the session's state and log rows, `record_tool_call`, `record_tool_result`
--   Tools        `ToolRegistry.lookup`, `validate`, `dispatch`
--   Batches      `_should_parallelize_tool_batch`, `classify_batches`
--   Execute      `_execute_one_sequential`
--   Parallel     `_execute_batch_parallel`, over a pool of threads
--   Run          `run_session`
--   Grouping, Clash, Counts, Bounds, Safe, SafeBatch, SafeRun hold the proofs.
-- Providers: src/fa/providers/chain.py and message_rules.py, the types of base.py and types.py.
--   Messages     `validate_message_order`, `validate_and_normalize`
--   Chain        `ProviderChain.request` with the cooldown ledger
--   Validate     `ChainConfig.validate`
--   Outcomes, Ready, Wire, Cooldown, Order and Blame hold the proofs.
-- Recovery: src/fa/inner_loop/recovery/attempt_history.py and classify.py.
--   Attempts     `AttemptHistory.append`, `_prune`, `attempt_count`
--   Classify     `classify`, `classify_result`; Recent and Denied hold the proofs.
-- Blackboard: src/fa/blackboard/blackboard.py.
--   Entries      the entries, `_assumption_violated`, `detect_conflict`; Overlap and Detect hold the proofs.
-- Limits: src/fa/inner_loop/runtime_limits.py and src/fa/_yaml_subset.py.
--   Keys         the limits and the tables of keys
--   Load         `load_runtime_limits`, `resolve_limits_for_role`; Positive and Strict hold the proofs.
-- Observability: src/fa/observability/cost_guardian.py.
--   Cost         `CostGuardian` and its extractor; Totals and Overdrawn hold the proofs.
-- Pause: src/fa/orchestration/pause.py.
--   Sentinels    the files and the budgets; Wait: `wait_for_resume`; Ends holds the proofs.
--
-- Conventions. Exceptions are values. The `while True` of `_run_adaptive` is a recursion on fuel;
-- `run_workflow` gives it `max_repairs + max_replans + 1` rounds: each round but the last uses up a
-- repair or a replan.
-- `wait_for_resume` has fuel for a turn in each millisecond of its budget and one more, which is enough
-- when a sleep lasts at least a millisecond. Every other loop is structural. The threads of a parallel
-- batch are a parameter that is given the function to run and the calls; a run of a tool is one step.
-- The clocks are parameters that may answer anything; only the theorems on the wait for a resume need one
-- that shows the time. Times are natural numbers: of any one unit for the workflow's deadline, and
-- milliseconds elsewhere. Floating-point numbers are a parameter.
-- Regular expressions (the patterns of the evaluator's lines), SHA-256, JSON and the file system are
-- parameters; so are the readers of plan ids and slices of plan_ids.py, the adapters of providers and
-- the table of registry.py in src/fa/providers.
--
-- Not modelled: what is printed to stderr; the git evidence block (a parameter); the export to the
-- global history; errors of writing an artifact, which end the program; the text of JSON,
-- below the dictionaries; telemetry and the database under the log; registration of tools;
-- concurrent use of the cooldown ledger; an error of decoding the plan; the reading of the configuration file.
pub mod Blackboard
pub mod Hooks
pub mod Limits
pub mod Observability
pub mod Pause
pub mod Prelude
pub mod Providers
pub mod Recovery
pub mod Session
pub mod Workflow
