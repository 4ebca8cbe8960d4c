-- ===== src/Workflow/Routes.antt =====
-- workflow_controller.py: the budgets, the canonical roles of a round, and what `_run_adaptive`
-- does next with a verdict.
use first_agent_dev.Prelude.{
  ℕ, ◌+◌, String, Bool, true, false, not, Option, none, some, List, [], ◌∷◌, map, min, ℤ, clamp,
  concat, show, leb, filter, if◌then◌else◌,
}
use first_agent_dev.Workflow.Artifacts.{verdict_text, RouteDecision, EvalReport}
use first_agent_dev.Workflow.Controller.{
  Role, role_text, has, Progress, default_max_repairs, max_repairs_ceiling, default_max_replans,
  max_replans_ceiling,
}
use first_agent_dev.Workflow.Slices.{join_comma}

-- `int` arguments, clamped at both ends.
unfoldable pub resolve_max_repairs : Option ℤ → ℕ
resolve_max_repairs none = min default_max_repairs max_repairs_ceiling
resolve_max_repairs (some v) = min (clamp v) max_repairs_ceiling

unfoldable pub resolve_max_replans : Option ℤ → ℕ
resolve_max_replans none = min default_max_replans max_replans_ceiling
resolve_max_replans (some v) = min (clamp v) max_replans_ceiling

unfoldable pub canonical_loop_roles : List Role → Bool → List Role
canonical_loop_roles roles include_planner =
    filter (λ r. has r roles)
      (if include_planner
        then Role.planner ∷ Role.coder ∷ Role.eval ∷ []
        else Role.coder ∷ Role.eval ∷ [])

-- the role that ran last, `roles[-1]`; the program is never given an empty list
abbrev pub last_role : List Role → Role
last_role [] = Role.coder
last_role (r ∷ []) = r
last_role (r ∷ q ∷ rs) = last_role (q ∷ rs)

-- `if result.eval_report is not None: eval_report = result.eval_report`
abbrev pub newer : Option EvalReport → Option EvalReport → Option EvalReport
newer none old = old
newer (some r) old = some r

abbrev pub dispatching : ℕ → ℕ → Role → String
dispatching n i role = concat ("dispatching stage " ∷ show (i + 1) ∷ "/" ∷ show n ∷ [])

abbrev pub repair_reason : Progress → ℕ → Role → String
repair_reason p i role = concat (
    "repair round "
    ∷ show p.repair_round
    ∷ ": canonical "
    ∷ role_text role
    ∷ " after return_to_coder"
    ∷ [])

abbrev pub replan_reason : Progress → ℕ → Role → String
replan_reason p i role = concat (
    "replan round "
    ∷ show p.replan_round
    ∷ ": canonical "
    ∷ role_text role
    ∷ " after return_to_planner"
    ∷ [])

abbrev pub budget_reason : String → ℕ → ℕ → String → String
budget_reason kind used budget route =
    concat
      (kind ∷ " budget exhausted (" ∷ show used ∷ "/" ∷ show budget ∷ "); last route " ∷ route ∷ [])

abbrev pub repaired : Progress → Progress
repaired p = record p { repair_round = p.repair_round + 1 }

abbrev pub replanned : Progress → Progress
replanned p = record p { plan_version = p.plan_version + 1; replan_round = p.replan_round + 1 }

-- what a round of the loop does: stop, or run a canonical list of roles once more
pub data Move : Type 0 where
  halt : String → Move
  again : Bool → Progress → (ℕ → Role → String) → Move

unfoldable pub next_move : List Role → ℕ → ℕ → EvalReport → Progress → Move
next_move roles max_repairs max_replans r p = elim r.route_decision [
  | RouteDecision.return_to_coder ↦
      if leb max_repairs p.repair_round
      then halt (budget_reason "repair" p.repair_round max_repairs "return_to_coder")
      else again false (repaired p) (repair_reason (repaired p))
  | RouteDecision.return_to_planner ↦
      if not (has Role.planner roles)
      then halt (
          concat (
            "eval routed return_to_planner but no planner role is configured (roles="
            ∷ join_comma (map role_text roles)
            ∷ "); cannot replan"
            ∷ []))
      else if leb max_replans p.replan_round
      then halt (budget_reason "replan" p.replan_round max_replans "return_to_planner")
      else again true (replanned p) (replan_reason (replanned p))
  | _ ↦ halt (
      concat (
        "eval verdict "
        ∷ verdict_text r.verdict
        ∷ " after "
        ∷ show p.repair_round
        ∷ " repair round(s) and "
        ∷ show p.replan_round
        ∷ " replan round(s)"
        ∷ []))
]
