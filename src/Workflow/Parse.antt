-- ===== src/Workflow/Parse.antt =====
-- workflow_artifacts.py: `parse_eval_report`, from the evaluator's last message to a report.
use first_agent_dev.Prelude.{
  pos, ℕ, String, Bool, true, false, Option, none, some, List, [], ◌∷◌, str_eq, contains, concat,
  if◌then◌else◌, is_some,
}
use first_agent_dev.Hooks.Types.{Entries}
use first_agent_dev.Workflow.Artifacts.{
  verdict_text, EvalVerdict, RouteDecision, StepVerdict, StepResult, EvalReport,
  default_route_for_verdict,
}
use first_agent_dev.Workflow.Artifacts.EvalVerdict.{pass, repair_required, replan_required, blocked}

-- What the compiled patterns of the module find in one line, and `str.splitlines`. A token is the
-- match's group, in the case that the program puts it in.
pub record Patterns : Type 0 where
  pub splitlines : String → List String
  -- `### Verdict` and `### Route decision` headers
  pub verdict_header : String → Bool
  pub route_header : String → Bool
  -- `_VERDICT_LINE_RE`, `_ROUTE_LINE_RE`
  pub verdict_line : String → Option String
  pub route_line : String → Option String
  -- `_STEP_LINE_RE`: the id, the verdict in upper case, the evidence stripped
  pub step_line : String → Option (String × String × String)
  -- `summary:` in a stripped line, cut at 280 characters
  pub summary_line : String → Option String

-- `upper if upper in _VALID_VERDICTS else None`
unfoldable pub verdict_of : String → Option EvalVerdict
verdict_of s =
    if str_eq s "PASS"
    then some pass
    else if str_eq s "REPAIR_REQUIRED"
    then some repair_required
    else if str_eq s "REPLAN_REQUIRED"
    then some replan_required
    else if str_eq s "BLOCKED"
    then some blocked
    else none

unfoldable pub route_of : String → Option RouteDecision
route_of s =
    if str_eq s "complete"
    then some RouteDecision.complete
    else if str_eq s "return_to_coder"
    then some RouteDecision.return_to_coder
    else if str_eq s "return_to_planner"
    then some RouteDecision.return_to_planner
    else if str_eq s "blocked"
    then some RouteDecision.blocked
    else none

-- `_STEP_VERDICT_TOKENS[...]`; the pattern has no other group.
unfoldable pub step_verdict_of : String → StepVerdict
step_verdict_of s =
    if str_eq s "PASS"
    then StepVerdict.pass
    else if str_eq s "FAIL"
    then StepVerdict.fail
    else StepVerdict.partial

abbrev pub same_route : RouteDecision → RouteDecision → Bool
same_route RouteDecision.complete RouteDecision.complete = true
same_route RouteDecision.return_to_coder RouteDecision.return_to_coder = true
same_route RouteDecision.return_to_planner RouteDecision.return_to_planner = true
same_route RouteDecision.blocked RouteDecision.blocked = true
same_route _ _ = false

-- The first token of a list of lines, and the last one.
module _ {A : Type 0} (token : String → Option A) where
  unfoldable pub first_token : List String → Option A
  first_token [] = none
  first_token (l ∷ ls) = elim (token l) [ some a ↦ some a | none ↦ first_token ls ]

  unfoldable pub last_token : Option A → List String → Option A
  last_token found [] = found
  last_token found (l ∷ ls) = last_token (elim (token l) [ some a ↦ some a | none ↦ found ]) ls

  -- `lines[index + 1 : index + 4]`
  abbrev pub three : List String → List String
  three [] = []
  three (a ∷ []) = a ∷ []
  three (a ∷ b ∷ []) = a ∷ b ∷ []
  three (a ∷ b ∷ c ∷ _) = a ∷ b ∷ c ∷ []

  -- the token on a header's line or on the three below it
  unfoldable pub under_header : (String → Bool) → List String → Option A
  under_header header [] = none
  under_header header (l ∷ ls) =
      let later = under_header header ls in
      if header l
      then elim (first_token (l ∷ three ls)) [ some a ↦ some a | none ↦ later ]
      else later

  -- both passes of `_scan_verdict` and `_scan_route`
  unfoldable pub scan : (String → Bool) → List String → Option A
  scan header ls = elim (under_header header ls) [ some a ↦ some a | none ↦ last_token none ls ]

abbrev pub and_then : {A B : Type 0} → Option A → (A → Option B) → Option B
and_then none f = none
and_then (some a) f = f a

module _ (p : Patterns) where
  unfoldable pub match_verdict_token : String → Option EvalVerdict
  unfolding verdict_of
  match_verdict_token line = and_then (p.verdict_line line) verdict_of

  unfoldable pub match_route_token : String → Option RouteDecision
  unfolding route_of
  match_route_token line = and_then (p.route_line line) route_of

  unfoldable pub scan_verdict : String → Option EvalVerdict
  unfolding scan match_verdict_token
  scan_verdict s = scan match_verdict_token p.verdict_header (p.splitlines s)

  unfoldable pub scan_route : String → Option RouteDecision
  unfolding scan match_route_token
  scan_route s = scan match_route_token p.route_header (p.splitlines s)

  abbrev is_pass : StepVerdict → Bool
  is_pass StepVerdict.pass = true
  is_pass _ = false

  abbrev step_result : String × String × String → StepResult
  step_result t = record {
    step_id = t.0;
    verdict = step_verdict_of t.1;
    claimed_pass = is_pass (step_verdict_of t.1);
    evidence = t.2;
    notes = "";
  }

  -- the loop of `_scan_step_results`; `seen` holds the ids that came before
  unfoldable pub step_results_from : List String → List String → List StepResult
  step_results_from seen [] = []
  step_results_from seen (l ∷ ls) = elim (p.step_line l) [
    | none ↦ step_results_from seen ls
    | some t ↦ elim (contains t.0 seen) [
      | true ↦ step_results_from seen ls
      | false ↦ step_result t ∷ step_results_from (t.0 ∷ seen) ls
    ]
  ]

  unfoldable pub scan_step_results : String → List StepResult
  unfolding step_results_from
  scan_step_results s = step_results_from [] (p.splitlines s)

  unfoldable pub first_summary_line : String → EvalVerdict → String
  first_summary_line s v = elim (first_token p.summary_line (p.splitlines s)) [
    | some t ↦ t
    | none ↦ concat ("verdict " ∷ verdict_text v ∷ [])
  ]

  module _ (run_id plan_id evaluation_id : String) (plan_version : ℕ)
      (eval_independence : Option Entries) where
    abbrev report : EvalVerdict → RouteDecision → String → List StepResult → String → EvalReport
    report verdict route summary steps confidence = record {
      run_id = run_id;
      plan_id = plan_id;
      plan_version = pos plan_version;
      evaluation_id = evaluation_id;
      verdict = verdict;
      route_decision = route;
      summary = summary;
      step_results = steps;
      findings = [];
      integration_checks = [];
      regression_checks = [];
      confidence = confidence;
      eval_independence = eval_independence;
      unreported_slices = [];
    }

    abbrev pub agreed_route : Option RouteDecision → RouteDecision → RouteDecision
    agreed_route none default_route = default_route
    agreed_route (some r) default_route = if same_route r default_route then r else default_route

    unfoldable pub parse_with : Option EvalVerdict → String → EvalReport
    parse_with none s =
        report blocked RouteDecision.blocked
          "eval output did not contain a recognizable verdict token" (scan_step_results s)
          "parsed:none"
    parse_with (some v) s =
        let parsed_route = scan_route s in
        report v (agreed_route parsed_route (default_route_for_verdict v)) (first_summary_line s v)
          (scan_step_results s)
          (if is_some parsed_route then "parsed:contract" else "parsed:verdict")

    unfoldable pub parse_eval_report : String → EvalReport
    parse_eval_report s = parse_with (scan_verdict s) s
