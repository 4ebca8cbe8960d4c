-- ===== src/Workflow/Json.antt =====
-- workflow_artifacts.py: the JSON forms of the artifacts. A JSON value is an `Object`; its numbers are
-- integers.
use first_agent_dev.Prelude.{
  ℤ, pos, zero, String, Bool, true, false, Option, none, some, List, [], ◌∷◌, truthy, str_eq,
  if◌then◌else◌,
}
use first_agent_dev.Hooks.Types.{
  Object, text, flag, number, absent, mapping, listing, Entries, no_entries, Objects, no_objects,
  object, get_entry,
}
use first_agent_dev.Workflow.Artifacts.{
  EvalVerdict, RouteDecision, StepVerdict, FlowStatus, FindingSeverity, FindingClass, FindingRoute,
}

-- Why an artifact cannot be read: the key that is missing, what was expected and the type that was
-- found, or the field and its text that is not among those allowed.
pub data Fault : Type 0 where
  missing : String → Fault
  expected : String → String → Fault
  not_allowed : String → String → Fault

pub data Read (A : Type 0) : Type 0 where
  got : A → Read A
  fault : Fault → Read A

infixl 5 ◌>>=◌
abbrev pub ◌>>=◌ : {A B : Type 0} → Read A → (A → Read B) → Read B
got a >>= f = f a
fault e >>= f = fault e

-- `type(value).__name__`
unfoldable pub type_name : Object → String
type_name (text _) = "str"
type_name (flag _) = "bool"
type_name (number _) = "int"
type_name absent = "NoneType"
type_name (mapping _) = "dict"
type_name (listing _) = "list"

-- `bool(value)`
unfoldable pub truth : Object → Bool
truth (text t) = truthy t
truth (flag b) = b
truth (number (pos zero)) = false
truth (number _) = true
truth absent = false
truth (mapping no_entries) = false
truth (mapping _) = true
truth (listing no_objects) = false
truth (listing _) = true

abbrev pub as_str : Object → Read String
as_str (text t) = got t
as_str o = fault (expected "a string" (type_name o))

abbrev pub as_int : Object → Read ℤ
as_int (number n) = got n
as_int o = fault (expected "an integer" (type_name o))

-- `_as_literal`, with the texts that are allowed and what they stand for
abbrev pub allowed_text : {A : Type 0} → String → String → Option A → Read A
allowed_text field t none = fault (not_allowed field t)
allowed_text field t (some a) = got a

unfoldable pub as_literal : {A : Type 0} → (String → Option A) → String → Object → Read A
as_literal read field o = as_str o >>= λ t. allowed_text field t (read t)

unfoldable pub all_str : Objects → Read (List String)
all_str no_objects = got []
all_str (object o r) = as_str o >>= λ t. all_str r >>= λ ts. got (t ∷ ts)

abbrev pub as_str_tuple : Object → Read (List String)
as_str_tuple (listing os) = all_str os
as_str_tuple o = fault (expected "a list of strings" (type_name o))

abbrev as_dict : Object → Read Entries
as_dict (mapping m) = got m
as_dict o = fault (expected "an object" (type_name o))

unfoldable pub all_dict : Objects → Read (List Entries)
all_dict no_objects = got []
all_dict (object o r) = as_dict o >>= λ d. all_dict r >>= λ ds. got (d ∷ ds)

abbrev pub as_dict_list : Object → Read (List Entries)
as_dict_list (listing os) = all_dict os
as_dict_list o = fault (expected "a list of objects" (type_name o))

-- `data[key]`
abbrev pub required : String → Option Object → Read Object
required key none = fault (missing key)
required key (some o) = got o

abbrev pub at : Entries → String → Read Object
at d key = required key (get_entry key d)

-- `data.get(key, default)`
abbrev pub or_default : Object → Option Object → Object
or_default default none = default
or_default default (some o) = o

abbrev pub get : Entries → String → Object → Object
get d key default = or_default default (get_entry key d)

-- `list(texts)` and a list of dictionaries
unfoldable pub texts : List String → Objects
texts [] = no_objects
texts (t ∷ ts) = object (text t) (texts ts)

unfoldable pub dicts : List Entries → Objects
dicts [] = no_objects
dicts (d ∷ ds) = object (mapping d) (dicts ds)

unfoldable pub read_all : {A : Type 0} → (Entries → Read A) → List Entries → Read (List A)
read_all f [] = got []
read_all f (d ∷ ds) = f d >>= λ a. read_all f ds >>= λ rest. got (a ∷ rest)

-- The texts of the enumerations.

unfoldable pub step_verdict_text : StepVerdict → String
step_verdict_text StepVerdict.pass = "pass"
step_verdict_text StepVerdict.fail = "fail"
step_verdict_text StepVerdict.partial = "partial"
step_verdict_text StepVerdict.not_evaluated = "not_evaluated"

unfoldable pub status_text : FlowStatus → String
status_text FlowStatus.init = "INIT"
status_text FlowStatus.planning = "PLANNING"
status_text FlowStatus.plan_ready = "PLAN_READY"
status_text FlowStatus.coding = "CODING"
status_text FlowStatus.coder_blocked = "CODER_BLOCKED"
status_text FlowStatus.evaluating = "EVALUATING"
status_text FlowStatus.repair_required = "REPAIR_REQUIRED"
status_text FlowStatus.replan_required = "REPLAN_REQUIRED"
status_text FlowStatus.delta_planning = "DELTA_PLANNING"
status_text FlowStatus.done = "DONE"
status_text FlowStatus.failed = "FAILED"

unfoldable pub severity_text : FindingSeverity → String
severity_text FindingSeverity.critical = "critical"
severity_text FindingSeverity.major = "major"
severity_text FindingSeverity.minor = "minor"
severity_text FindingSeverity.info = "info"

unfoldable pub class_text : FindingClass → String
class_text FindingClass.implementation = "implementation"
class_text FindingClass.plan = "plan"
class_text FindingClass.environment = "environment"
class_text FindingClass.scope = "scope"
class_text FindingClass.regression = "regression"

unfoldable pub finding_route_text : FindingRoute → String
finding_route_text FindingRoute.coder = "coder"
finding_route_text FindingRoute.planner = "planner"
finding_route_text FindingRoute.human = "human"

-- The first of some values that has the text.
unfoldable pub named : {A : Type 0} → (A → String) → List A → String → Option A
named show_text [] t = none
named show_text (a ∷ r) t = if str_eq (show_text a) t then some a else named show_text r t

-- `_EVAL_VERDICTS`, `_ROUTE_DECISIONS`, `_STEP_VERDICTS`, `_FLOW_STATUSES` and those of the findings
abbrev pub eval_verdicts : List EvalVerdict
eval_verdicts =
    EvalVerdict.pass ∷ EvalVerdict.repair_required ∷ EvalVerdict.replan_required
    ∷ EvalVerdict.blocked ∷ []

abbrev pub route_decisions : List RouteDecision
route_decisions =
    RouteDecision.complete ∷ RouteDecision.return_to_coder ∷ RouteDecision.return_to_planner
    ∷ RouteDecision.blocked ∷ []

abbrev pub step_verdicts : List StepVerdict
step_verdicts =
    StepVerdict.pass ∷ StepVerdict.fail ∷ StepVerdict.partial ∷ StepVerdict.not_evaluated ∷ []

abbrev pub flow_statuses : List FlowStatus
flow_statuses =
    FlowStatus.init ∷ FlowStatus.planning ∷ FlowStatus.plan_ready ∷ FlowStatus.coding
    ∷ FlowStatus.coder_blocked ∷ FlowStatus.evaluating ∷ FlowStatus.repair_required
    ∷ FlowStatus.replan_required ∷ FlowStatus.delta_planning ∷ FlowStatus.done ∷ FlowStatus.failed
    ∷ []

abbrev pub finding_severities : List FindingSeverity
finding_severities =
    FindingSeverity.critical ∷ FindingSeverity.major ∷ FindingSeverity.minor ∷ FindingSeverity.info
    ∷ []

abbrev pub finding_classes : List FindingClass
finding_classes =
    FindingClass.implementation ∷ FindingClass.plan ∷ FindingClass.environment ∷ FindingClass.scope
    ∷ FindingClass.regression ∷ []

abbrev pub finding_routes : List FindingRoute
finding_routes = FindingRoute.coder ∷ FindingRoute.planner ∷ FindingRoute.human ∷ []
