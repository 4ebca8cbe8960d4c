-- ===== src/Workflow.antt =====
-- src/fa/inner_loop/workflow_controller.py and workflow_artifacts.py.
pub mod Artifacts
pub mod Json
pub mod Forms
pub mod RoundTrip
pub mod Parse
pub mod Controller
pub mod Slices
pub mod Stage
pub mod Routes
pub mod Modes
pub mod Run
pub mod Budget
pub mod Calls
pub mod Verdict
pub mod Accept
pub mod Exit
pub mod Evidence
pub mod Coverage
pub mod Failure
pub mod Deadline
mod Tests
mod ReportTests
mod FormTests
mod FailureTests
