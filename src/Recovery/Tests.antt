-- ===== src/Recovery/Tests.antt =====
-- A window of one entry.
use first_agent_dev.Prelude.{none, [], ◌∷◌, arith}
use first_agent_dev.Recovery.Attempts.{AttemptHistoryEntry, AttemptHistory, append}
use first_agent_dev.Recovery.Recent.{Recorded, append-Recorded}

abbrev failed_read : AttemptHistoryEntry
failed_read = record {
  ts = 5000;
  tool_name = "read";
  params_hash = "abc";
  error_code = "read_failed";
  error_message = "";
  recovery_action = "retry";
  recovery_category = "tool";
}

abbrev history : AttemptHistory
history = record {
  max_entries = 1;
  max_age = 1000;
  entries = record failed_read { ts = 4500 } ∷ [];
  file = none;
}

append-Recorded_example : Recorded failed_read (append failed_read history)
append-Recorded_example = append-Recorded failed_read history (omega arith)
