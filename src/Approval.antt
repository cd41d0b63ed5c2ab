-- ===== src/Approval.antt =====
-- internal/approval: the records of the queue and of the audit log, and the limits on them.
-- Times are instants counted by ℕ; raw JSON and texts are bytes.
pub mod Limits
pub mod Queue
pub mod Restore
pub mod Audit
use qi.Base.{ℕ, Text, Option, ◌*◌, ◌+◌}

-- The string type of `queue.go`, with what a log may hold besides its constants.
pub data Status : Type 0 where
  pending approved denied executed failed : Status
  other_status : Text → Status

pub data Event : Type 0 where
  enqueued approval denial execution failure : Event
  other_event : Text → Event

pub record TerminalOutcome : Type 0 where
  pub status : Status
  pub result : Text
  pub reason : Text
  pub error : Text
  pub decided_at : Option ℕ
  pub executed_at : Option ℕ

pub record AuditEntry : Type 0 where
  pub time : ℕ
  pub event : Event
  pub id : Text
  pub caller : Text
  pub call_id : Text
  pub tool : Text
  pub reason : Text
  pub error : Text
  pub params : Text
  pub params_hash : Text
  pub outcome : Option TerminalOutcome

pub record Pending : Type 0 where
  pub id : Text
  pub caller : Text
  pub call_id : Text
  pub tool_name : Text
  pub params : Text
  pub status : Status
  pub reason : Text
  pub created_at : ℕ
  pub decided_at : Option ℕ
  pub executed_at : Option ℕ
  pub result : Text
  pub error : Text

abbrev pub max_caller_bytes : ℕ
max_caller_bytes = 8 * 1024

abbrev pub max_call_id_bytes : ℕ
max_call_id_bytes = 1024

abbrev pub max_tool_bytes : ℕ
max_tool_bytes = 8 * 1024

abbrev pub max_terminal_text_bytes : ℕ
max_terminal_text_bytes = 32 * 1024

abbrev pub max_terminal_result_bytes : ℕ
max_terminal_result_bytes = 4 * 1048576

abbrev pub max_audit_record_bytes : ℕ
max_audit_record_bytes = max_terminal_result_bytes + 512 * 1024

abbrev pub max_audit_log_bytes : ℕ
max_audit_log_bytes = 64 * 1048576

abbrev pub max_audit_replay_entries : ℕ
max_audit_replay_entries = 10000

-- Why an append to the audit log fails.
pub data AuditError : Type 0 where
  not_encodable record_too_long log_closed not_inspected already_reserved : AuditError
  too_many_entries log_too_long write_failed short_write sync_failed : AuditError

-- Why an operation on the queue fails.
pub data QueueError : Type 0 where
  missing_caller_or_tool result_too_long still_drawing : QueueError
  invalid_text text_too_long : Text → QueueError
  unknown_id : Text → QueueError
  illegal_transition : Status → Status → QueueError
  cannot_record : Status → QueueError
  not_audited not_durable : AuditError → QueueError
