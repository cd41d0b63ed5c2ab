-- ===== src/Approval/Queue/Outcome.antt =====
-- internal/approval/queue.go: RecordResult.
use qi.Base.{
  false, ℕ, Text, Bool, none, some, [], ltb, length, lookup, if◌then◌else◌, Result, ok, err,
}
use qi.Approval.{
  Event, approved, executed, failed, execution, failure, Pending, TerminalOutcome, QueueError,
  result_too_long, unknown_id, cannot_record, not_durable, max_terminal_result_bytes,
}
use qi.Approval.Limits.{bounded_terminal_text}
use qi.Approval.Queue.{Queue, Host, commit, bare_entry}

-- What the caller hands over: the result of the tool, or the text of its error.
pub data Execution : Type 0 where
  success : Text → Execution
  error : Text → Execution

abbrev pub result_exceeds : Execution → Bool
result_exceeds (success v) = ltb max_terminal_result_bytes (length v)
result_exceeds (error e) = false

unfoldable pub approved_for_result : {A : Type 0} → Queue A → Text → Result QueueError Pending
approved_for_result q id = elim (lookup id q.items) [
  | none ↦ elim (lookup id q.history) [
    | none ↦ err (unknown_id id)
    | some old ↦ err (cannot_record old.status)
  ]
  | some p ↦ elim p.status [ approved ↦ ok p | other ↦ err (cannot_record other) ]
]

-- `snap` after the branch on the error, and its event.
unfoldable pub settle : ℕ → Execution → Pending → Pending
unfolding bounded_terminal_text
settle now (success v) p = record p { status = executed; result = v; executed_at = some now }
settle now (error e) p = record p {
  status = failed;
  error = bounded_terminal_text e;
  executed_at = some now;
}

unfoldable pub event_of : Execution → Event
event_of (success v) = execution
event_of (error e) = failure

abbrev pub outcome_of : Pending → TerminalOutcome
outcome_of p = record {
  status = p.status;
  result = p.result;
  reason = [];
  error = p.error;
  decided_at = p.decided_at;
  executed_at = p.executed_at;
}

module _ {A : Type 0} (host : Host A) where
  unfoldable pub commit_result :
      ℕ → Text → Execution → Pending → Queue A → Queue A × Result QueueError Pending
  unfolding settle event_of commit
  commit_result now id x p q =
      let snap = settle now x p in
      commit host
        (record (bare_entry now (event_of x) id snap) {
          params_hash = host.params_hash snap.params;
          outcome = some (outcome_of snap);
        })
        not_durable id snap q

  unfoldable pub record_result :
      ℕ → Text → Execution → Queue A → Queue A × Result QueueError Pending
  unfolding approved_for_result commit_result
  record_result now id x q =
      if result_exceeds x then (q, err result_too_long) else elim (approved_for_result q id) [
        | err e ↦ (q, err e)
        | ok p ↦ commit_result now id x p q
      ]
