-- ===== src/Approval/Restore.antt =====
-- internal/approval/restore.go: the queue rebuilt from the entries of the audit log.
pub mod Replay
pub mod Recovery
pub mod Durable
pub mod Enqueued
pub mod Restart
pub mod Logged
use qi.Base.{
  ℕ, suc, Text, Bool, true, false, ◌&&◌, not, Option, none, some, List, [], ◌∷◌, ◌++◌, lookup,
  insert, if◌then◌else◌, Dict, ◌==◌, is_some,
}
use qi.Approval.{
  Status, Event, AuditEntry, TerminalOutcome, Pending, pending, denied, executed, failed, enqueued,
  approval, denial, execution, failure,
}
use qi.Approval.Queue.{Queue, has_id}

pub record Accumulator : Type 0 where
  pub enqueue : Option AuditEntry
  pub latest : AuditEntry

pub record RestoreStats : Type 0 where
  pub pending : ℕ
  pub terminal : ℕ

-- The accumulator of the entry's id, after the entry.
unfoldable pub note : AuditEntry → Option Accumulator → Accumulator
note e old =
    let before : Option AuditEntry = elim old [ none ↦ none | some a ↦ a.enqueue ] in
    elim e.event [
      | enqueued ↦ record { enqueue = some e; latest = e }
      | _ ↦ record { enqueue = before; latest = e }
    ]

-- The first loop: the accumulators by id, and the ids in the order of their first entries.
unfoldable pub gather :
    Dict Accumulator → List Text → List AuditEntry → Dict Accumulator × List Text
unfolding note
gather by_id order [] = (by_id, order)
gather by_id order (e ∷ es) =
    let old = lookup e.id by_id in
    let skip = gather by_id order es in
    let rest =
      gather (insert e.id (note e old) by_id) (if is_some old then order else order ++ e.id ∷ [])
        es in
    if e.id == [] then skip else rest

unfoldable pub terminal_outcome_matches : Event → Status → Bool
terminal_outcome_matches denial denied = true
terminal_outcome_matches execution executed = true
terminal_outcome_matches failure failed = true
terminal_outcome_matches _ _ = false

module _ (params_hash : Text → Text) where
  unfoldable pub terminal_audit_matches_enqueue : AuditEntry → AuditEntry → Bool
  terminal_audit_matches_enqueue terminal enqueue =
      terminal.caller == enqueue.caller
      && (terminal.call_id == enqueue.call_id
          && (terminal.tool == enqueue.tool
              && (not (terminal.params_hash == [])
                  && terminal.params_hash == params_hash enqueue.params)))

-- The entry that the enqueue record describes.
abbrev pub from_enqueue : Text → AuditEntry → Pending
from_enqueue id e = record {
  id = id;
  caller = e.caller;
  call_id = e.call_id;
  tool_name = e.tool;
  params = e.params;
  status = pending;
  reason = e.reason;
  created_at = e.time;
  decided_at = none;
  executed_at = none;
  result = [];
  error = [];
}

abbrev pub with_outcome : TerminalOutcome → Pending → Pending
with_outcome o p = record p {
  status = o.status;
  result = o.result;
  reason = o.reason;
  error = o.error;
  decided_at = o.decided_at;
  executed_at = o.executed_at;
}

-- Where an id goes: back to the live entries, to the history, or nowhere.
pub data Restored : Type 0 where
  dropped : Restored
  live past : Pending → Restored

unfoldable pub place :
    {A : Type 0} → Text → Restored → Queue A × RestoreStats → Queue A × RestoreStats
place id dropped s = s
place id (live p) (q, n) =
    (record q { items = insert id p q.items }, record n { pending = suc n.pending })
place id (past p) (q, n) =
    (record q { history = insert id p q.history }, record n { terminal = suc n.terminal })

module _ (params_hash : Text → Text) where
  unfoldable pub restore_terminal : Text → AuditEntry → AuditEntry → Restored
  unfolding terminal_outcome_matches terminal_audit_matches_enqueue
  restore_terminal id enqueue latest = elim latest.outcome [
    | none ↦ dropped
    | some o ↦
        if terminal_outcome_matches latest.event o.status
          && terminal_audit_matches_enqueue params_hash latest enqueue
        then past (with_outcome o (from_enqueue id enqueue))
        else dropped
  ]

  -- The switch on the latest event.
  unfoldable pub restore_entry : Text → AuditEntry → AuditEntry → Restored
  unfolding restore_terminal
  restore_entry id enqueue latest = elim latest.event [
    | enqueued ↦ live (from_enqueue id enqueue)
    | approval ↦ live (from_enqueue id enqueue)
    | denial ↦ restore_terminal id enqueue latest
    | execution ↦ restore_terminal id enqueue latest
    | failure ↦ restore_terminal id enqueue latest
    | _ ↦ dropped
  ]

  unfoldable pub restore_accumulator : Text → Option Accumulator → Restored
  unfolding restore_entry
  restore_accumulator id none = dropped
  restore_accumulator id (some a) = elim a.enqueue [
    | none ↦ dropped
    | some e ↦ restore_entry id e a.latest
  ]

  -- One round of the second loop.
  unfoldable pub restore_id :
      {A : Type 0} → Text → Option Accumulator → Queue A × RestoreStats → Queue A × RestoreStats
  unfolding restore_accumulator place
  restore_id id a (q, n) =
      if has_id q id then (q, n) else place id (restore_accumulator id a) (q, n)

  unfoldable pub restore_ids :
      {A : Type 0} → Dict Accumulator → List Text → Queue A × RestoreStats → Queue A × RestoreStats
  unfolding restore_id
  restore_ids by_id [] s = s
  restore_ids by_id (id ∷ ids) s = restore_ids by_id ids (restore_id id (lookup id by_id) s)

  unfoldable pub restore : {A : Type 0} → List AuditEntry → Queue A → Queue A × RestoreStats
  unfolding gather restore_ids
  restore entries q =
      let (by_id, order) = gather [] [] entries in
      restore_ids by_id order (q, record { pending = 0; terminal = 0 })
