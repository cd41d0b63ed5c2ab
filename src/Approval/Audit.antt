-- ===== src/Approval/Audit.antt =====
-- internal/approval/audit.go: Append, with the capacity that it keeps for terminal records.
-- The file is its bytes. `marshal` is json.Marshal of an entry: its bytes, or nothing for an error.
-- What the operating system does in one call is an argument. The mutex makes each call one step.
pub mod Capacity
pub mod Budget
pub mod Reserved
pub mod Reading
use qi.Base.{
  not, ◌&&◌, ℕ, suc, ◌+◌, ◌-◌, Text, Bool, true, false, Option, none, some, [], ◌∷◌, ◌++◌, ltb,
  nat_eq, if◌then◌else◌, length, take, Dict, lookup, insert, erase,
}
use qi.Approval.{
  AuditEntry, Event, approval, execution, failure, AuditError, not_encodable, record_too_long,
  log_closed, not_inspected, already_reserved, too_many_entries, log_too_long, write_failed,
  short_write, sync_failed, max_audit_record_bytes, max_audit_log_bytes, max_audit_replay_entries,
}

pub record Audit : Type 0 where
  pub is_open : Bool
  pub file : Text
  pub reserved : Dict ℕ
  pub reserved_bytes : ℕ
  pub record_count : ℕ

-- time.Now, Stat, Write (the bytes that reached the file, and its error) and Sync.
pub record Disk : Type 0 where
  pub now : ℕ
  pub inspected : Bool
  pub written : ℕ
  pub wrote : Bool
  pub synced : Bool

unfoldable pub is_terminal : Event → Bool
is_terminal execution = true
is_terminal failure = true
is_terminal _ = false

unfoldable pub is_approval : Event → Bool
is_approval approval = true
is_approval _ = false

-- a.reserved[id], 0 when it is missing
unfoldable pub reservation : Audit → Text → ℕ
reservation a id = elim (lookup id a.reserved) [ none ↦ 0 | some n ↦ n ]

-- What is reserved besides this entry: bytes, then entries.
unfoldable pub reserved_after : Audit → Event → ℕ → ℕ
unfolding is_terminal
reserved_after a event r = if is_terminal event then a.reserved_bytes - r else a.reserved_bytes

unfoldable pub entries_after : Audit → Event → ℕ → ℕ
unfolding is_terminal
entries_after a event r =
    if is_terminal event
    then (if nat_eq r 0 then length a.reserved else length a.reserved - 1)
    else length a.reserved

-- What this entry needs: bytes, then entries.
unfoldable pub required_bytes : Event → Text → ℕ
unfolding is_approval
required_bytes event line =
    if is_approval event then length line + max_audit_record_bytes else length line

unfoldable pub required_entries : Event → ℕ
unfolding is_approval
required_entries event = if is_approval event then 2 else 1

-- The checks between Stat and Write; `none` when the entry may be written.
unfoldable pub check_capacity : Audit → Event → ℕ → Text → Option AuditError
unfolding reserved_after entries_after required_bytes required_entries
check_capacity a event r line =
    if ltb max_audit_replay_entries
      (a.record_count + entries_after a event r + required_entries event)
    then some too_many_entries
    else if ltb max_audit_log_bytes
        (length a.file + reserved_after a event r + required_bytes event line)
    then some log_too_long
    else none

-- The switch after the write.
unfoldable pub settle_reservation : Audit → Event → Text → ℕ → Audit
settle_reservation a event id r = elim event [
  | approval ↦ record a {
    reserved = insert id max_audit_record_bytes a.reserved;
    reserved_bytes = a.reserved_bytes + max_audit_record_bytes;
  }
  | execution ↦
      if nat_eq r 0
      then a
      else record a { reserved = erase id a.reserved; reserved_bytes = a.reserved_bytes - r }
  | failure ↦
      if nat_eq r 0
      then a
      else record a { reserved = erase id a.reserved; reserved_bytes = a.reserved_bytes - r }
  | _ ↦ a
]

-- Write and Sync, and the bookkeeping.
unfoldable pub write_line : Disk → Event → Text → ℕ → Text → Audit → Audit × Option AuditError
unfolding settle_reservation
write_line d event id r line a =
    let after = record a { file = a.file ++ take d.written line } in
    if d.wrote
    then (if nat_eq (length (take d.written line)) (length line)
        then (if d.synced
            then (let done = settle_reservation after event id r in
                (record done { record_count = suc done.record_count }, none))
            else (after, some sync_failed))
        else (after, some short_write))
    else (after, some write_failed)

unfoldable pub append_line : Disk → Event → Text → Text → Audit → Audit × Option AuditError
unfolding reservation is_approval check_capacity write_line
append_line d event id line a =
    let r = reservation a id in
    if is_approval event && not (nat_eq r 0)
    then (a, some already_reserved)
    else elim (check_capacity a event r line) [
      | some e ↦ (a, some e)
      | none ↦ write_line d event id r line a
    ]

-- The time that is written when the entry has none.
unfoldable pub stamped : Disk → AuditEntry → AuditEntry
stamped d e = if nat_eq e.time 0 then record e { time = d.now } else e

-- From the encoded entry on.
unfoldable pub append_bytes : Disk → AuditEntry → Text → Audit → Audit × Option AuditError
unfolding append_line
append_bytes d e b a =
    if ltb max_audit_record_bytes (length b)
    then (a, some record_too_long)
    else if not a.is_open
    then (a, some log_closed)
    else if d.inspected
    then append_line d e.event e.id (b ++ 10 ∷ []) a
    else (a, some not_inspected)

module _ (marshal : AuditEntry → Option Text) where
  unfoldable pub append : Disk → AuditEntry → Audit → Audit × Option AuditError
  unfolding stamped append_bytes
  append d e a = elim (marshal (stamped d e)) [
    | none ↦ (a, some not_encodable)
    | some b ↦ append_bytes d e b a
  ]

-- Close; the operating system's error is not modelled.
unfoldable pub close : Audit → Audit
close a = record a { is_open = false }
