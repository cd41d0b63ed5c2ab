-- ===== src/Approval/Audit/Capacity.antt =====
-- The limits of the audit log, and the room that is reserved in it for terminal records.
use qi.Base.{
  not, inr, inl, length-erase-some, Option-cases, ◌&&◌, ◌*◌, IsMap, Bool-cases, ℕ, ◌+◌, ◌≤◌, ◌≡◌,
  arith, Text, true, false, Option, none, some, [], ◌∷◌, ◌++◌, nat_eq, length, length-append,
  length-take_le_self, take, lookup,
}
use qi.Approval.{
  log_too_long, AuditEntry, Event, max_audit_record_bytes, max_audit_log_bytes,
  max_audit_replay_entries,
}
use qi.Approval.Audit.{
  stamped, append_bytes, Audit, Disk, append, append_line, write_line, settle_reservation,
  check_capacity, reservation, is_approval, is_terminal,
}

pub file-settle :
    (a : Audit) (event : Event) (id : Text) (r : ℕ)
    → (settle_reservation a event id r).file ≡ a.file
unfolding settle_reservation
file-settle a event id r = ground arith

-- Whatever the operating system does, the file grows by a part of the line at most.
pub file-write_line :
    (d : Disk) (event : Event) (id : Text) (r : ℕ) (line : Text) (a : Audit)
    → (write_line d event id r line a).0.file ≡ a.file ++ take d.written line
unfolding write_line
file-write_line d event id r line a =
    ground (arith, file-settle (record a { file = a.file ++ take d.written line }) event id r)

fits :
    (a : Audit) (event : Event) (r : ℕ) (line : Text)
    → check_capacity a event r line ≡ none
    → length a.file + length line ≤ max_audit_log_bytes
unfolding check_capacity
fits a event r line h = ground arith

append_line_bounded :
    (d : Disk) (event : Event) (id line : Text) (a : Audit)
    → length a.file ≤ max_audit_log_bytes
    → length (append_line d event id line a).0.file ≤ max_audit_log_bytes
unfolding append_line
append_line_bounded d event id line a h =
    elim (Bool-cases (is_approval event && not (nat_eq (reservation a id) 0))) [
      | inl held ↦ rw (held, append_line) h
      | inr free ↦ elim (Option-cases (check_capacity a event (reservation a id) line)) [
        | inr (x, e) ↦ rw (free, e, append_line) h
        | inl e ↦
            rw (free, e, append_line, file-write_line, length-append)
              (omega
                (arith, fits a event (reservation a id) line e, length-take_le_self d.written line))
      ]
    ]

append_bytes_bounded :
    (d : Disk) (e : AuditEntry) (b : Text) (a : Audit)
    → length a.file ≤ max_audit_log_bytes
    → length (append_bytes d e b a).0.file ≤ max_audit_log_bytes
unfolding append_bytes
append_bytes_bounded d e b a h =
    ground (arith, append_line_bounded d e.event e.id (b ++ 10 ∷ []) a h)

-- Whatever the entry and whatever the operating system does, Append leaves a log that was within
-- `MaxAuditLogBytes` within it.
pub append_bounded :
    (marshal : AuditEntry → Option Text) (d : Disk) (e : AuditEntry) (a : Audit)
    → length a.file ≤ max_audit_log_bytes
    → length (append marshal d e a).0.file ≤ max_audit_log_bytes
unfolding append
append_bounded marshal d e a h = elim (Option-cases (marshal (stamped d e))) [
  | inl out ↦ rw (out, append) h
  | inr (b, encoded) ↦ rw (encoded, append) (append_bytes_bounded d e b a h)
]

-- The books agree: every reservation is of `MaxAuditRecordBytes`, their sum is `reservedBytes`, and
-- file and reservations together keep the limits of the log and of its replay.
pub record IsBudgeted (a : Audit) : Type 0 where
  pub unique : IsMap a.reserved
  pub full : (id : Text) (n : ℕ) → lookup id a.reserved ≡ some n → n ≡ max_audit_record_bytes
  pub total : a.reserved_bytes ≡ max_audit_record_bytes * length a.reserved
  pub bytes_fit : length a.file + a.reserved_bytes ≤ max_audit_log_bytes
  pub entries_fit : a.record_count + length a.reserved ≤ max_audit_replay_entries

pub terminal-ne-approval : (event : Event) → is_terminal event ≡ true → is_approval event ≡ false
unfolding is_terminal is_approval
terminal-ne-approval event h = ground arith

-- The result and the error of a terminal call have room: for an id with a reservation, a terminal
-- line of at most `MaxAuditRecordBytes` bytes passes the checks on capacity.
pub terminal_fits :
    (a : Audit) (event : Event) (id line : Text) (n : ℕ)
    → IsBudgeted a
    → is_terminal event ≡ true
    → lookup id a.reserved ≡ some n
    → length line ≤ max_audit_record_bytes
    → check_capacity a event (reservation a id) line ≡ none
unfolding check_capacity reservation is_approval
terminal_fits a event id line n b kind there short = ground (
  arith,
  b.full id n there,
  b.total,
  b.bytes_fit,
  b.entries_fit,
  kind,
  there,
  terminal-ne-approval event kind,
  length-erase-some id n a.reserved b.unique there,
)

-- A line of one byte more, which Append accepts as a record of exactly `MaxAuditRecordBytes`
-- bytes with its newline, is refused when the log is full up to the reservations.
pub terminal_short :
    (a : Audit) (event : Event) (id line : Text) (n : ℕ)
    → IsBudgeted a
    → is_terminal event ≡ true
    → lookup id a.reserved ≡ some n
    → length line ≡ max_audit_record_bytes + 1
    → length a.file + a.reserved_bytes ≡ max_audit_log_bytes
    → check_capacity a event (reservation a id) line ≡ some log_too_long
unfolding check_capacity reservation is_approval
terminal_short a event id line n b kind there long full = ground (
  arith,
  b.full id n there,
  b.total,
  b.bytes_fit,
  b.entries_fit,
  kind,
  there,
  terminal-ne-approval event kind,
  length-erase-some id n a.reserved b.unique there,
)
