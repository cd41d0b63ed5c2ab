-- ===== src/Approval/Audit/Reading.antt =====
-- internal/approval/audit.go: ReadAuditLog, repairAuditTail and OpenAudit, on the bytes of the file.
-- `unmarshal` is json.Unmarshal of a line: the entry, or nothing for an error. Reading, truncating
-- and syncing a file that is open are taken to succeed.
pub mod Tail
pub mod Lines
pub mod Window
pub mod Reopened
pub mod Opened
pub mod History
pub mod Appended
pub mod Sessions
pub mod Torn
pub mod Glued
use qi.Base.{
  ℕ, ◌+◌, ◌-◌, Text, Bool, true, false, not, ◌==◌, nat_eq, ltb, Option, none, some, List, [], ◌∷◌,
  ◌++◌, length, drop, take, if◌then◌else◌, Result, ok, err,
}
use qi.Approval.{
  AuditEntry, max_audit_record_bytes, max_audit_log_bytes, max_audit_replay_entries,
  max_terminal_result_bytes,
}
use qi.Approval.Audit.{Audit}

pub data ReadError : Type 0 where
  record_exceeds not_decoded result_exceeds replay_exceeds log_exceeds : ReadError

-- e.Outcome != nil && len(e.Outcome.Result) > MaxTerminalResultBytes
unfoldable pub outcome_exceeds : AuditEntry → Bool
outcome_exceeds e = elim e.outcome [
  | none ↦ false
  | some o ↦ ltb max_terminal_result_bytes (length o.result)
]

-- Between two bytes: the entries so far with the line that is being read, or the error.
pub data Reader : Type 0 where
  reading : List AuditEntry → Text → Reader
  stopped : List AuditEntry → ReadError → Reader

-- From the decoded line on.
unfoldable pub add_entry : List AuditEntry → AuditEntry → Reader
unfolding outcome_exceeds
add_entry es e =
    if outcome_exceeds e
    then stopped es result_exceeds
    else if nat_eq (length es) max_audit_replay_entries
    then stopped es replay_exceeds
    else reading (es ++ e ∷ []) []

abbrev pub entries_read : Reader → List AuditEntry × Option ReadError
entries_read (reading es line) = (es, none)
entries_read (stopped es x) = (es, some x)

module _ (unmarshal : Text → Option AuditEntry) where
  -- A line that ends with a newline.
  unfoldable pub end_line : List AuditEntry → Text → Reader
  unfolding add_entry
  end_line es line =
      if line == []
      then reading es []
      else elim (unmarshal line) [ none ↦ stopped es not_decoded | some e ↦ add_entry es e ]

  -- The buffer holds `MaxAuditRecordBytes` bytes and a newline.
  unfoldable pub feed : Reader → ℕ → Reader
  unfolding end_line
  feed (stopped es x) c = stopped es x
  feed (reading es line) c =
      if nat_eq c 10
      then end_line es line
      else if nat_eq (length line) max_audit_record_bytes
      then stopped es record_exceeds
      else reading es (line ++ c ∷ [])

  unfoldable pub feed_all : Reader → Text → Reader
  unfolding feed
  feed_all r [] = r
  feed_all r (c ∷ s) = feed_all (feed r c) s

  -- At the end of the file: a line that cannot be decoded is what a crash left of one.
  unfoldable pub at_end : Reader → List AuditEntry × Option ReadError
  unfolding add_entry
  at_end (stopped es x) = (es, some x)
  at_end (reading es line) =
      if line == []
      then (es, none)
      else elim (unmarshal line) [ none ↦ (es, none) | some e ↦ entries_read (add_entry es e) ]

  -- `none` is a file that does not exist.
  unfoldable pub read_audit_log : Option Text → List AuditEntry × Option ReadError
  unfolding feed_all at_end
  read_audit_log none = ([], none)
  read_audit_log (some file) =
      if ltb max_audit_log_bytes (length file)
      then ([], some log_exceeds)
      else at_end (feed_all (reading [] []) file)

-- data[len(data)-1] == '\n'
unfoldable pub ends_line : Text → Bool
ends_line [] = false
ends_line (c ∷ []) = nat_eq c 10
ends_line (c ∷ d ∷ s) = ends_line (d ∷ s)

-- data[bytes.LastIndexByte(data, '\n')+1:]
unfoldable pub tail_of : Text → Text → Text
tail_of line [] = line
tail_of line (c ∷ s) = tail_of (if nat_eq c 10 then [] else line ++ c ∷ []) s

abbrev pub window : Text → Text
window file =
    if ltb (max_audit_record_bytes + 1) (length file)
    then drop (length file - (max_audit_record_bytes + 1)) file
    else file

abbrev pub opened : Text → ℕ → Audit
opened file n = record {
  is_open = true;
  file = file;
  reserved = [];
  reserved_bytes = 0;
  record_count = n;
}

abbrev pub content_of : Option Text → Text
content_of none = []
content_of (some file) = file

module _ (unmarshal : Text → Option AuditEntry) where
  unfoldable pub is_record : Text → Bool
  unfolding outcome_exceeds
  is_record line = elim (unmarshal line) [ none ↦ false | some e ↦ not (outcome_exceeds e) ]

  -- A tail that is a record is given its newline, any other is cut off.
  unfoldable pub repair_tail : Text → Text → Result ReadError Text
  unfolding is_record
  repair_tail file tail =
      if is_record tail
      then (if nat_eq (length file) max_audit_log_bytes
          then err log_exceeds
          else ok (file ++ 10 ∷ []))
      else ok (take (length file - length tail) file)

  unfoldable pub repair_audit_tail : Text → Result ReadError Text
  unfolding repair_tail ends_line tail_of
  repair_audit_tail file =
      if file == []
      then ok file
      else if ends_line (window file)
      then ok file
      else repair_tail file (tail_of [] (window file))

  -- The file is created when it does not exist.
  unfoldable pub open_audit : Option Text → Result ReadError Audit
  open_audit found =
      let file : Text = content_of found in
      if ltb max_audit_log_bytes (length file)
      then err log_exceeds
      else (let (es, failed) = read_audit_log unmarshal (some file) in
          elim failed [
            | some x ↦ err x
            | none ↦ elim (repair_audit_tail file) [
              | err x ↦ err x
              | ok fixed ↦ ok (opened fixed (length es))
            ]
          ])
