-- ===== src/Approval/Audit/Reserved.antt =====
-- The reservation of an approval, from the approval to its terminal record.
use qi.Base.{
  ◌==◌, ◌&&◌, ℕ, ◌+◌, ◌-◌, ◌≤◌, ◌≡◌, ◌≢◌, refl, arith, Text, true, false, none, some, List, [], ◌∷◌,
  ◌++◌, length, take, lookup, erase, inl, inr, lookup-insert, lookup-erase,
}
use qi.Approval.{
  Event, approval, execution, failure, max_audit_record_bytes, max_audit_log_bytes,
  max_audit_replay_entries,
}
use qi.Approval.Audit.{
  Audit, Disk, append_line, settle_reservation, check_capacity, reservation, is_approval,
  is_terminal,
}
use qi.Approval.Audit.Capacity.{IsBudgeted, terminal_fits, terminal-ne-approval}
use qi.Approval.Audit.Budget.{
  append_line-none, reservation-cases, counted, plain-IsBudgeted, reserve-IsBudgeted,
  release-IsBudgeted,
}

module _ (a : Audit) (id line bytes : Text) (b : IsBudgeted a)
    (whole : length bytes ≡ length line) where
  abbrev After : Event → Type 0
  After event = IsBudgeted (
      counted
        (settle_reservation (record a { file = a.file ++ bytes }) event id (reservation a id)))

  released :
      (n : ℕ)
      → lookup id a.reserved ≡ some n
      → length a.file + (a.reserved_bytes - n) + length line ≤ max_audit_log_bytes
      → a.record_count + length a.reserved ≤ max_audit_replay_entries
      → IsBudgeted (
          counted (record a {
            file = a.file ++ bytes;
            reserved = erase id a.reserved;
            reserved_bytes = a.reserved_bytes - n;
          }))
  released n held room places = release-IsBudgeted a id bytes b n held (omega (arith, whole)) places

  terminal_checks :
      (event : Event) (r : ℕ)
      → is_terminal event ≡ true
      → check_capacity a event r line ≡ none
      → (length a.file + (a.reserved_bytes - r) + length line ≤ max_audit_log_bytes)
        × (r ≢ 0 → a.record_count + (length a.reserved - 1) + 1 ≤ max_audit_replay_entries)
        × (r ≡ 0 → a.record_count + length a.reserved + 1 ≤ max_audit_replay_entries)
  unfolding check_capacity
  terminal_checks event r kind fits =
      let plain = terminal-ne-approval event kind in
      (ground arith, λ h. ground arith, λ h. ground arith)

  execution-IsBudgeted : check_capacity a execution (reservation a id) line ≡ none → After execution
  unfolding settle_reservation is_terminal
  execution-IsBudgeted fits =
      let (room, used, unused) = terminal_checks execution (reservation a id) refl fits in
      elim (reservation-cases a id b) [
        | inl (e, r) ↦
            rw (r, settle_reservation) (plain-IsBudgeted a id bytes b (omega (arith, r)) (unused r))
        | inr (e, r) ↦
            rw (r, settle_reservation)
              (released max_audit_record_bytes e (omega (arith, r)) (omega (arith, b.entries_fit)))
      ]

  failure-IsBudgeted : check_capacity a failure (reservation a id) line ≡ none → After failure
  unfolding settle_reservation is_terminal
  failure-IsBudgeted fits =
      let (room, used, unused) = terminal_checks failure (reservation a id) refl fits in
      elim (reservation-cases a id b) [
        | inl (e, r) ↦
            rw (r, settle_reservation) (plain-IsBudgeted a id bytes b (omega (arith, r)) (unused r))
        | inr (e, r) ↦
            rw (r, settle_reservation)
              (released max_audit_record_bytes e (omega (arith, r)) (omega (arith, b.entries_fit)))
      ]

  settled-IsBudgeted :
      (event : Event)
      → check_capacity a event (reservation a id) line ≡ none
      → ((is_approval event ≡ true) → reservation a id ≡ 0)
      → After event
  unfolding check_capacity settle_reservation is_approval
  settled-IsBudgeted approval fits fresh = elim (reservation-cases a id b) [
    | inl (e, r) ↦ reserve-IsBudgeted a id bytes b e (ground arith) (ground arith)
    | inr (e, r) ↦ absurd (omega (arith, r, fresh refl))
  ]
  settled-IsBudgeted execution fits fresh = execution-IsBudgeted fits
  settled-IsBudgeted failure fits fresh = failure-IsBudgeted fits
  settled-IsBudgeted event fits fresh = plain-IsBudgeted a id bytes b (ground arith) (ground arith)

-- An accepted entry keeps the books.
pub append_line-IsBudgeted :
    (d : Disk) (event : Event) (id line : Text) (a : Audit)
    → IsBudgeted a
    → (append_line d event id line a).1 ≡ none
    → IsBudgeted (append_line d event id line a).0
append_line-IsBudgeted d event id line a b done =
    let (fits, fresh, state, whole) = append_line-none d event id line a done in
    rw state (settled-IsBudgeted a id line (take d.written line) b whole event fits fresh)

-- A line that is handed to Append.
pub record Line : Type 0 where
  pub disk : Disk
  pub event : Event
  pub id : Text
  pub bytes : Text

abbrev pub appended : Line → Audit → Audit
appended l a = (append_line l.disk l.event l.id l.bytes a).0

-- Every line is accepted, and none settles the id.
abbrev pub AllAccepted : Text → List Line → Audit → Type 0
AllAccepted id [] a = Unit
AllAccepted id (l ∷ ls) a =
    ((append_line l.disk l.event l.id l.bytes a).1 ≡ none)
    × ((is_terminal l.event && l.id == id) ≡ false)
    × AllAccepted id ls (appended l a)

abbrev pub append_all : List Line → Audit → Audit
append_all [] a = a
append_all (l ∷ ls) a = append_all ls (appended l a)

reserved_stays :
    (l : Line) (id : Text) (a : Audit)
    → lookup id a.reserved ≡ some max_audit_record_bytes
    → (append_line l.disk l.event l.id l.bytes a).1 ≡ none
    → (is_terminal l.event && l.id == id) ≡ false
    → lookup id (appended l a).reserved ≡ some max_audit_record_bytes
unfolding settle_reservation is_terminal
reserved_stays l id a held done other =
    let (fits, fresh, state, whole) = append_line-none l.disk l.event l.id l.bytes a done in
    rw state (
      ground (
        arith,
        lookup-insert l.id id max_audit_record_bytes a.reserved,
        lookup-erase l.id id a.reserved,
      ))

-- Once an approval has reserved the room for its terminal record, any accepted entries may follow
-- that are not the terminal record of that id: a terminal line of up to `MaxAuditRecordBytes`
-- bytes for the id still passes the checks on the size of the log and on the number of entries.
pub reserved_until_settled :
    (ls : List Line) (a : Audit) (id : Text) (event : Event) (line : Text)
    → IsBudgeted a
    → lookup id a.reserved ≡ some max_audit_record_bytes
    → AllAccepted id ls a
    → is_terminal event ≡ true
    → length line ≤ max_audit_record_bytes
    → let after = append_all ls a in check_capacity after event (reservation after id) line ≡ none
reserved_until_settled [] a id event line b held all kind short =
    terminal_fits a event id line max_audit_record_bytes b kind held short
reserved_until_settled (l ∷ ls) a id event line b held all kind short =
    reserved_until_settled ls (appended l a) id event line
      (append_line-IsBudgeted l.disk l.event l.id l.bytes a b all.0)
      (reserved_stays l id a held all.0 all.1) all.2 kind short
