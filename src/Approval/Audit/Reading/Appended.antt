-- ===== src/Approval/Audit/Reading/Appended.antt =====
-- What one Append does to the entries that ReadAuditLog finds in the file.

use qi.Base.{
  sym, ap, ◌∙◌, refl, ◌≡◌, ℕ, zero, suc, ◌≤◌, ◌<◌, Text, false, Option, none, some, List, [], ◌∷◌,
  ◌++◌, ◌==◌, length, length-append, take, has_byte, Option-cases, inl, inr, arith,
}
use qi.Approval.{AuditEntry, Event, max_audit_record_bytes, max_audit_replay_entries}
use qi.Approval.Audit.{
  Audit, Disk, append, append_bytes, append_line, check_capacity, reservation, stamped,
  settle_reservation,
}
use qi.Approval.Audit.Capacity.{file-settle}
use qi.Approval.Audit.Budget.{append_line-none, extended}
use qi.Approval.Audit.Reserved.{append_line-IsBudgeted}
use qi.Approval.Audit.Reading.{reading, outcome_exceeds, add_entry, end_line, feed_all}
use qi.Approval.Audit.Reading.Tail.{feed_all-append, feed_newline, feed_all_plain}
use qi.Approval.Audit.Reading.Opened.{Holds}
use qi.Approval.Audit.Reading.History.{IsLogOf}

-- What is used of encoding/json: an entry is encoded as a text that is not empty and has no newline,
-- the encoding is decoded to `as_read` of the entry, which has the raw JSON compacted and escaped, and
-- null for a result that is nil; and no part of the encoding before its end is decoded.
pub record EncodingLaws (marshal : AuditEntry → Option Text) (unmarshal : Text → Option AuditEntry)
    (as_read : AuditEntry → AuditEntry) : Type 0 where
  pub one_line : (e : AuditEntry) (b : Text) → marshal e ≡ some b → has_byte 10 b ≡ false
  pub not_empty : (e : AuditEntry) (b : Text) → marshal e ≡ some b → (b == []) ≡ false
  pub decodes : (e : AuditEntry) (b : Text) → marshal e ≡ some b → unmarshal b ≡ some (as_read e)
  pub torn :
      (e : AuditEntry) (b : Text) (n : ℕ)
      → marshal e ≡ some b
      → n < length b
      → unmarshal (take n b) ≡ none

take_whole : (n : ℕ) (l : Text) → length (take n l) ≡ length l → take n l ≡ l
take_whole zero [] h = refl
take_whole zero (c ∷ l) h = ground arith
take_whole (suc n) [] h = refl
take_whole (suc n) (c ∷ l) h = ap (λ t. c ∷ t) (take_whole n l (omega arith))

record_count-settle :
    (a : Audit) (event : Event) (id : Text) (r : ℕ)
    → (settle_reservation a event id r).record_count ≡ a.record_count
unfolding settle_reservation
record_count-settle a event id r = ground arith

counted_before :
    (a : Audit) (event : Event) (r : ℕ) (line : Text)
    → check_capacity a event r line ≡ none
    → a.record_count < max_audit_replay_entries
unfolding check_capacity
counted_before a event r line h = ground arith

-- The file and the count after an accepted line.
pub append_line_state :
    (d : Disk) (event : Event) (id line : Text) (a : Audit)
    → (append_line d event id line a).1 ≡ none
    → ((append_line d event id line a).0.file ≡ a.file ++ line)
      × ((append_line d event id line a).0.record_count ≡ suc a.record_count)
      × (a.record_count < max_audit_replay_entries)
append_line_state d event id line a h =
    let (fits, fresh, state, whole) = append_line-none d event id line a h in
    let r : ℕ = reservation a id in
    (
      ap (λ s. s.file) state
          ∙ (file-settle (extended d line a) event id r
              ∙ ap (λ t. a.file ++ t) (take_whole d.written line whole)),
      ap (λ s. s.record_count) state ∙ ap suc (record_count-settle (extended d line a) event id r),
      counted_before a event r line fits,
    )

module _ (marshal : AuditEntry → Option Text) where
  pub append_bytes-none :
      (d : Disk) (e : AuditEntry) (b : Text) (a : Audit)
      → (append_bytes d e b a).1 ≡ none
      → (append_bytes d e b a ≡ append_line d e.event e.id (b ++ 10 ∷ []) a)
        × (length b ≤ max_audit_record_bytes)
  unfolding append_bytes
  append_bytes-none d e b a h = ground arith

  pub append-none :
      (d : Disk) (e : AuditEntry) (a : Audit)
      → (append marshal d e a).1 ≡ none
      → (b : Text) × (marshal (stamped d e) ≡ some b)
        × (append marshal d e a ≡ append_line d e.event e.id (b ++ 10 ∷ []) a)
        × (length b ≤ max_audit_record_bytes)
  unfolding append
  append-none d e a h = elim (Option-cases (marshal (stamped d e))) [
    | inl out ↦ ground arith
    | inr (b, out) ↦
        let (same, short) = append_bytes-none d e b a (rw (out, append) at h) in
        (b, out, rw (out, append) same, short)
  ]

module _ (marshal : AuditEntry → Option Text) (unmarshal : Text → Option AuditEntry)
    (as_read : AuditEntry → AuditEntry) (laws : EncodingLaws marshal unmarshal as_read) where
  end_line_added :
      (es : List AuditEntry) (e : AuditEntry) (b : Text)
      → (b == []) ≡ false
      → unmarshal b ≡ some e
      → outcome_exceeds e ≡ false
      → length es < max_audit_replay_entries
      → end_line unmarshal es b ≡ reading (es ++ e ∷ []) []
  unfolding end_line add_entry
  end_line_added es e b k out small few = ground arith

  -- A line is added to the file, and its entry to those that are read.
  pub line-Holds :
      (file b : Text) (es : List AuditEntry) (e : AuditEntry)
      → Holds unmarshal file es
      → outcome_exceeds (as_read e) ≡ false
      → marshal e ≡ some b
      → length b ≤ max_audit_record_bytes
      → length es < max_audit_replay_entries
      → Holds unmarshal (file ++ (b ++ 10 ∷ [])) (es ++ as_read e ∷ [])
  unfolding feed_all
  line-Holds file b es e h small out short few =
      feed_all-append unmarshal (reading [] []) file (b ++ 10 ∷ [])
      ∙ (rw h (
          feed_all-append unmarshal (reading es []) b (10 ∷ [])
          ∙ (rw (feed_all_plain unmarshal es [] b (laws.one_line e b out) (omega arith)) (
              feed_newline unmarshal es b 10 (ground arith)
              ∙ end_line_added es (as_read e) b (laws.not_empty e b out) (laws.decodes e b out)
                  small few))))

  -- An accepted entry is the next entry that is read.
  pub append-IsLogOf :
      (d : Disk) (e : AuditEntry) (a : Audit) (es : List AuditEntry)
      → IsLogOf unmarshal es a
      → outcome_exceeds (as_read (stamped d e)) ≡ false
      → (append marshal d e a).1 ≡ none
      → IsLogOf unmarshal (es ++ as_read (stamped d e) ∷ []) (append marshal d e a).0
  append-IsLogOf d e a es log small done =
      let (b, out, same, short) = append-none marshal d e a done in
      let taken = ap (λ s. s.1) (sym same) ∙ done in
      let (file, count, few) = append_line_state d e.event e.id (b ++ 10 ∷ []) a taken in
      rw same (record {
        holds = rw file (
            line-Holds a.file b es (stamped d e) log.holds small out short
              (omega (arith, log.counted)));
        counted = omega (arith, count, log.counted, length-append es (as_read (stamped d e) ∷ []));
        budgeted = append_line-IsBudgeted d e.event e.id (b ++ 10 ∷ []) a log.budgeted taken;
      })
