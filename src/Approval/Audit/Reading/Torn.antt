-- ===== src/Approval/Audit/Reading/Torn.antt =====
-- A line of which only a part reached the file: what the next reading, and the next Append, make of it.

use qi.Base.{
  ap, ◌∙◌, refl, ◌≡◌, ℕ, zero, suc, ◌+◌, ◌≤◌, ◌<◌, ltb, if◌then◌else◌, Text, false, Option, none,
  some, List, [], ◌∷◌, ◌++◌, ◌==◌, length, length-append, length-take_le_self, take, has_byte,
  Bool-cases, inl, inr, arith, ok,
}
use qi.Approval.{AuditEntry, max_audit_record_bytes, max_audit_log_bytes, max_audit_replay_entries}
use qi.Approval.Audit.{Audit}
use qi.Approval.Audit.Reading.{
  reading, outcome_exceeds, add_entry, feed_all, at_end, read_audit_log, open_audit,
}
use qi.Approval.Audit.Reading.Tail.{feed_all-append, feed_all_plain}
use qi.Approval.Audit.Reading.Opened.{Holds}
use qi.Approval.Audit.Reading.History.{IsLogOf, open_audit_repaired}
use qi.Approval.Audit.Reading.Appended.{EncodingLaws}

pub take_clean : (n c : ℕ) (b : Text) → has_byte c b ≡ false → has_byte c (take n b) ≡ false
unfolding has_byte
take_clean zero c b h = refl
take_clean (suc n) c [] h = refl
take_clean (suc n) c (x ∷ b) h = ground (arith, take_clean n c b)

pub take_full : (n : ℕ) (b : Text) → length b ≤ n → take n b ≡ b
take_full zero [] h = refl
take_full zero (x ∷ b) h = ground arith
take_full (suc n) [] h = refl
take_full (suc n) (x ∷ b) h = ap (λ t. x ∷ t) (take_full n b (omega arith))

module _ (marshal : AuditEntry → Option Text) (unmarshal : Text → Option AuditEntry)
    (as_read : AuditEntry → AuditEntry) (laws : EncodingLaws marshal unmarshal as_read) where
  -- The file ends in the middle of a line.
  pub begun_line :
      (file part : Text) (es : List AuditEntry)
      → Holds unmarshal file es
      → has_byte 10 part ≡ false
      → length part ≤ max_audit_record_bytes
      → feed_all unmarshal (reading [] []) (file ++ part) ≡ reading es part
  begun_line file part es h clean short =
      feed_all-append unmarshal (reading [] []) file part
      ∙ (rw h (feed_all_plain unmarshal es [] part clean (omega arith)))

  at_end_undecoded :
      (es : List AuditEntry) (part : Text)
      → unmarshal part ≡ none
      → at_end unmarshal (reading es part) ≡ (es, none)
  unfolding at_end
  at_end_undecoded es part e = ground arith

  at_end_decoded :
      (es : List AuditEntry) (b : Text) (e : AuditEntry)
      → (b == []) ≡ false
      → unmarshal b ≡ some e
      → outcome_exceeds e ≡ false
      → length es < max_audit_replay_entries
      → at_end unmarshal (reading es b) ≡ (es ++ e ∷ [], none)
  unfolding at_end add_entry
  at_end_decoded es b e k out small few = ground arith

  begun_line_read :
      (file part : Text) (es : List AuditEntry)
      → Holds unmarshal file es
      → has_byte 10 part ≡ false
      → length part ≤ max_audit_record_bytes
      → length file + length part ≤ max_audit_log_bytes
      → read_audit_log unmarshal (some (file ++ part)) ≡ at_end unmarshal (reading es part)
  unfolding read_audit_log
  begun_line_read file part es h clean short room =
      let fits : (ltb max_audit_log_bytes (length (file ++ part)) ≡ false) =
        ground (arith, length-append file part) in
      rw (fits, begun_line file part es h clean short) refl

  -- What a crash in the middle of a write leaves: the record counts when all of it is there.
  abbrev pub entries_after_crash : List AuditEntry → AuditEntry → ℕ → ℕ → List AuditEntry
  entries_after_crash es e n size = if ltb n size then es else es ++ e ∷ []

  torn_read :
      (file b : Text) (es : List AuditEntry) (e : AuditEntry) (n : ℕ)
      → Holds unmarshal file es
      → outcome_exceeds (as_read e) ≡ false
      → marshal e ≡ some b
      → length b ≤ max_audit_record_bytes
      → length es < max_audit_replay_entries
      → length file + length b ≤ max_audit_log_bytes
      → read_audit_log unmarshal (some (file ++ take n b))
        ≡ (entries_after_crash es (as_read e) n (length b), none)
  torn_read file b es e n h small out short few room =
      begun_line_read file (take n b) es h (take_clean n 10 b (laws.one_line e b out))
        (omega (arith, length-take_le_self n b)) (omega (arith, length-take_le_self n b))
      ∙ elim (Bool-cases (ltb n (length b))) [
        | inl cut ↦ rw cut (at_end_undecoded es (take n b) (laws.torn e b n out (ground arith)))
        | inr whole ↦
            rw (whole, take_full n b (ground arith))
              (at_end_decoded es b (as_read e) (laws.not_empty e b out) (laws.decodes e b out) small
                few)
      ]

  -- A crash in the middle of an Append, after any number of the bytes of the record and before its
  -- newline: the next OpenAudit succeeds, and its log holds the entries of before, with the new one, as
  -- it is decoded, exactly when all of its bytes had reached the file. The record is within its limit,
  -- and so is its outcome as it is decoded; the log has room for one more entry and, with the record,
  -- is shorter than `MaxAuditLogBytes`.
  pub crash_recovered :
      (a : Audit) (b : Text) (es : List AuditEntry) (e : AuditEntry) (n : ℕ)
      → IsLogOf unmarshal es a
      → outcome_exceeds (as_read e) ≡ false
      → marshal e ≡ some b
      → length b ≤ max_audit_record_bytes
      → length es < max_audit_replay_entries
      → length a.file + length b < max_audit_log_bytes
      → (next : Audit) × (open_audit unmarshal (some (a.file ++ take n b)) ≡ ok next)
        × IsLogOf unmarshal (entries_after_crash es (as_read e) n (length b)) next
  crash_recovered a b es e n log small out short few room =
      open_audit_repaired unmarshal (some (a.file ++ take n b))
        (entries_after_crash es (as_read e) n (length b))
        (torn_read a.file b es e n log.holds small out short few (omega arith))
        (omega (arith, length-append a.file (take n b), length-take_le_self n b))
