-- ===== src/Approval/Audit/Reading/History.antt =====
-- The audit log that OpenAudit returns for a file, and how many entries the file can have.
use qi.Base.{
  lookup, ap, ◌∙◌, refl, ◌≡◌, ℕ, ◌≤◌, ◌<◌, ltb, Text, false, Option, none, some, List, [], ◌∷◌,
  ◌==◌, length, length-append, Option-cases, inl, inr, arith, ok,
}
use qi.Approval.{AuditEntry, max_audit_log_bytes, max_audit_replay_entries}
use qi.Approval.Audit.{Audit}
use qi.Approval.Audit.Capacity.{IsBudgeted}
use qi.Approval.Audit.Reading.{
  at_end, reading, add_entry, end_line, opened, open_audit, content_of, feed, feed_all,
  read_audit_log, repair_audit_tail,
}
use qi.Approval.Audit.Reading.Tail.{Reader-cases, stopped_short}
use qi.Approval.Audit.Reading.Opened.{Holds, read-Repaired}

add_entry_bounded :
    (es fs : List AuditEntry) (e : AuditEntry) (l : Text)
    → length es ≤ max_audit_replay_entries
    → add_entry es e ≡ reading fs l
    → length fs ≤ max_audit_replay_entries
unfolding add_entry
add_entry_bounded es fs e l few h = ground (arith, length-append es (e ∷ []))

module _ (unmarshal : Text → Option AuditEntry) where
  end_line_bounded :
      (es fs : List AuditEntry) (line l : Text)
      → length es ≤ max_audit_replay_entries
      → end_line unmarshal es line ≡ reading fs l
      → length fs ≤ max_audit_replay_entries
  unfolding end_line
  end_line_bounded es fs line l few h = elim (Option-cases (unmarshal line)) [
    | inl e ↦ ground arith
    | inr (x, e) ↦ ground (arith, add_entry_bounded es fs x l few)
  ]

  feed_bounded :
      (es fs : List AuditEntry) (line l : Text) (c : ℕ)
      → length es ≤ max_audit_replay_entries
      → feed unmarshal (reading es line) c ≡ reading fs l
      → length fs ≤ max_audit_replay_entries
  unfolding feed
  feed_bounded es fs line l c few h = ground (arith, end_line_bounded es fs line l few)

  feed_all_bounded :
      (s : Text) (es fs : List AuditEntry) (line l : Text)
      → length es ≤ max_audit_replay_entries
      → feed_all unmarshal (reading es line) s ≡ reading fs l
      → length fs ≤ max_audit_replay_entries
  unfolding feed_all
  feed_all_bounded [] es fs line l few h = ground (arith, h)
  feed_all_bounded (c ∷ s) es fs line l few h =
      elim (Reader-cases unmarshal (feed unmarshal (reading es line) c)) [
        | inl (gs, k, e) ↦
            feed_all_bounded s gs fs k l (feed_bounded es gs line k c few e) (rw e at h)
        | inr (gs, x, e) ↦ absurd (stopped_short unmarshal gs fs x s l (rw e at h))
      ]

  -- What is known of a log between two operations: the file holds the entries and nothing else,
  -- they are counted, and the books agree.
  pub record IsLogOf (es : List AuditEntry) (a : Audit) : Type 0 where
    pub holds : Holds unmarshal a.file es
    pub counted : a.record_count ≡ length es
    pub budgeted : IsBudgeted a

  pub opened-IsLogOf :
      (fixed : Text) (es : List AuditEntry)
      → Holds unmarshal fixed es
      → length fixed ≤ max_audit_log_bytes
      → length es ≤ max_audit_replay_entries
      → IsLogOf es (opened fixed (length es))
  unfolding lookup
  opened-IsLogOf fixed es h fits few = record {
    holds = h;
    counted = refl;
    budgeted = record {
      unique = tt;
      full = λ id n h. ground arith;
      total = omega arith;
      bytes_fit = omega (arith, fits);
      entries_fit = omega (arith, few);
    };
  }

  open_audit_fixed :
      (found : Option Text) (es : List AuditEntry) (fixed : Text)
      → read_audit_log unmarshal (some (content_of found)) ≡ (es, none)
      → length (content_of found) < max_audit_log_bytes
      → repair_audit_tail unmarshal (content_of found) ≡ ok fixed
      → open_audit unmarshal found ≡ ok (opened fixed (length es))
  unfolding open_audit
  open_audit_fixed found es fixed h small e =
      let fits : (ltb max_audit_log_bytes (length (content_of found)) ≡ false) = ground arith in
      rw (fits, h, e) (ap (λ r. ok (opened fixed (length r.0))) h)

  content_of-read :
      (found : Option Text)
      → read_audit_log unmarshal (some (content_of found)) ≡ read_audit_log unmarshal found
  unfolding read_audit_log feed_all at_end ◌==◌
  content_of-read none = refl
  content_of-read (some file) = refl

  -- A file that ReadAuditLog reads without an error, and that is not filled to the last byte, is
  -- opened: the log then holds exactly the entries that were read, every line ended, and its books
  -- agree. What a crash has left of a last line is cut off, a record without its newline is kept.
  pub open_audit_repaired :
      (found : Option Text) (es : List AuditEntry)
      → read_audit_log unmarshal found ≡ (es, none)
      → length (content_of found) < max_audit_log_bytes
      → (a : Audit) × (open_audit unmarshal found ≡ ok a) × IsLogOf es a
  open_audit_repaired found es h small =
      let whole = content_of-read found ∙ h in
      let (fixed, e, held, fits) = read-Repaired unmarshal (content_of found) es whole small in
      (
        opened fixed (length es),
        open_audit_fixed found es fixed whole small e,
        opened-IsLogOf fixed es held fits (feed_all_bounded fixed [] es [] [] (omega arith) held),
      )
