-- ===== src/Approval/Audit/Reading/Opened.antt =====
-- The bytes that the repair of the tail leaves, and the log that OpenAudit returns for them.
use qi.Base.{
  ap, ◌∙◌, ◌≡◌, ◌+◌, ◌-◌, ◌≤◌, ◌<◌, ltb, Text, true, false, Option, none, some, List, [], ◌∷◌, ◌++◌,
  ◌==◌, length, length-append, take, eq_sound, Bool-cases, inl, inr, arith, ok,
}
use qi.Approval.{AuditEntry, max_audit_log_bytes}
use qi.Approval.Audit.Reading.{
  reading, end_line, feed_all, at_end, read_audit_log, is_record, repair_tail, repair_audit_tail,
}
use qi.Approval.Audit.Reading.Tail.{Split, read-Split, feed_all-append, feed_newline, Reader-cases}
use qi.Approval.Audit.Reading.Reopened.{at_end-cases, repair_whole, repair-Split}
use qi.Approval.Audit.Reading.Window.{take_but}

module _ (unmarshal : Text → Option AuditEntry) where
  -- The entries of the file, with no line begun at its end.
  abbrev pub Holds : Text → List AuditEntry → Type 0
  Holds file es = feed_all unmarshal (reading [] []) file ≡ reading es []

  abbrev pub Repaired : Text → List AuditEntry → Type 0
  Repaired file es =
      (fixed : Text) × (repair_audit_tail unmarshal file ≡ ok fixed)
      × Holds fixed es
      × (length fixed ≤ max_audit_log_bytes)

  repair_cut :
      (file line : Text) (fs : List AuditEntry)
      → Split unmarshal [] fs file line
      → (line == []) ≡ false
      → is_record unmarshal line ≡ false
      → length file < max_audit_log_bytes
      → Repaired file fs
  unfolding repair_tail
  repair_cut file line fs s k other small =
      let counted : (length file ≡ length s.whole + length line) =
        ap length s.splits ∙ length-append s.whole line in
      let cut : (take (length file - length line) file ≡ s.whole) =
        rw s.splits (take_but s.whole line) in
      (
        s.whole,
        repair-Split unmarshal file line fs s k ∙ (rw other (ap ok cut)),
        s.read,
        omega arith,
      )

  repair_ended :
      (file line : Text) (fs es : List AuditEntry)
      → Split unmarshal [] fs file line
      → feed_all unmarshal (reading [] []) file ≡ reading fs line
      → (line == []) ≡ false
      → end_line unmarshal fs line ≡ reading es []
      → is_record unmarshal line ≡ true
      → length file < max_audit_log_bytes
      → Repaired file es
  unfolding repair_tail feed_all
  repair_ended file line fs es s fed k e good small = (
    file ++ 10 ∷ [],
    repair-Split unmarshal file line fs s k ∙ rw good (ground arith),
    feed_all-append unmarshal (reading [] []) file (10 ∷ [])
        ∙ rw (fed, feed_newline unmarshal fs line 10 (ground arith)) e,
    omega (arith, length-append file (10 ∷ [])),
  )

  whole_line_kept :
      (file line : Text) (fs es : List AuditEntry)
      → feed_all unmarshal (reading [] []) file ≡ reading fs line
      → at_end unmarshal (reading fs line) ≡ (es, none)
      → line ≡ []
      → length file < max_audit_log_bytes
      → Repaired file es
  unfolding at_end ◌==◌
  whole_line_kept file line fs es fed ended empty small =
      let fed' : (feed_all unmarshal (reading [] []) file ≡ reading fs []) =
        fed ∙ ap (reading fs) empty in
      let same : (fs ≡ es) = ap (λ p. p.0) (rw empty at ended) in
      (
        file,
        repair_whole unmarshal file fs (read-Split unmarshal file fs [] fed'),
        fed' ∙ ap (λ t. reading t []) same,
        omega arith,
      )

  any_tail_kept :
      (file line : Text) (fs es : List AuditEntry)
      → feed_all unmarshal (reading [] []) file ≡ reading fs line
      → at_end unmarshal (reading fs line) ≡ (es, none)
      → length file < max_audit_log_bytes
      → Repaired file es
  unfolding at_end
  any_tail_kept file line fs es fed ended small =
      let s = read-Split unmarshal file fs line fed in
      elim (Bool-cases (line == [])) [
        | inl empty ↦ whole_line_kept file line fs es fed ended (eq_sound line [] empty) small
        | inr k ↦ elim (at_end-cases unmarshal fs es line ended k) [
          | inl (same, other) ↦ rw same (repair_cut file line fs s k other small)
          | inr (e, good) ↦ repair_ended file line fs es s fed k e good small
        ]
      ]

  read_audit_log-none :
      (file : Text) (es : List AuditEntry)
      → read_audit_log unmarshal (some file) ≡ (es, none)
      → (length file ≤ max_audit_log_bytes)
        × (at_end unmarshal (feed_all unmarshal (reading [] []) file) ≡ (es, none))
  unfolding read_audit_log
  read_audit_log-none file es h = elim (Bool-cases (ltb max_audit_log_bytes (length file))) [
    | inl long ↦ ground arith
    | inr fits ↦ (ground arith, rw fits at h)
  ]

  -- A file that ReadAuditLog reads without an error is repaired to one that holds the entries read.
  pub read-Repaired :
      (file : Text) (es : List AuditEntry)
      → read_audit_log unmarshal (some file) ≡ (es, none)
      → length file < max_audit_log_bytes
      → Repaired file es
  unfolding at_end
  read-Repaired file es h small =
      let (fits, ended) = read_audit_log-none file es h in
      elim (Reader-cases unmarshal (feed_all unmarshal (reading [] []) file)) [
        | inl (fs, line, e) ↦ any_tail_kept file line fs es e (rw e at ended) small
        | inr (fs, x, e) ↦ ground (arith, ended, e)
      ]
