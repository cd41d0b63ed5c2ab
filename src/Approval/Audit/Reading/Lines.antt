-- ===== src/Approval/Audit/Reading/Lines.antt =====
-- The reader of the audit log against a reading that splits the whole file at its newlines first.
use qi.Base.{
  ◌≡◌, refl, sym, ap, ◌∙◌, ℕ, ◌≤◌, ◌<◌, arith, Text, true, false, nat_eq, ltb, Option, some, List,
  [], ◌∷◌, ◌++◌, length, length-append, if◌then◌else◌, Bool-cases, inl, inr,
}
use qi.Approval.{AuditEntry, max_audit_record_bytes, max_audit_log_bytes}
use qi.Approval.Audit.Reading.{
  ReadError, Reader, reading, stopped, record_exceeds, log_exceeds, end_line, feed, feed_all,
  at_end, read_audit_log,
}
use qi.Approval.Audit.Reading.Tail.{
  Reader-cases, feed_all-stopped, feed_plain, feed_newline, end_line_starts,
}

-- The lines of a text, and what comes after the last newline; `before` is the line so far.
abbrev pub lines_from : Text → Text → List Text × Text
lines_from before [] = ([], before)
lines_from before (c ∷ s) =
    let here = lines_from [] s in
    let on = lines_from (before ++ c ∷ []) s in
    if nat_eq c 10 then (before ∷ here.0, here.1) else on

abbrev pub lines_of : Text → List Text × Text
lines_of s = lines_from [] s

lines_from-newline :
    (before s : Text) (c : ℕ)
    → nat_eq c 10 ≡ true
    → lines_from before (c ∷ s) ≡ (before ∷ (lines_of s).0, (lines_of s).1)
lines_from-newline before s c h = rw h refl

lines_from-other :
    (before s : Text) (c : ℕ)
    → nat_eq c 10 ≡ false
    → lines_from before (c ∷ s) ≡ lines_from (before ++ c ∷ []) s
lines_from-other before s c h = rw h refl

module _ (unmarshal : Text → Option AuditEntry) where
  -- The entries of the lines, up to the first error; a last line that is not ended is left.
  pub read_lines : List AuditEntry → List Text → Text → Reader
  read_lines es [] rest =
      if ltb max_audit_record_bytes (length rest)
      then stopped es record_exceeds
      else reading es rest
  read_lines es (l ∷ ls) rest =
      if ltb max_audit_record_bytes (length l)
      then stopped es record_exceeds
      else elim (end_line unmarshal es l) [
        | reading fs k ↦ read_lines fs ls rest
        | stopped fs x ↦ stopped fs x
      ]

  too_long :
      (es : List AuditEntry) (before s : Text)
      → max_audit_record_bytes < length before
      → read_lines es (lines_from before s).0 (lines_from before s).1 ≡ stopped es record_exceeds
  unfolding read_lines
  too_long es before [] h = ground arith
  too_long es before (c ∷ s) h = elim (Bool-cases (nat_eq c 10)) [
    | inl newline ↦ rw newline (ground arith)
    | inr other ↦
        rw other (too_long es (before ++ c ∷ []) s (omega (arith, length-append before (c ∷ []))))
  ]

  read_lines_next :
      (es fs : List AuditEntry) (l k : Text) (ls : List Text) (rest : Text)
      → length l ≤ max_audit_record_bytes
      → end_line unmarshal es l ≡ reading fs k
      → read_lines es (l ∷ ls) rest ≡ read_lines fs ls rest
  unfolding read_lines
  read_lines_next es fs l k ls rest short e = ground arith

  read_lines_stop :
      (es fs : List AuditEntry) (l : Text) (x : ReadError) (ls : List Text) (rest : Text)
      → length l ≤ max_audit_record_bytes
      → end_line unmarshal es l ≡ stopped fs x
      → read_lines es (l ∷ ls) rest ≡ stopped fs x
  unfolding read_lines
  read_lines_stop es fs l x ls rest short e = ground arith

  read_lines_end :
      (es : List AuditEntry) (rest : Text)
      → length rest ≤ max_audit_record_bytes
      → read_lines es [] rest ≡ reading es rest
  unfolding read_lines
  read_lines_end es rest short = ground arith

  feed_exceeds :
      (es : List AuditEntry) (line : Text) (c : ℕ)
      → nat_eq c 10 ≡ false
      → nat_eq (length line) max_audit_record_bytes ≡ true
      → feed unmarshal (reading es line) c ≡ stopped es record_exceeds
  unfolding feed
  feed_exceeds es line c h k = ground arith

  feed_all-nil :
      (es : List AuditEntry) (before : Text)
      → feed_all unmarshal (reading es before) [] ≡ reading es before
  unfolding feed_all
  feed_all-nil es before = refl

  feed_all-cons :
      (r : Reader) (c : ℕ) (s : Text)
      → feed_all unmarshal r (c ∷ s) ≡ feed_all unmarshal (feed unmarshal r c) s
  unfolding feed_all
  feed_all-cons r c s = refl

  -- One byte more: what the reader makes of it, and the lines with it.
  step_read :
      (es : List AuditEntry) (before s : Text) (c : ℕ) (r : Reader) (lines : List Text × Text)
      → feed unmarshal (reading es before) c ≡ r
      → lines_from before (c ∷ s) ≡ lines
      → feed_all unmarshal r s ≡ read_lines es lines.0 lines.1
      → feed_all unmarshal (reading es before) (c ∷ s)
        ≡ read_lines es (lines_from before (c ∷ s)).0 (lines_from before (c ∷ s)).1
  step_read es before s c r lines fed listed same =
      feed_all-cons (reading es before) c s
      ∙ (ap (λ x. feed_all unmarshal x s) fed
          ∙ (same ∙ ap (λ l. read_lines es l.0 l.1) (sym listed)))

  feed_all-read_lines :
      (s : Text) (es : List AuditEntry) (before : Text)
      → length before ≤ max_audit_record_bytes
      → feed_all unmarshal (reading es before) s
        ≡ read_lines es (lines_from before s).0 (lines_from before s).1
  feed_all-read_lines [] es before short =
      feed_all-nil es before ∙ sym (read_lines_end es before short)
  feed_all-read_lines (c ∷ s) es before short = elim (Bool-cases (nat_eq c 10)) [
    | inl newline ↦
        let ls : List Text = (lines_of s).0 in
        let rest : Text = (lines_of s).1 in
        elim (Reader-cases unmarshal (end_line unmarshal es before)) [
          | inl (fs, k, e) ↦
              step_read es before s c (reading fs []) (before ∷ ls, rest)
                (feed_newline unmarshal es before c newline
                  ∙ (e ∙ ap (reading fs) (end_line_starts unmarshal es fs before k e)))
                (lines_from-newline before s c newline)
                (feed_all-read_lines s fs [] (omega arith)
                  ∙ sym (read_lines_next es fs before k ls rest short e))
          | inr (fs, x, e) ↦
              step_read es before s c (stopped fs x) (before ∷ ls, rest)
                (feed_newline unmarshal es before c newline ∙ e)
                (lines_from-newline before s c newline)
                (feed_all-stopped unmarshal fs x s
                  ∙ sym (read_lines_stop es fs before x ls rest short e))
        ]
    | inr other ↦ elim (Bool-cases (nat_eq (length before) max_audit_record_bytes)) [
      | inl full ↦
          step_read es before s c (stopped es record_exceeds) (lines_from (before ++ c ∷ []) s)
            (feed_exceeds es before c other full) (lines_from-other before s c other)
            (feed_all-stopped unmarshal es record_exceeds s
              ∙ sym (
                  too_long es (before ++ c ∷ []) s (ground (arith, length-append before (c ∷ [])))))
      | inr free ↦
          step_read es before s c (reading es (before ++ c ∷ [])) (lines_from (before ++ c ∷ []) s)
            (feed_plain unmarshal es before c other free) (lines_from-other before s c other)
            (feed_all-read_lines s es (before ++ c ∷ [])
              (ground (arith, length-append before (c ∷ []))))
    ]
  ]

  -- ReadAuditLog, which reads through a buffer of one record, finds what a reading finds that has the
  -- whole file in memory, splits it at the newlines and decodes one line after the other.
  pub read_audit_log-lines_of :
      (file : Text)
      → read_audit_log unmarshal (some file) ≡ (
          if ltb max_audit_log_bytes (length file)
          then ([], some log_exceeds)
          else at_end unmarshal (read_lines [] (lines_of file).0 (lines_of file).1))
  unfolding read_audit_log
  read_audit_log-lines_of file = elim (Bool-cases (ltb max_audit_log_bytes (length file))) [
    | inl long ↦ rw long refl
    | inr fits ↦ rw fits (ap (at_end unmarshal) (feed_all-read_lines file [] [] (omega arith)))
  ]
