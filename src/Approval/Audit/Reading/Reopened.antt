-- ===== src/Approval/Audit/Reading/Reopened.antt =====
-- The audit log that OpenAudit returns, against what ReadAuditLog finds in the file.
use mathlib.Core.List.{append_assoc}
use qi.Base.{
  sym, ap, ◌∙◌, refl, ◌≡◌, ℕ, nat_eq, Text, true, false, Option, none, some, List, [], ◌∷◌, ◌++◌,
  ◌==◌, ◌⊎◌, length, has_byte, Bool-cases, not, Option-cases, inl, inr, arith, ok,
}
use qi.Approval.{AuditEntry, max_audit_replay_entries}
use qi.Approval.Audit.Reading.{
  reading, add_entry, entries_read, outcome_exceeds, end_line, at_end, is_record, repair_tail,
  repair_audit_tail, ends_line, tail_of, window,
}
use qi.Approval.Audit.Reading.Tail.{Split}
use qi.Approval.Audit.Reading.Window.{
  ends_line_plain, ends_line_skip, ends_line_ended, tail_of_plain, tail_of_newline, window_newline,
  window_short,
}

append_unempty : (v : Text) (c : ℕ) (l : Text) → ((v ++ c ∷ l) == []) ≡ false
unfolding ◌==◌
append_unempty [] c l = refl
append_unempty (x ∷ v) c l = refl

ends_line_after :
    (u line : Text)
    → (line == []) ≡ false
    → has_byte 10 line ≡ false
    → ends_line (u ++ 10 ∷ line) ≡ false
unfolding ◌==◌
ends_line_after u [] h k = ground arith
ends_line_after u (d ∷ l) h k = ends_line_skip u 10 d l ∙ ends_line_plain (d ∷ l) k

module _ (unmarshal : Text → Option AuditEntry) where
  repair_ended :
      (file : Text) → (ends_line (window file) ≡ true) → repair_audit_tail unmarshal file ≡ ok file
  unfolding repair_audit_tail
  repair_ended file h = ground arith

  repair_unended :
      (file tail : Text)
      → (file == []) ≡ false
      → ends_line (window file) ≡ false
      → tail_of [] (window file) ≡ tail
      → repair_audit_tail unmarshal file ≡ repair_tail unmarshal file tail
  unfolding repair_audit_tail
  repair_unended file tail h k e = rw (h, k, e) refl

  -- Where the file ends.
  file-cases :
      (file line : Text) (fs : List AuditEntry)
      → Split unmarshal [] fs file line
      → (file ≡ line) ⊎ ((w : Text) × (file ≡ w ++ 10 ∷ line))
  file-cases file line fs s = elim s.closed [
    | inl e ↦ inl (s.splits ∙ rw e refl)
    | inr (w, e) ↦ inr (w, s.splits ∙ (rw e (append_assoc w (10 ∷ []) line)))
  ]

  -- The tail that is looked at is the line that the reader has not ended.
  pub repair-Split :
      (file line : Text) (fs : List AuditEntry)
      → Split unmarshal [] fs file line
      → (line == []) ≡ false
      → repair_audit_tail unmarshal file ≡ repair_tail unmarshal file line
  repair-Split file line fs s h = elim (file-cases file line fs s) [
    | inl e ↦
        let seen : (window file ≡ line) = ap window e ∙ window_short line s.short in
        repair_unended file line (rw e h) (rw seen (ends_line_plain line s.plain))
          (rw seen (tail_of_plain [] line s.plain))
    | inr (w, e) ↦
        let (u, v) = window_newline w line s.short in
        let seen : (window file ≡ u ++ 10 ∷ line) = ap window e ∙ v in
        repair_unended file line (rw e (append_unempty w 10 line))
          (rw seen (ends_line_after u line h s.plain))
          (rw seen (tail_of_newline u [] line ∙ tail_of_plain [] line s.plain))
  ]

  pub repair_whole :
      (file : Text) (fs : List AuditEntry)
      → Split unmarshal [] fs file []
      → repair_audit_tail unmarshal file ≡ ok file
  unfolding repair_audit_tail ◌==◌
  repair_whole file fs s = elim (file-cases file [] fs s) [
    | inl e ↦ rw e refl
    | inr (w, e) ↦
        let (u, v) = window_newline w [] (omega arith) in
        repair_ended file (rw (ap window e ∙ v) (ends_line_ended u))
  ]

  add_entry-read :
      (fs es : List AuditEntry) (x : AuditEntry)
      → entries_read (add_entry fs x) ≡ (es, none)
      → (add_entry fs x ≡ reading es []) × (outcome_exceeds x ≡ false)
  unfolding add_entry
  add_entry-read fs es x h = elim (Bool-cases (outcome_exceeds x)) [
    | inl big ↦ ground arith
    | inr small ↦ elim (Bool-cases (nat_eq (length fs) max_audit_replay_entries)) [
      | inl full ↦ ground arith
      | inr free ↦
          (rw (small, free) (ap (λ l. reading l []) (ap (λ p. p.0) (rw (small, free) at h))), small)
    ]
  ]

  line_undecoded :
      (fs : List AuditEntry) (line : Text)
      → (line == []) ≡ false
      → unmarshal line ≡ none
      → (at_end unmarshal (reading fs line) ≡ (fs, none)) × (is_record unmarshal line ≡ false)
  unfolding at_end is_record
  line_undecoded fs line k e = (ground arith, ground arith)

  line_decoded :
      (fs : List AuditEntry) (line : Text) (x : AuditEntry)
      → (line == []) ≡ false
      → unmarshal line ≡ some x
      → (at_end unmarshal (reading fs line) ≡ entries_read (add_entry fs x))
        × (end_line unmarshal fs line ≡ add_entry fs x)
        × (is_record unmarshal line ≡ not (outcome_exceeds x))
  unfolding at_end end_line is_record
  line_decoded fs line x k e = (ground arith, ground arith, ground arith)

  -- A line at the end of the file that ReadAuditLog leaves out, or takes.
  pub at_end-cases :
      (fs es : List AuditEntry) (line : Text)
      → at_end unmarshal (reading fs line) ≡ (es, none)
      → (line == []) ≡ false
      → ((es ≡ fs) × (is_record unmarshal line ≡ false))
        ⊎ ((end_line unmarshal fs line ≡ reading es []) × (is_record unmarshal line ≡ true))
  at_end-cases fs es line h k = elim (Option-cases (unmarshal line)) [
    | inl e ↦
        let (ended, other) = line_undecoded fs line k e in
        inl (ap (λ p. p.0) (sym h ∙ ended), other)
    | inr (x, e) ↦
        let (ended, same, good) = line_decoded fs line x k e in
        let (added, small) = add_entry-read fs es x (sym ended ∙ h) in
        inr (same ∙ added, good ∙ ap not small)
  ]
