-- ===== src/Approval/Audit/Reading/Tail.antt =====
-- The reader of the audit log after a part of the file: the line that it is in, and the bytes before.
use mathlib.Core.Path.{subst}
use mathlib.Core.List.{append_assoc, append-nil}
use qi.Base.{
  has_byte-append, ◌⊎◌, ℕ, ◌+◌, ◌≤◌, ◌≡◌, ◌≢◌, refl, sym, ap, ◌∙◌, arith, Text, true, false, nat_eq,
  Option, List, [], ◌∷◌, ◌++◌, length, length-append, has_byte, Bool-cases, inl, inr,
}
use qi.Approval.{AuditEntry, max_audit_record_bytes}
use qi.Approval.Audit.Reading.{
  ReadError, Reader, reading, stopped, record_exceeds, add_entry, end_line, feed, feed_all,
}

module _ (unmarshal : Text → Option AuditEntry) where
  pub feed_all-append :
      (r : Reader) (s t : Text)
      → feed_all unmarshal r (s ++ t) ≡ feed_all unmarshal (feed_all unmarshal r s) t
  unfolding feed_all
  feed_all-append r [] t = refl
  feed_all-append r (c ∷ s) t = feed_all-append (feed unmarshal r c) s t

  pub feed_all-stopped :
      (es : List AuditEntry) (x : ReadError) (s : Text)
      → feed_all unmarshal (stopped es x) s ≡ stopped es x
  unfolding feed_all feed
  feed_all-stopped es x [] = refl
  feed_all-stopped es x (c ∷ s) = feed_all-stopped es x s

  pub feed_plain :
      (es : List AuditEntry) (line : Text) (c : ℕ)
      → nat_eq c 10 ≡ false
      → nat_eq (length line) max_audit_record_bytes ≡ false
      → feed unmarshal (reading es line) c ≡ reading es (line ++ c ∷ [])
  unfolding feed
  feed_plain es line c h k = ground arith

  pub feed_newline :
      (es : List AuditEntry) (line : Text) (c : ℕ)
      → nat_eq c 10 ≡ true
      → feed unmarshal (reading es line) c ≡ end_line unmarshal es line
  unfolding feed
  feed_newline es line c h = ground arith

  feed_full :
      (es : List AuditEntry) (line : Text) (c : ℕ)
      → nat_eq c 10 ≡ false
      → nat_eq (length line) max_audit_record_bytes ≡ true
      → (x : ReadError) × (feed unmarshal (reading es line) c ≡ stopped es x)
  unfolding feed
  feed_full es line c h k = (record_exceeds, ground arith)

  -- Bytes with no newline among them are added to the line.
  pub feed_all_plain :
      (es : List AuditEntry) (line b : Text)
      → has_byte 10 b ≡ false
      → length line + length b ≤ max_audit_record_bytes
      → feed_all unmarshal (reading es line) b ≡ reading es (line ++ b)
  unfolding feed_all feed has_byte
  feed_all_plain es line [] h short = ap (reading es) (sym (append-nil line))
  feed_all_plain es line (c ∷ b) h short = rw (feed_plain es line c (ground arith) (ground arith)) (
      feed_all_plain es (line ++ c ∷ []) b (ground arith)
        (omega (arith, length-append line (c ∷ [])))
      ∙ ap (reading es) (append_assoc line (c ∷ []) b))

  pub Reader-cases :
      (r : Reader)
      → ((es : List AuditEntry) × (line : Text) × (r ≡ reading es line))
        ⊎ ((es : List AuditEntry) × (x : ReadError) × (r ≡ stopped es x))
  Reader-cases (reading es line) = inl (es, line, refl)
  Reader-cases (stopped es x) = inr (es, x, refl)

  -- A line that is ended leaves the reader at the start of a line.
  pub end_line_starts :
      (es fs : List AuditEntry) (line l : Text) → end_line unmarshal es line ≡ reading fs l → l ≡ []
  unfolding end_line add_entry
  end_line_starts es fs line l h = ground arith

  -- Where the reader is, in terms of the bytes: whole lines, and the line that is not ended yet.
  pub record Split (es fs : List AuditEntry) (s line : Text) : Type 0 where
    pub whole : Text
    pub splits : s ≡ whole ++ line
    pub read : feed_all unmarshal (reading es []) whole ≡ reading fs []
    pub closed : (whole ≡ []) ⊎ ((w : Text) × (whole ≡ w ++ 10 ∷ []))
    pub plain : has_byte 10 line ≡ false
    pub short : length line ≤ max_audit_record_bytes

  closed_on :
      (before whole : Text) (b : ℕ)
      → nat_eq b 10 ≡ true
      → ((whole ≡ []) ⊎ ((w : Text) × (whole ≡ w ++ 10 ∷ [])))
      → (w : Text) × (before ++ b ∷ whole ≡ w ++ 10 ∷ [])
  closed_on before whole b h (inl e) = (before, ground (arith, h, e))
  closed_on before whole b h (inr (w, e)) =
      (before ++ b ∷ w, rw e (sym (append_assoc before (b ∷ w) (10 ∷ []))))

  Split-newline :
      (es es' fs : List AuditEntry) (before : Text) (b : ℕ) (s line : Text)
      → nat_eq b 10 ≡ true
      → feed_all unmarshal (reading es []) before ≡ reading es before
      → feed unmarshal (reading es before) b ≡ reading es' []
      → Split es' fs s line
      → Split es fs (before ++ b ∷ s) line
  unfolding feed_all
  Split-newline es es' fs before b s line h c e t = record {
    whole = before ++ b ∷ t.whole;
    splits = ap (λ u. before ++ b ∷ u) t.splits ∙ sym (append_assoc before (b ∷ t.whole) line);
    read = feed_all-append (reading es []) before (b ∷ t.whole) ∙ rw (c, e) t.read;
    closed = inr (closed_on before t.whole b h t.closed);
    plain = t.plain;
    short = t.short;
  }

  pub stopped_short :
      (es fs : List AuditEntry) (x : ReadError) (s line : Text)
      → feed_all unmarshal (stopped es x) s ≢ reading fs line
  stopped_short es fs x s line e = cc (feed_all-stopped es x s)

  longer_plain :
      (before : Text) (b : ℕ)
      → nat_eq b 10 ≡ false
      → has_byte 10 before ≡ false
      → has_byte 10 (before ++ b ∷ []) ≡ false
  unfolding has_byte
  longer_plain before b h k = ground (arith, has_byte-append 10 before (b ∷ []))

  longer_short :
      (before : Text) (b : ℕ)
      → nat_eq (length before) max_audit_record_bytes ≡ false
      → length before ≤ max_audit_record_bytes
      → length (before ++ b ∷ []) ≤ max_audit_record_bytes
  longer_short before b h k = ground (arith, length-append before (b ∷ []))

  feed_all-Split :
      (s : Text) (es fs : List AuditEntry) (before line : Text)
      → has_byte 10 before ≡ false
      → length before ≤ max_audit_record_bytes
      → feed_all unmarshal (reading es before) s ≡ reading fs line
      → Split es fs (before ++ s) line
  unfolding feed_all has_byte
  feed_all-Split [] es fs before line clean room h = record {
    whole = [];
    splits = append-nil before ∙ ground (arith, h);
    read = ground (arith, h);
    closed = inl refl;
    plain = ground (arith, h);
    short = ground (arith, h);
  }
  feed_all-Split (b ∷ s) es fs before line clean room h = elim (Bool-cases (nat_eq b 10)) [
    | inl newline ↦ elim (Reader-cases (end_line unmarshal es before)) [
      | inr (gs, x, e) ↦
          absurd (stopped_short gs fs x s line (rw (feed_newline es before b newline ∙ e) at h))
      | inl (es', l, e) ↦
          let started = end_line_starts es es' before l e in
          let fed = feed_newline es before b newline ∙ (e ∙ ap (reading es') started) in
          Split-newline es es' fs before b s line newline
            (feed_all_plain es [] before clean (omega arith)) fed
            (feed_all-Split s es' fs [] line refl (omega arith) (rw fed at h))
    ]
    | inr other ↦ elim (Bool-cases (nat_eq (length before) max_audit_record_bytes)) [
      | inl full ↦
          let (x, e) = feed_full es before b other full in
          absurd (stopped_short es fs x s line (rw e at h))
      | inr free ↦
          let e = feed_plain es before b other free in
          subst (λ t. Split es fs t line) (append_assoc before (b ∷ []) s)
            (feed_all-Split s es fs (before ++ b ∷ []) line (longer_plain before b other clean)
              (longer_short before b free room) (rw e at h))
    ]
  ]

  -- Every file that is read without an error consists of whole lines and a line that is not ended.
  pub read-Split :
      (s : Text) (fs : List AuditEntry) (line : Text)
      → feed_all unmarshal (reading [] []) s ≡ reading fs line
      → Split [] fs s line
  unfolding has_byte
  read-Split s fs line h = feed_all-Split s [] fs [] line refl (omega arith) h
