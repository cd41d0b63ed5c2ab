-- ===== src/Approval/Audit/Reading/Glued.antt =====
-- An Append whose write failed after a part of the line, and the Append after it.
use mathlib.Core.List.{append_assoc}
use qi.Base.{
  sym, ap, ◌∙◌, refl, ◌≡◌, ◌≢◌, ℕ, zero, suc, ◌≤◌, ltb, nat_eq, Text, false, ◌&&◌, Option, none,
  some, List, [], ◌∷◌, ◌++◌, ◌==◌, length, take, has_byte, has_byte-append, Bool-cases,
  Option-cases, inl, inr, arith, err, not,
}
use qi.Approval.{AuditEntry, Event, write_failed, max_audit_record_bytes, max_audit_log_bytes}
use qi.Approval.Audit.{
  Audit, Disk, append, append_bytes, append_line, check_capacity, is_approval, reservation, stamped,
}
use qi.Approval.Audit.Capacity.{file-write_line, append_bounded}
use qi.Approval.Audit.Reading.{
  reading, stopped, not_decoded, end_line, feed_all, at_end, read_audit_log, open_audit,
}
use qi.Approval.Audit.Reading.Tail.{feed_all-append, feed_newline}
use qi.Approval.Audit.Reading.Opened.{Holds}
use qi.Approval.Audit.Reading.History.{IsLogOf}
use qi.Approval.Audit.Reading.Appended.{EncodingLaws, append-none, append_line_state}
use qi.Approval.Audit.Reading.Torn.{take_clean, begun_line}

check_capacity-ne :
    (a : Audit) (event : Event) (r : ℕ) (line : Text)
    → check_capacity a event r line ≢ some write_failed
unfolding check_capacity
check_capacity-ne a event r line h = ground arith

-- What a failed write leaves in the file.
append_line-failed :
    (d : Disk) (event : Event) (id line : Text) (a : Audit)
    → (append_line d event id line a).1 ≡ some write_failed
    → (append_line d event id line a).0.file ≡ a.file ++ take d.written line
unfolding append_line
append_line-failed d event id line a h =
    let r : ℕ = reservation a id in
    elim (Bool-cases (is_approval event && not (nat_eq r 0))) [
      | inl held ↦ ground (arith, rw (held, append_line) at h)
      | inr free ↦ elim (Option-cases (check_capacity a event r line)) [
        | inr (y, e) ↦
            absurd (check_capacity-ne a event r line (e ∙ rw (free, e, append_line) at h))
        | inl e ↦ rw (free, e, append_line) (file-write_line d event id r line a)
      ]
    ]

append_bytes-failed :
    (d : Disk) (e : AuditEntry) (b : Text) (a : Audit)
    → (append_bytes d e b a).1 ≡ some write_failed
    → (append_bytes d e b a).0.file ≡ a.file ++ take d.written (b ++ 10 ∷ [])
unfolding append_bytes
append_bytes-failed d e b a h = ground (arith, append_line-failed d e.event e.id (b ++ 10 ∷ []) a)

append-failed :
    (marshal : AuditEntry → Option Text) (d : Disk) (e : AuditEntry) (b : Text) (a : Audit)
    → marshal (stamped d e) ≡ some b
    → (append marshal d e a).1 ≡ some write_failed
    → (append marshal d e a).0.file ≡ a.file ++ take d.written (b ++ 10 ∷ [])
unfolding append
append-failed marshal d e b a out h =
    rw (out, append) (append_bytes-failed d e b a (rw (out, append) at h))

regroup : (file part b : Text) → (file ++ part) ++ (b ++ 10 ∷ []) ≡ file ++ ((part ++ b) ++ 10 ∷ [])
regroup file part b =
    append_assoc file part (b ++ 10 ∷ [])
    ∙ ap (λ t. file ++ t) (sym (append_assoc part b (10 ∷ [])))

take_inside : (n : ℕ) (b t : Text) → n ≤ length b → take n (b ++ t) ≡ take n b
take_inside zero b t h = refl
take_inside (suc n) [] t h = ground arith
take_inside (suc n) (c ∷ b) t h = ap (λ x. c ∷ x) (take_inside n b t (omega arith))

-- What an accepted entry leaves in the file.
append-accepted :
    (marshal : AuditEntry → Option Text) (d : Disk) (e : AuditEntry) (b : Text) (a : Audit)
    → marshal (stamped d e) ≡ some b
    → (append marshal d e a).1 ≡ none
    → (append marshal d e a).0.file ≡ a.file ++ (b ++ 10 ∷ [])
append-accepted marshal d e b a out done =
    let (c, out', same, short) = append-none marshal d e a done in
    let taken = ap (λ s. s.1) (sym same) ∙ done in
    let (file, count, few) = append_line_state d e.event e.id (c ++ 10 ∷ []) a taken in
    let known : (c ≡ b) = ap (λ o. elim o [ none ↦ c | some x ↦ x ]) (sym out' ∙ out) in
    ap (λ s. s.0.file) same ∙ (file ∙ ap (λ t. a.file ++ (t ++ 10 ∷ [])) known)

-- `line` starts with the bytes of `part`, and has some more.
line_unempty : (part b : Text) → (b == []) ≡ false → ((part ++ b) == []) ≡ false
unfolding ◌==◌
line_unempty [] b h = h
line_unempty (c ∷ part) b h = refl

module _ (marshal : AuditEntry → Option Text) (unmarshal : Text → Option AuditEntry)
    (as_read : AuditEntry → AuditEntry) (laws : EncodingLaws marshal unmarshal as_read) where
  end_line_undecoded :
      (es : List AuditEntry) (line : Text)
      → (line == []) ≡ false
      → unmarshal line ≡ none
      → end_line unmarshal es line ≡ stopped es not_decoded
  unfolding end_line
  end_line_undecoded es line k e = ground arith

  glued_read :
      (file line : Text) (es : List AuditEntry)
      → Holds unmarshal file es
      → has_byte 10 line ≡ false
      → (line == []) ≡ false
      → unmarshal line ≡ none
      → length line ≤ max_audit_record_bytes
      → feed_all unmarshal (reading [] []) (file ++ (line ++ 10 ∷ [])) ≡ stopped es not_decoded
  unfolding feed_all
  glued_read file line es h clean k e short =
      ap (feed_all unmarshal (reading [] [])) (sym (append_assoc file line (10 ∷ [])))
      ∙ (feed_all-append unmarshal (reading [] []) (file ++ line) (10 ∷ [])
          ∙ (rw (begun_line marshal unmarshal as_read laws file line es h clean short)
              (feed_newline unmarshal es line 10 (ground arith) ∙ end_line_undecoded es line k e)))

  stopped_log :
      (file : Text) (es : List AuditEntry)
      → feed_all unmarshal (reading [] []) file ≡ stopped es not_decoded
      → length file ≤ max_audit_log_bytes
      → (read_audit_log unmarshal (some file) ≡ (es, some not_decoded))
        × (open_audit unmarshal (some file) ≡ err not_decoded)
  unfolding read_audit_log at_end open_audit
  stopped_log file es h small =
      let fits : (ltb max_audit_log_bytes (length file) ≡ false) = ground arith in
      (rw (fits, h) refl, rw (fits, h) refl)

  -- A write that fails after a part of a record leaves that part in the file, and the line of the
  -- next accepted Append is glued to it. When the two together cannot be decoded, and are not longer
  -- than a record may be, ReadAuditLog then stops at them with an error, and OpenAudit refuses the
  -- file, although that Append had returned nil.
  pub glued_lines_refused :
      (a : Audit) (es : List AuditEntry) (d d' : Disk) (e e' : AuditEntry) (b b' : Text)
      → IsLogOf unmarshal es a
      → marshal (stamped d e) ≡ some b
      → (append marshal d e a).1 ≡ some write_failed
      → d.written ≤ length b
      → marshal (stamped d' e') ≡ some b'
      → (append marshal d' e' (append marshal d e a).0).1 ≡ none
      → unmarshal (take d.written b ++ b') ≡ none
      → length (take d.written b ++ b') ≤ max_audit_record_bytes
      → let file = (append marshal d' e' (append marshal d e a).0).0.file in
        (read_audit_log unmarshal (some file) ≡ (es, some not_decoded))
        × (open_audit unmarshal (some file) ≡ err not_decoded)
  glued_lines_refused a es d d' e e' b b' log out failed inside out' done bad short =
      let part : Text = take d.written b in
      let first : ((append marshal d e a).0.file ≡ a.file ++ part) =
        append-failed marshal d e b a out failed
        ∙ ap (λ t. a.file ++ t) (take_inside d.written b (10 ∷ []) inside) in
      let second : ((append marshal d' e' (append marshal d e a).0).0.file
          ≡ a.file ++ ((part ++ b') ++ 10 ∷ [])) =
        append-accepted marshal d' e' b' (append marshal d e a).0 out' done
        ∙ (ap (λ t. t ++ (b' ++ 10 ∷ [])) first ∙ regroup a.file part b') in
      let clean : (has_byte 10 (part ++ b') ≡ false) =
        has_byte-append 10 part b'
        ∙ rw (take_clean d.written 10 b (laws.one_line (stamped d e) b out))
            (laws.one_line (stamped d' e') b' out') in
      let stops =
        glued_read a.file (part ++ b') es log.holds clean
          (line_unempty part b' (laws.not_empty (stamped d' e') b' out')) bad short in
      let fits : (length a.file ≤ max_audit_log_bytes) = omega (arith, log.budgeted.bytes_fit) in
      stopped_log (append marshal d' e' (append marshal d e a).0).0.file es
        (ap (feed_all unmarshal (reading [] [])) second ∙ stops)
        (append_bounded marshal d' e' (append marshal d e a).0 (append_bounded marshal d e a fits))
