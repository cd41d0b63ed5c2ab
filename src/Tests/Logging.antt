-- ===== src/Tests/Logging.antt =====
-- A codec with two encodings: `{a}` and `{b}`, the bytes of which are 123, 97 or 98, and 125.
use qi.Base.{
  ltb, ℕ, zero, suc, ◌<◌, Text, true, false, ◌==◌, Option, none, some, List, map, [], ◌∷◌, ◌++◌,
  ◌≡◌, refl, sym, ap, arith, All, ◌⊎◌, inl, inr, ok, err, if◌then◌else◌, has_byte, take, length,
  Bool-cases,
}
use qi.Approval.{AuditEntry, enqueued, denial, max_audit_log_bytes}
use qi.Approval.Audit.{
  Audit, Disk, append, append_bytes, append_line, write_line, stamped, reservation, check_capacity,
}
use qi.Approval.Audit.Reading.Lines.{read_lines, lines_of, read_audit_log-lines_of}
use qi.Approval.Audit.Reading.{
  log_exceeds, at_end, not_decoded, outcome_exceeds, read_audit_log, open_audit, opened, feed_all,
}
use qi.Approval.Audit.Reading.Appended.{EncodingLaws}
use qi.Approval.Audit.Reading.History.{IsLogOf, opened-IsLogOf}
use qi.Approval.Audit.Reading.Sessions.{
  Call, IsRegular, accepted, append_each, audit_log_replays, is_atomic,
}
use qi.Approval.Audit.Reading.Torn.{crash_recovered}
use qi.Approval.Audit.Reading.Glued.{glued_lines_refused}

abbrev first : AuditEntry
first = record {
  time = 1;
  event = enqueued;
  id = 97 ∷ [];
  caller = [];
  call_id = [];
  tool = [];
  reason = [];
  error = [];
  params = [];
  params_hash = [];
  outcome = none;
}

abbrev second : AuditEntry
second = record first { time = 2; event = denial; id = 98 ∷ [] }

abbrev marshal : AuditEntry → Option Text
marshal e = if e.id == 98 ∷ [] then some (123 ∷ 98 ∷ 125 ∷ []) else some (123 ∷ 97 ∷ 125 ∷ [])

abbrev unmarshal : Text → Option AuditEntry
unmarshal b =
    if b == 123 ∷ 97 ∷ 125 ∷ []
    then some first
    else if b == 123 ∷ 98 ∷ 125 ∷ []
    then some second
    else none

-- The codec keeps nothing but whether the id is `b`.
abbrev as_read : AuditEntry → AuditEntry
as_read e = if e.id == 98 ∷ [] then second else first

text_of : (b c : Text) → some c ≡ some b → b ≡ c
text_of b c p = sym (ap (λ o. elim o [ none ↦ b | some x ↦ x ]) p)

marshal-cases :
    (e : AuditEntry) (b : Text)
    → marshal e ≡ some b
    → (b ≡ 123 ∷ 97 ∷ 125 ∷ []) ⊎ (b ≡ 123 ∷ 98 ∷ 125 ∷ [])
marshal-cases e b h = elim (Bool-cases (e.id == 98 ∷ [])) [
  | inl t ↦ inr (text_of b (123 ∷ 98 ∷ 125 ∷ []) (rw t at h))
  | inr f ↦ inl (text_of b (123 ∷ 97 ∷ 125 ∷ []) (rw f at h))
]

torn_text : (c n : ℕ) → n < 3 → unmarshal (take n (123 ∷ c ∷ 125 ∷ [])) ≡ none
unfolding ◌==◌
torn_text c zero h = refl
torn_text c (suc zero) h = refl
torn_text c (suc (suc zero)) h = ground arith
torn_text c (suc (suc (suc n))) h = ground arith

decoded : (e : AuditEntry) (b : Text) → marshal e ≡ some b → unmarshal b ≡ some (as_read e)
unfolding ◌==◌
decoded e b h = elim (Bool-cases (e.id == 98 ∷ [])) [
  | inl t ↦ rw (text_of b (123 ∷ 98 ∷ 125 ∷ []) (rw t at h), t) refl
  | inr f ↦ rw (text_of b (123 ∷ 97 ∷ 125 ∷ []) (rw f at h), f) refl
]

codec-laws : EncodingLaws marshal unmarshal as_read
unfolding ◌==◌ has_byte
codec-laws = record {
  one_line = λ e b h. elim (marshal-cases e b h) [ inl p ↦ rw p refl | inr p ↦ rw p refl ];
  not_empty = λ e b h. elim (marshal-cases e b h) [ inl p ↦ rw p refl | inr p ↦ rw p refl ];
  decodes = decoded;
  torn = λ e b n h short. elim (marshal-cases e b h) [
    | inl p ↦ rw p (torn_text 97 n (omega (arith, ap length p)))
    | inr p ↦ rw p (torn_text 98 n (omega (arith, ap length p)))
  ];
}

abbrev disk : Disk
disk = record {
  now = 9;
  inspected = true;
  written = max_audit_log_bytes;
  wrote = true;
  synced = true;
}

-- The disk is full after one byte.
abbrev full : Disk
full = record { now = 9; inspected = true; written = 1; wrote = false; synced = true }

abbrev broken : Disk
broken = record full { written = 0 }

abbrev cs : List Call
cs = record { disk = broken; entry = first } ∷ record { disk = disk; entry = second } ∷ []

-- A record and a part of another.
abbrev torn_file : Text
torn_file = 123 ∷ 97 ∷ 125 ∷ 10 ∷ 123 ∷ 98 ∷ []

cs-IsRegular : All (IsRegular marshal unmarshal as_read codec-laws) cs
unfolding is_atomic outcome_exceeds stamped ◌==◌
cs-IsRegular = ((refl, refl), ((refl, refl), tt))

torn_file-read : read_audit_log unmarshal (some torn_file) ≡ (first ∷ [], none)
unfolding read_audit_log ◌==◌
torn_file-read = refl

audit_log_replays_example :
    (a : Audit) × (open_audit unmarshal (some torn_file) ≡ ok a)
    × (let after = append_each marshal cs a in
        read_audit_log unmarshal (some after.file)
        ≡ (first ∷ [] ++ map as_read (accepted marshal cs a), none))
audit_log_replays_example =
    audit_log_replays marshal unmarshal as_read codec-laws (some torn_file) (first ∷ []) cs
      torn_file-read (ground arith) cs-IsRegular

-- The log that OpenAudit returns for no file at all.
empty-IsLogOf : IsLogOf unmarshal [] (opened [] 0)
unfolding feed_all
empty-IsLogOf = opened-IsLogOf unmarshal [] [] refl (omega arith) (omega arith)

outcome-first : outcome_exceeds (as_read first) ≡ false
unfolding outcome_exceeds ◌==◌
outcome-first = refl

crash_recovered_example :
    (next : Audit) × (open_audit unmarshal (some (123 ∷ 97 ∷ 125 ∷ [])) ≡ ok next)
    × IsLogOf unmarshal (first ∷ []) next
unfolding ◌==◌
crash_recovered_example =
    crash_recovered marshal unmarshal as_read codec-laws (opened [] 0) (123 ∷ 97 ∷ 125 ∷ []) []
      first 3 empty-IsLogOf outcome-first refl (omega arith) (omega arith) (omega arith)

glued_lines_refused_example :
    let file = (append marshal disk second (append marshal full first (opened [] 0)).0).0.file in
    (read_audit_log unmarshal (some file) ≡ ([], some not_decoded))
    × (open_audit unmarshal (some file) ≡ err not_decoded)
unfolding ◌==◌ append append_bytes append_line write_line reservation check_capacity stamped
glued_lines_refused_example =
    glued_lines_refused marshal unmarshal as_read codec-laws (opened [] 0) [] full disk first second
      (123 ∷ 97 ∷ 125 ∷ []) (123 ∷ 98 ∷ 125 ∷ []) empty-IsLogOf refl refl (omega arith) refl refl
      refl (omega arith)

read_audit_log-lines_of_example : read_audit_log unmarshal (some torn_file) ≡ (
    if ltb max_audit_log_bytes (length torn_file)
    then ([], some log_exceeds)
    else at_end unmarshal (read_lines unmarshal [] (lines_of torn_file).0 (lines_of torn_file).1))
read_audit_log-lines_of_example = read_audit_log-lines_of unmarshal torn_file
