-- ===== src/Approval/Audit/Budget.antt =====
-- The books of the audit log after an accepted entry.
use qi.Base.{
  not, ◌∙◌, sym, ap, ◌&&◌, ℕ, suc, ◌+◌, ◌-◌, ◌≤◌, ◌≡◌, arith, Text, true, false, none, some, ◌++◌,
  nat_eq, length, length-append, take, lookup, insert, erase, Bool-cases, Option-cases, inl, inr,
  ◌⊎◌, lookup-insert, lookup-erase, insert-IsMap, erase-IsMap, length-erase-none, length-erase-some,
}
use qi.Approval.{
  already_reserved, Event, AuditError, max_audit_record_bytes, max_audit_log_bytes,
  max_audit_replay_entries,
}
use qi.Approval.Audit.{
  Audit, Disk, append_line, write_line, settle_reservation, check_capacity, reservation,
  is_approval,
}
use qi.Approval.Audit.Capacity.{IsBudgeted}

-- The log after the bytes of a line.
abbrev pub extended : Disk → Text → Audit → Audit
extended d line a = record a { file = a.file ++ take d.written line }

abbrev pub counted : Audit → Audit
counted a = record a { record_count = suc a.record_count }

-- What an accepted write did.
write_line-none :
    (d : Disk) (event : Event) (id : Text) (r : ℕ) (line : Text) (a : Audit)
    → (write_line d event id r line a).1 ≡ none
    → ((write_line d event id r line a).0
        ≡ counted (settle_reservation (extended d line a) event id r))
      × (length (take d.written line) ≡ length line)
unfolding write_line
write_line-none d event id r line a h = ground arith

module _ (d : Disk) (event : Event) (id line : Text) (a : Audit) where
  append_line_held :
      is_approval event && not (nat_eq (reservation a id) 0) ≡ true
      → append_line d event id line a ≡ (a, some already_reserved)
  unfolding append_line
  append_line_held held = rw held

  append_line_full :
      (x : AuditError)
      → is_approval event && not (nat_eq (reservation a id) 0) ≡ false
      → check_capacity a event (reservation a id) line ≡ some x
      → append_line d event id line a ≡ (a, some x)
  unfolding append_line
  append_line_full x free e = rw (free, e, append_line)

  append_line_written :
      is_approval event && not (nat_eq (reservation a id) 0) ≡ false
      → check_capacity a event (reservation a id) line ≡ none
      → append_line d event id line a ≡ write_line d event id (reservation a id) line a
  unfolding append_line write_line
  append_line_written free e = rw (free, e, append_line)

-- What the checks of an accepted entry say.
pub append_line-none :
    (d : Disk) (event : Event) (id line : Text) (a : Audit)
    → (append_line d event id line a).1 ≡ none
    → (check_capacity a event (reservation a id) line ≡ none)
      × ((is_approval event ≡ true) → reservation a id ≡ 0)
      × ((append_line d event id line a).0
          ≡ counted (settle_reservation (extended d line a) event id (reservation a id)))
      × (length (take d.written line) ≡ length line)
append_line-none d event id line a h =
    elim (Bool-cases (is_approval event && not (nat_eq (reservation a id) 0))) [
      | inl held ↦ ground (arith, append_line_held d event id line a held)
      | inr free ↦ elim (Option-cases (check_capacity a event (reservation a id) line)) [
        | inr (x, e) ↦ ground (arith, append_line_full d event id line a x free e)
        | inl e ↦
            let same = append_line_written d event id line a free e in
            let (state, whole) =
              write_line-none d event id (reservation a id) line a (ap (λ s. s.1) (sym same) ∙ h) in
            (e, λ k. ground arith, ap (λ s. s.0) same ∙ state, whole)
      ]
    ]

pub reservation-cases :
    (a : Audit) (id : Text)
    → IsBudgeted a
    → ((lookup id a.reserved ≡ none) × (reservation a id ≡ 0))
      ⊎ ((lookup id a.reserved ≡ some max_audit_record_bytes)
          × (reservation a id ≡ max_audit_record_bytes))
unfolding reservation
reservation-cases a id b = elim (Option-cases (lookup id a.reserved)) [
  | inl e ↦ inl (e, ground arith)
  | inr (n, e) ↦ inr (ground (arith, b.full id n e), ground (arith, b.full id n e))
]

module _ (a : Audit) (id bytes : Text) (b : IsBudgeted a) where
  pub plain-IsBudgeted :
      length a.file + a.reserved_bytes + length bytes ≤ max_audit_log_bytes
      → a.record_count + length a.reserved + 1 ≤ max_audit_replay_entries
      → IsBudgeted (counted (record a { file = a.file ++ bytes }))
  plain-IsBudgeted room places = record {
    unique = b.unique;
    full = b.full;
    total = b.total;
    bytes_fit = rw length-append (omega arith);
    entries_fit = omega arith;
  }

  pub reserve-IsBudgeted :
      lookup id a.reserved ≡ none
      → length a.file + a.reserved_bytes + length bytes + max_audit_record_bytes
        ≤ max_audit_log_bytes
      → a.record_count + length a.reserved + 2 ≤ max_audit_replay_entries
      → IsBudgeted (
          counted (record a {
            file = a.file ++ bytes;
            reserved = insert id max_audit_record_bytes a.reserved;
            reserved_bytes = a.reserved_bytes + max_audit_record_bytes;
          }))
  unfolding insert
  reserve-IsBudgeted free room places = record {
    unique = insert-IsMap id max_audit_record_bytes a.reserved b.unique;
    full =
        λ j n e. ground (arith, lookup-insert id j max_audit_record_bytes a.reserved, b.full j n);
    total = omega (arith, b.total, length-erase-none id a.reserved free);
    bytes_fit = rw length-append (omega arith);
    entries_fit = omega (arith, length-erase-none id a.reserved free);
  }

  pub release-IsBudgeted :
      (n : ℕ)
      → lookup id a.reserved ≡ some n
      → length a.file + (a.reserved_bytes - n) + length bytes ≤ max_audit_log_bytes
      → a.record_count + length a.reserved ≤ max_audit_replay_entries
      → IsBudgeted (
          counted (record a {
            file = a.file ++ bytes;
            reserved = erase id a.reserved;
            reserved_bytes = a.reserved_bytes - n;
          }))
  release-IsBudgeted n held room places = record {
    unique = erase-IsMap id a.reserved b.unique;
    full = λ j m e. ground (arith, lookup-erase id j a.reserved, b.full j m);
    total =
        omega (arith, b.total, b.full id n held, length-erase-some id n a.reserved b.unique held);
    bytes_fit = rw length-append (omega arith);
    entries_fit = omega (arith, length-erase-some id n a.reserved b.unique held);
  }
