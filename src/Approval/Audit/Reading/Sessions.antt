-- ===== src/Approval/Audit/Reading/Sessions.antt =====
-- Any number of Appends between two readings of the log.
use mathlib.Core.List.{append-nil, append_assoc}
use mathlib.Core.Path.{subst}
use qi.Base.{
  All, sym, ap, ◌∙◌, refl, ◌≡◌, ℕ, zero, suc, ◌+◌, ◌≤◌, ◌<◌, ltb, nat_eq, if◌then◌else◌, Text, true,
  false, Bool, ◌&&◌, Option, none, some, List, map, [], ◌∷◌, ◌++◌, ◌==◌, length, length-append,
  take, Bool-cases, Option-cases, inl, inr, arith, ok, not,
}
use qi.Approval.{AuditEntry, Event, AuditError, max_audit_record_bytes, max_audit_log_bytes}
use qi.Approval.Audit.{
  Audit, Disk, append, append_bytes, append_line, write_line, check_capacity, reservation, stamped,
  is_approval,
}
use qi.Approval.Audit.Reading.{outcome_exceeds, at_end, read_audit_log, open_audit, content_of}
use qi.Approval.Audit.Reading.History.{IsLogOf, open_audit_repaired}
use qi.Approval.Audit.Reading.Appended.{EncodingLaws, append-IsLogOf}

-- Write puts the whole line into the file and Sync succeeds, or Write fails and puts nothing there.
unfoldable pub is_atomic : Disk → Bool
is_atomic d =
    if d.wrote then d.synced && ltb (max_audit_record_bytes + 1) d.written else nat_eq d.written 0

take_all : (n : ℕ) (l : Text) → length l ≤ n → length (take n l) ≡ length l
take_all zero [] h = refl
take_all zero (c ∷ l) h = ground arith
take_all (suc n) [] h = refl
take_all (suc n) (c ∷ l) h = omega (arith, take_all n l (omega arith))

write_line-atomic :
    (d : Disk) (event : Event) (id : Text) (r : ℕ) (line : Text) (a : Audit) (x : AuditError)
    → is_atomic d ≡ true
    → length line ≤ max_audit_record_bytes + 1
    → (write_line d event id r line a).1 ≡ some x
    → (write_line d event id r line a).0 ≡ a
unfolding write_line is_atomic
write_line-atomic d event id r line a x whole short h = elim (Bool-cases d.wrote) [
  | inl w ↦ ground (arith, take_all d.written line)
  | inr w ↦
      let n : (d.written ≡ 0) = ground arith in
      rw (w, n) (ap (λ t. record a { file = t }) (append-nil a.file))
]

append_line-atomic :
    (d : Disk) (event : Event) (id line : Text) (a : Audit) (x : AuditError)
    → is_atomic d ≡ true
    → length line ≤ max_audit_record_bytes + 1
    → (append_line d event id line a).1 ≡ some x
    → (append_line d event id line a).0 ≡ a
unfolding append_line
append_line-atomic d event id line a x whole short h =
    let r : ℕ = reservation a id in
    elim (Bool-cases (is_approval event && not (nat_eq r 0))) [
      | inl held ↦ rw (held, append_line) refl
      | inr free ↦ elim (Option-cases (check_capacity a event r line)) [
        | inr (y, e) ↦ rw (free, e, append_line) refl
        | inl e ↦
            rw (free, e, append_line)
              (write_line-atomic d event id r line a x whole short (rw (free, e, append_line) at h))
      ]
    ]

append_bytes-atomic :
    (d : Disk) (e : AuditEntry) (b : Text) (a : Audit) (x : AuditError)
    → is_atomic d ≡ true
    → (append_bytes d e b a).1 ≡ some x
    → (append_bytes d e b a).0 ≡ a
unfolding append_bytes
append_bytes-atomic d e b a x whole h =
    ground
      (arith, append_line-atomic d e.event e.id (b ++ 10 ∷ []) a x whole, length-append b (10 ∷ []))

-- A refused entry leaves the log as it was.
pub append-atomic :
    (marshal : AuditEntry → Option Text) (d : Disk) (e : AuditEntry) (a : Audit) (x : AuditError)
    → is_atomic d ≡ true
    → (append marshal d e a).1 ≡ some x
    → (append marshal d e a).0 ≡ a
unfolding append
append-atomic marshal d e a x whole h = elim (Option-cases (marshal (stamped d e))) [
  | inl out ↦ rw (out, append) refl
  | inr (b, out) ↦ rw (out, append) (append_bytes-atomic d e b a x whole (rw (out, append) at h))
]

-- An entry that is handed to Append, and what the operating system does.
pub record Call : Type 0 where
  pub disk : Disk
  pub entry : AuditEntry

abbrev pub with_accepted : Option AuditError → AuditEntry → List AuditEntry → List AuditEntry
with_accepted none e rest = e ∷ rest
with_accepted (some x) e rest = rest

module _ (marshal : AuditEntry → Option Text) where
  abbrev pub append_each : List Call → Audit → Audit
  append_each [] a = a
  append_each (c ∷ cs) a = append_each cs (append marshal c.disk c.entry a).0

  -- The entries for which Append returned nil.
  abbrev pub accepted : List Call → Audit → List AuditEntry
  accepted [] a = []
  accepted (c ∷ cs) a =
      let (after, error) = append marshal c.disk c.entry a in
      with_accepted error (stamped c.disk c.entry) (accepted cs after)

module _ (marshal : AuditEntry → Option Text) (unmarshal : Text → Option AuditEntry)
    (as_read : AuditEntry → AuditEntry) (laws : EncodingLaws marshal unmarshal as_read) where
  -- The disk is atomic, and the outcome that is read back is within its limit.
  abbrev pub IsRegular : Call → Type 0
  IsRegular c =
      (is_atomic c.disk ≡ true) × (outcome_exceeds (as_read (stamped c.disk c.entry)) ≡ false)

  pub append_each-IsLogOf :
      (cs : List Call) (a : Audit) (es : List AuditEntry)
      → IsLogOf unmarshal es a
      → All IsRegular cs
      → IsLogOf unmarshal (es ++ map as_read (accepted marshal cs a)) (append_each marshal cs a)
  append_each-IsLogOf [] a es log all = rw (append-nil es) log
  append_each-IsLogOf (c ∷ cs) a es log ((whole, small), all) =
      let given : AuditEntry = stamped c.disk c.entry in
      let e : AuditEntry = as_read given in
      let after : Audit = (append marshal c.disk c.entry a).0 in
      let rest : List AuditEntry = map as_read (accepted marshal cs after) in
      elim (Option-cases (append marshal c.disk c.entry a).1) [
        | inl done ↦
            let listed : (es ++ map as_read (accepted marshal (c ∷ cs) a)
                ≡ (es ++ e ∷ []) ++ rest) =
              ap (λ x. es ++ map as_read (with_accepted x given (accepted marshal cs after))) done
              ∙ sym (append_assoc es (e ∷ []) rest) in
            subst (λ t. IsLogOf unmarshal t (append_each marshal cs after)) (sym listed)
              (append_each-IsLogOf cs after (es ++ e ∷ [])
                (append-IsLogOf marshal unmarshal as_read laws c.disk c.entry a es log small done)
                all)
        | inr (x, failed) ↦
            let listed : (es ++ map as_read (accepted marshal (c ∷ cs) a) ≡ es ++ rest) =
              ap (λ y. es ++ map as_read (with_accepted y given (accepted marshal cs after)))
                failed in
            let same = append-atomic marshal c.disk c.entry a x whole failed in
            subst (λ t. IsLogOf unmarshal t (append_each marshal cs after)) (sym listed)
              (append_each-IsLogOf cs after es (rw same log) all)
      ]

  -- For a log of `es`: ReadAuditLog of its file returns just these entries.
  pub read_audit_log-IsLogOf :
      (a : Audit) (es : List AuditEntry)
      → IsLogOf unmarshal es a
      → read_audit_log unmarshal (some a.file) ≡ (es, none)
  unfolding read_audit_log at_end ◌==◌
  read_audit_log-IsLogOf a es log =
      let b = log.budgeted in
      let fits : (ltb max_audit_log_bytes (length a.file) ≡ false) = ground (arith, b.bytes_fit) in
      rw (fits, log.holds) refl

  -- The log as the daemon uses it: OpenAudit of a file that ReadAuditLog reads without an error and
  -- that is not filled to the last byte succeeds, and after any calls of Append, accepted or refused,
  -- ReadAuditLog of the file returns the entries that it had before, then the accepted ones, in
  -- their order and each as encoding/json decodes it, and no error. Every call's disk is atomic, and
  -- the outcome of its entry, as it is decoded, is within `MaxTerminalResultBytes`.
  pub audit_log_replays :
      (found : Option Text) (es : List AuditEntry) (cs : List Call)
      → read_audit_log unmarshal found ≡ (es, none)
      → length (content_of found) < max_audit_log_bytes
      → All IsRegular cs
      → (a : Audit) × (open_audit unmarshal found ≡ ok a)
        × (let after = append_each marshal cs a in
            read_audit_log unmarshal (some after.file)
            ≡ (es ++ map as_read (accepted marshal cs a), none))
  audit_log_replays found es cs read small all =
      let (a, opens, log) = open_audit_repaired unmarshal found es read small in
      (
        a,
        opens,
        read_audit_log-IsLogOf (append_each marshal cs a)
            (es ++ map as_read (accepted marshal cs a)) (append_each-IsLogOf cs a es log all),
      )
