-- ===== src/Approval/Restore/Durable.antt =====
-- The operations of the queue, and the match between the queue and its audit log.
use qi.Approval.Queue.Inversion.{pending_for_transition-ok, approved_for_result-ok}
use qi.Base.{
  ltb, sym, nat_eq, leb, length, codes, ap, Result-cases, ◌∙◌, ℕ, Text, Bool, true, false, none,
  some, List, [], ◌≡◌, refl, arith, lookup, ◌==◌, eq_iff, eq_refl, Bool-cases, inl, inr,
}
use qi.Approval.{
  max_terminal_result_bytes, max_terminal_text_bytes, not_durable, approval, not_audited,
  AuditEntry, Pending, Event, enqueued, pending, approved, denied, TerminalOutcome,
}
use qi.Approval.Limits.{validate_text}
use qi.Approval.Queue.{Queue, Host, bare_entry, approve, pending_for_transition, deny, deny_pending}
use qi.Approval.Queue.Outcome.{
  result_exceeds, Execution, success, error, commit_result, record_result, approved_for_result,
}
use qi.Approval.Restore.{
  terminal_audit_matches_enqueue, terminal_outcome_matches, Accumulator, live, past, note,
  restore_accumulator, restore_entry, from_enqueue, with_outcome,
}
use qi.Approval.Restore.Replay.{observe, accumulate, slot}
use qi.Approval.Audit.Reading.{outcome_exceeds}
use qi.Approval.Restore.Recovery.{
  read_result, LogLaws, Matches, IsDurable, commit-IsDurable, reset, after_restart, restore_live,
  accumulate-nil,
}

abbrev is_enqueue : Event → Bool
is_enqueue enqueued = true
is_enqueue _ = false

observe_next :
    (id : Text) (acc : Accumulator) (e next : AuditEntry)
    → (id == []) ≡ false
    → acc.enqueue ≡ some e
    → next.id ≡ id
    → is_enqueue next.event ≡ false
    → observe id (some acc) next ≡ some (record { enqueue = some e; latest = next })
unfolding observe note
observe_next id acc e next there first same kind = rw same (ground (arith, eq_refl id))

same_call :
    (params_hash : Text → Text) (id : Text) (first next : AuditEntry) (p : Pending)
    → from_enqueue id first ≡ reset p
    → (params_hash p.params == []) ≡ false
    → next.caller ≡ p.caller
    → next.call_id ≡ p.call_id
    → next.tool ≡ p.tool_name
    → next.params_hash ≡ params_hash p.params
    → terminal_audit_matches_enqueue params_hash next first ≡ true
unfolding terminal_audit_matches_enqueue
same_call params_hash id first next p same ne caller call_id tool hash = simp (
  caller,
  call_id,
  tool,
  hash,
  ap (λ (r : Pending). r.caller) same,
  ap (λ (r : Pending). r.call_id) same,
  ap (λ (r : Pending). r.tool_name) same,
  ap (λ (r : Pending). r.params) same,
  ne,
  eq_refl,
)

-- A terminal entry that was written for the record restores it with the outcome of the entry.
restore_settled :
    (params_hash : Text → Text) (id : Text) (first next : AuditEntry) (p : Pending)
    (o : TerminalOutcome)
    → from_enqueue id first ≡ reset p
    → (params_hash p.params == []) ≡ false
    → next.caller ≡ p.caller
    → next.call_id ≡ p.call_id
    → next.tool ≡ p.tool_name
    → next.params_hash ≡ params_hash p.params
    → next.outcome ≡ some o
    → terminal_outcome_matches next.event o.status ≡ true
    → restore_entry params_hash id first next ≡ past (with_outcome o p)
unfolding restore_entry terminal_outcome_matches
restore_settled params_hash id first next p o same ne caller call_id tool hash out kind =
    let matched = same_call params_hash id first next p same ne caller call_id tool hash in
    let moved = ap (λ r. past (with_outcome o r)) same in ground (arith, matched, moved)

-- The result is within its limit as it is read back.
abbrev pub is_read_back : (Text → Text) → Execution → Bool
is_read_back raw (success v) = leb (length (read_result raw v)) max_terminal_result_bytes
is_read_back raw (error v) = true

module _ {A : Type 0} (host : Host A) (raw : Text → Text) (entries : A → List AuditEntry)
    (IsLog : A → Type 0) (laws : LogLaws host raw entries IsLog) where
  -- What an entry that waits has in the log, and how the next entry of its id is restored.
  abbrev Waits : Queue A → List AuditEntry → Text → Pending → Type 0
  Waits q log id p =
      (e : AuditEntry) × (from_enqueue id e ≡ reset p)
      × ((next : AuditEntry)
          → next.id ≡ id
          → is_enqueue next.event ≡ false
          → restore_accumulator host.params_hash id (observe id (accumulate id none log) next)
            ≡ restore_entry host.params_hash id e next)

  waits :
      (q : Queue A) (log : List AuditEntry) (id : Text) (p : Pending)
      → Matches host raw entries IsLog laws q log
      → lookup id q.items ≡ some p
      → after_restart raw p ≡ live (reset p)
      → Waits q log id p
  unfolding slot
  waits q log id p m there waiting =
      let (acc, e, known, first, same) =
        restore_live host.params_hash id (accumulate id none log) (reset p)
          (m.at_id id ∙ rw there waiting) in
      (
        e,
        same,
        λ next named kind.
            rw
              (
                known,
                observe_next id acc e next
                    (ground (arith, known, accumulate-nil log none, eq_iff id [])) first named kind,
              )
              (unfold restore_accumulator in refl),
      )

  pub approve-IsDurable :
      (now : ℕ) (id : Text) (q : Queue A)
      → nat_eq now 0 ≡ false
      → IsDurable host raw entries IsLog laws q
      → IsDurable host raw entries IsLog laws (approve host now id q).0
  unfolding approve outcome_exceeds
  approve-IsDurable now id q timed d = elim (Result-cases (pending_for_transition q id approved)) [
    | inr (x, e) ↦ rw (e, approve) d
    | inl (p, e) ↦
        rw (e, approve)
          (commit-IsDurable host raw entries IsLog laws (bare_entry now approval id p) not_audited
            id (record p { status = approved; decided_at = some now }) q
            (λ log m.
              let (there, kind) = pending_for_transition-ok q id approved p e in
              let (first, same, restored) = waits q log id p m there (ground arith) in
              restored _ refl refl ∙ (unfold restore_entry in ap live same))
            refl (record { timed = timed; small = refl }) d)
  ]

  deny_pending-IsDurable :
      (now : ℕ) (id reason : Text) (p : Pending) (q : Queue A)
      → lookup id q.items ≡ some p
      → p.status ≡ pending
      → nat_eq now 0 ≡ false
      → IsDurable host raw entries IsLog laws q
      → IsDurable host raw entries IsLog laws (deny_pending host now id reason p q).0
  unfolding deny_pending terminal_outcome_matches outcome_exceeds
  deny_pending-IsDurable now id reason p q there kind timed d =
      commit-IsDurable host raw entries IsLog laws _ not_audited id _ q
        (λ log m.
          let (first, same, restored) = waits q log id p m there (ground arith) in
          restored _ refl refl
          ∙ restore_settled host.params_hash id first _ p _ same (laws.hash_ne_nil p.params) refl
              refl refl refl refl refl
          ∙ ground (
            arith,
            ap (λ (r : Pending). read_result raw r.result) same,
            ap (λ (r : Pending). r.error) same,
            ap (λ (r : Pending). r.executed_at) same,
          ))
        refl (record { timed = timed; small = refl }) d

  pub deny-IsDurable :
      (now : ℕ) (id reason : Text) (q : Queue A)
      → nat_eq now 0 ≡ false
      → IsDurable host raw entries IsLog laws q
      → IsDurable host raw entries IsLog laws (deny host now id reason q).0
  unfolding deny
  deny-IsDurable now id reason q timed d =
      elim (Result-cases (validate_text (codes "denial reason") reason max_terminal_text_bytes)) [
        | inr (x, e) ↦ rw (e, deny) d
        | inl (u, v) ↦ elim (Result-cases (pending_for_transition q id denied)) [
          | inr (x, e) ↦ rw (v, e, deny) d
          | inl (p, e) ↦
              let (there, kind) = pending_for_transition-ok q id denied p e in
              rw (v, e, deny) (deny_pending-IsDurable now id reason p q there kind timed d)
        ]
      ]

  -- The outcome of an entry without a result is read back with null.
  unfinished_small :
      (p : Pending)
      → p.result ≡ []
      → ltb max_terminal_result_bytes (length (read_result raw p.result)) ≡ false
  unfinished_small p e = rw e refl

  commit_result-IsDurable :
      (now : ℕ) (id : Text) (x : Execution) (p : Pending) (q : Queue A)
      → lookup id q.items ≡ some p
      → p.status ≡ approved
      → nat_eq now 0 ≡ false
      → is_read_back raw x ≡ true
      → IsDurable host raw entries IsLog laws q
      → IsDurable host raw entries IsLog laws (commit_result host now id x p q).0
  unfolding commit_result terminal_outcome_matches outcome_exceeds
  commit_result-IsDurable now id (success v) p q there kind timed small d =
      commit-IsDurable host raw entries IsLog laws _ not_durable id _ q
        (λ log m.
          let (first, same, restored) = waits q log id p m there (ground arith) in
          restored _ refl refl
          ∙ restore_settled host.params_hash id first _ p _ same (laws.hash_ne_nil p.params) refl
              refl refl refl refl refl
          ∙ ground (arith, ap (λ (r : Pending). r.error) same))
        refl (record { timed = timed; small = ground arith }) d
  commit_result-IsDurable now id (error v) p q there kind timed small d =
      let (known, begun, more) = waits q (entries d.log) id p d.matched there (ground arith) in
      commit-IsDurable host raw entries IsLog laws _ not_durable id _ q
        (λ log m.
          let (first, same, restored) = waits q log id p m there (ground arith) in
          restored _ refl refl
          ∙ restore_settled host.params_hash id first _ p _ same (laws.hash_ne_nil p.params) refl
              refl refl refl refl refl
          ∙ ground (arith, ap (λ (r : Pending). read_result raw r.result) same))
        refl
        (record {
          timed = timed;
          small = unfinished_small p (sym (ap (λ (r : Pending). r.result) begun));
        })
        d

  pub record_result-IsDurable :
      (now : ℕ) (id : Text) (x : Execution) (q : Queue A)
      → nat_eq now 0 ≡ false
      → is_read_back raw x ≡ true
      → IsDurable host raw entries IsLog laws q
      → IsDurable host raw entries IsLog laws (record_result host now id x q).0
  unfolding record_result
  record_result-IsDurable now id x q timed small d = elim (Bool-cases (result_exceeds x)) [
    | inl long ↦ rw (long, record_result) d
    | inr short ↦ elim (Result-cases (approved_for_result q id)) [
      | inr (y, e) ↦ rw (short, e, record_result) d
      | inl (p, e) ↦
          let (there, kind) = approved_for_result-ok q id p e in
          rw (short, e, record_result)
            (commit_result-IsDurable now id x p q there kind timed small d)
    ]
  ]
