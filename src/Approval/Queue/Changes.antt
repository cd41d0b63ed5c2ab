-- ===== src/Approval/Queue/Changes.antt =====
-- What each operation of internal/approval/queue.go does to the record of an id.
use qi.Approval.Queue.Inversion.{pending_for_transition-ok, approved_for_result-ok}
use qi.Approval.Limits.{validate_text}
use qi.Base.{
  codes, ap, ◌⊎◌, ℕ, Text, false, Option, none, some, List, [], ◌∷◌, ◌≡◌, refl, arith, lookup,
  insert, erase, lookup-insert, lookup-erase, lookup-eq, ◌==◌, Bool-cases, inl, inr, Option-cases,
  Result-cases,
}
use qi.Approval.{
  enqueued, max_terminal_text_bytes, Pending, Status, pending, approved, denied, executed, failed,
  AuditEntry, AuditError, QueueError,
}
use qi.Approval.Queue.{
  check_enqueue, bare_entry, Queue, Host, has_id, fresh_id, commit, append_audit, approve, deny,
  deny_pending, enqueue_new, enqueue_with_call_id, pending_for_transition,
}
use qi.Approval.Queue.Outcome.{
  result_exceeds, Execution, success, error, record_result, commit_result, approved_for_result,
}

pub data Moves : Status → Status → Type 0 where
  to_approved : Moves pending approved
  to_denied : Moves pending denied
  to_executed : Moves approved executed
  to_failed : Moves approved failed

-- What is fixed when an entry is enqueued.
pub record SameCall (p r : Pending) : Type 0 where
  pub id : p.id ≡ r.id
  pub caller : p.caller ≡ r.caller
  pub call_id : p.call_id ≡ r.call_id
  pub tool_name : p.tool_name ≡ r.tool_name
  pub params : p.params ≡ r.params
  pub created_at : p.created_at ≡ r.created_at

pub data Change (before after : Option Pending) : Type 0 where
  same : after ≡ before → Change before after
  created :
      (p : Pending) → before ≡ none → after ≡ some p → p.status ≡ pending → Change before after
  moved :
      (p r : Pending)
      → before ≡ some p
      → after ≡ some r
      → Moves p.status r.status
      → SameCall p r
      → Change before after

has_id-none :
    {A : Type 0} (q : Queue A) (id : Text) → has_id q id ≡ false → lookup id q.items ≡ none
unfolding has_id
has_id-none q id h = ground arith

fresh_id-free :
    {A : Type 0} (q : Queue A) (draws : List Text) (id : Text)
    → fresh_id q draws ≡ some id
    → has_id q id ≡ false
unfolding fresh_id
fresh_id-free q [] id e = cc
fresh_id-free q (d ∷ draws) id e = elim (Bool-cases (has_id q d)) [
  | inl there ↦ fresh_id-free q draws id (rw there at e)
  | inr free ↦ let found : d ≡ id = ground arith in rw found at free
]

module _ {A : Type 0} (host : Host A) where
  commit_items :
      (entry : AuditEntry) (wrap : AuditError → QueueError) (id : Text) (r : Pending) (q : Queue A)
      → ((commit host entry wrap id r q).0.items ≡ insert id r q.items)
        ⊎ ((commit host entry wrap id r q).0.items ≡ q.items)
  unfolding commit append_audit
  commit_items entry wrap id r q = elim (Option-cases q.audit) [
    | inl e ↦ inl (ground arith)
    | inr (a, e) ↦ elim (Option-cases (host.append a entry).1) [
      | inl done ↦ inl (ground arith)
      | inr (x, no_entry) ↦ inr (ground arith)
    ]
  ]

  commit-Change :
      (entry : AuditEntry) (wrap : AuditError → QueueError) (id : Text) (p r : Pending)
      (q : Queue A) (j : Text)
      → lookup id q.items ≡ some p
      → Moves p.status r.status
      → SameCall p r
      → Change (lookup j q.items) (lookup j (commit host entry wrap id r q).0.items)
  commit-Change entry wrap id p r q j there m c = elim (commit_items entry wrap id r q) [
    | inr kept ↦ same (ap (lookup j) kept)
    | inl stored ↦ elim (Bool-cases (id == j)) [
      | inl eq ↦
          moved p r (ground (arith, lookup-eq id j q.items))
            (rw stored (ground (arith, lookup-insert id j r q.items))) m c
      | inr ne ↦ same (rw stored (ground (arith, lookup-insert id j r q.items)))
    ]
  ]

  pub approve-Change :
      (now : ℕ) (id : Text) (q : Queue A) (j : Text)
      → Change (lookup j q.items) (lookup j (approve host now id q).0.items)
  unfolding approve
  approve-Change now id q j = elim (Result-cases (pending_for_transition q id approved)) [
    | inr (x, e) ↦ rw (e, approve) (same refl)
    | inl (p, e) ↦
        let (there, kind) = pending_for_transition-ok q id approved p e in
        rw (e, approve)
          (commit-Change _ _ id p _ q j there (rw kind to_approved) (record {
            id = refl;
            caller = refl;
            call_id = refl;
            tool_name = refl;
            params = refl;
            created_at = refl;
          }))
  ]

  pub deny-Change :
      (now : ℕ) (id reason : Text) (q : Queue A) (j : Text)
      → Change (lookup j q.items) (lookup j (deny host now id reason q).0.items)
  unfolding deny deny_pending
  deny-Change now id reason q j =
      elim (Result-cases (validate_text (codes "denial reason") reason max_terminal_text_bytes)) [
        | inr (x, e) ↦ rw (e, deny) (same refl)
        | inl (u, v) ↦ elim (Result-cases (pending_for_transition q id denied)) [
          | inr (x, e) ↦ rw (v, e, deny) (same refl)
          | inl (p, e) ↦
              let (there, kind) = pending_for_transition-ok q id denied p e in
              rw (v, e, deny)
                (commit-Change _ _ id p _ q j there (rw kind to_denied) (record {
                  id = refl;
                  caller = refl;
                  call_id = refl;
                  tool_name = refl;
                  params = refl;
                  created_at = refl;
                }))
        ]
      ]

  commit_result-Change :
      (now : ℕ) (id : Text) (x : Execution) (p : Pending) (q : Queue A) (j : Text)
      → lookup id q.items ≡ some p
      → p.status ≡ approved
      → Change (lookup j q.items) (lookup j (commit_result host now id x p q).0.items)
  unfolding commit_result
  commit_result-Change now id (success v) p q j there kind =
      commit-Change _ _ id p _ q j there (rw kind to_executed) (record {
        id = refl;
        caller = refl;
        call_id = refl;
        tool_name = refl;
        params = refl;
        created_at = refl;
      })
  commit_result-Change now id (error e) p q j there kind =
      commit-Change _ _ id p _ q j there (rw kind to_failed) (record {
        id = refl;
        caller = refl;
        call_id = refl;
        tool_name = refl;
        params = refl;
        created_at = refl;
      })

  pub record_result-Change :
      (now : ℕ) (id : Text) (x : Execution) (q : Queue A) (j : Text)
      → Change (lookup j q.items) (lookup j (record_result host now id x q).0.items)
  unfolding record_result
  record_result-Change now id x q j = elim (Bool-cases (result_exceeds x)) [
    | inl long ↦ rw (long, record_result) (same refl)
    | inr short ↦ elim (Result-cases (approved_for_result q id)) [
      | inr (y, e) ↦ rw (short, e, record_result) (same refl)
      | inl (p, e) ↦
          let (there, kind) = approved_for_result-ok q id p e in
          rw (short, e, record_result) (commit_result-Change now id x p q j there kind)
    ]
  ]

  enqueue_items :
      (now : ℕ) (p : Pending) (q : Queue A)
      → ((enqueue_new host now p q).0.items ≡ insert p.id p q.items)
        ⊎ ((enqueue_new host now p q).0.items ≡ erase p.id (insert p.id p q.items))
  unfolding enqueue_new append_audit
  enqueue_items now p q = elim (Option-cases q.audit) [
    | inl e ↦ inl (ground arith)
    | inr (a, e) ↦
        elim (Option-cases
          (host.append a
            (record (bare_entry now enqueued p.id p) { reason = p.reason; params = p.params })).1) [
              | inl done ↦ inl (ground arith)
              | inr (x, no_entry) ↦ inr (ground arith)
            ]
  ]

  enqueue_new-Change :
      (now : ℕ) (p : Pending) (q : Queue A) (j : Text)
      → has_id q p.id ≡ false
      → p.status ≡ pending
      → Change (lookup j q.items) (lookup j (enqueue_new host now p q).0.items)
  enqueue_new-Change now p q j free kind = elim (enqueue_items now p q) [
    | inr kept ↦ same (
        rw kept (
          ground (
            arith,
            lookup-erase p.id j (insert p.id p q.items),
            lookup-insert p.id j p q.items,
            unused,
            lookup-eq p.id j q.items,
          )))
    | inl stored ↦ elim (Bool-cases (p.id == j)) [
      | inl eq ↦
          created p (ground (arith, unused, lookup-eq p.id j q.items))
            (rw stored (ground (arith, lookup-insert p.id j p q.items))) kind
      | inr ne ↦ same (rw stored (ground (arith, lookup-insert p.id j p q.items)))
    ]
  ]
    where
      unused : lookup p.id q.items ≡ none
      unused = has_id-none q p.id free

  pub enqueue-Change :
      (now : ℕ) (draws : List Text) (caller call_id tool params reason : Text) (q : Queue A)
      (j : Text)
      → Change (lookup j q.items) (
          lookup j
            (enqueue_with_call_id host now draws caller call_id tool params reason q).0.items)
  unfolding enqueue_with_call_id
  enqueue-Change now draws caller call_id tool params reason q j =
      elim (Result-cases (check_enqueue caller call_id tool reason)) [
        | inr (x, e) ↦ rw (e, enqueue_with_call_id) (same refl)
        | inl (u, e) ↦ elim (Option-cases (fresh_id q draws)) [
          | inl out ↦ rw (e, out, enqueue_with_call_id) (same refl)
          | inr (id, drawn) ↦
              rw (e, drawn, enqueue_with_call_id)
                (enqueue_new-Change now _ q j (fresh_id-free q draws id drawn) refl)
        ]
      ]
