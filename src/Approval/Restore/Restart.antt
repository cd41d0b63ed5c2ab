-- ===== src/Approval/Restore/Restart.antt =====
-- Any run of the queue, and a restart from its log.
use qi.Approval.Queue.Calls.{Named, Call, enqueueing, approving, denying, recording, step, run}
use qi.Base.{
  nat_eq, true, false, Dict, lookup, refl, arith, inl, ap, inr, ◌∙◌, sym, ◌⊎◌, All, Text, Option,
  none, some, List, [], ◌∷◌, ◌≡◌,
}
use qi.Approval.{AuditEntry, Pending}
use qi.Approval.Queue.{Queue, Host, new_queue}
use qi.Approval.Restore.{
  gather, RestoreStats, restore_accumulator, place, Accumulator, restore_ids, restore_id, restore,
  Restored, dropped, live, past,
}
use qi.Approval.Restore.Replay.{accumulate, slot, slot_of, slot-restore}
use qi.Approval.Restore.Recovery.{read_params, restore_live, LogLaws, IsDurable, slot_after_restart}
use qi.Approval.Restore.Enqueued.{enqueue_with_call_id-IsDurable}
use qi.Approval.Restore.Durable.{
  is_read_back, approve-IsDurable, deny-IsDurable, record_result-IsDurable,
}

audit-restore_id :
    {A : Type 0} (params_hash : Text → Text) (id : Text) (a : Option Accumulator) (q : Queue A)
    (n : RestoreStats)
    → (restore_id params_hash id a (q, n)).0.audit ≡ q.audit
unfolding restore_id place
audit-restore_id params_hash id a q n = ground arith

Restored-cases :
    (raw : Text → Text) (r : Restored)
    → ((x : Pending) × (r ≡ live x)) ⊎ (slot_after_restart raw (slot_of r) ≡ r)
unfolding slot_of
Restored-cases raw dropped = inr refl
Restored-cases raw (live x) = inl (x, refl)
Restored-cases raw (past p) = inr refl

audit-restore_ids :
    {A : Type 0} (params_hash : Text → Text) (by_id : Dict Accumulator) (ids : List Text)
    (s : Queue A × RestoreStats)
    → (restore_ids params_hash by_id ids s).0.audit ≡ s.0.audit
unfolding restore_ids
audit-restore_ids params_hash by_id [] s = refl
audit-restore_ids params_hash by_id (id ∷ ids) s =
    audit-restore_ids params_hash by_id ids (restore_id params_hash id (lookup id by_id) s)
    ∙ audit-restore_id params_hash id (lookup id by_id) s.0 s.1

audit-restore :
    {A : Type 0} (params_hash : Text → Text) (es : List AuditEntry) (q : Queue A)
    → (restore params_hash es q).0.audit ≡ q.audit
unfolding restore
audit-restore params_hash es q =
    audit-restore_ids params_hash (gather [] [] es).0 (gather [] [] es).1
      (q, record { pending = 0; terminal = 0 })

-- Restoring what was restored gives it again.
restored_again :
    (params_hash raw : Text → Text) (id : Text) (a : Option Accumulator)
    → slot_after_restart raw (slot_of (restore_accumulator params_hash id a))
      ≡ restore_accumulator params_hash id a
unfolding slot_of
restored_again params_hash raw id a =
    elim (Restored-cases raw (restore_accumulator params_hash id a)) [
      | inl (x, e) ↦
          let (acc, first, known, there, same) = restore_live params_hash id a x e in
          rw e (
            ground
              (arith, ap (λ (r : Pending). r.status) same, ap (λ (r : Pending). r.decided_at) same))
      | inr settled ↦ settled
    ]

-- What is asked of a call: the identifiers that are drawn are not empty, the clock does not return the
-- zero time, the params of an enqueueing are read back as they are, and the result that is recorded is
-- within its limit as it is read back.
abbrev pub IsKept : (Text → Text) → Call → Type 0
IsKept raw (enqueueing now draws caller call_id tool params reason) =
    Named draws × (read_params raw params ≡ params) × (nat_eq now 0 ≡ false)
IsKept raw (approving now id) = nat_eq now 0 ≡ false
IsKept raw (denying now id reason) = nat_eq now 0 ≡ false
IsKept raw (recording now id x) = (nat_eq now 0 ≡ false) × (is_read_back raw x ≡ true)

module _ {A : Type 0} (host : Host A) (raw : Text → Text) (entries : A → List AuditEntry)
    (IsLog : A → Type 0) (laws : LogLaws host raw entries IsLog) where
  step-IsDurable :
      (q : Queue A) (c : Call)
      → IsKept raw c
      → IsDurable host raw entries IsLog laws q
      → IsDurable host raw entries IsLog laws (step host q c)
  unfolding step
  step-IsDurable q (enqueueing now draws caller call_id tool params reason) h d =
      enqueue_with_call_id-IsDurable host raw entries IsLog laws now draws caller call_id tool
        params reason q h.0 h.1 h.2 d
  step-IsDurable q (approving now id) h d =
      approve-IsDurable host raw entries IsLog laws now id q h d
  step-IsDurable q (denying now id reason) h d =
      deny-IsDurable host raw entries IsLog laws now id reason q h d
  step-IsDurable q (recording now id x) h d =
      record_result-IsDurable host raw entries IsLog laws now id x q h.0 h.1 d

  -- Any calls keep the match of the queue and its log.
  run-IsDurable :
      (q : Queue A) (cs : List Call)
      → All (IsKept raw) cs
      → IsDurable host raw entries IsLog laws q
      → IsDurable host raw entries IsLog laws (run host q cs)
  unfolding run
  run-IsDurable q [] h d = d
  run-IsDurable q (c ∷ cs) h d = run-IsDurable (step host q c) cs h.1 (step-IsDurable q c h.0 d)

  -- A queue that was restored from the log matches it.
  restore-IsDurable :
      (a : A)
      → IsLog a
      → IsDurable host raw entries IsLog laws
          (restore host.params_hash (entries a) (new_queue (some a))).0
  unfolding new_queue
  restore-IsDurable a sound = record {
    sound = sound;
    log = a;
    logged = audit-restore host.params_hash (entries a) (new_queue (some a));
    matched = record {
      at_id = λ j. sym (
          ap (slot_after_restart raw) (slot-restore host.params_hash (entries a) (some a) j)
          ∙ restored_again host.params_hash raw j (accumulate j none (entries a)));
    };
  }

  -- The queue of a daemon that was started from a log, after any calls that are `IsKept`, and then
  -- started again from the log as the calls left it, holds under each id what `after_restart` makes of
  -- the entry: one that waited or was approved is live and pending again, with its call and its reason;
  -- a denied, executed or failed one is history with its outcome, of which the result is as
  -- encoding/json reads it back (null where there was none), and an executed or failed one has lost the
  -- reason of its enqueueing; history stays; and no other id is known. It is assumed of the log that
  -- an accepted entry is read back as the next one, as encoding/json decodes it, that a refused one
  -- leaves no trace, and that no hash is empty.
  pub recovery :
      (a : A) (cs : List Call) (j : Text)
      → IsLog a
      → All (IsKept raw) cs
      → let q = run host (restore host.params_hash (entries a) (new_queue (some a))).0 cs in
        (log : A) × (q.audit ≡ some log)
        × (slot (restore host.params_hash (entries log) (new_queue (some log))).0 j
            ≡ slot_of (slot_after_restart raw (slot q j)))
  recovery a cs j sound h =
      let d = run-IsDurable _ cs h (restore-IsDurable a sound) in
      (
        d.log,
        d.logged,
        slot-restore host.params_hash (entries d.log) (some d.log) j
            ∙ ap slot_of (d.matched.at_id j),
      )
