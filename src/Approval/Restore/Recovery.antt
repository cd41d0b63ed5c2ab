-- ===== src/Approval/Restore/Recovery.antt =====
-- The match between a queue and the entries of its audit log, and what it needs of the log.
use mathlib.Core.Path.{subst}
use qi.Base.{
  nat_eq, codes, Option-cases, Text, false, Option, none, some, List, [], ◌∷◌, ◌++◌, ◌≡◌, refl,
  arith, lookup, insert, lookup-insert, ◌==◌, eq_iff, eq_refl, Bool-cases, inl, inr, ok, err,
}
use qi.Approval.Audit.Reading.{outcome_exceeds}
use mathlib.Core.Option
use qi.Approval.{
  AuditEntry, TerminalOutcome, Pending, pending, approved, executed, failed, QueueError, AuditError,
}
use qi.Approval.Queue.{Queue, Host, commit, append_audit}
use qi.Approval.Restore.{
  Accumulator, Restored, dropped, live, past, restore_accumulator, restore_entry, restore_terminal,
  from_enqueue,
}
use qi.Approval.Restore.Replay.{observe, accumulate, accumulate-append, Slot, slot}

abbrev pub reset : Pending → Pending
reset p = record p { status = pending; decided_at = none }

-- What encoding/json makes of raw JSON on its way into the log and back: `raw` compacts and escapes
-- it; params that are empty are left out, and a result that is nil is null.
abbrev pub read_params : (Text → Text) → Text → Text
read_params raw [] = []
read_params raw (c ∷ s) = raw (c ∷ s)

abbrev pub read_result : (Text → Text) → Text → Text
read_result raw [] = codes "null"
read_result raw (c ∷ s) = raw (c ∷ s)

abbrev pub read_outcome : (Text → Text) → TerminalOutcome → TerminalOutcome
read_outcome raw o = record o { result = read_result raw o.result }

-- An entry with texts that are valid UTF-8, as it is read back.
abbrev pub as_read : (Text → Text) → AuditEntry → AuditEntry
as_read raw e = record e {
  params = read_params raw e.params;
  outcome = Option.map (read_outcome raw) e.outcome;
}

-- What a restart makes of a live entry: an entry that waits is pending again, approved or not; a
-- settled one becomes history with its result as it is read back, and one that was executed or has
-- failed loses the reason of its enqueueing.
abbrev pub after_restart : (Text → Text) → Pending → Restored
after_restart raw p = elim p.status [
  | pending ↦ live (reset p)
  | approved ↦ live (reset p)
  | executed ↦ past (record p { reason = []; result = read_result raw p.result })
  | failed ↦ past (record p { reason = []; result = read_result raw p.result })
  | _ ↦ past (record p { result = read_result raw p.result })
]

abbrev pub slot_after_restart : (Text → Text) → Slot → Restored
slot_after_restart raw (some p, h) = after_restart raw p
slot_after_restart raw (none, some p) = past p
slot_after_restart raw (none, none) = dropped

-- An entry that has its time, and an outcome within its limit as it is read back.
pub record Fits (raw : Text → Text) (e : AuditEntry) : Type 0 where
  pub timed : nat_eq e.time 0 ≡ false
  pub small : outcome_exceeds (as_read raw e) ≡ false

-- What the queue relies on, for logs that are `IsLog`: an accepted entry is the next entry of the log,
-- as encoding/json reads it back, a refused one leaves no trace in it, and a hash is not the empty
-- text.
pub record LogLaws {A : Type 0} (host : Host A) (raw : Text → Text) (entries : A → List AuditEntry)
    (IsLog : A → Type 0) : Type 0 where
  pub append_ok :
      (a : A) (e : AuditEntry)
      → IsLog a
      → Fits raw e
      → (host.append a e).1 ≡ none
      → (entries (host.append a e).0 ≡ entries a ++ as_read raw e ∷ []) × IsLog (host.append a e).0
  pub append_err :
      (a : A) (e : AuditEntry) (x : AuditError)
      → IsLog a
      → (host.append a e).1 ≡ some x
      → (entries (host.append a e).0 ≡ entries a) × IsLog (host.append a e).0
  pub hash_ne_nil : (p : Text) → (host.params_hash p == []) ≡ false

pub accumulate-nil : (es : List AuditEntry) (a : Option Accumulator) → accumulate [] a es ≡ a
unfolding accumulate observe
accumulate-nil [] a = refl
accumulate-nil (e ∷ es) a = ground (arith, accumulate-nil es a)

observe-other :
    (e : AuditEntry) (id j : Text) (a : Option Accumulator)
    → e.id ≡ id
    → (id == j) ≡ false
    → observe j a e ≡ a
unfolding observe
observe-other e id j a same ne = ground (arith, same)

module _ (params_hash : Text → Text) where
  restore_entry_live :
      (id : Text) (e latest : AuditEntry) (x : Pending)
      → restore_entry params_hash id e latest ≡ live x
      → from_enqueue id e ≡ x
  unfolding restore_entry restore_terminal
  restore_entry_live id e latest x h = ground arith

  -- An id that is restored as live has an enqueue entry that describes it.
  pub restore_live :
      (id : Text) (a : Option Accumulator) (x : Pending)
      → restore_accumulator params_hash id a ≡ live x
      → (acc : Accumulator) × (e : AuditEntry) × (a ≡ some acc)
        × (acc.enqueue ≡ some e)
        × (from_enqueue id e ≡ x)
  unfolding restore_accumulator
  restore_live id none x h = cc
  restore_live id (some acc) x h = elim (Option-cases acc.enqueue) [
    | inl e ↦ ground arith
    | inr (e, there) ↦ (acc, e, refl, there, restore_entry_live id e acc.latest x (rw there at h))
  ]

module _ {A : Type 0} (host : Host A) (raw : Text → Text) (entries : A → List AuditEntry)
    (IsLog : A → Type 0) (laws : LogLaws host raw entries IsLog) where
  -- Each id is restored from the log to what a restart should make of it.
  pub record Matches (q : Queue A) (log : List AuditEntry) : Type 0 where
    pub at_id :
        (id : Text)
        → restore_accumulator host.params_hash id (accumulate id none log)
          ≡ slot_after_restart raw (slot q id)

  -- The queue has a log, and matches it.
  pub record IsDurable (q : Queue A) : Type 0 where
    pub log : A
    pub logged : q.audit ≡ some log
    pub sound : IsLog log
    pub matched : Matches q (entries log)

  -- An entry for one id, appended to the log, and the record stored under that id.
  pub store-Matches :
      (id : Text) (p : Pending) (e : AuditEntry) (q : Queue A) (audit : Option A)
      (log : List AuditEntry)
      → Matches q log
      → e.id ≡ id
      → restore_accumulator host.params_hash id (observe id (accumulate id none log) e)
        ≡ after_restart raw p
      → Matches (record q { items = insert id p q.items; audit = audit }) (log ++ e ∷ [])
  unfolding slot
  store-Matches id p e q audit log m same here = record {
    at_id = λ j. rw accumulate-append (elim (Bool-cases (id == j)) [
      | inl eq ↦ subst goal ((eq_iff id j).0 eq) (rw (lookup-insert, eq_refl) here)
      | inr ne ↦
          rw (observe-other e id j (accumulate j none log) same ne, lookup-insert, ne) (m.at_id j)
    ]);
  }
    where
      goal : Text → Type 0
      goal j =
          restore_accumulator host.params_hash j (observe j (accumulate j none log) e)
          ≡ slot_after_restart raw (lookup j (insert id p q.items), lookup j q.history)

  module _ (entry : AuditEntry) (wrap : AuditError → QueueError) (id : Text) (p : Pending)
      (q : Queue A) (a : A) (logged : q.audit ≡ some a) where
    commit_accepted :
        (host.append a entry).1 ≡ none
        → commit host entry wrap id p q
          ≡ (record q { items = insert id p q.items; audit = some (host.append a entry).0 }, ok p)
    unfolding commit append_audit
    commit_accepted done = ground arith

    commit_refused :
        (x : AuditError)
        → (host.append a entry).1 ≡ some x
        → commit host entry wrap id p q
          ≡ (record q { audit = some (host.append a entry).0 }, err (wrap x))
    unfolding commit append_audit
    commit_refused x refused = ground arith

  -- Commit keeps the match where the new entry restores the new record.
  pub commit-IsDurable :
      (entry : AuditEntry) (wrap : AuditError → QueueError) (id : Text) (p : Pending) (q : Queue A)
      → ((log : List AuditEntry)
          → Matches q log
          → restore_accumulator host.params_hash id
              (observe id (accumulate id none log) (as_read raw entry))
            ≡ after_restart raw p)
      → entry.id ≡ id
      → Fits raw entry
      → IsDurable q
      → IsDurable (commit host entry wrap id p q).0
  unfolding slot
  commit-IsDurable entry wrap id p q here same fits d =
      elim (Option-cases (host.append d.log entry).1) [
        | inl done ↦
            let (next, sound) = laws.append_ok d.log entry d.sound fits done in
            rw (commit_accepted entry wrap id p q d.log d.logged done) (record {
              log = (host.append d.log entry).0;
              logged = refl;
              sound = sound;
              matched = rw next (
                  store-Matches id p (as_read raw entry) q _ (entries d.log) d.matched same
                    (here (entries d.log) d.matched));
            })
        | inr (x, refused) ↦
            let (before, sound) = laws.append_err d.log entry x d.sound refused in
            rw (commit_refused entry wrap id p q d.log d.logged x refused) (record {
              log = (host.append d.log entry).0;
              logged = refl;
              sound = sound;
              matched = rw before (record { at_id = λ j. d.matched.at_id j });
            })
      ]
