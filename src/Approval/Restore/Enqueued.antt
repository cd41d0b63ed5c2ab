-- ===== src/Approval/Restore/Enqueued.antt =====
-- Enqueueing, and the match between the queue and its audit log.
use qi.Approval.Queue.Calls.{Named}
use qi.Approval.Audit.Reading.{outcome_exceeds}
use qi.Base.{
  nat_eq, ◌∙◌, ℕ, Text, false, Option, none, some, List, [], ◌∷◌, ◌≡◌, refl, arith, lookup, insert,
  erase, lookup-insert, lookup-erase, lookup-eq, ◌==◌, eq_refl, Bool-cases, inl, inr, ok, err,
  Option-cases, Result-cases,
}
use qi.Approval.{AuditEntry, Pending, pending, AuditError, not_audited, enqueued}
use qi.Approval.Queue.{
  Queue, Host, has_id, fresh_id, bare_entry, enqueue_new, enqueue_with_call_id, check_enqueue,
}
use qi.Approval.Restore.{Accumulator, restore_accumulator, restore_entry, note}
use qi.Approval.Restore.Replay.{observe, accumulate, slot}
use qi.Approval.Restore.Recovery.{
  slot_after_restart, LogLaws, IsDurable, store-Matches, after_restart, as_read, read_params,
}

abbrev pub enqueue_entry : ℕ → Pending → AuditEntry
enqueue_entry now p = record (bare_entry now enqueued p.id p) {
  reason = p.reason;
  params = p.params;
}

-- A record as EnqueueWithCallID builds it.
pub record IsFresh (now : ℕ) (p : Pending) : Type 0 where
  pub named : (p.id == []) ≡ false
  pub waiting : p.status ≡ pending
  pub created : p.created_at ≡ now
  pub undecided : p.decided_at ≡ none
  pub unexecuted : p.executed_at ≡ none
  pub no_result : p.result ≡ []
  pub no_error : p.error ≡ []

enqueue-restored :
    (params_hash raw : Text → Text) (now : ℕ) (p : Pending) (old : Option Accumulator)
    → IsFresh now p
    → read_params raw p.params ≡ p.params
    → restore_accumulator params_hash p.id (observe p.id old (as_read raw (enqueue_entry now p)))
      ≡ after_restart raw p
unfolding observe note restore_accumulator restore_entry
enqueue-restored params_hash raw now p old f kept =
    rw (f.named, eq_refl) (ground (arith, f.waiting, kept))

module _ {A : Type 0} where
  fresh_id-some :
      (q : Queue A) (draws : List Text) (id : Text)
      → Named draws
      → fresh_id q draws ≡ some id
      → ((id == []) ≡ false) × (has_id q id ≡ false)
  unfolding fresh_id
  fresh_id-some q [] id h e = cc
  fresh_id-some q (d ∷ draws) id h e = elim (Bool-cases (has_id q d)) [
    | inl there ↦ fresh_id-some q draws id h.1 (rw there at e)
    | inr free ↦ let same : d ≡ id = ground arith in (rw same at h.0, rw same at free)
  ]

module _ {A : Type 0} (host : Host A) (raw : Text → Text) (entries : A → List AuditEntry)
    (IsLog : A → Type 0) (laws : LogLaws host raw entries IsLog) where
  module _ (now : ℕ) (p : Pending) (q : Queue A) (a : A) (logged : q.audit ≡ some a) where
    enqueue_accepted :
        (host.append a (enqueue_entry now p)).1 ≡ none
        → enqueue_new host now p q ≡ (
          record q {
            items = insert p.id p q.items;
            audit = some (host.append a (enqueue_entry now p)).0;
          },
          ok p.id,
        )
    unfolding enqueue_new
    enqueue_accepted done = ground arith

    enqueue_refused :
        (x : AuditError)
        → (host.append a (enqueue_entry now p)).1 ≡ some x
        → enqueue_new host now p q ≡ (
          record q {
            items = erase p.id (insert p.id p q.items);
            audit = some (host.append a (enqueue_entry now p)).0;
          },
          err (not_audited x),
        )
    unfolding enqueue_new
    enqueue_refused x refused = ground arith

  enqueue_new-IsDurable :
      (now : ℕ) (p : Pending) (q : Queue A)
      → IsFresh now p
      → read_params raw p.params ≡ p.params
      → nat_eq now 0 ≡ false
      → has_id q p.id ≡ false
      → IsDurable host raw entries IsLog laws q
      → IsDurable host raw entries IsLog laws (enqueue_new host now p q).0
  unfolding slot has_id outcome_exceeds
  enqueue_new-IsDurable now p q f kept timed free d =
      elim (Option-cases (host.append d.log (enqueue_entry now p)).1) [
        | inl done ↦
            let (next, sound) =
              laws.append_ok d.log _ d.sound (record { timed = timed; small = refl }) done in
            rw (enqueue_accepted now p q d.log d.logged done) (record {
              log = (host.append d.log (enqueue_entry now p)).0;
              logged = refl;
              sound = sound;
              matched = rw next (
                  store-Matches host raw entries IsLog laws p.id p
                    (as_read raw (enqueue_entry now p)) q _ (entries d.log) d.matched refl
                    (restored (accumulate p.id none (entries d.log))));
            })
        | inr (x, refused) ↦
            let (before, sound) = laws.append_err d.log _ x d.sound refused in
            rw (enqueue_refused now p q d.log d.logged x refused) (record {
              log = (host.append d.log (enqueue_entry now p)).0;
              logged = refl;
              sound = sound;
              matched = rw before (record { at_id = λ j. d.matched.at_id j ∙ unchanged j });
            })
      ]
    where
      restored :
          (old : Option Accumulator)
          → restore_accumulator host.params_hash p.id
              (observe p.id old (as_read raw (enqueue_entry now p)))
            ≡ after_restart raw p
      restored old = enqueue-restored host.params_hash raw now p old f kept

      unchanged :
          (j : Text)
          → slot_after_restart raw (slot q j)
            ≡ slot_after_restart raw
                (lookup j (erase p.id (insert p.id p q.items)), lookup j q.history)
      unchanged j = ground (
        arith,
        lookup-erase p.id j (insert p.id p q.items),
        lookup-insert p.id j p q.items,
        lookup-eq p.id j q.items,
      )

  pub enqueue_with_call_id-IsDurable :
      (now : ℕ) (draws : List Text) (caller call_id tool params reason : Text) (q : Queue A)
      → Named draws
      → read_params raw params ≡ params
      → nat_eq now 0 ≡ false
      → IsDurable host raw entries IsLog laws q
      → IsDurable host raw entries IsLog laws
          (enqueue_with_call_id host now draws caller call_id tool params reason q).0
  unfolding enqueue_with_call_id
  enqueue_with_call_id-IsDurable now draws caller call_id tool params reason q named kept timed d =
      elim (Result-cases (check_enqueue caller call_id tool reason)) [
        | inr (x, e) ↦ rw (e, enqueue_with_call_id) d
        | inl (u, e) ↦ elim (Option-cases (fresh_id q draws)) [
          | inl out ↦ rw (e, out, enqueue_with_call_id) d
          | inr (id, drawn) ↦
              let (ne, free) = fresh_id-some q draws id named drawn in
              rw (e, drawn, enqueue_with_call_id)
                (enqueue_new-IsDurable now _ q
                  (record {
                    named = ne;
                    waiting = refl;
                    created = refl;
                    undecided = refl;
                    unexecuted = refl;
                    no_result = refl;
                    no_error = refl;
                  })
                  kept timed free d)
        ]
      ]
