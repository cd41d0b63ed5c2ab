-- ===== src/Tests/Rereading.antt =====
-- A queue over a log file, with a codec for two entries, which are a call that waits and its denial.
use qi.Base.{
  ap, sym, ◌≡◌, refl, arith, ℕ, zero, suc, ◌<◌, Text, codes, Bool, true, false, ◌&&◌, ◌==◌,
  eq_sound, nat_eq, has_byte, Option, none, some, List, [], ◌∷◌, take, length, All, Bool-cases, inl,
  inr, ◌⊎◌, if◌then◌else◌, ok,
}
use qi.Approval.{
  AuditEntry, TerminalOutcome, Event, Status, enqueued, denial, denied, max_audit_log_bytes,
}
use qi.Approval.Audit.{Audit, Disk}
use qi.Approval.Audit.Reading.{read_audit_log, open_audit}
use qi.Approval.Audit.Reading.Appended.{EncodingLaws}
use qi.Approval.Audit.Reading.Sessions.{is_atomic}
use qi.Approval.Queue.Calls.{Call, enqueueing, denying, run}
use qi.Approval.Restore.Replay.{slot, slot_of}
use qi.Approval.Restore.Recovery.{as_read, slot_after_restart}
use qi.Approval.Restore.Restart.{IsKept}
use qi.Approval.Restore.Logged.{Logged, logging, entries_of, restored, recovery_on_disk}

abbrev compact : Text → Text
compact [] = []
compact (c ∷ s) = if nat_eq c 32 then compact s else c ∷ compact s

abbrev hash : Text → Text
hash p = 104 ∷ p

abbrev waiting_entry : AuditEntry
waiting_entry = record {
  time = 1;
  event = enqueued;
  id = codes "b";
  caller = codes "voice";
  call_id = [];
  tool = codes "task.add";
  reason = codes "why";
  error = [];
  params = codes "1";
  params_hash = [];
  outcome = none;
}

abbrev denial_entry : AuditEntry
denial_entry = record waiting_entry {
  time = 2;
  event = denial;
  reason = [];
  params = [];
  params_hash = hash (codes "1");
  outcome = some (record {
    status = denied;
    result = [];
    reason = codes "no";
    error = [];
    decided_at = some 2;
    executed_at = none;
  });
}

abbrev event_eq : Event → Event → Bool
event_eq enqueued enqueued = true
event_eq denial denial = true
event_eq _ _ = false

abbrev status_eq : Status → Status → Bool
status_eq denied denied = true
status_eq _ _ = false

abbrev time_eq : Option ℕ → Option ℕ → Bool
time_eq none none = true
time_eq (some a) (some b) = nat_eq a b
time_eq _ _ = false

abbrev outcome_eq : TerminalOutcome → TerminalOutcome → Bool
outcome_eq o p =
    status_eq o.status p.status
    && (o.result == p.result
        && (o.reason == p.reason
            && (o.error == p.error
                && (time_eq o.decided_at p.decided_at && time_eq o.executed_at p.executed_at))))

abbrev outcomes_eq : Option TerminalOutcome → Option TerminalOutcome → Bool
outcomes_eq none none = true
outcomes_eq (some o) (some p) = outcome_eq o p
outcomes_eq _ _ = false

abbrev entry_eq : AuditEntry → AuditEntry → Bool
entry_eq e f =
    nat_eq e.time f.time
    && (event_eq e.event f.event
        && (e.id == f.id
            && (e.caller == f.caller
                && (e.call_id == f.call_id
                    && (e.tool == f.tool
                        && (e.reason == f.reason
                            && (e.error == f.error
                                && (e.params == f.params
                                    && (e.params_hash == f.params_hash
                                        && outcomes_eq e.outcome f.outcome)))))))))

event_eq_sound : (e f : Event) → event_eq e f ≡ true → e ≡ f
event_eq_sound e f h = ground arith

status_eq_sound : (e f : Status) → status_eq e f ≡ true → e ≡ f
status_eq_sound e f h = ground arith

time_eq_sound : (e f : Option ℕ) → time_eq e f ≡ true → e ≡ f
time_eq_sound none none h = refl
time_eq_sound none (some b) h = ground arith
time_eq_sound (some a) none h = ground arith
time_eq_sound (some a) (some b) h = ap some (ground arith)

outcome_eq_sound : (o p : TerminalOutcome) → outcome_eq o p ≡ true → o ≡ p
outcome_eq_sound o p h =
    let a : (o.status ≡ p.status) = ground (arith, status_eq_sound o.status p.status) in
    let b : (o.result ≡ p.result) = ground (arith, eq_sound o.result p.result) in
    let c : (o.reason ≡ p.reason) = ground (arith, eq_sound o.reason p.reason) in
    let d : (o.error ≡ p.error) = ground (arith, eq_sound o.error p.error) in
    let e : (o.decided_at ≡ p.decided_at) =
      ground (arith, time_eq_sound o.decided_at p.decided_at) in
    let f : (o.executed_at ≡ p.executed_at) =
      ground (arith, time_eq_sound o.executed_at p.executed_at) in
    cc

outcomes_eq_sound : (o p : Option TerminalOutcome) → outcomes_eq o p ≡ true → o ≡ p
outcomes_eq_sound none none h = refl
outcomes_eq_sound none (some p) h = ground arith
outcomes_eq_sound (some o) none h = ground arith
outcomes_eq_sound (some o) (some p) h = ap some (outcome_eq_sound o p h)

entry_eq_sound : (e f : AuditEntry) → entry_eq e f ≡ true → e ≡ f
entry_eq_sound e f h =
    let a : (e.time ≡ f.time) = ground arith in
    let b : (e.event ≡ f.event) = ground (arith, event_eq_sound e.event f.event) in
    let c : (e.id ≡ f.id) = ground (arith, eq_sound e.id f.id) in
    let d : (e.caller ≡ f.caller) = ground (arith, eq_sound e.caller f.caller) in
    let i : (e.call_id ≡ f.call_id) = ground (arith, eq_sound e.call_id f.call_id) in
    let j : (e.tool ≡ f.tool) = ground (arith, eq_sound e.tool f.tool) in
    let k : (e.reason ≡ f.reason) = ground (arith, eq_sound e.reason f.reason) in
    let l : (e.error ≡ f.error) = ground (arith, eq_sound e.error f.error) in
    let m : (e.params ≡ f.params) = ground (arith, eq_sound e.params f.params) in
    let n : (e.params_hash ≡ f.params_hash) =
      ground (arith, eq_sound e.params_hash f.params_hash) in
    let o : (e.outcome ≡ f.outcome) = ground (arith, outcomes_eq_sound e.outcome f.outcome) in cc

-- The entries are `{a}` and `{b}`.
abbrev braced : ℕ → Text
braced c = 123 ∷ c ∷ 125 ∷ []

abbrev marshal : AuditEntry → Option Text
marshal e =
    if entry_eq e waiting_entry
    then some (braced 97)
    else if entry_eq e denial_entry
    then some (braced 98)
    else none

abbrev unmarshal : Text → Option AuditEntry
unmarshal b =
    if b == braced 97
    then some (as_read compact waiting_entry)
    else if b == braced 98
    then some (as_read compact denial_entry)
    else none

marshal-cases :
    (e : AuditEntry) (b : Text)
    → marshal e ≡ some b
    → ((b ≡ braced 97) × (e ≡ waiting_entry)) ⊎ ((b ≡ braced 98) × (e ≡ denial_entry))
marshal-cases e b h = elim (Bool-cases (entry_eq e waiting_entry)) [
  | inl t ↦ inl (text_of (rw t at h), entry_eq_sound e waiting_entry t)
  | inr f ↦ elim (Bool-cases (entry_eq e denial_entry)) [
    | inl t ↦ inr (text_of (rw (f, t) at h), entry_eq_sound e denial_entry t)
    | inr g ↦ absurd (no_text (rw (f, g) at h))
  ]
]
  where
    text_of : {c : Text} → some c ≡ some b → b ≡ c
    text_of {c} p = sym (ap (λ o. elim o [ none ↦ b | some x ↦ x ]) p)

    no_text : none ≡ some b → ⊥
    no_text p = cc p

torn_text : (c n : ℕ) → n < 3 → unmarshal (take n (braced c)) ≡ none
unfolding ◌==◌
torn_text c zero h = refl
torn_text c (suc zero) h = refl
torn_text c (suc (suc zero)) h = ground arith
torn_text c (suc (suc (suc n))) h = ground arith

codec-laws : EncodingLaws marshal unmarshal (as_read compact)
unfolding ◌==◌ has_byte
codec-laws = record {
  one_line =
      λ e b h. elim (marshal-cases e b h) [ inl (p, q) ↦ rw p refl | inr (p, q) ↦ rw p refl ];
  not_empty =
      λ e b h. elim (marshal-cases e b h) [ inl (p, q) ↦ rw p refl | inr (p, q) ↦ rw p refl ];
  decodes = λ e b h. elim (marshal-cases e b h) [
    | inl (p, q) ↦ rw (p, q) refl
    | inr (p, q) ↦ rw (p, q) refl
  ];
  torn = λ e b n h short. elim (marshal-cases e b h) [
    | inl (p, q) ↦ rw p (torn_text 97 n (omega (arith, ap length p)))
    | inr (p, q) ↦ rw p (torn_text 98 n (omega (arith, ap length p)))
  ];
}

abbrev disk : Disk
disk = record {
  now = 9;
  inspected = true;
  written = max_audit_log_bytes;
  wrote = true;
  synced = true;
}

disk-atomic : is_atomic disk ≡ true
unfolding is_atomic
disk-atomic = refl

abbrev calls : List Call
calls =
    enqueueing 1 (codes "b" ∷ []) (codes "voice") [] (codes "task.add") (codes "1") (codes "why")
    ∷ denying 2 (codes "b") (codes "no")
    ∷ []

hash-named : (p : Text) → (hash p == []) ≡ false
unfolding ◌==◌
hash-named p = refl

calls-IsKept : All (IsKept compact) calls
unfolding ◌==◌
calls-IsKept = (((refl, tt), refl, refl), (refl, tt))

no_file-read : read_audit_log unmarshal none ≡ ([], none)
unfolding read_audit_log
no_file-read = refl

recovery_on_disk_example :
    (a : Audit) × (open_audit unmarshal none ≡ ok a)
    × (let q =
          run
            (logging marshal unmarshal compact hash codec-laws hash-named)
            (restored marshal unmarshal compact hash codec-laws hash-named [] (a, λ n. disk))
            calls in
        (log : Logged) × (q.audit ≡ some log)
        × (slot
              (restored marshal unmarshal compact hash codec-laws hash-named
                (entries_of marshal unmarshal compact hash codec-laws hash-named log)
                log)
              (codes "b")
            ≡ slot_of (slot_after_restart compact (slot q (codes "b")))))
recovery_on_disk_example =
    recovery_on_disk marshal unmarshal compact hash codec-laws hash-named none [] (λ n. disk) calls
      (codes "b") no_file-read (omega arith) (λ n. disk-atomic) calls-IsKept
