-- ===== src/Approval/Restore/Logged.antt =====
-- The queue over the audit log on bytes: a restart of qid from the file that its queue has written.
-- `marshal` is json.Marshal on entries with texts that are valid UTF-8, and is taken to refuse others,
-- of which the queue makes none: it checks the texts that it is given, cuts error texts to valid UTF-8,
-- and reads the rest from the log, where json.Unmarshal leaves only valid UTF-8.
use mathlib.Core.Path.{subst}
use qi.Base.{
  All, ℕ, suc, ◌<◌, ◌≡◌, sym, ap, arith, Text, true, false, ◌==◌, nat_eq, length, Option, none,
  some, List, [], ◌∷◌, ◌++◌, ok,
}
use qi.Approval.{AuditEntry, max_audit_log_bytes}
use qi.Approval.Audit.{Audit, Disk, append, stamped}
use qi.Approval.Audit.Reading.{read_audit_log, open_audit, content_of}
use qi.Approval.Audit.Reading.History.{IsLogOf, open_audit_repaired}
use qi.Approval.Audit.Reading.Appended.{EncodingLaws, append-IsLogOf}
use qi.Approval.Audit.Reading.Sessions.{is_atomic, append-atomic, read_audit_log-IsLogOf}
use qi.Approval.Queue.{Queue, Host, new_queue}
use qi.Approval.Queue.Calls.{Call, run}
use qi.Approval.Restore.{restore}
use qi.Approval.Restore.Replay.{slot, slot_of}
use qi.Approval.Restore.Recovery.{as_read, LogLaws, slot_after_restart}
use qi.Approval.Restore.Restart.{IsKept, recovery}

-- The log, and what the operating system will do in each of the next Appends.
abbrev pub Logged : Type 0
Logged = Audit × (ℕ → Disk)

stamped_timed : (d : Disk) (e : AuditEntry) → nat_eq e.time 0 ≡ false → stamped d e ≡ e
unfolding stamped
stamped_timed d e h = ground arith

module _ (marshal : AuditEntry → Option Text) (unmarshal : Text → Option AuditEntry)
    (raw params_hash : Text → Text) (laws : EncodingLaws marshal unmarshal (as_read raw))
    (hash_ne_nil : (p : Text) → (params_hash p == []) ≡ false) where
  -- Audit.Append as the queue calls it.
  abbrev pub logging : Host Logged
  logging = record {
    append = λ (a, disks) e.
        let (after, error) = append marshal (disks 0) e a in ((after, λ n. disks (suc n)), error);
    params_hash = params_hash;
  }

  -- ReadAuditLog of the file.
  abbrev pub entries_of : Logged → List AuditEntry
  entries_of (a, disks) = (read_audit_log unmarshal (some a.file)).0

  abbrev pub IsLog : Logged → Type 0
  IsLog (a, disks) =
      IsLogOf unmarshal (entries_of (a, disks)) a × ((n : ℕ) → is_atomic (disks n) ≡ true)

  opened-IsLog :
      (a : Audit) (disks : ℕ → Disk) (es : List AuditEntry)
      → IsLogOf unmarshal es a
      → ((n : ℕ) → is_atomic (disks n) ≡ true)
      → (entries_of (a, disks) ≡ es) × IsLog (a, disks)
  opened-IsLog a disks es log whole =
      let read =
        ap (λ r. r.0) (read_audit_log-IsLogOf marshal unmarshal (as_read raw) laws a es log) in
      (read, (subst (λ l. IsLogOf unmarshal l a) (sym read) log, whole))

  logging-LogLaws : LogLaws logging raw entries_of IsLog
  logging-LogLaws = record {
    append_ok = λ (a, disks) e (log, whole) fits done.
        let same : (stamped (disks 0) e ≡ e) = stamped_timed (disks 0) e fits.timed in
        let next =
          append-IsLogOf marshal unmarshal (as_read raw) laws (disks 0) e a (entries_of (a, disks))
            log (rw same fits.small) done in
        opened-IsLog (append marshal (disks 0) e a).0 (λ n. disks (suc n))
          (entries_of (a, disks) ++ as_read raw e ∷ [])
          (subst
            (λ x.
              IsLogOf unmarshal (entries_of (a, disks) ++ as_read raw x ∷ [])
                (append marshal (disks 0) e a).0)
            same next)
          (λ n. whole (suc n));
    append_err = λ (a, disks) e x (log, whole) refused.
        let same = append-atomic marshal (disks 0) e a x (whole 0) refused in
        opened-IsLog (append marshal (disks 0) e a).0 (λ n. disks (suc n)) (entries_of (a, disks))
          (rw same log) (λ n. whole (suc n));
    hash_ne_nil = hash_ne_nil;
  }

  -- NewQueue and Restore on a log.
  abbrev pub restored : List AuditEntry → Logged → Queue Logged
  restored es log = (restore params_hash es (new_queue (some log))).0

  -- A daemon that starts with a readable log file that is not filled to the last byte opens the log
  -- and restores its queue. After any calls that are `IsKept`, on a disk that writes all of a line or
  -- nothing, the file is read again, and a queue that is restored from it holds under each id what
  -- `after_restart` makes of the entry of the queue: one that waited or was approved is live and
  -- pending again; a denied, executed or failed one is history with its outcome, of which the result
  -- is as encoding/json reads it back, and an executed or failed one has lost the reason of its
  -- enqueueing; history stays; and no other id is known. `EncodingLaws` is assumed of encoding/json,
  -- and that no hash is empty.
  pub recovery_on_disk :
      (found : Option Text) (es : List AuditEntry) (disks : ℕ → Disk) (cs : List Call) (j : Text)
      → read_audit_log unmarshal found ≡ (es, none)
      → length (content_of found) < max_audit_log_bytes
      → ((n : ℕ) → is_atomic (disks n) ≡ true)
      → All (IsKept raw) cs
      → (a : Audit) × (open_audit unmarshal found ≡ ok a)
        × (let q = run logging (restored es (a, disks)) cs in
            (log : Logged) × (q.audit ≡ some log)
            × (slot (restored (entries_of log) log) j
                ≡ slot_of (slot_after_restart raw (slot q j))))
  recovery_on_disk found es disks cs j read small whole all =
      let (a, opens, log) = open_audit_repaired unmarshal found es read small in
      let (same, sound) = opened-IsLog a disks es log whole in
      (
        a,
        opens,
        subst
            (λ l.
              let q = run logging (restored l (a, disks)) cs in
              (log : Logged) × (q.audit ≡ some log)
              × (slot (restored (entries_of log) log) j
                  ≡ slot_of (slot_after_restart raw (slot q j))))
            same (recovery logging raw entries_of IsLog logging-LogLaws (a, disks) cs j sound all),
      )
