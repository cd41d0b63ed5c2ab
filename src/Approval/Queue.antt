-- ===== src/Approval/Queue.antt =====
-- internal/approval/queue.go: the queue, as functions from its state. The mutex makes each method
-- one step. `now` is what q.now() returns, `draws` the identifiers that newID() returns in turn.
-- `A` is the state of the audit log: the queue is generic in how an entry is appended to it, and
-- in the hash of the parameters.
pub mod Outcome
pub mod Listing
pub mod Calls
pub mod Inversion
pub mod Changes
pub mod Transitions
use qi.Base.{
  ℕ, Text, Bool, Option, none, some, List, [], ◌∷◌, ◌==◌, ◌||◌, if◌then◌else◌, Result, ok, err,
  ◌>>=◌, ◌>>◌, Dict, lookup, insert, erase, is_some, codes,
}
use qi.Approval.{
  Status, Event, pending, approved, denied, enqueued, approval, denial, Pending, AuditEntry,
  AuditError, QueueError, missing_caller_or_tool, still_drawing, unknown_id, illegal_transition,
  not_audited, max_caller_bytes, max_call_id_bytes, max_tool_bytes, max_terminal_text_bytes,
}
use qi.Approval.Limits.{validate_text}

-- What the queue needs of the log and of crypto/sha256.
pub record Host (A : Type 0) : Type 0 where
  pub append : A → AuditEntry → A × Option AuditError
  pub params_hash : Text → Text

pub record Queue (A : Type 0) : Type 0 where
  pub items : Dict Pending
  pub history : Dict Pending
  pub audit : Option A

unfoldable pub check_enqueue : Text → Text → Text → Text → Result QueueError (Unit {0})
unfolding validate_text
check_enqueue caller call_id tool reason =
    if caller == [] || tool == [] then err missing_caller_or_tool else (do
      validate_text (codes "caller") caller max_caller_bytes
      validate_text (codes "call id") call_id max_call_id_bytes
      validate_text (codes "tool name") tool max_tool_bytes
      validate_text (codes "reason") reason max_terminal_text_bytes)

abbrev pub bare_entry : ℕ → Event → Text → Pending → AuditEntry
bare_entry t event id p = record {
  time = t;
  event = event;
  id = id;
  caller = p.caller;
  call_id = p.call_id;
  tool = p.tool_name;
  reason = [];
  error = [];
  params = [];
  params_hash = [];
  outcome = none;
}

module _ {A : Type 0} where
  unfoldable pub new_queue : Option A → Queue A
  new_queue a = record { items = []; history = []; audit = a }

  unfoldable pub has_id : Queue A → Text → Bool
  has_id q id = is_some (lookup id q.items) || is_some (lookup id q.history)

  -- The drawing loop; `none` when all of the draws are taken.
  unfoldable pub fresh_id : Queue A → List Text → Option Text
  unfolding has_id
  fresh_id q [] = none
  fresh_id q (id ∷ draws) = let later = fresh_id q draws in if has_id q id then later else some id

  unfoldable pub pending_for_transition : Queue A → Text → Status → Result QueueError Pending
  pending_for_transition q id next = elim (lookup id q.items) [
    | none ↦ elim (lookup id q.history) [
      | none ↦ err (unknown_id id)
      | some old ↦ err (illegal_transition old.status next)
    ]
    | some p ↦ elim p.status [ pending ↦ ok p | other ↦ err (illegal_transition other next) ]
  ]

  unfoldable pub get : Queue A → Text → Option Pending
  get q id = elim (lookup id q.items) [ some p ↦ some p | none ↦ lookup id q.history ]

module _ {A : Type 0} (host : Host A) where
  -- A nil log accepts everything.
  unfoldable pub append_audit : Queue A → AuditEntry → Queue A × Option AuditError
  append_audit q e = elim q.audit [
    | none ↦ (q, none)
    | some a ↦ let (a', error) = host.append a e in (record q { audit = some a' }, error)
  ]

  -- Behind the lock, with an identifier that is not taken.
  unfoldable pub enqueue_new : ℕ → Pending → Queue A → Queue A × Result QueueError Text
  unfolding append_audit
  enqueue_new now p q =
      let entry = record (bare_entry now enqueued p.id p) {
        reason = p.reason;
        params = p.params;
      } in
      let (q', error) = append_audit (record q { items = insert p.id p q.items }) entry in
      elim error [
        | none ↦ (q', ok p.id)
        | some e ↦ (record q' { items = erase p.id q'.items }, err (not_audited e))
      ]

  unfoldable pub enqueue_with_call_id :
      ℕ → List Text → Text → Text → Text → Text → Text → Queue A → Queue A × Result QueueError Text
  unfolding check_enqueue fresh_id enqueue_new
  enqueue_with_call_id now draws caller call_id tool params reason q =
      elim (check_enqueue caller call_id tool reason) [
        | err e ↦ (q, err e)
        | ok _ ↦ elim (fresh_id q draws) [
          | none ↦ (q, err still_drawing)
          | some id ↦
              enqueue_new now
                (record {
                  id = id;
                  caller = caller;
                  call_id = call_id;
                  tool_name = tool;
                  params = params;
                  status = pending;
                  reason = reason;
                  created_at = now;
                  decided_at = none;
                  executed_at = none;
                  result = [];
                  error = [];
                })
                q
        ]
      ]

  unfoldable pub enqueue :
      ℕ → List Text → Text → Text → Text → Text → Queue A → Queue A × Result QueueError Text
  unfolding enqueue_with_call_id
  enqueue now draws caller tool params reason q =
      enqueue_with_call_id now draws caller [] tool params reason q

  -- Append the entry, and store the new record only if that succeeded.
  unfoldable pub commit :
      AuditEntry
      → (AuditError → QueueError)
      → Text
      → Pending
      → Queue A
      → Queue A × Result QueueError Pending
  unfolding append_audit
  commit entry wrap id p q =
      let (q', error) = append_audit q entry in
      elim error [
        | some e ↦ (q', err (wrap e))
        | none ↦ (record q' { items = insert id p q'.items }, ok p)
      ]

  unfoldable pub approve : ℕ → Text → Queue A → Queue A × Result QueueError Pending
  unfolding pending_for_transition commit
  approve now id q = elim (pending_for_transition q id approved) [
    | err e ↦ (q, err e)
    | ok p ↦
        commit (bare_entry now approval id p) not_audited id
          (record p { status = approved; decided_at = some now }) q
  ]

  unfoldable pub deny_pending :
      ℕ → Text → Text → Pending → Queue A → Queue A × Result QueueError Pending
  unfolding commit
  deny_pending now id reason p q =
      commit
        (record (bare_entry now denial id p) {
          params_hash = host.params_hash p.params;
          outcome = some (record {
            status = denied;
            result = [];
            reason = reason;
            error = [];
            decided_at = some now;
            executed_at = none;
          });
        })
        not_audited id (record p { status = denied; reason = reason; decided_at = some now }) q

  unfoldable pub deny : ℕ → Text → Text → Queue A → Queue A × Result QueueError Pending
  unfolding validate_text pending_for_transition deny_pending
  deny now id reason q =
      elim (validate_text (codes "denial reason") reason max_terminal_text_bytes) [
        | err e ↦ (q, err e)
        | ok _ ↦ elim (pending_for_transition q id denied) [
          | err e ↦ (q, err e)
          | ok p ↦ deny_pending now id reason p q
        ]
      ]
