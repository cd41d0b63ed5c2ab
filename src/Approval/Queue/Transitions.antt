-- ===== src/Approval/Queue/Transitions.antt =====
-- The life of an entry: sequences of calls, and the record of an id.

use qi.Base.{◌∙◌, ℕ, Text, Bool, true, false, Option, some, List, [], ◌∷◌, ◌≡◌, arith, lookup, err}
use qi.Approval.{
  Pending, Status, approved, denied, executed, failed, illegal_transition, cannot_record,
}
use qi.Approval.Queue.{Queue, Host, approve, pending_for_transition}
use qi.Approval.Queue.Outcome.{error, record_result, approved_for_result}
use qi.Approval.Queue.Calls.{Call, enqueueing, approving, denying, recording, step, run}
use qi.Approval.Queue.Changes.{
  Moves, to_approved, to_denied, to_executed, to_failed, Change, same, created, moved,
  approve-Change, deny-Change, record_result-Change, enqueue-Change,
}

-- Denied, executed or failed.
abbrev pub is_settled : Status → Bool
is_settled denied = true
is_settled executed = true
is_settled failed = true
is_settled _ = false

unsettled : (r t : Pending) → Moves r.status t.status → is_settled r.status ≡ true → ⊥
unsettled r t m s = go r.status t.status m s
  where
    go : (a b : Status) → Moves a b → is_settled a ≡ true → ⊥
    go a b to_approved h = cc
    go a b to_denied h = cc
    go a b to_executed h = cc
    go a b to_failed h = cc

module _ {A : Type 0} (host : Host A) where
  -- Whatever the call, the record of each id stays as it is, or it is a new pending one, or it
  -- moves from pending to approved or denied, or from approved to executed or failed, and then
  -- its id, caller, call id, tool, parameters and time of creation stay as they are.
  pub step-Change :
      (q : Queue A) (c : Call) (j : Text)
      → Change (lookup j q.items) (lookup j (step host q c).items)
  unfolding step
  step-Change q (enqueueing now draws caller call_id tool params reason) j =
      enqueue-Change host now draws caller call_id tool params reason q j
  step-Change q (approving now id) j = approve-Change host now id q j
  step-Change q (denying now id reason) j = deny-Change host now id reason q j
  step-Change q (recording now id x) j = record_result-Change host now id x q j

  Change-IsSettled :
      (before after : Option Pending) (p : Pending)
      → Change before after
      → before ≡ some p
      → is_settled p.status ≡ true
      → after ≡ some p
  Change-IsSettled before after p (same e) b s = e ∙ b
  Change-IsSettled before after p (created r none_before there fresh) b s = cc
  Change-IsSettled before after p (moved r t there now m c) b s =
      absurd (unsettled r t m (ground arith))

  -- Once an entry is denied, executed or failed, no calls change its record.
  pub run_settled :
      (q : Queue A) (cs : List Call) (id : Text) (p : Pending)
      → lookup id q.items ≡ some p
      → is_settled p.status ≡ true
      → lookup id (run host q cs).items ≡ some p
  unfolding run
  run_settled q [] id p there s = there
  run_settled q (c ∷ cs) id p there s =
      run_settled (step host q c) cs id p (Change-IsSettled _ _ p (step-Change q c id) there s) s

  -- After any calls that follow the moment at which an entry is denied, executed or failed,
  -- approving it and recording an error for it both fail, naming its status, and leave the queue
  -- as it is.
  pub settled_once :
      (q : Queue A) (cs : List Call) (id : Text) (p : Pending) (now : ℕ) (v : Text)
      → lookup id q.items ≡ some p
      → is_settled p.status ≡ true
      → let r = run host q cs in
        (approve host now id r ≡ (r, err (illegal_transition p.status approved)))
        × (record_result host now id (error v) r ≡ (r, err (cannot_record p.status)))
  unfolding approve pending_for_transition record_result approved_for_result
  settled_once q cs id p now v there s =
      let after = run_settled q cs id p there s in (ground (arith, after), ground (arith, after))
