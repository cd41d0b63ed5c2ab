-- ===== src/Approval/Queue/Inversion.antt =====
-- What a guard that passed says of the entry.
use qi.Base.{Text, some, ◌≡◌, arith, lookup, ok}
use qi.Approval.{Pending, Status, pending, approved}
use qi.Approval.Queue.{Queue, pending_for_transition}
use qi.Approval.Queue.Outcome.{approved_for_result}

pub pending_for_transition-ok :
    {A : Type 0} (q : Queue A) (id : Text) (next : Status) (p : Pending)
    → pending_for_transition q id next ≡ ok p
    → (lookup id q.items ≡ some p) × (p.status ≡ pending)
unfolding pending_for_transition
pending_for_transition-ok q id next p h = ground arith

pub approved_for_result-ok :
    {A : Type 0} (q : Queue A) (id : Text) (p : Pending)
    → approved_for_result q id ≡ ok p
    → (lookup id q.items ≡ some p) × (p.status ≡ approved)
unfolding approved_for_result
approved_for_result-ok q id p h = ground arith
