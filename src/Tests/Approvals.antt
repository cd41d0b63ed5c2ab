-- ===== src/Tests/Approvals.antt =====
-- A queue over a log in memory that accepts every entry.
use qi.Base.{
  List, [], ◌∷◌, ◌++◌, codes, ◌==◌, none, some, ◌≡◌, refl, true, lookup, length, ◌≤◌, valid_utf8,
}
use qi.Approval.{AuditEntry, Pending, pending, executed, max_terminal_text_bytes}
use qi.Approval.Limits.{bounded_terminal_text, bounded_terminal_text_bounds}
use qi.Approval.Queue.{Queue, Host}
use qi.Approval.Queue.Outcome.{success}
use qi.Approval.Queue.Calls.{Call, enqueueing, approving, recording, run, step}
use qi.Approval.Queue.Changes.{Change}
use qi.Approval.Queue.Transitions.{step-Change, run_settled}

abbrev pub Log : Type 0
Log = List AuditEntry

abbrev pub memory : Host Log
memory = record { append = λ log e. (log ++ e ∷ [], none); params_hash = λ p. 104 ∷ p }

abbrev pub entry : Pending
entry = record {
  id = codes "a";
  caller = codes "voice";
  call_id = [];
  tool_name = codes "task.add";
  params = codes "1";
  status = pending;
  reason = codes "confirm";
  created_at = 1;
  decided_at = none;
  executed_at = none;
  result = [];
  error = [];
}

abbrev pub waiting : Queue Log
waiting = record { items = (codes "a", entry) ∷ []; history = []; audit = some [] }

abbrev pub done : Pending
done = record entry { status = executed; decided_at = some 2; executed_at = some 3 }

abbrev finished : Queue Log
finished = record { items = (codes "a", done) ∷ []; history = []; audit = some [] }

abbrev pub calls : List Call
calls =
    enqueueing 1 (codes "b" ∷ []) (codes "voice") [] (codes "task.add") (codes "1") (codes "why")
    ∷ approving 2 (codes "b")
    ∷ recording 3 (codes "b") (success (codes "2"))
    ∷ []

step-Change_example :
    Change
      (lookup (codes "a") waiting.items)
      (lookup (codes "a") (step memory waiting (approving 2 (codes "a"))).items)
step-Change_example = step-Change memory waiting (approving 2 (codes "a")) (codes "a")

pub waiting-there : lookup (codes "a") waiting.items ≡ some entry
unfolding lookup ◌==◌
waiting-there = refl

finished-there : lookup (codes "a") finished.items ≡ some done
unfolding lookup ◌==◌
finished-there = refl

run_settled_example : lookup (codes "a") (run memory finished calls).items ≡ some done
run_settled_example = run_settled memory finished calls (codes "a") done finished-there refl

bounded_terminal_text_bounds_example :
    (valid_utf8 (bounded_terminal_text (104 ∷ 255 ∷ [])) ≡ true)
    × (length (bounded_terminal_text (104 ∷ 255 ∷ [])) ≤ max_terminal_text_bytes)
bounded_terminal_text_bounds_example = bounded_terminal_text_bounds (104 ∷ 255 ∷ [])
