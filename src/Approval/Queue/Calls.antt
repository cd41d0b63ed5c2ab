-- ===== src/Approval/Queue/Calls.antt =====
-- internal/approval/queue.go: the calls that change the queue, and sequences of them.
use qi.Base.{ℕ, Text, false, List, [], ◌∷◌, ◌≡◌, ◌==◌, All}
use qi.Approval.Queue.{Queue, Host, enqueue_with_call_id, approve, deny}
use qi.Approval.Queue.Outcome.{Execution, record_result}

-- An identifier as newID makes it is not empty.
abbrev pub Named : List Text → Type 0
Named = All (λ d. (d == []) ≡ false)

-- One call of a method that changes the queue.
pub data Call : Type 0 where
  enqueueing : ℕ → List Text → Text → Text → Text → Text → Text → Call
  approving : ℕ → Text → Call
  denying : ℕ → Text → Text → Call
  recording : ℕ → Text → Execution → Call

module _ {A : Type 0} (host : Host A) where
  unfoldable pub step : Queue A → Call → Queue A
  step q (enqueueing now draws caller call_id tool params reason) =
      (enqueue_with_call_id host now draws caller call_id tool params reason q).0
  step q (approving now id) = (approve host now id q).0
  step q (denying now id reason) = (deny host now id reason q).0
  step q (recording now id x) = (record_result host now id x q).0

  unfoldable pub run : Queue A → List Call → Queue A
  unfolding step
  run q [] = q
  run q (c ∷ cs) = run (step q c) cs
