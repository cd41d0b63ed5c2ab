-- ===== src/Tests/Budgets.antt =====
-- A log with room reserved for the result of one approved call.
use qi.Base.{
  ℕ, zero, suc, ◌+◌, ◌≤◌, List, [], ◌∷◌, Text, codes, ◌==◌, none, some, ◌≡◌, refl, true, lookup,
  arith, length,
}
use qi.Approval.{
  enqueued, approval, execution, max_audit_record_bytes, max_audit_log_bytes, log_too_long,
}
use qi.Approval.Audit.{Audit, Disk, append, append_line, check_capacity, reservation, is_terminal}
use qi.Approval.Audit.Capacity.{IsBudgeted, append_bounded, terminal_short}
use qi.Approval.Audit.Reserved.{
  Line, append_all, AllAccepted, append_line-IsBudgeted, reserved_until_settled,
}

zeros : ℕ → Text
zeros zero = []
zeros (suc n) = 48 ∷ zeros n

length-zeros : (n : ℕ) → length (zeros n) ≡ n
unfolding zeros
length-zeros zero = refl
length-zeros (suc n) = omega (arith, length-zeros n)

abbrev disk : Disk
disk = record { now = 1; inspected = true; written = 100; wrote = true; synced = true }

abbrev empty_log : Audit
empty_log = record {
  is_open = true;
  file = [];
  reserved = [];
  reserved_bytes = 0;
  record_count = 0;
}

abbrev with_file : Text → Audit
with_file file = record {
  is_open = true;
  file = file;
  reserved = (codes "a", max_audit_record_bytes) ∷ [];
  reserved_bytes = max_audit_record_bytes;
  record_count = 1;
}

empty_log-IsBudgeted : IsBudgeted empty_log
unfolding lookup
empty_log-IsBudgeted = record {
  unique = tt;
  full = λ id n h. cc;
  total = refl;
  bytes_fit = omega arith;
  entries_fit = omega arith;
}

with_file-IsBudgeted :
    (file : Text)
    → length file + max_audit_record_bytes ≤ max_audit_log_bytes
    → IsBudgeted (with_file file)
unfolding lookup
with_file-IsBudgeted file h = record {
  unique = (refl, tt);
  full = λ id n e. ground arith;
  total = refl;
  bytes_fit = h;
  entries_fit = omega arith;
}

held : (file : Text) → lookup (codes "a") (with_file file).reserved ≡ some max_audit_record_bytes
unfolding lookup ◌==◌
held file = refl

abbrev lines : List Line
lines =
    record { disk = disk; event = enqueued; id = codes "b"; bytes = codes "{}" }
    ∷ record { disk = disk; event = approval; id = codes "b"; bytes = codes "{}" }
    ∷ []

lines_accepted : AllAccepted (codes "a") lines (with_file (codes "{}"))
unfolding append_line check_capacity lookup ◌==◌
lines_accepted = ground arith

is_terminal-execution : is_terminal execution ≡ true
unfolding is_terminal
is_terminal-execution = refl

reserved_until_settled_example :
    check_capacity
      (append_all lines (with_file (codes "{}")))
      execution
      (reservation (append_all lines (with_file (codes "{}"))) (codes "a"))
      (codes "{result}")
    ≡ none
reserved_until_settled_example =
    reserved_until_settled lines (with_file (codes "{}")) (codes "a") execution (codes "{result}")
      (with_file-IsBudgeted (codes "{}") (omega arith)) (held (codes "{}")) lines_accepted
      is_terminal-execution (omega arith)

append_bounded_example :
    length
      (append
        (λ e. some (codes "{}"))
        disk
        (record {
          time = 1;
          event = enqueued;
          id = codes "a";
          caller = codes "voice";
          call_id = [];
          tool = codes "task.add";
          reason = [];
          error = [];
          params = [];
          params_hash = [];
          outcome = none;
        })
        empty_log).0.file
    ≤ max_audit_log_bytes
append_bounded_example =
    append_bounded (λ e. some (codes "{}")) disk
      (record {
        time = 1;
        event = enqueued;
        id = codes "a";
        caller = codes "voice";
        call_id = [];
        tool = codes "task.add";
        reason = [];
        error = [];
        params = [];
        params_hash = [];
        outcome = none;
      })
      empty_log (omega arith)

approval_accepted : (append_line disk approval (codes "a") (codes "{}") empty_log).1 ≡ none
unfolding append_line check_capacity lookup ◌==◌
approval_accepted = refl

append_line-IsBudgeted_example :
    IsBudgeted (append_line disk approval (codes "a") (codes "{}") empty_log).0
append_line-IsBudgeted_example =
    append_line-IsBudgeted disk approval (codes "a") (codes "{}") empty_log empty_log-IsBudgeted
      approval_accepted

abbrev rest : ℕ
rest = 62390272

full_log_fits : length (zeros rest) + max_audit_record_bytes ≤ max_audit_log_bytes
full_log_fits = omega (arith, length-zeros rest)

terminal_short_example :
    check_capacity
      (with_file (zeros rest))
      execution
      (reservation (with_file (zeros rest)) (codes "a"))
      (zeros 4718593)
    ≡ some log_too_long
terminal_short_example =
    terminal_short (with_file (zeros rest)) execution (codes "a") (zeros 4718593)
      max_audit_record_bytes (with_file-IsBudgeted (zeros rest) full_log_fits) is_terminal-execution
      (held (zeros rest)) (length-zeros 4718593) (omega (arith, length-zeros rest))
