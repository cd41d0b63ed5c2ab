-- ===== src/Approval/Limits.antt =====
-- internal/approval/queue.go: the checks on caller-supplied text, and the cut of a tool's error.
use qi.Base.{
  to_valid_utf8-eq, to_valid_utf8-valid, length-take_le, ℕ, zero, suc, ◌≤◌, Text, true, [], ◌≡◌,
  refl, arith, ltb, if◌then◌else◌, length, take, valid_utf8, to_valid_utf8, Result, ok, err,
}
use qi.Approval.{QueueError, invalid_text, text_too_long, max_terminal_text_bytes}

unfoldable pub validate_text : Text → Text → ℕ → Result QueueError (Unit {0})
validate_text name value limit =
    if valid_utf8 value
    then (if ltb limit (length value) then err (text_too_long name) else ok tt)
    else err (invalid_text name)

-- `for !utf8.ValidString(value) { value = value[:len(value)-1] }` from value[:n]
unfoldable pub longest_valid : ℕ → Text → Text
longest_valid zero value = []
longest_valid (suc n) value =
    let shorter = longest_valid n value in
    if valid_utf8 (take (suc n) value) then take (suc n) value else shorter

unfoldable pub cut_text : ℕ → Text → Text
unfolding longest_valid
cut_text limit value = if ltb limit (length value) then longest_valid limit value else value

unfoldable pub bounded_terminal_text : Text → Text
bounded_terminal_text value = cut_text max_terminal_text_bytes (to_valid_utf8 value)

longest_valid_bounds :
    (n : ℕ) (value : Text)
    → (valid_utf8 (longest_valid n value) ≡ true) × (length (longest_valid n value) ≤ n)
unfolding longest_valid valid_utf8
longest_valid_bounds zero value = (refl, omega arith)
longest_valid_bounds (suc n) value =
    ground (arith, longest_valid_bounds n value, length-take_le (suc n) value)

cut_text_bounds :
    (limit : ℕ) (value : Text)
    → valid_utf8 value ≡ true
    → (valid_utf8 (cut_text limit value) ≡ true) × (length (cut_text limit value) ≤ limit)
unfolding cut_text
cut_text_bounds limit value v = ground (arith, longest_valid_bounds limit value)

cut_text-eq : (limit : ℕ) (value : Text) → length value ≤ limit → cut_text limit value ≡ value
unfolding cut_text
cut_text-eq limit value h = ground arith

-- Whatever error a tool returned, the text that is recorded is valid UTF-8 of at most
-- `MaxTerminalTextBytes` bytes.
pub bounded_terminal_text_bounds :
    (value : Text)
    → (valid_utf8 (bounded_terminal_text value) ≡ true)
      × (length (bounded_terminal_text value) ≤ max_terminal_text_bytes)
unfolding bounded_terminal_text
bounded_terminal_text_bounds value =
    cut_text_bounds max_terminal_text_bytes (to_valid_utf8 value) (to_valid_utf8-valid value)

-- A valid text within the limit is recorded as it is.
pub bounded_terminal_text-eq :
    (value : Text)
    → valid_utf8 value ≡ true
    → length value ≤ max_terminal_text_bytes
    → bounded_terminal_text value ≡ value
unfolding bounded_terminal_text
bounded_terminal_text-eq value v short = rw (to_valid_utf8-eq value v) (cut_text-eq _ value short)
