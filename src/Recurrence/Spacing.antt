-- ===== src/Recurrence/Spacing.antt =====
-- The next dates of a recurring task, without the durations.
use qi.Base.{if◌then◌else◌, Bool, ◌*◌, ◌%◌, ◌≡◌, ℕ, ◌+◌, ◌-◌, ◌^◌, ◌≤◌, arith, Text}
use qi.Recurrence.{Period, day, week, month, year, sub, shift}

-- Shifting by a difference that does not saturate.
pub shift-sub :
    (t a b : ℕ) → a ≤ b + (2 ^ 63 - 1) → b ≤ a + 2 ^ 63 → b ≤ t + a → shift t (sub a b) ≡ t + a - b
unfolding shift sub
shift-sub t a b h k l = ground arith

module _ (trim lower : Text → Text) (add_date : ℕ → ℕ → ℕ → ℕ → ℕ) (date_only : ℕ → ℕ) where
  -- By how many years, months and days a rule of a unit moves a date.
  abbrev pub step_of : Period → ℕ → ℕ × ℕ × ℕ
  step_of day n = (0, 0, n)
  step_of week n = (0, 0, 7 * n % 2 ^ 64)
  step_of month n = (0, n, 0)
  step_of year n = (n, 0, 0)

  -- The date that such a rule gives: counted from the day of the completion, or from the due date.
  abbrev pub target : Period → Bool → ℕ → ℕ → ℕ → ℕ
  target p when_done n due completed_on =
      let (years, months, days) = step_of p n in
      add_date years months days (if when_done then date_only completed_on else due)
