-- ===== src/Tests/Recurring.antt =====
-- Recurring tasks; a day is 10 nanoseconds here, and the clock stands 2 east of UTC.
use qi.Base.{false, ◌≡◌, refl, ℕ, ◌+◌, ◌-◌, ◌*◌, ◌/◌, Text, codes, none, some, ◌==◌}
use qi.Recurrence.{Rule, week, parse_rule, next_recurrence}

abbrev same : Text → Text
same s = s

abbrev add_days : ℕ → ℕ → ℕ → ℕ → ℕ
add_days years months days t = t + 10 * days

abbrev local_midnight : ℕ → ℕ
local_midnight t = 10 * ((t + 2) / 10) - 2

abbrev each_other_week : Rule
each_other_week = record { count = 2; period = week; when_done = false }

rule_parsed : parse_rule (codes "every 2 weeks") ≡ some each_other_week
unfolding parse_rule ◌==◌
rule_parsed = refl

rule_refused : parse_rule (codes "every weekday") ≡ none
unfolding parse_rule ◌==◌
rule_refused = refl

-- Completed on day 7, a task that is due every day when done is next due late on day 7.
early_by_a_day :
    next_recurrence same same add_days local_midnight
      (codes "every day when done")
      (some 50)
      none
      72
    ≡ some (record { due = some 78; scheduled = none })
unfolding next_recurrence parse_rule ◌==◌
early_by_a_day = refl
