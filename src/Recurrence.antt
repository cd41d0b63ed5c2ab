-- ===== src/Recurrence.antt =====
-- internal/vault/recurrence.go: the next dates of a recurring task. An instant is a number of
-- nanoseconds from an origin before all dates. `trim` and `lower` are strings.TrimSpace and
-- strings.ToLower, `add_date` is Time.AddDate on years, months and days (the bits of its int
-- arguments), and `date_only` is the midnight that time.Date gives for the day of an instant in the
-- zone of the clock.
pub mod Written
pub mod Spacing
use qi.Base.{
  ℕ, ◌+◌, ◌-◌, ◌*◌, ◌%◌, ◌^◌, Text, codes, Bool, true, false, ◌&&◌, ◌||◌, ◌==◌, nat_eq, ltb, leb,
  Option, none, some, [], ◌∷◌, if◌then◌else◌,
}
use qi.Intake.{is_digit}

pub data Period : Type 0 where
  day week month year : Period

pub record Rule : Type 0 where
  pub count : ℕ
  pub period : Period
  pub when_done : Bool

-- \s
abbrev pub is_blank : ℕ → Bool
is_blank c = nat_eq c 9 || nat_eq c 10 || nat_eq c 12 || nat_eq c 13 || nat_eq c 32

unfoldable pub drop_word : Text → Text → Option Text
drop_word [] s = some s
drop_word (c ∷ w) [] = none
drop_word (c ∷ w) (d ∷ s) = let rest = drop_word w s in if nat_eq c d then rest else none

unfoldable pub skip_spaces : Text → Text
skip_spaces [] = []
skip_spaces (c ∷ s) = let rest = skip_spaces s in if is_blank c then rest else c ∷ s

-- \s+
unfoldable pub spaces : Text → Option Text
unfolding skip_spaces
spaces [] = none
spaces (c ∷ s) = if is_blank c then some (skip_spaces s) else none

unfoldable pub spaced_word : Text → Text → Option Text
unfolding spaces drop_word
spaced_word w s = elim (spaces s) [ none ↦ none | some t ↦ drop_word w t ]

unfoldable pub read_digits : ℕ → Text → ℕ × Text
read_digits n [] = (n, [])
read_digits n (c ∷ s) =
    let rest = read_digits (10 * n + (c - 48)) s in if is_digit c then rest else (n, c ∷ s)

abbrev pub spaces_after : ℕ × Text → Option (ℕ × Text)
spaces_after (n, s) = elim (spaces s) [ none ↦ none | some t ↦ some (n, t) ]

-- (?:(\d+)\s+)?, with 1 where it is left out.
unfoldable pub read_count : Text → Option (ℕ × Text)
unfolding read_digits spaces
read_count [] = some (1, [])
read_count (c ∷ s) = if is_digit c then spaces_after (read_digits 0 (c ∷ s)) else some (1, c ∷ s)

-- (day|week|month|year)
unfoldable pub read_period : Text → Option (Period × Text)
unfolding drop_word
read_period s = elim (drop_word (codes "day") s) [
  | some t ↦ some (day, t)
  | none ↦ elim (drop_word (codes "week") s) [
    | some t ↦ some (week, t)
    | none ↦ elim (drop_word (codes "month") s) [
      | some t ↦ some (month, t)
      | none ↦ elim (drop_word (codes "year") s) [ some t ↦ some (year, t) | none ↦ none ]
    ]
  ]
]

-- (\s+when\s+done)?$
unfoldable pub read_when_done : Text → Option Bool
unfolding spaced_word
read_when_done s = if s == [] then some false else elim (spaced_word (codes "when") s) [
  | none ↦ none
  | some t ↦ elim (spaced_word (codes "done") t) [
    | none ↦ none
    | some u ↦ if u == [] then some true else none
  ]
]

-- s?
unfoldable pub skip_plural : Text → Text
skip_plural [] = []
skip_plural (c ∷ s) = if nat_eq c 115 then s else c ∷ s

-- From the unit on, with the check on the count, which strconv.Atoi refuses from 2 ^ 63 on.
unfoldable pub finish_rule : ℕ → Text → Option Rule
unfolding read_period read_when_done skip_plural
finish_rule n s = elim (read_period s) [
  | none ↦ none
  | some (p, t) ↦ elim (read_when_done (skip_plural t)) [
    | none ↦ none
    | some b ↦
        if leb 1 n && ltb n (2 ^ 63)
        then some (record { count = n; period = p; when_done = b })
        else none
  ]
]

-- recurrenceRuleRe
unfoldable pub parse_rule : Text → Option Rule
unfolding drop_word spaces read_count finish_rule
parse_rule s = elim (drop_word (codes "every") s) [
  | none ↦ none
  | some t ↦ elim (spaces t) [
    | none ↦ none
    | some u ↦ elim (read_count u) [ none ↦ none | some (n, v) ↦ finish_rule n v ]
  ]
]

-- time.Duration, by its sign.
pub data Duration : Type 0 where
  forth back : ℕ → Duration

-- Time.Sub, which saturates.
unfoldable pub sub : ℕ → ℕ → Duration
sub a b =
    if ltb a b
    then back (if ltb (2 ^ 63) (b - a) then 2 ^ 63 else b - a)
    else forth (if ltb (2 ^ 63 - 1) (a - b) then 2 ^ 63 - 1 else a - b)

-- Time.Add
unfoldable pub shift : ℕ → Duration → ℕ
shift t (forth d) = t + d
shift t (back d) = t - d

pub record Recurred : Type 0 where
  pub due : Option ℕ
  pub scheduled : Option ℕ

abbrev pub shift_date : Option ℕ → Duration → Option ℕ
shift_date none d = none
shift_date (some t) d = some (shift t d)

module _ (trim lower : Text → Text) (add_date : ℕ → ℕ → ℕ → ℕ → ℕ) (date_only : ℕ → ℕ) where
  -- 7 * n wraps around.
  abbrev pub advance_by : Period → ℕ → ℕ → ℕ
  advance_by day n t = add_date 0 0 n t
  advance_by week n t = add_date 0 0 (7 * n % 2 ^ 64) t
  advance_by month n t = add_date 0 n 0 t
  advance_by year n t = add_date n 0 0 t

  -- newRef
  unfoldable pub next_reference : Rule → ℕ → ℕ → ℕ
  next_reference r reference completed_on =
      advance_by r.period r.count (if r.when_done then date_only completed_on else reference)

  abbrev pub reference_of : Option ℕ → Option ℕ → Option ℕ
  reference_of (some t) scheduled = some t
  reference_of none scheduled = scheduled

  unfoldable pub next_recurrence : Text → Option ℕ → Option ℕ → ℕ → Option Recurred
  unfolding next_reference sub shift
  next_recurrence rule due scheduled completed_on = elim (parse_rule (trim (lower rule))) [
    | none ↦ none
    | some r ↦ elim (reference_of due scheduled) [
      | none ↦ none
      | some reference ↦
          let delta : Duration = sub (next_reference r reference completed_on) reference in
          some (record { due = shift_date due delta; scheduled = shift_date scheduled delta })
    ]
  ]
