-- ===== src/Recurrence/Written.antt =====
-- The rules as they are written, and what the parser makes of them.
use qi.Base.{
  ◌≡◌, refl, ap, ◌∙◌, ℕ, ◌+◌, ◌-◌, ◌*◌, ◌^◌, arith, Text, codes, Bool, true, false, ◌&&◌, ltb, leb,
  Option, none, some, [], ◌∷◌, ◌++◌, ◌==◌, if◌then◌else◌,
}
use qi.Intake.{is_digit, all_digits}
use qi.Recurrence.{
  spaces_after, Period, day, week, month, year, Rule, parse_rule, finish_rule, skip_spaces, spaces,
  read_digits, read_count,
}

abbrev pub word : Period → Text
word day = codes "day"
word week = codes "week"
word month = codes "month"
word year = codes "year"

-- From the unit on.
abbrev pub unit_text : Period → Bool → Bool → Text
unit_text p plural when_done =
    word p ++ ((if plural then codes "s" else []) ++ (if when_done then codes " when done" else []))

-- `every 12 weeks when done`, with the number as its digits.
abbrev pub rule_text : Text → Period → Bool → Bool → Text
rule_text digits p plural when_done =
    codes "every " ++ (digits ++ 32 ∷ unit_text p plural when_done)

-- The number of a text of digits, behind those of before.
unfoldable pub decimal : ℕ → Text → ℕ
decimal n [] = n
decimal n (c ∷ s) = decimal (10 * n + (c - 48)) s

read_digits-append :
    (n : ℕ) (digits rest : Text)
    → all_digits digits ≡ true
    → read_digits n (digits ++ 32 ∷ rest) ≡ (decimal n digits, 32 ∷ rest)
unfolding read_digits decimal all_digits
read_digits-append n [] rest h = refl
read_digits-append n (c ∷ digits) rest h =
    ground (arith, read_digits-append (10 * n + (c - 48)) digits rest)

skip_spaces-unit_text :
    (p : Period) (plural when_done : Bool)
    → skip_spaces (unit_text p plural when_done) ≡ unit_text p plural when_done
unfolding skip_spaces
skip_spaces-unit_text day plural b = refl
skip_spaces-unit_text week plural b = refl
skip_spaces-unit_text month plural b = refl
skip_spaces-unit_text year plural b = refl

abbrev checked : ℕ → Period → Bool → Option Rule
checked n p b =
    if leb 1 n && ltb n (2 ^ 63)
    then some (record { count = n; period = p; when_done = b })
    else none

finish_rule-unit_text :
    (n : ℕ) (p : Period) (plural b : Bool) → finish_rule n (unit_text p plural b) ≡ checked n p b
unfolding finish_rule ◌==◌
finish_rule-unit_text n day true true = refl
finish_rule-unit_text n day true false = refl
finish_rule-unit_text n day false true = refl
finish_rule-unit_text n day false false = refl
finish_rule-unit_text n week true true = refl
finish_rule-unit_text n week true false = refl
finish_rule-unit_text n week false true = refl
finish_rule-unit_text n week false false = refl
finish_rule-unit_text n month true true = refl
finish_rule-unit_text n month true false = refl
finish_rule-unit_text n month false true = refl
finish_rule-unit_text n month false false = refl
finish_rule-unit_text n year true true = refl
finish_rule-unit_text n year true false = refl
finish_rule-unit_text n year false true = refl
finish_rule-unit_text n year false false = refl

read_count-digit :
    (c : ℕ) (s : Text)
    → is_digit c ≡ true
    → read_count (c ∷ s) ≡ spaces_after (read_digits 0 (c ∷ s))
unfolding read_count
read_count-digit c s h = ground arith

spaces_after-unit_text :
    (n : ℕ) (p : Period) (plural b : Bool)
    → spaces_after (n, 32 ∷ unit_text p plural b) ≡ some (n, unit_text p plural b)
unfolding spaces
spaces_after-unit_text n p plural b = ap (λ t. some (n, t)) (skip_spaces-unit_text p plural b)

read_count-digits :
    (c : ℕ) (digits : Text) (p : Period) (plural b : Bool)
    → all_digits (c ∷ digits) ≡ true
    → read_count ((c ∷ digits) ++ 32 ∷ unit_text p plural b)
      ≡ some (decimal 0 (c ∷ digits), unit_text p plural b)
unfolding all_digits
read_count-digits c digits p plural b h =
    read_count-digit c (digits ++ 32 ∷ unit_text p plural b) (ground arith)
    ∙ (ap spaces_after (read_digits-append 0 (c ∷ digits) (unit_text p plural b) h)
        ∙ spaces_after-unit_text (decimal 0 (c ∷ digits)) p plural b)

skip_spaces-digit : (c : ℕ) (s : Text) → is_digit c ≡ true → skip_spaces (c ∷ s) ≡ c ∷ s
unfolding skip_spaces
skip_spaces-digit c s h = ground arith

abbrev counted : Option (ℕ × Text) → Option Rule
counted none = none
counted (some (n, v)) = finish_rule n v

parse_rule-spaced :
    (s u : Text) → skip_spaces s ≡ u → parse_rule (codes "every " ++ s) ≡ counted (read_count u)
unfolding parse_rule
parse_rule-spaced s u h = ap (λ v. counted (read_count v)) h

-- A rule with a number that is written out is parsed to its number, unit and mode.
pub parse_rule-rule_text :
    (c : ℕ) (digits : Text) (p : Period) (plural b : Bool)
    → all_digits (c ∷ digits) ≡ true
    → parse_rule (rule_text (c ∷ digits) p plural b) ≡ checked (decimal 0 (c ∷ digits)) p b
unfolding all_digits
parse_rule-rule_text c digits p plural b h =
    let s : Text = (c ∷ digits) ++ 32 ∷ unit_text p plural b in
    parse_rule-spaced s s (skip_spaces-digit c (digits ++ 32 ∷ unit_text p plural b) (ground arith))
    ∙ (rw (read_count-digits c digits p plural b h)
        (finish_rule-unit_text (decimal 0 (c ∷ digits)) p plural b))
