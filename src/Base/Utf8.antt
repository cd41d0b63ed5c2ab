-- ===== src/Base/Utf8.antt =====
-- The UTF-8 tests of Go's standard library, on bytes: utf8.ValidString and strings.ToValidUTF8.
use Prim.Native.Nat.{ℕ, zero, suc}
use mathlib.Core.Path.{◌≡◌, refl, ap}
use mathlib.Core.Logic.{inl, inr}
use mathlib.Core.Bool.{Bool, true, false, ◌&&◌}
use mathlib.Core.Option.{Option, none, some}
use mathlib.Core.List.{List, [], ◌∷◌, ◌++◌}
use native.Mathlib.Omega.{arith}
use qi.Base.Tests.{Option-cases, leb, if◌then◌else◌, Bool-cases}
use qi.Base.Lists.{length}
use qi.Base.Strings.{Text}

abbrev Ranges : Type 0
Ranges = List (ℕ × ℕ)

within : ℕ → ℕ → ℕ → Bool
within lo hi b = leb lo b && leb b hi

tail_byte : ℕ × ℕ
tail_byte = (0x80, 0xBF)

-- The bytes that may follow a first byte; `none` for a byte that starts nothing.
lead : ℕ → Option Ranges
unfolding within tail_byte
lead b =
    if leb b 0x7F
    then some []
    else if within 0xC2 0xDF b
    then some (tail_byte ∷ [])
    else if within 0xE0 0xE0 b
    then some ((0xA0, 0xBF) ∷ tail_byte ∷ [])
    else if within 0xED 0xED b
    then some ((0x80, 0x9F) ∷ tail_byte ∷ [])
    else if within 0xE1 0xEF b
    then some (tail_byte ∷ tail_byte ∷ [])
    else if within 0xF0 0xF0 b
    then some ((0x90, 0xBF) ∷ tail_byte ∷ tail_byte ∷ [])
    else if within 0xF1 0xF3 b
    then some (tail_byte ∷ tail_byte ∷ tail_byte ∷ [])
    else if within 0xF4 0xF4 b
    then some ((0x80, 0x8F) ∷ tail_byte ∷ tail_byte ∷ [])
    else none

-- The bytes that are still due, then whole runes.
valid_from : Ranges → Text → Bool
unfolding lead within
valid_from [] [] = true
valid_from (r ∷ rs) [] = false
valid_from [] (b ∷ s) = elim (lead b) [ none ↦ false | some rs ↦ valid_from rs s ]
valid_from ((lo, hi) ∷ rs) (b ∷ s) = within lo hi b && valid_from rs s

-- utf8.ValidString
unfoldable pub valid_utf8 : Text → Bool
unfolding valid_from
valid_utf8 s = valid_from [] s

-- The text begins with the bytes that are due.
follows : Ranges → Text → Bool
unfolding within
follows [] s = true
follows (r ∷ rs) [] = false
follows ((lo, hi) ∷ rs) (b ∷ s) = within lo hi b && follows rs s

replacement : Text
replacement = 0xEF ∷ 0xBF ∷ 0xBD ∷ []

-- How many bytes belong to the rune after its first byte; `none` where no rune begins.
rune_tail : ℕ → Text → Option ℕ
unfolding lead follows
rune_tail b s = elim (lead b) [
  | none ↦ none
  | some rs ↦ if follows rs s then some (length rs) else none
]

-- The bytes of the rune that are still to be copied, and whether the last byte was invalid.
copy_valid : ℕ → Bool → Text → Text
unfolding replacement rune_tail
copy_valid k invalid [] = []
copy_valid (suc k) invalid (b ∷ s) = b ∷ copy_valid k false s
copy_valid zero invalid (b ∷ s) = elim (rune_tail b s) [
  | some k ↦ b ∷ copy_valid k false s
  | none ↦ let rest = copy_valid zero true s in if invalid then rest else replacement ++ rest
]

-- strings.ToValidUTF8(s, "�")
unfoldable pub to_valid_utf8 : Text → Text
unfolding copy_valid
to_valid_utf8 s = copy_valid zero false s

valid_from-replacement : (s : Text) → valid_from [] (replacement ++ s) ≡ valid_from [] s
unfolding valid_from replacement
valid_from-replacement s = refl

valid_from-copy_valid :
    (s : Text) (rs : Ranges) (invalid : Bool)
    → follows rs s ≡ true
    → valid_from rs (copy_valid (length rs) invalid s) ≡ true
unfolding valid_from copy_valid follows
valid_from-copy_valid [] [] invalid h = refl
valid_from-copy_valid [] (r ∷ rs) invalid h = h
valid_from-copy_valid (b ∷ s) ((lo, hi) ∷ rs) invalid h =
    ground (arith, valid_from-copy_valid s rs false)
valid_from-copy_valid (b ∷ s) [] invalid h = elim (Option-cases (lead b)) [
  | inl e ↦ rw (e, copy_valid) (stray (valid_from-copy_valid s [] true refl))
  | inr (rs, e) ↦ elim (Bool-cases (follows rs s)) [
    | inl f ↦ rw (e, f, copy_valid) (rw (e, valid_from) (valid_from-copy_valid s rs false f))
    | inr f ↦ rw (e, f, copy_valid) (stray (valid_from-copy_valid s [] true refl))
  ]
]
  where
    stray :
        valid_from [] (copy_valid zero true s) ≡ true
        → valid_from []
            (if invalid then copy_valid zero true s else replacement ++ copy_valid zero true s)
          ≡ true
    stray v = ground (arith, valid_from-replacement (copy_valid zero true s))

-- What ToValidUTF8 returns is valid.
pub to_valid_utf8-valid : (s : Text) → valid_utf8 (to_valid_utf8 s) ≡ true
unfolding valid_utf8 to_valid_utf8 follows
to_valid_utf8-valid s = valid_from-copy_valid s [] false refl

copy_valid_valid :
    (s : Text) (rs : Ranges) (invalid : Bool)
    → valid_from rs s ≡ true
    → (copy_valid (length rs) invalid s ≡ s) × (follows rs s ≡ true)
unfolding valid_from copy_valid follows
copy_valid_valid [] [] invalid h = (refl, refl)
copy_valid_valid [] (r ∷ rs) invalid h = cc
copy_valid_valid (b ∷ s) ((lo, hi) ∷ rs) invalid h =
    let ih = copy_valid_valid s rs false in ground (arith, ih)
copy_valid_valid (b ∷ s) [] invalid h = elim (Option-cases (lead b)) [
  | inl e ↦ ground arith
  | inr (rs, e) ↦
      let (same, fits) = copy_valid_valid s rs false (rw (e, valid_from) at h) in
      (rw (e, fits, copy_valid) (ap (λ r. b ∷ r) same), refl)
]

-- A valid text is left alone.
pub to_valid_utf8-eq : (s : Text) → valid_utf8 s ≡ true → to_valid_utf8 s ≡ s
unfolding valid_utf8 to_valid_utf8
to_valid_utf8-eq s h = (copy_valid_valid s [] false h).0
