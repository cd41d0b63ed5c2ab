-- ===== src/Approval/Audit/Reading/Window.antt =====
-- The bytes at the end of the audit log that OpenAudit looks at.
use mathlib.Core.List.{append_assoc, append-nil}
use qi.Base.{
  sym, ap, ◌∙◌, refl, ◌≡◌, ℕ, zero, suc, ◌+◌, ◌-◌, ◌≤◌, ltb, nat_eq, if◌then◌else◌, Text, true,
  false, [], ◌∷◌, ◌++◌, length, length-append, take, drop, has_byte, Bool-cases, inl, inr, arith,
}
use qi.Approval.{max_audit_record_bytes}
use qi.Approval.Audit.Reading.{ends_line, tail_of, window}

pub ends_line_plain : (l : Text) → has_byte 10 l ≡ false → ends_line l ≡ false
unfolding ends_line has_byte
ends_line_plain [] h = refl
ends_line_plain (c ∷ []) h = ground arith
ends_line_plain (c ∷ d ∷ l) h = ends_line_plain (d ∷ l) (ground arith)

pub ends_line_skip :
    (v : Text) (c d : ℕ) (l : Text) → ends_line (v ++ c ∷ d ∷ l) ≡ ends_line (d ∷ l)
unfolding ends_line
ends_line_skip [] c d l = refl
ends_line_skip (x ∷ []) c d l = refl
ends_line_skip (x ∷ y ∷ v) c d l = ends_line_skip (y ∷ v) c d l

pub ends_line_ended : (v : Text) → ends_line (v ++ 10 ∷ []) ≡ true
unfolding ends_line
ends_line_ended [] = ground arith
ends_line_ended (x ∷ []) = ground arith
ends_line_ended (x ∷ y ∷ v) = ends_line_ended (y ∷ v)

pub tail_of_plain : (line l : Text) → has_byte 10 l ≡ false → tail_of line l ≡ line ++ l
unfolding tail_of has_byte
tail_of_plain line [] h = sym (append-nil line)
tail_of_plain line (c ∷ l) h =
    let other : (nat_eq c 10 ≡ false) = ground arith in
    rw other (tail_of_plain (line ++ c ∷ []) l (ground arith) ∙ append_assoc line (c ∷ []) l)

pub tail_of_newline : (v line l : Text) → tail_of line (v ++ 10 ∷ l) ≡ tail_of [] l
unfolding tail_of
tail_of_newline [] line l = refl
tail_of_newline (c ∷ v) line l = tail_of_newline v (if nat_eq c 10 then [] else line ++ c ∷ []) l

pub drop_front : (n : ℕ) (v l : Text) → n ≤ length v → drop n (v ++ l) ≡ drop n v ++ l
drop_front zero v l h = refl
drop_front (suc n) [] l h = ground arith
drop_front (suc n) (c ∷ v) l h = drop_front n v l (omega arith)

take_front : (v l : Text) → take (length v) (v ++ l) ≡ v
take_front [] l = refl
take_front (c ∷ v) l = ap (λ t. c ∷ t) (take_front v l)

pub take_but : (v l : Text) → take (length (v ++ l) - length l) (v ++ l) ≡ v
take_but v l =
    let n : (length (v ++ l) - length l ≡ length v) = omega (arith, length-append v l) in
    rw n (take_front v l)

-- The window holds the whole of a short last line, with the newline before it.
pub window_newline :
    (v line : Text)
    → length line ≤ max_audit_record_bytes
    → (u : Text) × (window (v ++ 10 ∷ line) ≡ u ++ 10 ∷ line)
window_newline v line short =
    elim (Bool-cases (ltb (max_audit_record_bytes + 1) (length (v ++ 10 ∷ line)))) [
      | inl long ↦
          let n : ℕ = length (v ++ 10 ∷ line) - (max_audit_record_bytes + 1) in
          (
            drop n v,
            rw long (drop_front n v (10 ∷ line) (omega (arith, length-append v (10 ∷ line)))),
          )
      | inr small ↦ (v, rw small refl)
    ]

pub window_short : (line : Text) → length line ≤ max_audit_record_bytes → window line ≡ line
window_short line short = ground arith
