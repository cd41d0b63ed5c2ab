-- ===== src/Planner/Ident.antt =====
-- internal/ai/session_id.go: the identifier of a planner session. `decode_hex` and `encode_hex` are
-- encoding/hex on a text of 64 characters and on 32 bytes, written out.
pub mod Canonical
use qi.Base.{
  ℕ, ◌+◌, ◌-◌, ◌*◌, ◌/◌, ◌%◌, Text, ◌&&◌, not, ◌==◌, nat_eq, ltb, leb, Option, none, some, [], ◌∷◌,
  length, take, if◌then◌else◌,
}

abbrev pub session_id_bytes : ℕ
session_id_bytes = 32

unfoldable pub hex_digit : ℕ → ℕ
hex_digit n = if ltb n 10 then n + 48 else n + 87

unfoldable pub encode_hex : Text → Text
unfolding hex_digit
encode_hex [] = []
encode_hex (b ∷ s) = hex_digit (b / 16) ∷ hex_digit (b % 16) ∷ encode_hex s

-- The value of a digit, of either case.
unfoldable pub hex_value : ℕ → Option ℕ
hex_value c =
    if leb 48 c && leb c 57
    then some (c - 48)
    else if leb 97 c && leb c 102
    then some (c - 87)
    else if leb 65 c && leb c 70
    then some (c - 55)
    else none

unfoldable pub decode_hex : Text → Option Text
unfolding hex_value
decode_hex [] = some []
decode_hex (c ∷ []) = none
decode_hex (c ∷ d ∷ s) = elim (hex_value c) [
  | none ↦ none
  | some x ↦ elim (hex_value d) [
    | none ↦ none
    | some y ↦ elim (decode_hex s) [ none ↦ none | some bs ↦ some ((16 * x + y) ∷ bs) ]
  ]
]

unfoldable pub parse_session_id : Text → Option Text
unfolding decode_hex encode_hex
parse_session_id raw =
    if not (nat_eq (length raw) (2 * session_id_bytes)) then none else elim (decode_hex raw) [
      | none ↦ none
      | some bytes ↦ if encode_hex bytes == raw then some raw else none
    ]

-- `random` is what the reader has; io.ReadFull fails on less than 32 bytes.
unfoldable pub generate_session_id : Text → Option Text
unfolding encode_hex
generate_session_id random =
    if ltb (length random) session_id_bytes
    then none
    else some (encode_hex (take session_id_bytes random))
