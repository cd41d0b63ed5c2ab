-- ===== src/Planner/Ident/Canonical.antt =====
-- The identifiers that are drawn are those that are parsed.
use qi.Base.{
  ℕ, zero, suc, ◌+◌, ◌*◌, ◌/◌, ◌%◌, ◌≤◌, ◌<◌, ◌≡◌, refl, ap, ◌∙◌, arith, Text, true, eq_refl,
  nat_eq, some, [], ◌∷◌, length, take, All,
}
use qi.Planner.Ident.{
  session_id_bytes, hex_digit, hex_value, encode_hex, decode_hex, parse_session_id,
  generate_session_id,
}

abbrev pub IsByte : ℕ → Type 0
IsByte b = b < 256

hex_value-hex_digit : (n : ℕ) → n < 16 → hex_value (hex_digit n) ≡ some n
unfolding hex_value hex_digit
hex_value-hex_digit n h = ground arith

decode_hex_pair :
    (c d x y : ℕ) (s bs : Text)
    → hex_value c ≡ some x
    → hex_value d ≡ some y
    → decode_hex s ≡ some bs
    → decode_hex (c ∷ d ∷ s) ≡ some ((16 * x + y) ∷ bs)
unfolding decode_hex
decode_hex_pair c d x y s bs h k rest = ground arith

decode_hex-encode_hex : (s : Text) → All IsByte s → decode_hex (encode_hex s) ≡ some s
unfolding decode_hex encode_hex
decode_hex-encode_hex [] h = refl
decode_hex-encode_hex (b ∷ s) (h, all) =
    let whole : (16 * (b / 16) + b % 16 ≡ b) = omega arith in
    decode_hex_pair (hex_digit (b / 16)) (hex_digit (b % 16)) (b / 16) (b % 16) (encode_hex s) s
      (hex_value-hex_digit (b / 16) (omega arith)) (hex_value-hex_digit (b % 16) (omega arith))
      (decode_hex-encode_hex s all)
    ∙ ap (λ c. some (c ∷ s)) whole

length-encode_hex : (s : Text) → length (encode_hex s) ≡ 2 * length s
unfolding encode_hex
length-encode_hex [] = omega arith
length-encode_hex (b ∷ s) = omega (arith, length-encode_hex s)

length-take_eq : (n : ℕ) (s : Text) → n ≤ length s → length (take n s) ≡ n
length-take_eq zero s h = refl
length-take_eq (suc n) [] h = ground arith
length-take_eq (suc n) (b ∷ s) h = omega (arith, length-take_eq n s (omega arith))

take-All : (n : ℕ) (s : Text) → All IsByte s → All IsByte (take n s)
take-All zero s h = tt
take-All (suc n) [] h = tt
take-All (suc n) (b ∷ s) (h, all) = (h, take-All n s all)

parse-encode_hex :
    (s : Text)
    → All IsByte s
    → length s ≡ session_id_bytes
    → parse_session_id (encode_hex s) ≡ some (encode_hex s)
unfolding parse_session_id
parse-encode_hex s all whole =
    let size : (nat_eq (length (encode_hex s)) (2 * session_id_bytes) ≡ true) =
      ground (arith, length-encode_hex s) in
    rw (size, decode_hex-encode_hex s all, eq_refl (encode_hex s)) refl

-- From 32 random bytes on, an identifier is generated, and ParseSessionID accepts it as it is.
pub parse-generate_session_id :
    (random : Text)
    → All IsByte random
    → session_id_bytes ≤ length random
    → (id : Text) × (generate_session_id random ≡ some id) × (parse_session_id id ≡ some id)
unfolding generate_session_id
parse-generate_session_id random all enough = (
  encode_hex (take session_id_bytes random),
  ground arith,
  parse-encode_hex (take session_id_bytes random) (take-All session_id_bytes random all)
      (length-take_eq session_id_bytes random enough),
)
