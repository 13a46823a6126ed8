-- ===== src/Llm/Json.antt =====
-- `json_escape` and `parse_json_string` of src/llm.rs: the round trip, for every text.
use antenna.Base.{
  ℕ, zero, suc, ◌+◌, ◌*◌, ◌/◌, ◌%◌, ◌<◌, ◌≡◌, refl, ap, ◌∙◌, arith, true, false, [], ◌∷◌, ◌++◌,
  none, some, ltb, append_assoc, Bool-cases, inl, inr, ltb→lt, lt→ltb, ◌≤◌,
}
use antenna.Base.Numbers.{hex, pad, hex_digit}
use antenna.Base.Result.{ok}
use antenna.Base.Text.{Text}
use antenna.Llm.{
  quote, backslash, escape_char, escape_chars, json_escape, hex_value, hex_digits, code_point,
  pushed, push, plain, parse_loop, parse_json_string,
}

hex_one : (c : ℕ) → c < 16 → hex c ≡ hex_digit c ∷ []
unfolding hex
hex_one c h = rw (lt→ltb c 16 h) refl

hex_two : (c : ℕ) → 16 ≤ c → c < 256 → hex c ≡ hex_digit (c / 16) ∷ hex_digit (c % 16) ∷ []
unfolding hex
hex_two zero h k = absurd (omega arith)
hex_two (suc n) h k = rw (big, lt→ltb (suc n / 16) 16 (omega arith)) refl
  where
    big : ltb (suc n) 16 ≡ false
    big = ground arith

-- A control character has two digits that may differ from zero.
hex_control :
    (c : ℕ) → c < 0x20 → pad 4 (hex c) ≡ b'0' ∷ b'0' ∷ hex_digit (c / 16) ∷ hex_digit (c % 16) ∷ []
hex_control c h = elim (Bool-cases (ltb c 16)) [
  | inl e ↦ rw (hex_one c (ltb→lt c 16 e), quotient e, remainder e) refl
  | inr e ↦ rw (hex_two c (ground (arith, e)) (omega arith)) refl
]
  where
    quotient : ltb c 16 ≡ true → c / 16 ≡ 0
    quotient e = omega (arith, ltb→lt c 16 e)

    remainder : ltb c 16 ≡ true → c % 16 ≡ c
    remainder e = omega (arith, ltb→lt c 16 e)

pub hex_value-hex_digit : (d : ℕ) → d < 16 → hex_value (hex_digit d) ≡ some d
unfolding hex_value
hex_value-hex_digit d h = ground arith

hex_value_zero : hex_value b'0' ≡ some 0
unfolding hex_value
hex_value_zero = refl

pub hex_digits-cons :
    (n c d : ℕ) (s : Text) → hex_value c ≡ some d → hex_digits n (c ∷ s) ≡ hex_digits (n * 16 + d) s
hex_digits-cons n c d s e = ap (λ o. elim o [ none ↦ none | some v ↦ hex_digits (n * 16 + v) s ]) e

from_u32-control : (n : ℕ) → n < 0x20 → pushed (some n) ≡ n ∷ []
from_u32-control n h = ground arith

code_point-control :
    (c : ℕ)
    → c < 0x20
    → code_point (b'0' ∷ b'0' ∷ hex_digit (c / 16) ∷ hex_digit (c % 16) ∷ []) ≡ c ∷ []
code_point-control c h = ap pushed digits ∙ from_u32-control c h
  where
    digits : hex_digits 0 (b'0' ∷ b'0' ∷ hex_digit (c / 16) ∷ hex_digit (c % 16) ∷ []) ≡ some c
    digits =
        hex_digits-cons 0 b'0' 0 (b'0' ∷ hex_digit (c / 16) ∷ hex_digit (c % 16) ∷ [])
          hex_value_zero
        ∙ hex_digits-cons 0 b'0' 0 (hex_digit (c / 16) ∷ hex_digit (c % 16) ∷ []) hex_value_zero
        ∙ hex_digits-cons 0 (hex_digit (c / 16)) (c / 16) (hex_digit (c % 16) ∷ [])
            (hex_value-hex_digit (c / 16) (omega arith))
        ∙ hex_digits-cons (0 * 16 + c / 16) (hex_digit (c % 16)) (c % 16) []
            (hex_value-hex_digit (c % 16) (omega arith))
        ∙ ap some (omega arith)

parse_loop-control :
    (c : ℕ) (s : Text)
    → c < 0x20
    → parse_loop plain (backslash ∷ b'u' ∷ (pad 4 (hex c) ++ s))
      ≡ push (c ∷ []) (parse_loop plain s)
unfolding parse_loop
parse_loop-control c s h =
    ap (λ t. parse_loop plain (backslash ∷ b'u' ∷ (t ++ s))) (hex_control c h)
    ∙ ap (λ t. push t (parse_loop plain s)) (code_point-control c h)

parse_loop-escape_char :
    (c : ℕ) (s : Text) → parse_loop plain (escape_char c ++ s) ≡ push (c ∷ []) (parse_loop plain s)
unfolding parse_loop escape_char
parse_loop-escape_char c s = ground (arith, parse_loop-control c s)

parse_loop-escape_chars : (s rest : Text) → parse_loop plain (escape_chars s ++ quote ∷ rest) ≡ ok s
unfolding parse_loop escape_chars
parse_loop-escape_chars [] rest = refl
parse_loop-escape_chars (c ∷ s) rest =
    ap (parse_loop plain) (append_assoc (escape_char c) (escape_chars s) (quote ∷ rest))
    ∙ parse_loop-escape_char c (escape_chars s ++ quote ∷ rest)
    ∙ ap (push (c ∷ [])) (parse_loop-escape_chars s rest)

-- A text written as a JSON string is read back as it is, whatever its characters, and whatever stands
-- behind the string.
pub parse_json_string-json_escape :
    (s rest : Text) → parse_json_string (json_escape s ++ rest) ≡ ok s
unfolding parse_json_string json_escape
parse_json_string-json_escape s rest =
    ap (parse_loop plain) (append_assoc (escape_chars s) (quote ∷ []) rest)
    ∙ parse_loop-escape_chars s rest
