-- ===== src/Base/Utf8.antt =====
-- UTF-8: `str::as_bytes`, `str::from_utf8` and `String::from_utf8_lossy` of Rust's standard library.
use Prim.Native.Nat.{ℕ, zero, suc, ◌+◌, ◌*◌, ◌/◌, ◌%◌, ◌≤◌, ◌<◌}
use mathlib.Core.Path.{◌≡◌, refl, ap}
use mathlib.Core.Logic.{◌⊎◌}
use mathlib.Core.Bool.{Bool, ◌&&◌}
use mathlib.Core.Option.{Option, none, some}
use mathlib.Core.List.{List, [], ◌∷◌, ◌++◌}
use native.Mathlib.Omega.{arith}
use antenna.Base.Tests.{ltb, leb, ◌==◌, if◌then◌else◌}
use antenna.Base.Lists.{length, length-append}
use antenna.Base.Text.{Text}

-- A `char`: a code point that is no surrogate.
abbrev pub IsScalar : ℕ → Type 0
IsScalar c = (c < 0xd800) ⊎ ((0xe000 ≤ c) × (c < 0x110000))

abbrev pub AllScalar : Text → Type 0
AllScalar [] = Unit
AllScalar (c ∷ s) = IsScalar c × AllScalar s

unfoldable pub encode_char : ℕ → List ℕ
encode_char c =
    if ltb c 0x80
    then c ∷ []
    else if ltb c 0x800
    then (0xc0 + c / 64) ∷ (0x80 + c % 64) ∷ []
    else if ltb c 0x10000
    then (0xe0 + c / 4096) ∷ (0x80 + c / 64 % 64) ∷ (0x80 + c % 64) ∷ []
    else (0xf0 + c / 262144) ∷ (0x80 + c / 4096 % 64) ∷ (0x80 + c / 64 % 64) ∷ (0x80 + c % 64) ∷ []

-- `s.as_bytes()`
unfoldable pub as_bytes : Text → List ℕ
as_bytes [] = []
as_bytes (c ∷ s) = encode_char c ++ as_bytes s

is_cont : ℕ → Bool
is_cont b = leb 0x80 b && leb b 0xbf

-- What the front of a byte string holds: a character, or a maximal part of no character, and what
-- stands behind it.
pub data Step : Type 0 where
  char : ℕ → List ℕ → Step
  bad : List ℕ → Step

-- The last byte of a character whose earlier bytes stand for `high`.
last_byte : ℕ → List ℕ → Step
unfolding is_cont
last_byte high [] = bad []
last_byte high (b ∷ r) = if is_cont b then char (high * 64 + b % 64) r else bad (b ∷ r)

third_byte : ℕ → List ℕ → Step
unfolding is_cont last_byte
third_byte high [] = bad []
third_byte high (b ∷ r) = if is_cont b then last_byte (high * 64 + b % 64) r else bad (b ∷ r)

-- The second byte of three: it rules out long forms and surrogates.
second_of_three : ℕ → List ℕ → Step
unfolding last_byte
second_of_three b0 [] = bad []
second_of_three b0 (b ∷ r) =
    if leb (if b0 == 0xe0 then 0xa0 else 0x80) b && leb b (if b0 == 0xed then 0x9f else 0xbf)
    then last_byte (b0 % 16 * 64 + b % 64) r
    else bad (b ∷ r)

-- The second byte of four: it rules out long forms and numbers above 0x10ffff.
second_of_four : ℕ → List ℕ → Step
unfolding third_byte
second_of_four b0 [] = bad []
second_of_four b0 (b ∷ r) =
    if leb (if b0 == 0xf0 then 0x90 else 0x80) b && leb b (if b0 == 0xf4 then 0x8f else 0xbf)
    then third_byte (b0 % 8 * 64 + b % 64) r
    else bad (b ∷ r)

decode_step : ℕ → List ℕ → Step
unfolding last_byte second_of_three second_of_four
decode_step b r =
    if ltb b 0x80
    then char b r
    else if leb 0xc2 b && leb b 0xdf
    then last_byte (b % 32) r
    else if leb 0xe0 b && leb b 0xef
    then second_of_three b r
    else if leb 0xf0 b && leb b 0xf4
    then second_of_four b r
    else bad r

-- Each step takes a byte or more, so the length of the text is fuel enough.
lossy_loop : ℕ → List ℕ → Text
lossy_loop zero bs = []
lossy_loop (suc fuel) [] = []
lossy_loop (suc fuel) (b ∷ bs) = elim (decode_step b bs) [
  | char c r ↦ c ∷ lossy_loop fuel r
  | bad r ↦ 0xfffd ∷ lossy_loop fuel r
]

unfoldable pub from_utf8_lossy : List ℕ → Text
unfolding lossy_loop decode_step
from_utf8_lossy bs = lossy_loop (length bs) bs

strict_loop : ℕ → List ℕ → Option Text
strict_loop zero bs = some []
strict_loop (suc fuel) [] = some []
strict_loop (suc fuel) (b ∷ bs) = elim (decode_step b bs) [
  | char c r ↦ elim (strict_loop fuel r) [ none ↦ none | some s ↦ some (c ∷ s) ]
  | bad r ↦ none
]

unfoldable pub from_utf8 : List ℕ → Option Text
unfolding strict_loop decode_step
from_utf8 bs = strict_loop (length bs) bs

tail_of : List ℕ → List ℕ
tail_of [] = []
tail_of (b ∷ bs) = bs

head_of : List ℕ → ℕ
head_of [] = 0
head_of (b ∷ bs) = b

-- The first step on an encoded character gives the character.
decode_step-encode_char :
    (c : ℕ) (rest : List ℕ)
    → IsScalar c
    → decode_step (head_of (encode_char c)) (tail_of (encode_char c) ++ rest) ≡ char c rest
unfolding decode_step encode_char head_of tail_of
decode_step-encode_char c rest h = ground arith

encode_char-cons : (c : ℕ) → encode_char c ≡ head_of (encode_char c) ∷ tail_of (encode_char c)
unfolding encode_char head_of tail_of
encode_char-cons c = ground arith

as_bytes-cons :
    (c : ℕ) (s : Text)
    → as_bytes (c ∷ s) ≡ head_of (encode_char c) ∷ (tail_of (encode_char c) ++ as_bytes s)
unfolding as_bytes
as_bytes-cons c s = ap (λ e. e ++ as_bytes s) (encode_char-cons c)

lossy_loop-as_bytes :
    (fuel : ℕ) (s : Text)
    → length (as_bytes s) ≤ fuel
    → AllScalar s
    → lossy_loop fuel (as_bytes s) ≡ s
unfolding lossy_loop
lossy_loop-as_bytes zero [] h v = refl
lossy_loop-as_bytes (suc fuel) [] h v = unfold as_bytes in refl
lossy_loop-as_bytes zero (c ∷ s) h v = absurd (omega (arith, ap length (as_bytes-cons c s)))
lossy_loop-as_bytes (suc fuel) (c ∷ s) h (hc, hs) =
    rw (as_bytes-cons c s, decode_step-encode_char c (as_bytes s) hc, lossy_loop)
      (ap (λ t. c ∷ t) (lossy_loop-as_bytes fuel s shorter hs))
  where
    shorter : length (as_bytes s) ≤ fuel
    shorter =
        omega (
          arith,
          ap length (as_bytes-cons c s),
          length-append (tail_of (encode_char c)) (as_bytes s),
        )

-- Text that is sent as bytes and read back by `from_utf8_lossy` is the same text.
pub from_utf8_lossy-as_bytes : (s : Text) → AllScalar s → from_utf8_lossy (as_bytes s) ≡ s
unfolding from_utf8_lossy
from_utf8_lossy-as_bytes s v = lossy_loop-as_bytes (length (as_bytes s)) s (omega arith) v
