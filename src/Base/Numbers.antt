-- ===== src/Base/Numbers.antt =====
-- Signed machine integers as integers, and the printing of numbers by `format!`.
use Prim.Native.Nat.{ℕ, zero, suc, ◌+◌, ◌-◌, ◌/◌, ◌%◌}
use mathlib.Core.Bool.{Bool, true, false}
use mathlib.Core.List.{[], ◌∷◌, ◌++◌}
use antenna.Base.Tests.{ltb, if◌then◌else◌}
use antenna.Base.Lists.{length, replicate}
use antenna.Base.Text.{Text}

-- `negsuc n` is -(n + 1).
pub data ℤ : Type 0 where
  pos : ℕ → ℤ
  negsuc : ℕ → ℤ

abbrev pub is_negative : ℤ → Bool
is_negative (pos n) = false
is_negative (negsuc n) = true

-- The digits of `n` in base `b`, before those that stand already; `digit` prints one.
unfoldable pub digits_loop : (ℕ → ℕ) → ℕ → ℕ → ℕ → Text → Text
digits_loop digit b zero n out = out
digits_loop digit b (suc fuel) n out =
    let more = digits_loop digit b fuel (n / b) (digit (n % b) ∷ out) in
    if ltb n b then digit n ∷ out else more

abbrev pub decimal_digit : ℕ → ℕ
decimal_digit d = b'0' + d

abbrev pub hex_digit : ℕ → ℕ
hex_digit d = if ltb d 10 then b'0' + d else b'a' + (d - 10)

-- `{}`; a number below 10 ^ fuel has at most that many digits, so `suc n` is enough.
unfoldable pub decimal : ℕ → Text
unfolding digits_loop
decimal n = digits_loop decimal_digit 10 (suc n) n []

-- `{:x}`
unfoldable pub hex : ℕ → Text
unfolding digits_loop
hex n = digits_loop hex_digit 16 (suc n) n []

unfoldable pub decimal_ℤ : ℤ → Text
unfolding decimal
decimal_ℤ (pos n) = decimal n
decimal_ℤ (negsuc n) = b'-' ∷ decimal (suc n)

-- `{:0w}` for a number that is printed as `s`
abbrev pub pad : ℕ → Text → Text
pad w s = replicate (w - length s) b'0' ++ s
