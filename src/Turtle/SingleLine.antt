-- ===== src/Turtle/SingleLine.antt =====
-- Texts without line ends: the pieces that the lines of src/carrier.rs are put together from.
use antenna.Base.{ℕ, zero, suc, ◌-◌, ◌/◌, ◌%◌, [], ◌∷◌, ◌++◌, length, replicate, arith}
use antenna.Base.Text.{Text}
use antenna.Base.Numbers.{ℤ, pos, negsuc, decimal, decimal_ℤ, pad, digits_loop, decimal_digit}
use antenna.Turtle.Escape.{IsSingleLine}

pub IsSingleLine-append : (s t : Text) → IsSingleLine s → IsSingleLine t → IsSingleLine (s ++ t)
IsSingleLine-append [] t hs ht = ht
IsSingleLine-append (c ∷ s) t (h, k, hs) ht = (h, k, IsSingleLine-append s t hs ht)

digits_loop-IsSingleLine :
    (fuel n : ℕ) (out : Text)
    → IsSingleLine out
    → IsSingleLine (digits_loop decimal_digit 10 fuel n out)
unfolding digits_loop
digits_loop-IsSingleLine zero n out h = h
digits_loop-IsSingleLine (suc fuel) n out h =
    ground (arith, digits_loop-IsSingleLine fuel (n / 10) (decimal_digit (n % 10) ∷ out), h)

pub decimal-IsSingleLine : (n : ℕ) → IsSingleLine (decimal n)
unfolding decimal
decimal-IsSingleLine n = digits_loop-IsSingleLine (suc n) n [] tt

pub decimal_ℤ-IsSingleLine : (n : ℤ) → IsSingleLine (decimal_ℤ n)
unfolding decimal_ℤ
decimal_ℤ-IsSingleLine (pos n) = decimal-IsSingleLine n
decimal_ℤ-IsSingleLine (negsuc n) = (omega arith, omega arith, decimal-IsSingleLine (suc n))

zeros-IsSingleLine : (n : ℕ) (s : Text) → IsSingleLine s → IsSingleLine (replicate n b'0' ++ s)
zeros-IsSingleLine zero s h = h
zeros-IsSingleLine (suc n) s h = (omega arith, omega arith, zeros-IsSingleLine n s h)

pub pad-IsSingleLine : (w n : ℕ) → IsSingleLine (pad w (decimal n))
pad-IsSingleLine w n =
    zeros-IsSingleLine (w - length (decimal n)) (decimal n) (decimal-IsSingleLine n)
