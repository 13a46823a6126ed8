-- ===== src/Carrier/Time/Width.antt =====
-- How many characters `format_timestamp` of src/carrier.rs prints.
use antenna.Base.{
  ℕ, zero, suc, ◌+◌, ◌*◌, ◌/◌, ◌%◌, ◌≤◌, ◌<◌, ◌≡◌, refl, ap, ◌∙◌, [], ◌∷◌, ◌++◌, arith, length,
  length-append, length-replicate,
}
use antenna.Base.Text.{Text, codes}
use antenna.Base.Numbers.{pos, decimal, pad, digits_loop, decimal_digit}
use antenna.Carrier.Time.{format_date, format_time, format_timestamp}
use antenna.Carrier.Time.Gregorian.{IsDate, days_before_year, leap_days}
use antenna.Carrier.Time.Calendar.{civil_date-IsDate, IsDate-year}

-- The powers of ten
abbrev power : ℕ → ℕ
power zero = 1
power (suc w) = 10 * power w

digits_loop-length :
    (w fuel n : ℕ) (out : Text)
    → n < power (suc w)
    → length (digits_loop decimal_digit 10 fuel n out) ≤ suc w + length out
unfolding digits_loop
digits_loop-length w zero n out h = omega arith
digits_loop-length zero (suc fuel) n out h = ground arith
digits_loop-length (suc w) (suc fuel) n out h =
    ground (arith, digits_loop-length w fuel (n / 10) (decimal_digit (n % 10) ∷ out) (omega arith))

length-pad : (w n : ℕ) → n < power (suc w) → length (pad (suc w) (decimal n)) ≡ suc w
unfolding decimal
length-pad w n h =
    rw (length-append, length-replicate) (omega (arith, digits_loop-length w (suc n) n [] h))

length-format_date :
    (y m d : ℕ) → IsDate y m d → y < 10000 → length (format_date (y, m, pos d)) ≡ 10
unfolding format_date
length-format_date y m d (hy, hm, hd) h =
    rw
      (
        length-append,
        length-append,
        length-append,
        length-append,
        length-pad 3 y (omega arith),
        length-pad 1 (m + 1) (omega arith),
        length-pad 1 (d + 1) (ground arith),
      )
      refl

length-format_time : (t : ℕ) → t < 86400 → length (format_time t) ≡ 8
unfolding format_time
length-format_time t h =
    rw
      (
        length-append,
        length-append,
        length-append,
        length-append,
        length-pad 1 (t / 3600) (omega arith),
        length-pad 1 (t % 3600 / 60) (omega arith),
        length-pad 1 (t % 60) (omega arith),
      )
      refl

days_before_10000 : days_before_year 10000 ≡ 2932897
unfolding days_before_year leap_days
days_before_10000 = refl

-- Up to the end of the year 9999 every timestamp has 19 characters.
pub length-format_timestamp : (t : ℕ) → t < 253402300800000 → length (format_timestamp (pos t)) ≡ 19
unfolding format_timestamp
length-format_timestamp t h =
    let secs = t / 1000 in
    let (y, m, d, found, date, number) = civil_date-IsDate (secs / 86400) in
    ap (λ x. length (format_date x ++ codes "T" ++ format_time (secs % 86400))) found
    ∙ rw
        (
          length-append,
          length-append,
          length-format_date y m d date (
              IsDate-year y m d 10000 date (omega arith)
                (omega (arith, number, days_before_10000))),
          length-format_time (secs % 86400) (omega arith),
        )
        refl
