-- ===== src/Carrier/Time.antt =====
-- `format_timestamp` of src/carrier.rs: a time in milliseconds since 1970 as an ISO 8601 text.
use antenna.Base.{
  ℕ, zero, suc, ◌+◌, ◌-◌, ◌*◌, ◌/◌, ◌%◌, Bool, true, false, ◌&&◌, ◌||◌, not, List, [], ◌∷◌, ◌++◌,
  ltb, leb, ◌==◌, if◌then◌else◌,
}
use antenna.Base.Text.{Text, codes}
use antenna.Base.Numbers.{ℤ, pos, negsuc, decimal, decimal_ℤ, pad}
pub mod Gregorian
pub mod Calendar
pub mod Print
pub mod Width

-- `remaining < d`
abbrev pub less : ℤ → ℕ → Bool
less (pos n) d = ltb n d
less (negsuc n) d = true

-- `remaining - d`
abbrev pub minus : ℤ → ℕ → ℤ
minus (pos n) d = if leb d n then pos (n - d) else negsuc (d - n - 1)
minus (negsuc n) d = negsuc (n + d)

abbrev pub is_leap : ℕ → Bool
is_leap y = y % 4 == 0 && (not (y % 100 == 0) || y % 400 == 0)

abbrev pub days_in_year : ℕ → ℕ
days_in_year y = if is_leap y then 366 else 365

abbrev pub days_in_months : ℕ → List ℕ
days_in_months y =
    31 ∷ (if is_leap y then 29 else 28) ∷ 31 ∷ 30 ∷ 31 ∷ 30 ∷ 31 ∷ 31 ∷ 30 ∷ 31 ∷ 30 ∷ 31 ∷ []

-- The year that is reached from `y`, and the days that remain in it.
unfoldable pub year_loop : (fuel y : ℕ) → ℤ → ℕ × ℤ
year_loop zero y remaining = (y, remaining)
year_loop (suc fuel) y remaining = elim (less remaining (days_in_year y)) [
  | true ↦ (y, remaining)
  | false ↦ year_loop fuel (suc y) (minus remaining (days_in_year y))
]

-- The index of the month from `i` on, and the days that remain in it; behind the last month the
-- index is the 0 it was set to.
unfoldable pub month_loop : List ℕ → ℕ → ℤ → ℕ × ℤ
month_loop [] i remaining = (0, remaining)
month_loop (d ∷ days) i remaining = elim (less remaining d) [
  | true ↦ (i, remaining)
  | false ↦ month_loop days (suc i) (minus remaining d)
]

-- A round takes 365 days at least.
unfoldable pub year_fuel : ℤ → ℕ
year_fuel (pos n) = suc (n / 365)
year_fuel (negsuc n) = 1

-- `y`, the index of the month from 0, and the days of the month that are over
unfoldable pub civil_date : ℤ → ℕ × ℕ × ℤ
unfolding year_loop month_loop year_fuel
civil_date days_since_epoch =
    let (y, remaining) = year_loop (year_fuel days_since_epoch) 1970 days_since_epoch in
    let (m, rest) = month_loop (days_in_months y) 0 remaining in (y, m, rest)

-- `ts / d` rounds towards 0.
abbrev pub quotient : ℤ → ℕ → ℤ
quotient (pos n) d = pos (n / d)
quotient (negsuc n) d = if suc n / d == 0 then pos 0 else negsuc (suc n / d - 1)

-- `secs.rem_euclid(d)` is not negative.
abbrev pub rem_euclid : ℤ → ℕ → ℕ
rem_euclid (pos n) d = n % d
rem_euclid (negsuc n) d = (d - suc n % d) % d

-- `remaining + 1`
abbrev pub plus_one : ℤ → ℤ
plus_one (pos n) = pos (n + 1)
plus_one (negsuc zero) = pos 0
plus_one (negsuc (suc n)) = negsuc n

-- `{:02}`: the sign of a negative number counts for the width, so that none is padded.
abbrev pub pad_ℤ : ℕ → ℤ → Text
pad_ℤ w (pos n) = pad w (decimal n)
pad_ℤ w (negsuc n) = b'-' ∷ pad (w - 1) (decimal (suc n))

unfoldable pub format_date : ℕ × ℕ × ℤ → Text
format_date (y, m, rest) =
    pad 4 (decimal y)
    ++ codes "-"
    ++ pad 2 (decimal (m + 1))
    ++ codes "-"
    ++ pad_ℤ 2 (plus_one rest)

unfoldable pub format_time : ℕ → Text
format_time time_of_day =
    pad 2 (decimal (time_of_day / 3600))
    ++ codes ":"
    ++ pad 2 (decimal (time_of_day % 3600 / 60))
    ++ codes ":"
    ++ pad 2 (decimal (time_of_day % 60))

unfoldable pub format_timestamp : ℤ → Text
unfolding civil_date format_date format_time
format_timestamp ts_ms =
    let secs = quotient ts_ms 1000 in
    format_date (civil_date (quotient secs 86400))
    ++ codes "T"
    ++ format_time (rem_euclid secs 86400)
