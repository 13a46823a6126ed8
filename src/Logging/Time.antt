-- ===== src/Logging/Time.antt =====
-- `iso8601_millis` of src/logging.rs. It has its own loops over the years and the months; the time is
-- not negative here, so that its numbers are natural ones.
use antenna.Base.{
  ℕ, zero, suc, ◌+◌, ◌-◌, ◌/◌, ◌%◌, Bool, true, false, not, ◌&&◌, ◌||◌, List, [], ◌∷◌, ◌++◌, ltb,
  ◌==◌, if◌then◌else◌,
}
use antenna.Base.Text.{Text, codes}
use antenna.Base.Numbers.{ℤ, pos, negsuc, decimal, pad}
pub mod Same

abbrev pub leap : ℕ → Bool
leap year = year % 4 == 0 && (not (year % 100 == 0) || year % 400 == 0)

abbrev pub days_in_year : ℕ → ℕ
days_in_year year = if leap year then 366 else 365

abbrev pub days_in_months : ℕ → List ℕ
days_in_months year =
    31 ∷ (if leap year then 29 else 28) ∷ 31 ∷ 30 ∷ 31 ∷ 30 ∷ 31 ∷ 31 ∷ 30 ∷ 31 ∷ 30 ∷ 31 ∷ []

-- The year that is reached from `year`, and the days that remain in it.
unfoldable pub year_loop : (fuel year remaining : ℕ) → ℕ × ℕ
year_loop zero year remaining = (year, remaining)
year_loop (suc fuel) year remaining = elim (ltb remaining (days_in_year year)) [
  | true ↦ (year, remaining)
  | false ↦ year_loop fuel (suc year) (remaining - days_in_year year)
]

-- `month_idx` from the month `i` on, and the days that remain in it; the index stays 0 if no month
-- breaks the loop.
unfoldable pub month_loop : (days : List ℕ) (i remaining : ℕ) → ℕ × ℕ
month_loop [] i remaining = (0, remaining)
month_loop (d ∷ days) i remaining = elim (ltb remaining d) [
  | true ↦ (i, remaining)
  | false ↦ month_loop days (suc i) (remaining - d)
]

-- A `SystemTime` is its nanoseconds from 1970 on.
-- `duration_since(UNIX_EPOCH).unwrap_or_default()`
abbrev pub since_epoch : ℤ → ℕ
since_epoch (pos n) = n
since_epoch (negsuc n) = 0

-- A round of the loop over the years takes 365 days or more, which bounds the rounds.
unfoldable pub iso8601_millis : ℤ → Text
unfolding year_loop month_loop
iso8601_millis system_time =
    let duration = since_epoch system_time in
    let secs = duration / 1000000000 in
    let millis = duration % 1000000000 / 1000000 in
    let days_since_epoch = secs / 86400 in
    let time_of_day = secs % 86400 in
    let (year, remaining) = year_loop (suc (days_since_epoch / 365)) 1970 days_since_epoch in
    let (month_idx, rest) = month_loop (days_in_months year) 0 remaining in
    pad 4 (decimal year)
    ++ codes "-"
    ++ pad 2 (decimal (month_idx + 1))
    ++ codes "-"
    ++ pad 2 (decimal (rest + 1))
    ++ codes "T"
    ++ pad 2 (decimal (time_of_day / 3600))
    ++ codes ":"
    ++ pad 2 (decimal (time_of_day % 3600 / 60))
    ++ codes ":"
    ++ pad 2 (decimal (time_of_day % 60))
    ++ codes "."
    ++ pad 3 (decimal millis)
    ++ codes "Z"
