-- ===== src/Carrier/Time/Calendar.antt =====
-- The date that the loops over the years and the months of src/carrier.rs find.
use antenna.Base.{
  ℕ, zero, suc, ◌+◌, ◌-◌, ◌*◌, ◌/◌, ◌≤◌, ◌<◌, ◌≡◌, ◌⊎◌, refl, sym, subst, ap, ap₂, ◌∙◌, List, [],
  ◌∷◌, true, false, Bool-cases, inl, inr, arith, get_or, length, take, ltb, ltb→lt, lt→ltb,
}
use antenna.Base.Numbers.{pos}
use antenna.Carrier.Time.Gregorian.{
  leap_days, days_before_year, days_before_month, IsDate, day_number, total, get_or-days_in_months,
  total-days_before_month,
}
use antenna.Carrier.Time.{
  days_in_year, days_in_months, year_loop, month_loop, year_fuel, civil_date,
}

days_before_year-suc :
    (y : ℕ) → 1970 ≤ y → days_before_year (suc y) ≡ days_before_year y + days_in_year y
unfolding days_before_year leap_days
days_before_year-suc y h = ground arith

-- The months of a year make up the year.
total-days_in_months : (y : ℕ) → total (days_in_months y) ≡ days_in_year y
total-days_in_months y = ground arith

total-take :
    (m : ℕ) (days : List ℕ) (d : ℕ) → d < get_or days m 0 → total (take m days) + d < total days
total-take m [] d h = absurd (omega arith)
total-take zero (e ∷ days) d h = omega arith
total-take (suc m) (e ∷ days) d h = omega (arith, total-take m days d h)

days_before_1970 : days_before_year 1970 ≡ 0
unfolding days_before_year leap_days
days_before_1970 = refl

-- What the loop over the months finds: the month that holds day `n`.
abbrev MonthOf : List ℕ → ℕ → ℕ → Type 0
MonthOf days i n =
    (j : ℕ) × (r : ℕ) × (month_loop days i (pos n) ≡ (i + j, pos r))
    × (j < length days)
    × (r < get_or days j 0)
    × (total (take j days) + r ≡ n)

month_loop-finds : (days : List ℕ) (i n : ℕ) → n < total days → MonthOf days i n
unfolding month_loop
month_loop-finds [] i n h = absurd (omega arith)
month_loop-finds (d ∷ days) i n h =
    go (Bool-cases (ltb n d)) (λ l. month_loop-finds days (suc i) (n - d) l)
  where
    go :
        (ltb n d ≡ true) ⊎ (ltb n d ≡ false)
        → ((n - d < total days) → MonthOf days (suc i) (n - d))
        → MonthOf (d ∷ days) i n
    go (inl e) rec = (0, n, ground arith, omega arith, ltb→lt n d e, omega arith)
    go (inr e) rec =
        let (j, r, found, len, bound, sum) = rec (ground arith) in
        (suc j, r, ground (arith, found), omega (arith, len), bound, ground (arith, sum))

pub year_loop-stop :
    (fuel y n : ℕ) → n < days_in_year y → year_loop (suc fuel) y (pos n) ≡ (y, pos n)
unfolding year_loop
year_loop-stop fuel y n h = rw (year_loop, lt→ltb n (days_in_year y) h) refl

pub year_loop-next :
    (fuel y n : ℕ)
    → days_in_year y ≤ n
    → year_loop (suc fuel) y (pos n) ≡ year_loop fuel (suc y) (pos (n - days_in_year y))
unfolding year_loop
year_loop-next fuel y n h = ground arith

-- What the loop over the years finds: the year that holds the day `n` days behind the start of `y`.
abbrev YearOf : ℕ → ℕ → ℕ → Type 0
YearOf fuel y n =
    (z : ℕ) × (r : ℕ) × (year_loop fuel y (pos n) ≡ (z, pos r))
    × (y ≤ z)
    × (r < days_in_year z)
    × (days_before_year z + r ≡ days_before_year y + n)

year_loop-finds : (fuel y n : ℕ) → 1970 ≤ y → n < 365 * fuel → YearOf fuel y n
unfolding year_loop
year_loop-finds zero y n hy h = absurd (omega arith)
year_loop-finds (suc fuel) y n hy h =
    go (Bool-cases (ltb n (days_in_year y)))
      (λ l. year_loop-finds fuel (suc y) (n - days_in_year y) (omega arith) l)
  where
    go :
        (ltb n (days_in_year y) ≡ true) ⊎ (ltb n (days_in_year y) ≡ false)
        → ((n - days_in_year y < 365 * fuel) → YearOf fuel (suc y) (n - days_in_year y))
        → YearOf (suc fuel) y n
    go (inl e) rec = (
      y,
      n,
      year_loop-stop fuel y n (ltb→lt n (days_in_year y) e),
      omega arith,
      ltb→lt n (days_in_year y) e,
      refl,
    )
    go (inr e) rec =
        let (z, r, found, le, bound, sum) = rec (ground arith) in
        (
          z,
          r,
          ground (arith, found),
          omega (arith, le),
          bound,
          ground (arith, sum, days_before_year-suc y hy),
        )

month_loop-at :
    (j : ℕ) (days : List ℕ) (i r : ℕ)
    → r < get_or days j 0
    → month_loop days i (pos (total (take j days) + r)) ≡ (i + j, pos r)
unfolding month_loop
month_loop-at j [] i r h = absurd (omega arith)
month_loop-at zero (d ∷ days) i r h = ground arith
month_loop-at (suc j) (d ∷ days) i r h = ground (arith, month_loop-at j days (suc i) r h)

days_before_year-le : (k y : ℕ) → 1970 ≤ y → days_before_year y ≤ days_before_year (y + k)
unfolding days_before_year
days_before_year-le zero y h = omega arith
days_before_year-le (suc k) y h =
    ground (arith, days_before_year-le k y h, days_before_year-suc (y + k) (omega arith))

year_loop-at :
    (k fuel y z n r : ℕ)
    → z ≡ y + k
    → 1970 ≤ y
    → n < 365 * fuel
    → r < days_in_year z
    → days_before_year z + r ≡ days_before_year y + n
    → year_loop fuel y (pos n) ≡ (z, pos r)
year_loop-at k zero y z n r ez hy h hr e = absurd (omega arith)
year_loop-at zero (suc fuel) y z n r ez hy h hr e =
    let ey : z ≡ y = omega arith in
    let er : n ≡ r = omega (arith, e, ap days_before_year ey) in
    year_loop-stop fuel y n (rw (er, sym ey) hr) ∙ ap₂ (λ a b. (a, pos b)) (sym ey) er
year_loop-at (suc k) (suc fuel) y z n r ez hy h hr e =
    let next = days_before_year-suc y hy in
    let below = days_before_year-le k (suc y) (omega arith) in
    let ez' : z ≡ suc y + k = omega arith in
    let far : days_in_year y ≤ n = omega (arith, next, below, e, ap days_before_year ez') in
    year_loop-next fuel y n far
    ∙ year_loop-at k fuel (suc y) z (n - days_in_year y) r ez' (omega arith) (ground (arith, far))
        hr (omega (arith, next, e, far))

-- A date whose day lies before the start of a year lies in an earlier year.
pub IsDate-year :
    (y m d z : ℕ) → IsDate y m d → 1970 ≤ z → day_number y m d < days_before_year z → y < z
unfolding day_number
IsDate-year y m d z date hz h = go (Bool-cases (ltb y z))
  where
    go : (ltb y z ≡ true) ⊎ (ltb y z ≡ false) → y < z
    go (inl e) = ltb→lt y z e
    go (inr e) =
        let ey : z + (y - z) ≡ y = ground arith in
        absurd (omega (arith, days_before_year-le (y - z) z hz, ap days_before_year ey))

civil_date-loops :
    (n y r m d : ℕ)
    → year_loop (suc (n / 365)) 1970 (pos n) ≡ (y, pos r)
    → month_loop (days_in_months y) 0 (pos r) ≡ (0 + m, pos d)
    → civil_date (pos n) ≡ (y, m, pos d)
unfolding civil_date year_fuel
civil_date-loops n y r m d e f = rw (e, f) (ap (λ k. (y, k, pos d)) (omega arith))

-- The date of a day from 1970 on is a date of the calendar, and its day number is the day.
pub civil_date-IsDate :
    (n : ℕ)
    → (y : ℕ) × (m : ℕ) × (d : ℕ) × (civil_date (pos n) ≡ (y, m, pos d))
      × IsDate y m d
      × (day_number y m d ≡ n)
unfolding day_number
civil_date-IsDate n =
    let (y, r, found_y, hy, hr, sum_y) =
      year_loop-finds (suc (n / 365)) 1970 n (omega arith) (omega arith) in
    let (m, d, found_m, hm, hd, sum_m) =
      month_loop-finds (days_in_months y) 0 r (rw (total-days_in_months y) hr) in
    (
      y,
      m,
      d,
      civil_date-loops n y r m d found_y found_m,
      (hy, hm, rw (sym (get_or-days_in_months y m hm)) hd),
      omega (arith, sum_y, sum_m, days_before_1970, total-days_before_month y m hm),
    )

-- A date of the calendar is found from its day number.
pub civil_date-day_number :
    (y m d : ℕ) → IsDate y m d → civil_date (pos (day_number y m d)) ≡ (y, m, pos d)
unfolding day_number
civil_date-day_number y m d (hy, hm, hd) =
    civil_date-loops n y r m d
      (year_loop-at (y - 1970) (suc (n / 365)) 1970 y n r (omega arith) (omega arith) (omega arith)
        inside (omega (arith, days_before_1970)))
      (subst (λ k. month_loop (days_in_months y) 0 (pos (k + d)) ≡ (0 + m, pos d))
        (total-days_before_month y m hm) (month_loop-at m (days_in_months y) 0 d in_table))
  where
    r : ℕ
    r = days_before_month y m + d

    n : ℕ
    n = day_number y m d

    in_table : d < get_or (days_in_months y) m 0
    in_table = rw (get_or-days_in_months y m hm) hd

    inside : r < days_in_year y
    inside = omega (
      arith,
      total-take m (days_in_months y) d in_table,
      total-days_in_months y,
      total-days_before_month y m hm,
    )
