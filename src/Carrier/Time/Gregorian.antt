-- ===== src/Carrier/Time/Gregorian.antt =====
-- The rules of the Gregorian calendar, which the loops of `format_timestamp` of src/carrier.rs are
-- measured by. Months and days count from 0.
use antenna.Base.{
  ℕ, zero, suc, ◌+◌, ◌-◌, ◌*◌, ◌/◌, ◌%◌, ◌≤◌, ◌<◌, ◌≡◌, refl, ◌∙◌, ap, Bool, ◌&&◌, ◌||◌, not, List,
  [], ◌∷◌, ◌==◌, if◌then◌else◌, arith, get_or, take,
}
use antenna.Carrier.Time.{days_in_months}

-- The leap days of the years before `y`.
unfoldable pub leap_days : ℕ → ℕ
leap_days y = (y - 1) / 4 + (y - 1) / 400 - (y - 1) / 100

-- The days from the first of January 1970 to the first of January of `y`.
unfoldable pub days_before_year : ℕ → ℕ
unfolding leap_days
days_before_year y = 365 * (y - 1970) + leap_days y - 477

-- A year that 400 divides, or 4 and not 100
abbrev pub has_leap_day : ℕ → Bool
has_leap_day y = y % 400 == 0 || y % 4 == 0 && not (y % 100 == 0)

-- April, June, September and November have 30 days, February has 28 or 29, and the others have 31.
abbrev pub month_length : (y m : ℕ) → ℕ
month_length y m =
    if m == 3 || m == 5 || m == 8 || m == 10
    then 30
    else if m == 1
    then (if has_leap_day y then 29 else 28)
    else 31

-- f i + ... + f (i + n - 1)
abbrev pub sum_from : (ℕ → ℕ) → (i n : ℕ) → ℕ
sum_from f i zero = 0
sum_from f i (suc n) = f i + sum_from f (i + 1) n

abbrev pub days_before_month : (y m : ℕ) → ℕ
days_before_month y m = sum_from (month_length y) 0 m

-- A date from 1970 on.
abbrev pub IsDate : (y m d : ℕ) → Type 0
IsDate y m d = (1970 ≤ y) × (m < 12) × (d < month_length y m)

-- The number of the day, from 0 at the first of January 1970.
unfoldable pub day_number : (y m d : ℕ) → ℕ
day_number y m d = days_before_year y + days_before_month y m + d

abbrev pub total : List ℕ → ℕ
total [] = 0
total (d ∷ ds) = d + total ds

abbrev tabulate : (ℕ → ℕ) → (i n : ℕ) → List ℕ
tabulate f i zero = []
tabulate f i (suc n) = f i ∷ tabulate f (i + 1) n

get_or-tabulate : (f : ℕ → ℕ) (i n m : ℕ) → m < n → get_or (tabulate f i n) m 0 ≡ f (i + m)
get_or-tabulate f i zero m h = absurd (omega arith)
get_or-tabulate f i (suc n) zero h = ap f (omega arith)
get_or-tabulate f i (suc n) (suc m) h =
    get_or-tabulate f (i + 1) n m (omega arith) ∙ ap f (omega arith)

total-take-tabulate :
    (f : ℕ → ℕ) (i n m : ℕ) → m ≤ n → total (take m (tabulate f i n)) ≡ sum_from f i m
total-take-tabulate f i n zero h = refl
total-take-tabulate f i zero (suc m) h = absurd (omega arith)
total-take-tabulate f i (suc n) (suc m) h =
    ap (λ k. f i + k) (total-take-tabulate f (i + 1) n m (omega arith))

-- The code's table of months follows the rules.
days_in_months_lem : (y : ℕ) → days_in_months y ≡ tabulate (month_length y) 0 12
days_in_months_lem y = ground arith

pub get_or-days_in_months : (y m : ℕ) → m < 12 → get_or (days_in_months y) m 0 ≡ month_length y m
get_or-days_in_months y m h =
    let e : 0 + m ≡ m = omega arith in
    ap (λ days. get_or days m 0) (days_in_months_lem y)
    ∙ get_or-tabulate (month_length y) 0 12 m h
    ∙ ap (month_length y) e

pub total-days_before_month :
    (y m : ℕ) → m < 12 → total (take m (days_in_months y)) ≡ days_before_month y m
total-days_before_month y m h =
    ap (λ days. total (take m days)) (days_in_months_lem y)
    ∙ total-take-tabulate (month_length y) 0 12 m (omega arith)
