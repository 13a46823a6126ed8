-- ===== src/Carrier/Time/Print.antt =====
-- The texts that `format_timestamp` of src/carrier.rs prints.
use antenna.Base.{ℕ, suc, ◌+◌, ◌-◌, ◌*◌, ◌/◌, ◌%◌, ◌<◌, ◌≡◌, refl, ap, ap₂, ◌∙◌, ◌++◌, arith}
use antenna.Base.Text.{codes}
use antenna.Base.Numbers.{ℤ, pos, negsuc, decimal, pad}
use antenna.Turtle.Escape.{IsSingleLine}
use antenna.Turtle.SingleLine.{IsSingleLine-append, pad-IsSingleLine}
use antenna.Carrier.Time.{
  civil_date, quotient, rem_euclid, pad_ℤ, format_date, format_time, format_timestamp,
}
use antenna.Carrier.Time.Gregorian.{IsDate, day_number}
use antenna.Carrier.Time.Calendar.{civil_date-day_number}

pad_ℤ-IsSingleLine : (w : ℕ) (n : ℤ) → IsSingleLine (pad_ℤ w n)
pad_ℤ-IsSingleLine w (pos n) = pad-IsSingleLine w n
pad_ℤ-IsSingleLine w (negsuc n) = (omega arith, omega arith, pad-IsSingleLine (w - 1) (suc n))

dash-IsSingleLine : IsSingleLine (codes "-")
dash-IsSingleLine = ground arith

colon-IsSingleLine : IsSingleLine (codes ":")
colon-IsSingleLine = ground arith

letter-IsSingleLine : IsSingleLine (codes "T")
letter-IsSingleLine = ground arith

ruleset single_line = (
  IsSingleLine-append, pad-IsSingleLine, pad_ℤ-IsSingleLine, dash-IsSingleLine, colon-IsSingleLine,
  letter-IsSingleLine,
)

format_date-IsSingleLine : (y m : ℕ) (d : ℤ) → IsSingleLine (format_date (y, m, d))
unfolding format_date
format_date-IsSingleLine y m d = search single_line

format_time-IsSingleLine : (t : ℕ) → IsSingleLine (format_time t)
unfolding format_time
format_time-IsSingleLine t = search single_line

-- A timestamp never ends a line, whatever the time is.
pub format_timestamp-IsSingleLine : (ts : ℤ) → IsSingleLine (format_timestamp ts)
unfolding format_timestamp
format_timestamp-IsSingleLine ts =
    let secs = quotient ts 1000 in
    let (y, m, d) = civil_date (quotient secs 86400) in
    IsSingleLine-append (format_date (y, m, d) ++ codes "T") (format_time (rem_euclid secs 86400))
      (IsSingleLine-append (format_date (y, m, d)) (codes "T") (format_date-IsSingleLine y m d)
        letter-IsSingleLine)
      (format_time-IsSingleLine (rem_euclid secs 86400))

-- A time is printed as the date and the time of day it stands for.
pub format_timestamp-date :
    (y m d h mi s ms : ℕ)
    → IsDate y m d
    → h < 24
    → mi < 60
    → s < 60
    → ms < 1000
    → format_timestamp (pos ((((day_number y m d * 24 + h) * 60 + mi) * 60 + s) * 1000 + ms))
      ≡ pad 4 (decimal y)
        ++ codes "-"
        ++ pad 2 (decimal (m + 1))
        ++ codes "-"
        ++ pad 2 (decimal (d + 1))
        ++ codes "T"
        ++ (pad 2 (decimal h) ++ codes ":" ++ pad 2 (decimal mi) ++ codes ":" ++ pad 2 (decimal s))
unfolding format_timestamp format_date format_time
format_timestamp-date y m d h mi s ms date hh hmi hs hms =
    ap (λ n. format_date (civil_date (pos (n / 86400))) ++ codes "T" ++ format_time (n % 86400))
      secs_of
    ∙ ap₂ (λ a b. format_date a ++ codes "T" ++ b)
        (ap (λ n. civil_date (pos n)) days_of ∙ civil_date-day_number y m d date) time_of
  where
    secs : ℕ
    secs = ((day_number y m d * 24 + h) * 60 + mi) * 60 + s

    secs_of : (secs * 1000 + ms) / 1000 ≡ secs
    secs_of = omega arith

    days_of : secs / 86400 ≡ day_number y m d
    days_of = omega arith

    hours_of : secs % 86400 / 3600 ≡ h
    hours_of = omega arith

    minutes_of : secs % 86400 % 3600 / 60 ≡ mi
    minutes_of = omega arith

    seconds_of : secs % 86400 % 60 ≡ s
    seconds_of = omega arith

    time_of :
        format_time (secs % 86400)
        ≡ pad 2 (decimal h) ++ codes ":" ++ pad 2 (decimal mi) ++ codes ":" ++ pad 2 (decimal s)
    time_of = rw (format_time, hours_of, minutes_of, seconds_of) refl
