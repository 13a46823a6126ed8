-- ===== src/Logging/Time/Same.antt =====
-- `iso8601_millis` of src/logging.rs and `format_timestamp` of src/carrier.rs, which compute the date by
-- loops of their own.
use antenna.Base.{
  ℕ, zero, suc, ◌+◌, ◌-◌, ◌/◌, ◌%◌, ◌≡◌, refl, sym, ap, ap₂, ◌∙◌, List, [], ◌∷◌, ◌++◌, arith,
  Bool-cases, ltb, ltb→lt, inl, inr, append_assoc,
}
use antenna.Base.Text.{Text, codes}
use antenna.Base.Numbers.{ℤ, pos, decimal, pad}
use antenna.Carrier.Time.{
  civil_date, year_fuel, format_date, format_time, format_timestamp, year_loop as carrier_year_loop,
  month_loop as carrier_month_loop,
}
use antenna.Carrier.Time.Calendar.{year_loop-stop, year_loop-next}
use antenna.Logging.Time.{
  days_in_year, days_in_months, year_loop, month_loop, since_epoch, iso8601_millis,
}

year_loop_same :
    (fuel y n : ℕ)
    → carrier_year_loop fuel y (pos n) ≡ ((year_loop fuel y n).0, pos (year_loop fuel y n).1)
unfolding year_loop
year_loop_same zero y n = unfold carrier_year_loop in refl
year_loop_same (suc fuel) y n = elim (Bool-cases (ltb n (days_in_year y))) [
  | inl e ↦ rw (year_loop, e) (year_loop-stop fuel y n (ltb→lt n (days_in_year y) e))
  | inr e ↦
      rw (year_loop, e)
        (year_loop-next fuel y n (ground (arith, e))
          ∙ year_loop_same fuel (suc y) (n - days_in_year y))
]

month_loop_same :
    (days : List ℕ) (i n : ℕ)
    → carrier_month_loop days i (pos n) ≡ ((month_loop days i n).0, pos (month_loop days i n).1)
unfolding month_loop carrier_month_loop
month_loop_same [] i n = refl
month_loop_same (d ∷ days) i n = ground (arith, month_loop_same days (suc i) (n - d))

-- The date that the log finds
abbrev date_of : ℕ → ℕ × ℕ × ℕ
date_of n =
    let (year, remaining) = year_loop (suc (n / 365)) 1970 n in
    let (month_idx, rest) = month_loop (days_in_months year) 0 remaining in (year, month_idx, rest)

civil_date_same : (n : ℕ) → civil_date (pos n) ≡ ((date_of n).0, (date_of n).1, pos (date_of n).2)
unfolding civil_date year_fuel
civil_date_same n =
    rw
      (
        year_loop_same (suc (n / 365)) 1970 n,
        month_loop_same (days_in_months (year_loop (suc (n / 365)) 1970 n).0) 0
            (year_loop (suc (n / 365)) 1970 n).1,
      )
      refl

regroup : (x h c m s : Text) → x ++ (h ++ c ++ m ++ c ++ s) ≡ x ++ h ++ c ++ m ++ c ++ s
regroup x h c m s = simp append_assoc

-- A date, a time of day and milliseconds, printed with each part behind the other, and as `format_date`
-- and `format_time` print them.
abbrev logged : ℕ × ℕ × ℕ → (t m : ℕ) → Text
logged (year, month_idx, rest) t m =
    pad 4 (decimal year)
    ++ codes "-"
    ++ pad 2 (decimal (month_idx + 1))
    ++ codes "-"
    ++ pad 2 (decimal (rest + 1))
    ++ codes "T"
    ++ pad 2 (decimal (t / 3600))
    ++ codes ":"
    ++ pad 2 (decimal (t % 3600 / 60))
    ++ codes ":"
    ++ pad 2 (decimal (t % 60))
    ++ codes "."
    ++ pad 3 (decimal m)
    ++ codes "Z"

abbrev stamped : (s m : ℕ) → Text
stamped s m =
    format_date (civil_date (pos (s / 86400)))
    ++ codes "T"
    ++ format_time (s % 86400)
    ++ codes "."
    ++ pad 3 (decimal m)
    ++ codes "Z"

logged-stamped : (s m : ℕ) → logged (date_of (s / 86400)) (s % 86400) m ≡ stamped s m
unfolding format_date format_time
logged-stamped s m =
    let (year, month_idx, rest) = date_of (s / 86400) in
    ap (λ x. x ++ codes "." ++ pad 3 (decimal m) ++ codes "Z")
      (sym (
        regroup (format_date (year, month_idx, pos rest) ++ codes "T")
          (pad 2 (decimal (s % 86400 / 3600))) (codes ":") (pad 2 (decimal (s % 86400 % 3600 / 60)))
          (pad 2 (decimal (s % 86400 % 60)))))
    ∙ ap
        (λ x.
          format_date x
          ++ codes "T"
          ++ format_time (s % 86400)
          ++ codes "."
          ++ pad 3 (decimal m)
          ++ codes "Z")
        (sym (civil_date_same (s / 86400)))

-- The log and the carrier's events print the same time, but that the log has its milliseconds and the
-- letter Z; a time before 1970 is logged as the first of 1970.
pub iso8601_millis-format_timestamp :
    (t : ℤ)
    → iso8601_millis t
      ≡ format_timestamp (pos (since_epoch t / 1000000))
        ++ codes "."
        ++ pad 3 (decimal (since_epoch t / 1000000 % 1000))
        ++ codes "Z"
unfolding iso8601_millis format_timestamp
iso8601_millis-format_timestamp t =
    logged-stamped (since_epoch t / 1000000000) (since_epoch t % 1000000000 / 1000000)
    ∙ ap₂ stamped (secs_of (since_epoch t)) (millis_of (since_epoch t))
  where
    secs_of : (n : ℕ) → n / 1000000000 ≡ n / 1000000 / 1000
    secs_of n = omega arith

    millis_of : (n : ℕ) → n % 1000000000 / 1000000 ≡ n / 1000000 % 1000
    millis_of n = omega arith
