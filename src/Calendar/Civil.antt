-- ===== src/Calendar/Civil.antt =====
-- Days and dates.
use accord_protocol.Prelude.{ℕ, suc, ◌+◌, ◌-◌, ◌≤◌, ◌≡◌, arith, ap, ◌∙◌}
use accord_protocol.Calendar.{
  Date, date_of, day_of, year_of, days_before, month_lengths, month_from, days_before_month,
}
use accord_protocol.Calendar.Years.{IsIn, IsIn-unique, year_of-IsIn, days_before-suc}
use accord_protocol.Calendar.Months.{
  month_length, month_from-start, Splits, month_from-Splits, sum-month_lengths,
  days_before_month-lt-sum,
}

-- A date of the calendar.
pub record IsValid (t : Date) : Type 0 where
  pub month_in : 1 ≤ t.month
  pub day_in : (1 ≤ t.day) × (t.day ≤ month_length (month_lengths t.year) (t.month - 1))

day_of_year :
    (n : ℕ)
    → Splits
        (month_lengths (year_of n))
        0
        (n - days_before (year_of n))
        (month_from (month_lengths (year_of n)) 0 (n - days_before (year_of n)))
day_of_year n =
    let i = year_of-IsIn n in
    month_from-Splits (month_lengths (year_of n)) 0 (n - days_before (year_of n)) (
      rw (sum-month_lengths (year_of n))
        (omega (arith, i.from, i.until, days_before-suc (year_of n))))

module _ (y n : ℕ) (found : ℕ × ℕ) (s : Splits (month_lengths y) 0 (n - days_before y) found) where
  same_month : suc found.0 - 1 ≡ found.0 - 0
  same_month = omega arith

  found_date : Date
  found_date = record { year = y; month = suc found.0; day = suc found.1 }

  day_of-found_date : days_before y ≤ n → day_of found_date ≡ n
  unfolding day_of found_date
  day_of-found_date h = rw same_month (omega (arith, s.sums))

  found_date-IsValid : IsValid found_date
  unfolding found_date
  found_date-IsValid = record {
    month_in = omega arith;
    day_in = (omega arith, rw same_month (omega (arith, s.within)));
  }

pub day_of-date_of : (n : ℕ) → day_of (date_of n) ≡ n
unfolding date_of found_date
day_of-date_of n = day_of-found_date _ n _ (day_of_year n) (year_of-IsIn n).from

pub date_of-IsValid : (n : ℕ) → IsValid (date_of n)
unfolding date_of found_date
date_of-IsValid n = found_date-IsValid _ n _ (day_of_year n)

pub IsIn-year : (t : Date) → IsValid t → IsIn t.year (day_of t)
unfolding day_of
IsIn-year t v = record {
  from = omega arith;
  until = omega (
    arith,
    v.day_in,
    days_before-suc t.year,
    sum-month_lengths t.year,
    days_before_month-lt-sum (month_lengths t.year) (t.month - 1) (t.day - 1)
        (omega (arith, v.day_in)),
  );
}

-- The date of the day `n`, which is in the year `y`.
date_in : (y n : ℕ) → Date
date_in y n =
    let found = month_from (month_lengths y) 0 (n - days_before y) in
    record { year = y; month = suc found.0; day = suc found.1 }

date_in-day_of : (t : Date) → IsValid t → date_in t.year (day_of t) ≡ t
unfolding date_in day_of
date_in-day_of t v =
    let k = t.month - 1 in
    let q = t.day - 1 in
    let ls = month_lengths t.year in
    let e : days_before t.year + days_before_month ls k + q - days_before t.year
        ≡ days_before_month ls k + q =
      omega arith in
    let f = month_from-start ls 0 k q (omega (arith, v.day_in)) in
    ground (arith, ap (month_from ls 0) e, f, v.month_in, v.day_in)

pub date_of-day_of : (t : Date) → IsValid t → date_of (day_of t) ≡ t
unfolding date_of date_in
date_of-day_of t v =
    ap (λ (y : ℕ). date_in y (day_of t))
      (IsIn-unique _ _ _ (year_of-IsIn (day_of t)) (IsIn-year t v))
    ∙ date_in-day_of t v
