-- ===== src/Calendar.antt =====
-- JavaScript's `Date` in UTC as far as frontend/src/lib uses it: days of the proleptic Gregorian
-- calendar, counted from the first of January of the year 0. (`Date` counts milliseconds from
-- 1970-01-01, which is day 719528 here.)
pub mod Years
pub mod Months
pub mod Civil
pub mod Iso
use accord_protocol.Prelude.{
  ℕ, zero, suc, ◌+◌, ◌-◌, ◌*◌, ◌/◌, ◌%◌, Bool, true, false, not, ◌&&◌, ◌||◌, List, [], ◌∷◌, ltb,
  leb, ◌==◌, if◌then◌else◌,
}

unfoldable pub is_leap : ℕ → Bool
is_leap y = y % 4 == 0 && (not (y % 100 == 0) || y % 400 == 0)

unfoldable pub year_length : ℕ → ℕ
year_length y = if is_leap y then 366 else 365

-- The days of the years before a year.
unfoldable pub days_before : ℕ → ℕ
days_before y = 365 * y + (y + 3) / 4 - (y + 99) / 100 + (y + 399) / 400

-- The first year from `y` on that ends after the day `n`.
unfoldable pub year_from : (fuel y n : ℕ) → ℕ
year_from zero y n = y
year_from (suc fuel) y n = elim (ltb n (days_before (suc y))) [
  | true ↦ y
  | false ↦ year_from fuel (suc y) n
]

-- `getUTCFullYear`: a year has at most 366 days.
unfoldable pub year_of : ℕ → ℕ
year_of n = year_from (suc n) (n / 366) n

unfoldable pub february : ℕ → ℕ
february y = if is_leap y then 29 else 28

abbrev pub month_lengths : ℕ → List ℕ
month_lengths y = 31 ∷ february y ∷ 31 ∷ 30 ∷ 31 ∷ 30 ∷ 31 ∷ 31 ∷ 30 ∷ 31 ∷ 30 ∷ 31 ∷ []

-- The month, from 0, and the day of the month, from 0, of a day of the year.
unfoldable pub month_from : List ℕ → (m r : ℕ) → ℕ × ℕ
month_from [] m r = (m, r)
month_from (l ∷ ls) m r = elim (ltb r l) [ true ↦ (m, r) | false ↦ month_from ls (suc m) (r - l) ]

-- The days of the months before the one with index `m`.
unfoldable pub days_before_month : List ℕ → ℕ → ℕ
days_before_month [] m = 0
days_before_month (l ∷ ls) zero = 0
days_before_month (l ∷ ls) (suc m) = l + days_before_month ls m

pub record Date : Type 0 where
  pub year : ℕ
  pub month : ℕ
  pub day : ℕ

-- `getUTCFullYear`, `getUTCMonth() + 1` and `getUTCDate` of a day.
unfoldable pub date_of : ℕ → Date
date_of n =
    let y = year_of n in
    let found = month_from (month_lengths y) 0 (n - days_before y) in
    record { year = y; month = suc found.0; day = suc found.1 }

unfoldable pub day_of : Date → ℕ
day_of t = days_before t.year + days_before_month (month_lengths t.year) (t.month - 1) + (t.day - 1)

-- `Date.UTC(y, m - 1, d)`, which rolls months and days over and reads a year below 100 as 1900 and
-- more.
unfoldable pub utc : (y m d : ℕ) → ℕ
utc y m d =
    let months = 12 * (if leb y 99 then 1900 + y else y) + m - 1 in
    let year = months / 12 in
    days_before year + days_before_month (month_lengths year) (months % 12) + d - 1

abbrev pub epoch : ℕ
epoch = 719528

-- `(getUTCDay() + 6) % 7`: how many days after a Monday.
unfoldable pub since_monday : ℕ → ℕ
since_monday n = (n + 5) % 7
