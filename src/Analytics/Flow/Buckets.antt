-- ===== src/Analytics/Flow/Buckets.antt =====
-- The buckets divide the days: each day is in one, and the next begins where it ends.
use accord_protocol.Prelude.{ℕ, ◌+◌, ◌-◌, ◌%◌, ◌≤◌, ◌<◌, ◌≡◌, ap, ◌∙◌, arith}
use accord_protocol.Calendar.{Date, date_of, day_of, utc, since_monday}
use accord_protocol.Calendar.Years.{days_before-ge}
use accord_protocol.Calendar.Civil.{date_of-IsValid, day_of-date_of, date_of-day_of, IsIn-year}
use accord_protocol.Analytics.Range.{AnalyticsGranularity, by_day, by_week, by_month}
use accord_protocol.Analytics.Flow.{bucket_day, next_bucket}
use accord_protocol.Analytics.Flow.Months.{
  IsLate, IsLate-mono, utc_self, month_first, month_first-IsValid, utc-next, after_month,
  bucket_day-month, month_first-le, before_next, starts_month, bucket_day-month_same,
}

-- What the loop over the buckets relies on.
pub record IsBucket (g : AnalyticsGranularity) (n : ℕ) : Type 0 where
  pub from : bucket_day g n ≤ n
  pub until : n < next_bucket g (bucket_day g n)
  pub again : bucket_day g (next_bucket g (bucket_day g n)) ≡ next_bucket g (bucket_day g n)

bucket_day-day : (n : ℕ) → IsLate n → bucket_day by_day n ≡ n
unfolding bucket_day
bucket_day-day n l = utc_self n l

bucket_day-week : (n : ℕ) → IsLate n → bucket_day by_week n ≡ n - (n + 5) % 7
unfolding bucket_day since_monday
bucket_day-week n l = ap (λ (d : ℕ). d - (n + 5) % 7) (utc_self n l)

by_day-IsBucket : (n : ℕ) → IsLate n → IsBucket by_day n
unfolding next_bucket
by_day-IsBucket n l =
    let b = bucket_day-day n l in
    record {
      from = omega (arith, b);
      until = omega (arith, b);
      again = rw b (bucket_day-day (n + 1) (IsLate-mono n (n + 1) (omega arith) l));
    }

-- A Monday: week buckets start on it.
week_of :
    (n : ℕ) → 7 ≤ n → n - (n + 5) % 7 + 7 - (n - (n + 5) % 7 + 7 + 5) % 7 ≡ n - (n + 5) % 7 + 7
week_of n h = omega arith

late_ge : (n : ℕ) → IsLate n → 7 ≤ n
late_ge n l = omega (
  arith,
  days_before-ge (date_of n).year,
  (IsIn-year (date_of n) (date_of-IsValid n)).from,
  day_of-date_of n,
)

by_week-IsBucket : (n : ℕ) → IsLate n → IsBucket by_week n
unfolding next_bucket
by_week-IsBucket n l =
    let b = bucket_day-week n l in
    let k = late_ge n l in
    record {
      from = omega (arith, b);
      until = omega (arith, b);
      again =
          rw b
            (bucket_day-week (n - (n + 5) % 7 + 7) (IsLate-mono n _ (omega arith) l) ∙ week_of n k);
    }

-- The bucket after a month's.
ends :
    (n : ℕ)
    → IsLate n
    → next_bucket by_month (bucket_day by_month n)
      ≡ after_month (date_of n).year ((date_of n).month - 1)
unfolding next_bucket month_first
ends n l =
    let v = month_first-IsValid (date_of n) (date_of-IsValid n) in
    let starts : date_of (day_of (month_first (date_of n))) ≡ month_first (date_of n) =
      date_of-day_of (month_first (date_of n)) v in
    ap (next_bucket by_month) (bucket_day-month n l)
    ∙ ap (λ (u : Date). utc u.year (u.month + 1) 1) starts
    ∙ utc-next (month_first (date_of n)) v l

by_month-IsBucket : (n : ℕ) → IsLate n → IsBucket by_month n
by_month-IsBucket n l = record {
  from = rw (bucket_day-month n l) (month_first-le n);
  until = rw (ends n l) (before_next n);
  again = rw (ends n l) (starts_month n l);
}

pub at-IsBucket : (g : AnalyticsGranularity) (n : ℕ) → IsLate n → IsBucket g n
at-IsBucket by_day n l = by_day-IsBucket n l
at-IsBucket by_week n l = by_week-IsBucket n l
at-IsBucket by_month n l = by_month-IsBucket n l

by_week-same :
    (n m : ℕ)
    → IsLate n
    → IsLate m
    → bucket_day by_week n ≤ m
    → m < next_bucket by_week (bucket_day by_week n)
    → bucket_day by_week m ≡ bucket_day by_week n
unfolding next_bucket
by_week-same n m l k h j =
    omega (arith, bucket_day-week n l, bucket_day-week m k, late_ge n l, late_ge m k)

-- A day between the start of a bucket and the start of the next is in the bucket.
pub bucket_day-same :
    (g : AnalyticsGranularity) (n m : ℕ)
    → IsLate n
    → IsLate m
    → bucket_day g n ≤ m
    → m < next_bucket g (bucket_day g n)
    → bucket_day g m ≡ bucket_day g n
unfolding next_bucket
bucket_day-same by_day n m l k h j = omega (arith, bucket_day-day n l, bucket_day-day m k)
bucket_day-same by_week n m l k h j = by_week-same n m l k h j
bucket_day-same by_month n m l k h j =
    bucket_day-month_same n m l (rw (bucket_day-month n l) at h) (rw (ends n l) at j)
