-- ===== src/Analytics/Flow/Months.antt =====
-- Where months begin and end.
use accord_protocol.Prelude.{
  List, [], ◌∷◌, All, length, ℕ, zero, suc, ◌+◌, ◌-◌, ◌*◌, ◌/◌, ◌%◌, ◌≤◌, ◌<◌, ◌≡◌, sym, ap, ◌∙◌,
  inl, inr, arith, leb, false, if◌then◌else◌, Bool-cases,
}
use accord_protocol.Calendar.{
  Date, date_of, day_of, utc, days_before, days_before_month, month_lengths, february,
}
use accord_protocol.Calendar.Years.{year_of_mono, days_before-suc}
use accord_protocol.Calendar.Months.{month_length, days_before_month-suc, sum-month_lengths}
use accord_protocol.Calendar.Civil.{IsValid, date_of-IsValid, day_of-date_of, date_of-day_of}
use accord_protocol.Analytics.Range.{by_month}
use accord_protocol.Analytics.Range.Parsing.{utc-date, IsValid-IsShort}
use accord_protocol.Analytics.Flow.{bucket_day}

-- A day of a year that `Date.UTC` takes as it is.
abbrev pub IsLate : ℕ → Type 0
IsLate n = 100 ≤ (date_of n).year

pub IsLate-mono : (n m : ℕ) → n ≤ m → IsLate n → IsLate m
unfolding date_of
IsLate-mono n m h l = omega (arith, year_of_mono n m h)

pub utc_self : (n : ℕ) → IsLate n → utc (date_of n).year (date_of n).month (date_of n).day ≡ n
utc_self n l = utc-date (date_of n) (date_of-IsValid n) l ∙ day_of-date_of n

-- The first day of a date's month.
unfoldable pub month_first : Date → Date
month_first t = record { year = t.year; month = t.month; day = 1 }

pub month_first-IsValid : (t : Date) → IsValid t → IsValid (month_first t)
unfolding month_first
month_first-IsValid t v = record { month_in = v.month_in; day_in = omega (arith, v.day_in) }

utc-month : (t : Date) → IsValid t → 100 ≤ t.year → utc t.year t.month 1 ≡ day_of (month_first t)
unfolding month_first
utc-month t v h = utc-date (month_first t) (month_first-IsValid t v) h

-- The first day of the month with index `k` of the year `y`, or of the year after it.
month_start : (y k : ℕ) → ℕ
month_start y k =
    days_before ((12 * y + k) / 12)
    + days_before_month (month_lengths ((12 * y + k) / 12)) ((12 * y + k) % 12)

pub after_month : (y k : ℕ) → ℕ
after_month y k =
    days_before y + days_before_month (month_lengths y) k + month_length (month_lengths y) k

month_start-inside : (y k : ℕ) → k < 11 → month_start y (suc k) ≡ after_month y k
unfolding month_start after_month
month_start-inside y k h =
    let d : (12 * y + suc k) / 12 ≡ y = omega arith in
    let r : (12 * y + suc k) % 12 ≡ suc k = omega arith in
    rw d (rw r (omega (arith, days_before_month-suc (month_lengths y) k)))

month_start-december : (y : ℕ) → month_start y 12 ≡ after_month y 11
unfolding month_start after_month days_before_month
month_start-december y =
    let d : (12 * y + 12) / 12 ≡ suc y = omega arith in
    let r : (12 * y + 12) % 12 ≡ 0 = omega arith in
    rw d (rw r (omega (arith, days_before-suc y, sum-month_lengths y)))

not_early : (y : ℕ) → 100 ≤ y → leb y 99 ≡ false
not_early y h = ground arith

suc_pred : (m : ℕ) → 1 ≤ m → m ≡ suc (m - 1)
suc_pred m h = omega arith

counted_months :
    (y m : ℕ)
    → days_before ((12 * y + (m + 1) - 1) / 12)
        + days_before_month
            (month_lengths ((12 * y + (m + 1) - 1) / 12))
            ((12 * y + (m + 1) - 1) % 12)
        + 1
        - 1
      ≡ month_start y m
unfolding month_start
counted_months y m = let e : 12 * y + (m + 1) - 1 ≡ 12 * y + m = omega arith in rw e (omega arith)

utc-month_start : (y m : ℕ) → utc y (m + 1) 1 ≡ month_start (if leb y 99 then 1900 + y else y) m
unfolding utc month_start
utc-month_start y m = counted_months (if leb y 99 then 1900 + y else y) m

month_start-next : (y m : ℕ) → 1 ≤ m → m ≤ 12 → month_start y m ≡ after_month y (m - 1)
month_start-next y m h k = elim (Bool-cases (leb m 11)) [
  | inl inside ↦ ap (month_start y) (suc_pred m h) ∙ month_start-inside y (m - 1) (ground arith)
  | inr december ↦
      let e : m ≡ 12 = ground arith in
      ap (month_start y) e ∙ month_start-december y ∙ ap (λ (x : ℕ). after_month y (x - 1)) (sym e)
]

-- The first day of the next month.
pub utc-next :
    (t : Date)
    → IsValid t
    → 100 ≤ t.year
    → utc t.year (t.month + 1) 1 ≡ after_month t.year (t.month - 1)
unfolding utc
utc-next t v h =
    let s = IsValid-IsShort t v in
    utc-month_start t.year t.month
    ∙ rw (not_early t.year h) (month_start-next t.year t.month v.month_in s.month_le)

pub bucket_day-month : (n : ℕ) → IsLate n → bucket_day by_month n ≡ day_of (month_first (date_of n))
unfolding bucket_day
bucket_day-month n l = utc-month (date_of n) (date_of-IsValid n) l

pub month_first-le : (n : ℕ) → day_of (month_first (date_of n)) ≤ n
unfolding month_first day_of
month_first-le n = omega (arith, day_of-date_of n)

pub before_next : (n : ℕ) → n < after_month (date_of n).year ((date_of n).month - 1)
unfolding after_month day_of
before_next n = omega (arith, day_of-date_of n, (date_of-IsValid n).day_in)

month_length-ge :
    (ls : List ℕ) (k : ℕ) → All (λ l. 1 ≤ l) ls → k < length ls → 1 ≤ month_length ls k
month_length-ge [] k h lt = absurd (omega arith)
month_length-ge (l ∷ ls) zero h lt = h.0
month_length-ge (l ∷ ls) (suc k) h lt = month_length-ge ls k h.1 (omega arith)

february-ge : (y : ℕ) → 1 ≤ february y
unfolding february
february-ge y = ground arith

-- The first of a month.
date_first : (y m : ℕ) → Date
date_first y m = record { year = y; month = m; day = 1 }

date_first-IsValid : (y m : ℕ) → 1 ≤ m → m ≤ 12 → IsValid (date_first y m)
unfolding date_first
date_first-IsValid y m h k = record {
  month_in = h;
  day_in = (
    omega arith,
    month_length-ge (month_lengths y) (m - 1) (omega (arith, february-ge y)) (omega arith),
  );
}

-- The day after a month is the first of one.
record IsFirst (n : ℕ) : Type 0 where
  year : ℕ
  month : ℕ
  month_in : (1 ≤ month) × (month ≤ 12)
  same : day_of (date_first year month) ≡ n

after_month-IsFirst : (y k : ℕ) → k ≤ 11 → IsFirst (after_month y k)
unfolding date_first day_of after_month days_before_month
after_month-IsFirst y k h = elim (Bool-cases (leb k 10)) [
  | inl inside ↦ record {
    year = y;
    month = k + 2;
    month_in = ground arith;
    same =
        let e : k + 2 - 1 ≡ suc k = omega arith in
        rw e (omega (arith, days_before_month-suc (month_lengths y) k));
  }
  | inr december ↦ record {
    year = suc y;
    month = 1;
    month_in = omega arith;
    same =
        let e : k ≡ 11 = ground arith in
        rw e (omega (arith, days_before-suc y, sum-month_lengths y));
  }
]

IsFirst-bucket_day : (n : ℕ) → IsLate n → IsFirst n → bucket_day by_month n ≡ n
unfolding month_first date_first
IsFirst-bucket_day n l f =
    let d = date_first f.year f.month in
    let here : date_of n ≡ date_first f.year f.month =
      ap date_of (sym f.same)
      ∙ date_of-day_of (date_first f.year f.month)
          (date_first-IsValid f.year f.month f.month_in.0 f.month_in.1) in
    bucket_day-month n l ∙ ap (λ (t : Date). day_of (month_first t)) here ∙ f.same

pub starts_month :
    (n : ℕ)
    → IsLate n
    → bucket_day by_month (after_month (date_of n).year ((date_of n).month - 1))
      ≡ after_month (date_of n).year ((date_of n).month - 1)
starts_month n l =
    let s = IsValid-IsShort (date_of n) (date_of-IsValid n) in
    IsFirst-bucket_day _ (IsLate-mono n _ (omega (arith, before_next n)) l)
      (after_month-IsFirst (date_of n).year ((date_of n).month - 1) (omega (arith, s.month_le)))

-- The date of a day `m` in the month of `t`.
later_in : Date → ℕ → Date
later_in t m = record { year = t.year; month = t.month; day = suc (m - day_of (month_first t)) }

in_month :
    (t : Date) (m : ℕ)
    → IsValid t
    → day_of (month_first t) ≤ m
    → m < after_month t.year (t.month - 1)
    → (day_of (later_in t m) ≡ m) × IsValid (later_in t m)
unfolding later_in month_first day_of after_month
in_month t m v h k = (omega arith, record { month_in = v.month_in; day_in = omega arith })

IsLate-of : (t : Date) (m : ℕ) → 100 ≤ t.year → date_of m ≡ later_in t m → IsLate m
unfolding later_in
IsLate-of t m l e = rw e l

-- The days of one month have its first day.
pub bucket_day-month_same :
    (n m : ℕ)
    → IsLate n
    → day_of (month_first (date_of n)) ≤ m
    → m < after_month (date_of n).year ((date_of n).month - 1)
    → bucket_day by_month m ≡ bucket_day by_month n
unfolding later_in month_first
bucket_day-month_same n m l h k =
    let (here, valid) = in_month (date_of n) m (date_of-IsValid n) h k in
    let e : date_of m ≡ later_in (date_of n) m =
      ap date_of (sym here) ∙ date_of-day_of (later_in (date_of n) m) valid in
    bucket_day-month m (IsLate-of (date_of n) m l e)
    ∙ ap (λ (u : Date). day_of (month_first u)) e
    ∙ sym (bucket_day-month n l)
