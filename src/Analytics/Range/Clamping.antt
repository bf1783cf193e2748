-- ===== src/Analytics/Range/Clamping.antt =====
-- Ranges that `clampDateRange` returns.
use accord_protocol.Prelude.{
  ℕ, ◌+◌, ◌≤◌, ◌≡◌, refl, false, Option, none, some, [], ◌∷◌, arith, ap, sym, ◌∙◌, Option-cases,
  inl, inr,
}
use accord_protocol.Prelude.Text.{Text}
use accord_protocol.Calendar.Iso.{iso, iso_date}
use accord_protocol.Analytics.Range.{
  DateRange, RangeBounds, valid, parse_date_only, parse_bound, validate_date_range, clamp_days,
  clamp_date_range, format, optional, after, missing, is_empty,
}
use accord_protocol.Analytics.Range.Days.{
  AreDays, BothDays, clamp_days_lem, clamp_days-BothDays, clamp_days-ordered, clamp_days_idem,
  clamp_days-within,
}
use accord_protocol.Analytics.Range.Parsing.{parse_date_only_iff}

-- The bounds of a range, formatted and read again.
is_empty-iso : (n : ℕ) → is_empty (iso n) ≡ false
unfolding iso iso_date
is_empty-iso n = ground arith

pub parse_bound-format : (o : Option ℕ) → AreDays o → parse_bound (format o) ≡ o
unfolding parse_bound
parse_bound-format none h = refl
parse_bound-format (some n) h =
    rw (is_empty-iso n) ((parse_date_only_iff (iso n) n).1 (refl, h.late, h.near))

parse_bound-AreDays : (s : Text) → AreDays (parse_bound s)
unfolding parse_bound
parse_bound-AreDays [] = tt
parse_bound-AreDays (c ∷ s) = elim (Option-cases (parse_date_only (c ∷ s))) [
  | inl e ↦ rw e tt
  | inr (n, e) ↦
      let p = (parse_date_only_iff (c ∷ s) n).0 e in rw e (record { late = p.1; near = p.2 })
]

module _ (r : DateRange) (b : RangeBounds) where
  clamped : Option ℕ × Option ℕ
  clamped =
      clamp_days (parse_bound r.start_date, parse_bound r.end_date) (parse_bound (optional b.min))
        (parse_bound (optional b.max)) b.max_days

  clamped-BothDays : BothDays clamped
  unfolding clamped
  clamped-BothDays =
      rw
        (clamp_days_lem (parse_bound r.start_date) (parse_bound r.end_date)
          (parse_bound (optional b.min)) (parse_bound (optional b.max)) b.max_days)
        (clamp_days-BothDays _ _ _ _ _ (parse_bound-AreDays r.start_date)
          (parse_bound-AreDays r.end_date) (parse_bound-AreDays (optional b.min))
          (parse_bound-AreDays (optional b.max)))

  clamped-ordered : after clamped.0 clamped.1 ≡ false
  unfolding clamped
  clamped-ordered =
      rw
        (clamp_days_lem (parse_bound r.start_date) (parse_bound r.end_date)
          (parse_bound (optional b.min)) (parse_bound (optional b.max)) b.max_days)
        (clamp_days-ordered (parse_bound r.start_date) (parse_bound r.end_date)
          (parse_bound (optional b.min)) (parse_bound (optional b.max)) b.max_days)

  start-clamped : parse_bound (clamp_date_range r b).start_date ≡ clamped.0
  unfolding clamp_date_range clamped
  start-clamped = parse_bound-format clamped.0 clamped-BothDays.0

  end-clamped : parse_bound (clamp_date_range r b).end_date ≡ clamped.1
  unfolding clamp_date_range clamped
  end-clamped = parse_bound-format clamped.1 clamped-BothDays.1

not_missing : (o : Option ℕ) → AreDays o → missing (format o) o ≡ false
unfolding iso iso_date
not_missing none h = refl
not_missing (some n) h = refl

module _ (r : DateRange) (b : RangeBounds) where
  not_missing_start : missing (clamp_date_range r b).start_date (clamped r b).0 ≡ false
  unfolding clamp_date_range clamped
  not_missing_start = not_missing (clamped r b).0 (clamped-BothDays r b).0

  not_missing_end : missing (clamp_date_range r b).end_date (clamped r b).1 ≡ false
  unfolding clamp_date_range clamped
  not_missing_end = not_missing (clamped r b).1 (clamped-BothDays r b).1

abbrev formatted : Option ℕ × Option ℕ → DateRange
formatted d = record { start_date = format d.0; end_date = format d.1 }

-- Whatever is passed in, the range that `clampDateRange` returns passes `validateDateRange`.
pub validate_date_range-clamp_date_range :
    (r : DateRange) (b : RangeBounds)
    → validate_date_range (clamp_date_range r b) ≡ valid (clamp_date_range r b)
unfolding validate_date_range
validate_date_range-clamp_date_range r b = rw (start-clamped r b) (
    rw (end-clamped r b)
      (rw (not_missing_start r b) (rw (not_missing_end r b) (rw (clamped-ordered r b)))))

-- Clamping a clamped range changes nothing.
pub clamp_date_range_idem :
    (r : DateRange) (b : RangeBounds)
    → clamp_date_range (clamp_date_range r b) b ≡ clamp_date_range r b
unfolding clamp_date_range clamp_days clamped
clamp_date_range_idem r b =
    let e =
      clamp_days_idem (parse_bound r.start_date) (parse_bound r.end_date)
        (parse_bound (optional b.min)) (parse_bound (optional b.max)) b.max_days in
    rw (start-clamped r b) (rw (end-clamped r b) (ap formatted e))

-- If both ends and all bounds are there, the earliest allowed day is not after the latest and
-- `maxDays` is at least 1, the range that `clampDateRange` returns is ordered, lies within the bounds and spans at most
-- `maxDays` days, both ends counted.
pub clamp_date_range-within :
    (r : DateRange) (b : RangeBounds) (start end lo hi days : ℕ)
    → parse_bound (clamp_date_range r b).start_date ≡ some start
    → parse_bound (clamp_date_range r b).end_date ≡ some end
    → parse_bound (optional b.min) ≡ some lo
    → parse_bound (optional b.max) ≡ some hi
    → b.max_days ≡ some days
    → lo ≤ hi
    → 1 ≤ days
    → (lo ≤ start) × (start ≤ end) × (end ≤ hi) × (end + 1 ≤ start + days)
unfolding clamped
clamp_date_range-within r b start end lo hi days hs he hl hh hd k l =
    clamp_days-within (parse_bound r.start_date) (parse_bound r.end_date) _ _ _ lo hi days start end
      (sym (start-clamped r b) ∙ hs) (sym (end-clamped r b) ∙ he) hl hh hd k l
