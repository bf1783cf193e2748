-- ===== src/Analytics/Range.antt =====
-- frontend/src/lib/analyticsRange.ts. A time at midnight UTC, in the source a count of
-- milliseconds, is its day here, so that a multiple of MS_PER_DAY is a number of days. `now` is the
-- day of the instant passed in, `maxDays` a whole number.
pub mod Parsing
pub mod Days
pub mod Clamping
pub mod Presets
use accord_protocol.Prelude.{
  ℕ, suc, ◌+◌, ◌-◌, ◌*◌, Bool, true, false, ◌&&◌, Option, none, some, List, [], ◌∷◌, ◌++◌, ltb, leb,
  ◌==◌, if◌then◌else◌, not, ◌||◌, String,
}
use accord_protocol.Prelude.Text.{Text, codes, is_digit, trim, decimal, text_eq}
use accord_protocol.Calendar.{date_of, utc}
use accord_protocol.Calendar.Iso.{iso}

pub record DateRange : Type 0 where
  pub start_date : Text
  pub end_date : Text

pub data RangePreset : Type 0 where
  days_7 days_30 days_90 ytd all : RangePreset

abbrev pub default_range_preset : RangePreset
default_range_preset = days_30

pub data AnalyticsGranularity : Type 0 where
  by_day by_week by_month : AnalyticsGranularity

-- The groups of DATE_ONLY, as numbers.
unfoldable pub date_only : Text → Option (ℕ × ℕ × ℕ)
date_only (a ∷ b ∷ c ∷ d ∷ e ∷ f ∷ g ∷ h ∷ i ∷ j ∷ []) =
    if is_digit a
      && is_digit b
      && is_digit c
      && is_digit d
      && e == 45
      && is_digit f
      && is_digit g
      && h == 45
      && is_digit i
      && is_digit j
    then some (
      (a - 48) * 1000 + (b - 48) * 100 + (c - 48) * 10 + (d - 48),
      (f - 48) * 10 + (g - 48),
      (i - 48) * 10 + (j - 48),
    )
    else none
date_only _ = none

-- A day is kept if it prints as it was read: this rejects the days that rolled over.
abbrev pub kept : Text → Option (ℕ × ℕ × ℕ) → Option ℕ
kept value none = none
kept value (some (y, m, d)) = if text_eq (iso (utc y m d)) value then some (utc y m d) else none

unfoldable pub parse_date_only : Text → Option ℕ
parse_date_only value = kept value (date_only value)

abbrev range : Text → Text → DateRange
range s e = record { start_date = s; end_date = e }

abbrev pub preset_days : RangePreset → ℕ
preset_days days_7 = 7
preset_days days_30 = 30
preset_days days_90 = 90
preset_days _ = 0

-- Here `now` is not in the first 89 days of the year 0, where the subtraction would stop.
unfoldable pub get_preset_range : RangePreset → (now : ℕ) → DateRange
get_preset_range ytd now = range (decimal (date_of now).year ++ codes "-01-01") (iso now)
get_preset_range all now = range [] []
get_preset_range preset now = range (iso (now - (preset_days preset - 1))) (iso now)

unfoldable pub get_default_range : (now : ℕ) → DateRange
get_default_range now = get_preset_range default_range_preset now

-- An absent bound is `none`.
pub record RangeBounds : Type 0 where
  pub min : Option Text
  pub max : Option Text
  pub max_days : Option ℕ

pub data RangeValidation : Type 0 where
  valid : DateRange → RangeValidation
  invalid : (reason : String) → RangeValidation

abbrev pub is_empty : Text → Bool
is_empty [] = true
is_empty (c ∷ s) = false

-- `text ? parseDateOnly(text) : null`.
unfoldable pub parse_bound : Text → Option ℕ
parse_bound s = if is_empty s then none else parse_date_only s

abbrev pub missing : Text → Option ℕ → Bool
missing s none = not (is_empty s)
missing s (some n) = false

abbrev pub after : Option ℕ → Option ℕ → Bool
after (some s) (some e) = ltb e s
after _ _ = false

unfoldable pub validate_date_range : DateRange → RangeValidation
validate_date_range r =
    let start = parse_bound r.start_date in
    let end = parse_bound r.end_date in
    if missing r.start_date start
    then invalid "startDate must be a valid yyyy-mm-dd date"
    else if missing r.end_date end
    then invalid "endDate must be a valid yyyy-mm-dd date"
    else if after start end
    then invalid "startDate must be before or equal to endDate"
    else valid r

abbrev pub optional : Option Text → Text
optional none = []
optional (some s) = s

abbrev pub raise : Option ℕ → Option ℕ → Option ℕ
raise (some lo) (some n) = some (if ltb n lo then lo else n)
raise _ o = o

abbrev pub lower : Option ℕ → Option ℕ → Option ℕ
lower (some hi) (some n) = some (if ltb hi n then hi else n)
lower _ o = o

-- `if (start !== null && end !== null && start > end) [start, end] = [end, start]`.
abbrev pub ordered : Option ℕ × Option ℕ → Option ℕ × Option ℕ
ordered (start, end) = if after start end then (end, start) else (start, end)

-- The start that a range of at most `max_days` days can have.
abbrev pub shorten : Option ℕ → Option ℕ → Option ℕ → Option ℕ
shorten (some days) (some s) (some e) =
    some (if leb 1 days && ltb (days - 1 + s) e then e - (days - 1) else s)
shorten _ s _ = s

-- The days that `clampDateRange` computes from the days of the range and of the bounds.
unfoldable pub clamp_days :
    Option ℕ × Option ℕ → (min max max_days : Option ℕ) → Option ℕ × Option ℕ
clamp_days r min max max_days =
    let (s, e) = ordered r in
    let end = lower max (raise min e) in (shorten max_days (lower max (raise min s)) end, end)

abbrev pub format : Option ℕ → Text
format none = []
format (some n) = iso n

unfoldable pub clamp_date_range : DateRange → RangeBounds → DateRange
clamp_date_range r b =
    let (start, end) =
      clamp_days (parse_bound r.start_date, parse_bound r.end_date) (parse_bound (optional b.min))
        (parse_bound (optional b.max)) b.max_days in
    range (format start) (format end)

-- What `GRANULARITY_ALIASES[key]` is when it is not undefined: an alias's value, or one of the two
-- members that an object inherits under a name in lower case.
pub data Alias : Type 0 where
  alias : AnalyticsGranularity → Alias
  object_constructor object_prototype : Alias

unfoldable pub granularity_alias : Text → Option Alias
granularity_alias s =
    if text_eq s (codes "day") || text_eq s (codes "daily")
    then some (alias by_day)
    else if text_eq s (codes "week") || text_eq s (codes "weekly")
    then some (alias by_week)
    else if text_eq s (codes "month") || text_eq s (codes "monthly")
    then some (alias by_month)
    else if text_eq s (codes "constructor")
    then some object_constructor
    else if text_eq s (codes "__proto__")
    then some object_prototype
    else none

-- The days between the bounds, in JavaScript's numbers, may be negative or 0; `e - s` stops at 0,
-- which is a day's range too.
abbrev suggested : Option ℕ → Option ℕ → AnalyticsGranularity
suggested (some s) (some e) =
    let days = e - s + 1 in
    if leb days 31 then by_day else if leb days 180 then by_week else by_month
suggested _ _ = by_month

unfoldable pub suggest_granularity : DateRange → AnalyticsGranularity
suggest_granularity r = suggested (parse_bound r.start_date) (parse_bound r.end_date)

pub record RangeQuery : Type 0 where
  pub start_date : Option Text
  pub end_date : Option Text
  pub granularity : Option Alias

abbrev given : Text → Option Text
given s = if is_empty s then none else some s

-- `to_lower` is `String.prototype.toLowerCase`.
module _ (to_lower : Text → Text) where
  unfoldable pub to_api_granularity : Text → Option Alias
  to_api_granularity choice = granularity_alias (to_lower (trim choice))

  unfoldable pub build_range_query : DateRange → Option Text → RangeQuery
  build_range_query r granularity = record {
    start_date = given r.start_date;
    end_date = given r.end_date;
    granularity =
        if is_empty (optional granularity) then none else to_api_granularity (optional granularity);
  }
