-- ===== src/Analytics/Range/Presets.antt =====
-- The common ranges.
use accord_protocol.Prelude.{ℕ, ◌+◌, ◌-◌, ◌≤◌, ◌≡◌, some, arith}
use accord_protocol.Analytics.Range.{
  RangePreset, preset_days, get_preset_range, parse_bound, days_7, days_30, days_90, ytd, all,
}
use accord_protocol.Analytics.Range.Days.{IsDay}
use accord_protocol.Analytics.Range.Clamping.{parse_bound-format}

-- A range that reads as the days from `start` to `now` and spans exactly N days, both ends counted.
pub record Spans (preset : RangePreset) (now : ℕ) : Type 0 where
  pub start : ℕ
  pub starts : parse_bound (get_preset_range preset now).start_date ≡ some start
  pub ends : parse_bound (get_preset_range preset now).end_date ≡ some now
  pub counted : start + preset_days preset ≡ now + 1

-- The range of each preset "Nd" reads as days, ends today and spans exactly N days, both ends counted, if its days are in the years 100 to 9999.
pub get_preset_range-Spans :
    (preset : RangePreset) (now : ℕ)
    → 1 ≤ preset_days preset
    → preset_days preset ≤ now
    → IsDay (now - (preset_days preset - 1))
    → IsDay now
    → Spans preset now
unfolding get_preset_range
get_preset_range-Spans days_7 now p q h k = record {
  start = now - 6;
  starts = parse_bound-format (some (now - 6)) h;
  ends = parse_bound-format (some now) k;
  counted = omega arith;
}
get_preset_range-Spans days_30 now p q h k = record {
  start = now - 29;
  starts = parse_bound-format (some (now - 29)) h;
  ends = parse_bound-format (some now) k;
  counted = omega arith;
}
get_preset_range-Spans days_90 now p q h k = record {
  start = now - 89;
  starts = parse_bound-format (some (now - 89)) h;
  ends = parse_bound-format (some now) k;
  counted = omega arith;
}
get_preset_range-Spans ytd now p q h k = absurd (omega arith)
get_preset_range-Spans all now p q h k = absurd (omega arith)
