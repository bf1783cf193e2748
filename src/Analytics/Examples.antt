-- ===== src/Analytics/Examples.antt =====
-- Tests of the analytics, and each of its results at an input.
use accord_protocol.Prelude.{
  ℕ, ◌+◌, ◌*◌, ◌/◌, ◌≤◌, ◌<◌, ◌≡◌, refl, ◌↔◌, Bool, false, Option, none, some, List, [], ◌∷◌, arith,
  ltb, if◌then◌else◌, all, map, length,
}
use accord_protocol.Prelude.Number.{Number, nan, nat}
use accord_protocol.Prelude.Text.{Text, codes, text_eq, is_digit, decimal_value, decimal, to_upper}
use accord_protocol.Proposals.{executed, pending, transfer}
use accord_protocol.Sdk.Types.{ProposalCategory, payroll}
use accord_protocol.Calendar.{
  date_of, year_of, year_from, days_before, february, is_leap, month_from, days_before_month, utc,
  since_monday,
}
use accord_protocol.Calendar.Iso.{iso, iso_date}
use accord_protocol.Analytics.Range.{
  DateRange, RangeBounds, days_30, parse_date_only, date_only, parse_bound, clamp_date_range,
  clamp_days, validate_date_range, valid, by_week,
}
use accord_protocol.Analytics.Range.Days.{IsDay}
use accord_protocol.Analytics.Range.Parsing.{parse_date_only_iff}
use accord_protocol.Analytics.Range.Clamping.{
  validate_date_range-clamp_date_range, clamp_date_range-within,
}
use accord_protocol.Analytics.Range.Presets.{Spans, get_preset_range-Spans}
use accord_protocol.Prelude.Text.{digits_value}
use accord_protocol.Prelude.Sort.{sort}
use accord_protocol.Analytics.Js.{Js}
use accord_protocol.Analytics.RateLimit.{create_rate_limiter, passed}
use accord_protocol.Analytics.RateLimit.Bursts.{passed-burst}
use accord_protocol.Analytics.Query.{
  ParsedAnalyticsQuery, Params, search_params, success, created_at, desc, get_param, first_value,
  find_allowed, parse_limit, parse_offset, parse_sort, parse_order, parse_category, parse_status,
  parse_date, check_order, parse_granularity, parse_time_series, parse_and_validate_analytics_query,
}
use accord_protocol.Analytics.Query.Accepted.{
  IsSuccess, IsAcceptable, IsSound, parse_and_validate_analytics_query_iff,
  parse_and_validate_analytics_query-IsSound,
}
use accord_protocol.Analytics.Endpoints.{
  Proposal, BalanceSnapshot, AnalyticsContext, ok, filter, proposal_matches_filters, in_date_range,
  at_seconds, ms_per_day,
}
use accord_protocol.Analytics.Spending.{CategorySpendBucket, handle_get_spend_by_category}
use accord_protocol.Analytics.Spending.Counts.{
  row_counts, counted_proposals, handle_get_spend_by_category-counts,
}
use accord_protocol.Analytics.Flow.{
  Event, TreasuryFlowBucket, flow_tokens, flow_events, flow_sums, distinct, deposit_events,
  proposal_events, bucket_day, bucket_rows, least, greatest, handle_get_treasury_flow,
}
use accord_protocol.Analytics.Flow.Months.{IsLate}
use accord_protocol.Analytics.Flow.Covered.{Holds, handle_get_treasury_flow-Holds}
use accord_protocol.Analytics.Routing.{handle_analytics_route, strip_slashes}
use accord_protocol.Analytics.Routing.Statuses.{status, IsEndpoint, handle_analytics_route-ok_iff}

-- Amounts are whole numbers here, and a text is read if it is of digits only, or a date.
abbrev digits_number : Text → Number
digits_number t = if all is_digit t then nat (decimal_value t) else nan

abbrev midnight : Option ℕ → Option ℕ
midnight none = none
midnight (some n) = some (n * 86400000)

abbrev js : Js ℕ
js = record {
  to_number = digits_number;
  date_parse = λ t. midnight (parse_date_only t);
  to_iso_string = λ ms. decimal ms;
  to_lower = λ t. t;
  to_upper = λ t. map to_upper t;
  locale_after = λ a b. false;
  code_before = λ a b. ltb (length a) (length b);
  parse_amount = decimal_value;
  no_amount = 0;
  minus_one = 0;
  add = λ a b. a + b;
  exceeds = λ a b. ltb b a;
  print = decimal;
  format_amount = decimal;
  percentage = λ a b. a;
}

abbrev year_2026 : DateRange
year_2026 = record { start_date = codes "2026-01-01"; end_date = codes "2026-12-31" }

abbrev bounds : RangeBounds
bounds = record {
  min = some (codes "2026-02-01");
  max = some (codes "2026-06-30");
  max_days = some 30;
}

leap_day : parse_date_only (codes "2026-02-29") ≡ none
unfolding parse_date_only date_only iso iso_date date_of year_of year_from days_before february
    is_leap month_from days_before_month utc
leap_day = refl

parse_date_only_iff_example : (parse_date_only (codes "2026-02-28") ≡ some 740040) ↔ (
    (codes "2026-02-28" ≡ iso 740040)
    × (100 ≤ (date_of 740040).year)
    × ((date_of 740040).year ≤ 9999))
parse_date_only_iff_example = parse_date_only_iff (codes "2026-02-28") 740040

validate_date_range-clamp_date_range_example :
    validate_date_range (clamp_date_range year_2026 bounds)
    ≡ valid (clamp_date_range year_2026 bounds)
validate_date_range-clamp_date_range_example = validate_date_range-clamp_date_range year_2026 bounds

clamp_date_range-within_example :
    (740013 ≤ 740133) × (740133 ≤ 740162) × (740162 ≤ 740162) × (740162 + 1 ≤ 740133 + 30)
unfolding clamp_date_range clamp_days parse_bound parse_date_only date_only iso iso_date date_of
    year_of year_from days_before february is_leap month_from days_before_month utc
clamp_date_range-within_example =
    clamp_date_range-within year_2026 bounds 740133 740162 740013 740162 30 refl refl refl refl refl
      (omega arith) (omega arith)

a-IsDay : (n : ℕ) → 100 ≤ (date_of n).year → (date_of n).year ≤ 9999 → IsDay n
a-IsDay n h k = record { late = h; near = k }

late_2026 : (100 ≤ (date_of 740133).year) × ((date_of 740133).year ≤ 9999)
unfolding date_of year_of year_from days_before
late_2026 = omega arith

late_2026_end : (100 ≤ (date_of 740162).year) × ((date_of 740162).year ≤ 9999)
unfolding date_of year_of year_from days_before
late_2026_end = omega arith

get_preset_range-Spans_example : Spans days_30 740162
get_preset_range-Spans_example =
    get_preset_range-Spans days_30 740162 (omega arith) (omega arith)
      (a-IsDay 740133 late_2026.0 late_2026.1) (a-IsDay 740162 late_2026_end.0 late_2026_end.1)

-- A context with one deposit, two executed transfers and a pending one.
abbrev payment : Proposal
payment = record {
  status = executed;
  kind = transfer;
  token = codes "XLM";
  amount = codes "50";
  category = some payroll;
  proposer = codes "ANA";
  deadline_ts = 1773057600;
}

abbrev donation : Proposal
donation = record payment {
  token = [];
  amount = codes "7";
  category = none;
  proposer = codes "BOB";
  deadline_ts = 1773576000;
}

abbrev snapshot : ℕ → Text → BalanceSnapshot
snapshot timestamp amount = record { timestamp = timestamp; balances = (codes "XLM", amount) ∷ [] }

abbrev context : AnalyticsContext
context = record {
  proposals = payment ∷ record payment { status = pending } ∷ donation ∷ [];
  owner_count = 3;
  owners = codes "ANA" ∷ codes "BOB" ∷ codes "CAR" ∷ [];
  deposits = record { timestamp = 1772366400; token = codes "XLM"; amount = codes "500" } ∷ [];
  balance_snapshots = snapshot 1773057600 (codes "450") ∷ snapshot 1772366400 (codes "500") ∷ [];
}

abbrev params : Params
params =
    search_params
      (("granularity", codes "week") ∷ ("limit", codes "50") ∷ ("limit", codes "x") ∷ [])

abbrev query : ParsedAnalyticsQuery
query = record {
  limit = nat 50;
  offset = nat 0;
  sort = created_at;
  order = desc;
  category = none;
  status = none;
  owner = none;
  token = none;
  start_date = none;
  end_date = none;
  granularity = some by_week;
  time_series = none;
}

accepted : parse_and_validate_analytics_query js params ≡ success query
unfolding parse_and_validate_analytics_query get_param first_value find_allowed parse_limit
    parse_offset parse_sort parse_order parse_category parse_status parse_date check_order
    parse_granularity parse_time_series digits_value decimal_value
accepted = refl

parse_and_validate_analytics_query_iff_example :
    IsSuccess (parse_and_validate_analytics_query js params) ↔ IsAcceptable js params
parse_and_validate_analytics_query_iff_example = parse_and_validate_analytics_query_iff js params

parse_and_validate_analytics_query-IsSound_example : IsSound js query
parse_and_validate_analytics_query-IsSound_example =
    parse_and_validate_analytics_query-IsSound js params query accepted

abbrev is_xlm : ProposalCategory → Text → Bool
is_xlm c t = text_eq t (codes "XLM")

handle_get_spend_by_category-counts_example :
    (rows : List (CategorySpendBucket ℕ)) × (handle_get_spend_by_category js params context
      ≡ ok rows)
    × (row_counts js is_xlm rows ≡ length (counted_proposals js is_xlm query context))
handle_get_spend_by_category-counts_example =
    handle_get_spend_by_category-counts js is_xlm params context query accepted

two_counted : length (counted_proposals js is_xlm query context) ≡ 2
unfolding filter proposal_matches_filters
two_counted = refl

handle_analytics_route-ok_iff_example :
    (status (handle_analytics_route js (codes "get") (codes "/treasury/flow/") params context)
      ≡ 200)
    ↔ ((js.to_upper (codes "get") ≡ codes "GET")
        × IsEndpoint (codes "/treasury/flow/")
        × IsAcceptable js params)
handle_analytics_route-ok_iff_example =
    handle_analytics_route-ok_iff js (codes "get") (codes "/treasury/flow/") params context

routed :
    status (handle_analytics_route js (codes "get") (codes "/treasury/flow/") params context) ≡ 200
unfolding handle_analytics_route strip_slashes handle_get_treasury_flow
routed = rw accepted

late : IsLate 740041
unfolding date_of year_of year_from days_before
late = omega arith

IsLate-monday : IsLate 740049
unfolding date_of year_of year_from days_before
IsLate-monday = omega arith

monday : bucket_day by_week 740054 ≡ 740049
unfolding bucket_day utc since_monday date_of year_of year_from days_before days_before_month
    month_from february is_leap
monday = refl

in_fuel : 740060 < bucket_day by_week 740049 + 20
unfolding bucket_day utc since_monday date_of year_of year_from days_before days_before_month
    month_from february is_leap
in_fuel = omega arith

xlm_only : flow_tokens js query (flow_events js query context) ≡ codes "XLM" ∷ []
unfolding flow_tokens flow_events distinct deposit_events proposal_events in_date_range
xlm_only = refl

abbrev times : List ℕ
times = map (λ (e : Event ℕ). e.ms) (flow_events js query context)

earliest : least times ≡ some 63939585600000
unfolding flow_events deposit_events proposal_events in_date_range at_seconds
earliest = refl

last_time : greatest times ≡ some 63940795200000
unfolding flow_events deposit_events proposal_events in_date_range at_seconds
last_time = refl

-- The week of the payment, between the deposit's and the donation's.
handle_get_treasury_flow-Holds_example :
    (rows : List TreasuryFlowBucket) × (handle_get_treasury_flow js params context ≡ ok rows)
    × Holds rows (
        bucket_rows js
          (flow_sums js by_week (flow_events js query context) [])
          (sort (λ a b. js.code_before b a) (codes "XLM" ∷ []))
          (bucket_day by_week (63940276800000 / ms_per_day)))
handle_get_treasury_flow-Holds_example =
    handle_get_treasury_flow-Holds js params context query (codes "XLM") [] 63939585600000
      63940276800000 63940795200000 accepted xlm_only earliest last_time (omega arith) (omega arith)
      late

passed-burst_example :
    passed 2 (59998 ∷ 59999 ∷ 60000 ∷ 60001 ∷ 60002 ∷ []) (create_rate_limiter 0) ≤ 2 * 2
passed-burst_example =
    passed-burst 2 59998 (59998 ∷ 59999 ∷ 60000 ∷ 60001 ∷ 60002 ∷ []) (create_rate_limiter 0)
      (omega arith)

-- The bound is reached.
burst : passed 2 (59998 ∷ 59999 ∷ 60000 ∷ 60001 ∷ 60002 ∷ []) (create_rate_limiter 0) ≡ 4
unfolding passed create_rate_limiter
burst = refl
