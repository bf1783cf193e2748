-- ===== src/Analytics/Flow.antt =====
-- frontend/src/lib/analyticsApi.ts: `handleGetTreasuryFlow`. The instants at midnight that the code
-- computes with are days here.
pub mod Months
pub mod Buckets
pub mod Covered
use accord_protocol.Prelude.{
  ℕ, zero, suc, ◌+◌, ◌-◌, ◌*◌, ◌/◌, min, max, Bool, true, false, not, ◌&&◌, Option, none, some,
  List, [], ◌∷◌, ◌++◌, ltb, leb, any, if◌then◌else◌, map,
}
use accord_protocol.Prelude.Text.{Text, text_eq, decimal}
use accord_protocol.Calendar.{date_of, utc, since_monday}
use accord_protocol.Analytics.Range.{AnalyticsGranularity, by_day, by_week, by_month}
use accord_protocol.Prelude.Sort.{sort}
use accord_protocol.Analytics.Js.{Js, get, update}
use accord_protocol.Analytics.Query.{ParsedAnalyticsQuery, Params, non_empty}
use accord_protocol.Analytics.Endpoints.{
  Proposal, TreasuryDeposit, AnalyticsContext, AnalyticsApiResponse, at_seconds, ms_per_day, or_xlm,
  is_spent, filtered, in_date_range, validated,
}

-- `bucketStart`, of an instant of the day.
unfoldable pub bucket_day : AnalyticsGranularity → ℕ → ℕ
bucket_day by_day day = let t = date_of day in utc t.year t.month t.day
bucket_day by_week day = let t = date_of day in utc t.year t.month t.day - since_monday day
bucket_day by_month day = let t = date_of day in utc t.year t.month 1

unfoldable pub next_bucket : AnalyticsGranularity → ℕ → ℕ
next_bucket by_day start = start + 1
next_bucket by_week start = start + 7
next_bucket by_month start = let t = date_of start in utc t.year (t.month + 1) 1

pub record Event (Amount : Type 0) : Type 0 where
  pub ms : ℕ
  pub token : Text
  pub inflow : Amount
  pub outflow : Amount

pub record Sums (Amount : Type 0) : Type 0 where
  pub inflow : Amount
  pub outflow : Amount

pub record TreasuryFlowBucket : Type 0 where
  pub timestamp : Text
  pub token : Text
  pub inflow : Text
  pub outflow : Text

-- `new Set(...)`, in the order in which its members came.
unfoldable pub distinct : List Text → (seen : List Text) → List Text
distinct [] seen = []
distinct (t ∷ ts) seen = elim (any (text_eq t) seen) [
  | true ↦ distinct ts seen
  | false ↦ t ∷ distinct ts (t ∷ seen)
]

abbrev least_of : ℕ → List ℕ → ℕ
least_of t [] = t
least_of t (u ∷ us) = least_of (min t u) us

abbrev greatest_of : ℕ → List ℕ → ℕ
greatest_of t [] = t
greatest_of t (u ∷ us) = greatest_of (max t u) us

-- `Math.min(...times)` and `Math.max(...times)`; undefined if there are no times.
abbrev pub least : List ℕ → Option ℕ
least [] = none
least (t ∷ ts) = some (least_of t ts)

abbrev pub greatest : List ℕ → Option ℕ
greatest [] = none
greatest (t ∷ ts) = some (greatest_of t ts)

abbrev optional_list : Option Text → List Text
optional_list none = []
optional_list (some t) = t ∷ []

abbrev pub or_day : Option AnalyticsGranularity → AnalyticsGranularity
or_day none = by_day
or_day (some g) = g

module _ {Amount : Type 0} (js : Js Amount) where
  -- The two loops that push to `events`.
  unfoldable pub deposit_events : ParsedAnalyticsQuery → List TreasuryDeposit → List (Event Amount)
  deposit_events query [] = []
  deposit_events query (d ∷ ds) =
      let rest = deposit_events query ds in
      if filtered query.token (text_eq (or_xlm d.token)) && in_date_range js d.timestamp query
      then record {
        ms = at_seconds d.timestamp;
        token = or_xlm d.token;
        inflow = js.parse_amount d.amount;
        outflow = js.no_amount;
      }
        ∷ rest
      else rest

  unfoldable pub proposal_events : ParsedAnalyticsQuery → List Proposal → List (Event Amount)
  proposal_events query [] = []
  proposal_events query (p ∷ ps) =
      let rest = proposal_events query ps in
      if is_spent p
        && filtered query.token (text_eq (or_xlm p.token))
        && in_date_range js p.deadline_ts query
      then record {
        ms = at_seconds p.deadline_ts;
        token = or_xlm p.token;
        inflow = js.no_amount;
        outflow = js.parse_amount p.amount;
      }
        ∷ rest
      else rest

  unfoldable pub flow_events : ParsedAnalyticsQuery → AnalyticsContext → List (Event Amount)
  unfolding deposit_events proposal_events
  flow_events query context =
      deposit_events query context.deposits ++ proposal_events query context.proposals

  unfoldable pub flow_tokens : ParsedAnalyticsQuery → List (Event Amount) → List Text
  unfolding distinct
  flow_tokens query events =
      distinct (map (λ (e : Event Amount). e.token) events ++ optional_list (non_empty query.token))
        []

  -- `query.startDate ? new Date(query.startDate).getTime() : ...`.
  abbrev pub bound : Option Text → Option ℕ → Option ℕ
  bound none fallback = fallback
  bound (some date) fallback = js.date_parse date

  -- `${start}\u0000${token}`; the start is printed as its day, which tells starts apart as well.
  abbrev pub bucket_key : ℕ → Text → Text
  bucket_key day token = decimal day ++ (0 ∷ token)

  abbrev pub no_sums : Sums Amount
  no_sums = record { inflow = js.no_amount; outflow = js.no_amount }

  abbrev pub summed : Event Amount → Sums Amount → Sums Amount
  summed e s = record { inflow = js.add s.inflow e.inflow; outflow = js.add s.outflow e.outflow }

  unfoldable pub flow_sums :
      AnalyticsGranularity
      → List (Event Amount)
      → List (Text × Sums Amount)
      → List (Text × Sums Amount)
  flow_sums g [] sums = sums
  flow_sums g (e ∷ es) sums =
      flow_sums g es
        (update (bucket_key (bucket_day g (e.ms / ms_per_day)) e.token) no_sums (summed e) sums)

  abbrev or_no_sums : Option (Sums Amount) → Sums Amount
  or_no_sums none = no_sums
  or_no_sums (some s) = s

  abbrev pub bucket_row : List (Text × Sums Amount) → ℕ → Text → TreasuryFlowBucket
  bucket_row sums start token =
      let entry = or_no_sums (get (bucket_key start token) sums) in
      record {
        timestamp = js.to_iso_string (start * ms_per_day);
        token = token;
        inflow = js.format_amount entry.inflow;
        outflow = js.format_amount entry.outflow;
      }

  abbrev pub bucket_rows : List (Text × Sums Amount) → List Text → ℕ → List TreasuryFlowBucket
  bucket_rows sums tokens start = map (bucket_row sums start) tokens

  -- The loop over the buckets, on fuel.
  unfoldable pub flow_loop :
      AnalyticsGranularity
      → List (Text × Sums Amount)
      → List Text
      → (fuel start last : ℕ) → List TreasuryFlowBucket
  flow_loop g sums tokens zero start last = []
  flow_loop g sums tokens (suc fuel) start last = elim (leb start last) [
    | true ↦
        bucket_rows sums tokens start ++ flow_loop g sums tokens fuel (next_bucket g start) last
    | false ↦ []
  ]

  abbrev pub flow_between :
      AnalyticsGranularity
      → List (Event Amount)
      → List Text
      → Option ℕ
      → Option ℕ
      → List TreasuryFlowBucket
  flow_between g events tokens (some from) (some to) =
      let start = bucket_day g (from / ms_per_day) in
      let last = bucket_day g (to / ms_per_day) in
      if ltb to from
      then []
      else flow_loop g (flow_sums g events []) (sort (λ a b. js.code_before b a) tokens)
          (last + 1 - start) start last
  flow_between g events tokens _ _ = []

  abbrev pub flow_of :
      AnalyticsGranularity
      → ParsedAnalyticsQuery
      → List (Event Amount)
      → List Text
      → List TreasuryFlowBucket
  flow_of g query events [] = []
  flow_of g query events (t ∷ ts) =
      let times = map (λ (e : Event Amount). e.ms) events in
      flow_between g events (t ∷ ts) (bound (non_empty query.start_date) (least times))
        (bound (non_empty query.end_date) (greatest times))

  unfoldable pub handle_get_treasury_flow :
      Params → AnalyticsContext → AnalyticsApiResponse (List TreasuryFlowBucket)
  unfolding flow_events flow_tokens flow_sums flow_loop sort
  handle_get_treasury_flow params context = validated js params (λ query.
      let events = flow_events query context in
      flow_of (or_day query.granularity) query events (flow_tokens query events))
