-- ===== src/Analytics/Treasury.antt =====
-- frontend/src/lib/analyticsApi.ts: `handleGetStatsSummary` and `handleGetTreasuryBalance`. A token
-- that names a member of `Object.prototype` is not modelled: the objects here have only their own
-- keys, in the order in which they came.
pub mod Current
pub mod Latest
use accord_protocol.Prelude.{
  ℕ, ◌+◌, ◌-◌, Bool, true, false, not, ◌&&◌, Option, none, some, List, [], ◌∷◌, ltb, leb, length,
  if◌then◌else◌, map,
}
use accord_protocol.Prelude.Text.{Text, text_eq}
use accord_protocol.Proposals.{is_active}
use accord_protocol.Prelude.Sort.{sort}
use accord_protocol.Analytics.Js.{Js, get, update}
use accord_protocol.Analytics.Query.{ParsedAnalyticsQuery, Params, non_empty}
use accord_protocol.Analytics.Endpoints.{
  Proposal, TreasuryDeposit, BalanceSnapshot, AnalyticsContext, AnalyticsApiResponse, at_seconds,
  or_xlm, is_spent, filtered, filter, in_date_range, ms_per_day, validated,
}

pub record TreasurySummary : Type 0 where
  pub total_disbursed : List (Text × Text)
  pub total_inflows : List (Text × Text)
  pub active_proposals : ℕ
  pub owner_count : ℕ
  pub largest_outflow : Option (Text × Text)

pub record TimeSeriesPoint : Type 0 where
  pub timestamp : Text
  pub points : List (Text × Text)

pub record TreasuryBalance : Type 0 where
  pub balances : List (Text × Text)
  pub time_series : Option (List TimeSeriesPoint)

-- The variables of the first loop of `handleGetStatsSummary`.
pub record Outflows (Amount : Type 0) : Type 0 where
  pub totals_by_token : List (Text × Amount)
  pub largest_outflow : Option (Text × Text)
  pub max_amount : Amount

module _ {Amount : Type 0} (js : Js Amount) where
  -- Here the token filter compares the token as it stands, without its default.
  abbrev pub is_disbursed : ParsedAnalyticsQuery → Proposal → Bool
  is_disbursed query p =
      is_spent p && filtered query.token (text_eq p.token) && in_date_range js p.deadline_ts query

  abbrev pub outflow : Outflows Amount → Proposal → Outflows Amount
  outflow o p =
      let token = or_xlm p.token in
      let amount = js.parse_amount p.amount in
      let totals = update token js.no_amount (λ t. js.add t amount) o.totals_by_token in
      if js.exceeds amount o.max_amount
      then record {
        totals_by_token = totals;
        largest_outflow = some (token, js.print amount);
        max_amount = amount;
      }
      else record o { totals_by_token = totals }

  unfoldable pub outflows : List Proposal → Outflows Amount → Outflows Amount
  outflows [] o = o
  outflows (p ∷ ps) o = outflows ps (outflow o p)

  unfoldable pub inflows :
      ParsedAnalyticsQuery → List TreasuryDeposit → List (Text × Amount) → List (Text × Amount)
  inflows query [] totals = totals
  inflows query (d ∷ ds) totals = inflows query ds (
      if filtered query.token (text_eq (or_xlm d.token)) && in_date_range js d.timestamp query
      then update (or_xlm d.token) js.no_amount (λ t. js.add t (js.parse_amount d.amount)) totals
      else totals)

  abbrev printed : (Amount → Text) → List (Text × Amount) → List (Text × Text)
  printed f [] = []
  printed f ((token, total) ∷ m) = (token, f total) ∷ printed f m

  unfoldable pub handle_get_stats_summary :
      Params → AnalyticsContext → AnalyticsApiResponse TreasurySummary
  unfolding outflows inflows filter
  handle_get_stats_summary params context = validated js params (λ query.
      let start : Outflows Amount = record {
        totals_by_token = [];
        largest_outflow = none;
        max_amount = js.minus_one;
      } in
      let out = outflows (filter (is_disbursed query) context.proposals) start in
      record {
        total_disbursed = printed js.print out.totals_by_token;
        total_inflows = printed js.format_amount (inflows query context.deposits []);
        active_proposals = length (filter (λ (p : Proposal). is_active p.status) context.proposals);
        owner_count = context.owner_count;
        largest_outflow = out.largest_outflow;
      })

  abbrev single : Text → Option Text → List (Text × Text)
  single token none = []
  single token (some amount) = (token, amount) ∷ []

  abbrev picked : Option Text → List (Text × Text) → List (Text × Text)
  picked none balances = balances
  picked (some token) balances = single token (get token balances)

  -- `pick(balances)`.
  abbrev pub pick : ParsedAnalyticsQuery → List (Text × Text) → List (Text × Text)
  pick query balances = picked (non_empty query.token) balances

  abbrev pub sorts_later : BalanceSnapshot → BalanceSnapshot → Bool
  sorts_later a b = ltb b.timestamp a.timestamp

  -- Whether an instant is not after the last millisecond of a day. No instant is when the day could
  -- not be read, which is NaN.
  abbrev pub by_day : ℕ → Option ℕ → Bool
  by_day ts none = false
  by_day ts (some n) = leb ts (n + ms_per_day - 1)

  -- `s.timestamp * 1000 <= endMs`, where `endMs` is the end of the day of `endDate` or Infinity.
  abbrev pub by_end : ParsedAnalyticsQuery → BalanceSnapshot → Bool
  by_end query s = filtered query.end_date (λ e. by_day (at_seconds s.timestamp) (js.date_parse e))

  -- `[...snapshots].reverse().find(test)`: the last snapshot that passes.
  unfoldable pub find_last :
      (BalanceSnapshot → Bool)
      → List BalanceSnapshot
      → Option BalanceSnapshot
      → Option BalanceSnapshot
  find_last test [] found = found
  find_last test (s ∷ ss) found = find_last test ss (if test s then some s else found)

  unfoldable pub current_snapshot : ParsedAnalyticsQuery → AnalyticsContext → Option BalanceSnapshot
  unfolding find_last sort
  current_snapshot query context =
      find_last (by_end query) (sort sorts_later context.balance_snapshots) none

  abbrev current_balances : ParsedAnalyticsQuery → Option BalanceSnapshot → List (Text × Text)
  current_balances query none = []
  current_balances query (some s) = pick query s.balances

  abbrev is_set : Option Bool → Bool
  is_set none = false
  is_set (some b) = b

  abbrev point : ParsedAnalyticsQuery → BalanceSnapshot → TimeSeriesPoint
  point query s = record {
    timestamp = js.to_iso_string (at_seconds s.timestamp);
    points = pick query s.balances;
  }

  unfoldable pub handle_get_treasury_balance :
      Params → AnalyticsContext → AnalyticsApiResponse TreasuryBalance
  unfolding current_snapshot filter
  handle_get_treasury_balance params context = validated js params (λ query. record {
    balances = current_balances query (current_snapshot query context);
    time_series =
        if is_set query.time_series
        then some (
            map (point query) (
              filter (λ (s : BalanceSnapshot). in_date_range js s.timestamp query)
                (sort sorts_later context.balance_snapshots)))
        else none;
  })
