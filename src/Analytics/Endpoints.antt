-- ===== src/Analytics/Endpoints.antt =====
-- frontend/src/lib/analyticsApi.ts: the records that the endpoints read, their filters, and the
-- response to a query that is refused.
use accord_protocol.Prelude.{
  ℕ, ◌+◌, ◌-◌, ◌*◌, Bool, true, false, not, ◌&&◌, Option, none, some, List, [], ◌∷◌, ltb,
  if◌then◌else◌,
}
use accord_protocol.Prelude.Text.{Text, codes, text_eq, includes}
use accord_protocol.Calendar.{epoch}
use accord_protocol.Proposals.{Status, Kind, executed, transfer}
use accord_protocol.Sdk.Types.{ProposalCategory, payroll, grant, ops, other}
use accord_protocol.Analytics.Js.{Js}
use accord_protocol.Analytics.Query.{
  ParsedAnalyticsQuery, QueryValidationResult, success, failure, ApiErrorResponse, Params,
  non_empty, parse_and_validate_analytics_query,
}

-- The fields of a `Proposal` that the endpoints read. Times are Unix seconds.
pub record Proposal : Type 0 where
  pub status : Status
  pub kind : Kind
  pub token : Text
  pub amount : Text
  pub category : Option ProposalCategory
  pub proposer : Text
  pub deadline_ts : ℕ

pub record TreasuryDeposit : Type 0 where
  pub timestamp : ℕ
  pub token : Text
  pub amount : Text

pub record BalanceSnapshot : Type 0 where
  pub timestamp : ℕ
  pub balances : List (Text × Text)

-- A list that the context leaves out is empty here, as all endpoints take it.
pub record AnalyticsContext : Type 0 where
  pub proposals : List Proposal
  pub owner_count : ℕ
  pub owners : List Text
  pub deposits : List TreasuryDeposit
  pub balance_snapshots : List BalanceSnapshot

pub data AnalyticsApiResponse {ℓ} (A : Type ℓ) : Type ℓ where
  ok : A → AnalyticsApiResponse A
  failed : (status : ℕ) → ApiErrorResponse → AnalyticsApiResponse A

abbrev pub respond {ℓ} :
    {A : Type ℓ} → QueryValidationResult → (ParsedAnalyticsQuery → A) → AnalyticsApiResponse A
respond (success query) f = ok (f query)
respond (failure status error) f = failed status error

abbrev pub ms_per_day : ℕ
ms_per_day = 86400000

-- `seconds * 1000`, as an instant.
unfoldable pub at_seconds : ℕ → ℕ
at_seconds seconds = epoch * ms_per_day + seconds * 1000

-- `category ?? "Other"` and `token || "XLM"`.
abbrev pub category_or_other : Option ProposalCategory → ProposalCategory
category_or_other none = other
category_or_other (some c) = c

abbrev pub or_default : Text → Text → Text
or_default d [] = d
or_default d (c ∷ s) = c ∷ s

abbrev pub or_xlm : Text → Text
or_xlm = or_default (codes "XLM")

abbrev pub category_text : ProposalCategory → Text
category_text ProposalCategory.transfer = codes "Transfer"
category_text payroll = codes "Payroll"
category_text grant = codes "Grant"
category_text ops = codes "Ops"
category_text other = codes "Other"

-- `p.status !== "executed" || p.kind !== "transfer"`, negated.
abbrev is_executed : Status → Bool
is_executed executed = true
is_executed _ = false

abbrev is_transfer : Kind → Bool
is_transfer transfer = true
is_transfer _ = false

abbrev pub is_spent : Proposal → Bool
is_spent p = is_executed p.status && is_transfer p.kind

-- `!filter || test(filter)`.
abbrev pub passes : Option Text → (Text → Bool) → Bool
passes none test = true
passes (some t) test = test t

-- A filter that is absent or the empty text is not applied.
abbrev pub filtered : Option Text → (Text → Bool) → Bool
filtered o test = passes (non_empty o) test

abbrev same_category : Option ProposalCategory → ProposalCategory → Bool
same_category none c = true
same_category (some d) c = text_eq (category_text c) (category_text d)

module _ {ℓ} {A : Type ℓ} where
  unfoldable pub filter : (A → Bool) → List A → List A
  filter p [] = []
  filter p (x ∷ xs) = let rest = filter p xs in if p x then x ∷ rest else rest

module _ {Amount : Type 0} (js : Js Amount) where
  -- A comparison with an instant; with NaN it is false.
  abbrev pub before : ℕ → Option ℕ → Bool
  before ts none = false
  before ts (some n) = ltb ts n

  abbrev pub after_day : ℕ → Option ℕ → Bool
  after_day ts none = false
  after_day ts (some n) = ltb (n + ms_per_day - 1) ts

  unfoldable pub in_date_range : (seconds : ℕ) → ParsedAnalyticsQuery → Bool
  in_date_range seconds query =
      let ts = at_seconds seconds in
      filtered query.start_date (λ s. not (before ts (js.date_parse s)))
      && filtered query.end_date (λ e. not (after_day ts (js.date_parse e)))

  abbrev pub mentions : Text → Text → Bool
  mentions owner s = includes (js.to_lower owner) (js.to_lower s)

  unfoldable pub proposal_matches_filters : Proposal → ParsedAnalyticsQuery → Bool
  unfolding in_date_range
  proposal_matches_filters p query =
      filtered query.token (text_eq (or_xlm p.token))
      && same_category query.category (category_or_other p.category)
      && filtered query.owner (λ o. mentions o p.proposer)
      && in_date_range p.deadline_ts query

  abbrev pub validated {ℓ} :
      {A : Type ℓ} → Params → (ParsedAnalyticsQuery → A) → AnalyticsApiResponse A
  validated params f = respond (parse_and_validate_analytics_query js params) f

  -- The proposals that the two endpoints of spending count.
  abbrev pub is_counted : ParsedAnalyticsQuery → Proposal → Bool
  is_counted query p = is_spent p && proposal_matches_filters p query
