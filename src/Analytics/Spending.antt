-- ===== src/Analytics/Spending.antt =====
-- frontend/src/lib/analyticsApi.ts: `handleGetSpendByCategory` and `handleGetSpendByOwner`.
pub mod Counts
pub mod Owners
use accord_protocol.Prelude.{
  ℕ, ◌+◌, Bool, true, false, not, ◌&&◌, ◌||◌, Option, none, some, List, [], ◌∷◌, ◌++◌, map, any,
  if◌then◌else◌,
}
use accord_protocol.Prelude.Text.{Text, codes, text_eq}
use accord_protocol.Sdk.Types.{ProposalCategory}
use accord_protocol.Prelude.Sort.{sort}
use accord_protocol.Analytics.Js.{Js, get, update}
use accord_protocol.Analytics.Query.{ParsedAnalyticsQuery, Params}
use accord_protocol.Analytics.Endpoints.{
  Proposal, AnalyticsContext, AnalyticsApiResponse, category_or_other, or_xlm, or_default,
  category_text, filtered, filter, mentions, validated, is_counted,
}

-- An entry of the map `totals`; `group` is the category or the owner.
pub record Entry (Group Amount : Type 0) : Type 0 where
  pub group : Group
  pub token : Text
  pub total : Amount
  pub count : ℕ

pub record CategorySpendBucket (Amount : Type 0) : Type 0 where
  pub category : ProposalCategory
  pub token : Text
  pub total : Text
  pub count : ℕ
  pub share : Amount

pub record OwnerSpendBucket : Type 0 where
  pub owner : Text
  pub token : Text
  pub total : Text
  pub count : ℕ

-- `query.token ?? "XLM"`.
abbrev pub zero_token : Option Text → Text
zero_token none = codes "XLM"
zero_token (some t) = t

abbrev pub values {ℓ} : {E : Type ℓ} → List (Text × E) → List E
values [] = []
values ((key, e) ∷ m) = e ∷ values m

abbrev pub same_text : Text → Text
same_text s = s

module _ {Amount : Type 0} (js : Js Amount) where
  module _ {Group : Type 0} (group_of : Proposal → Group) (text_of : Group → Text) where
    -- `${group}\u0000${token}`.
    abbrev pub entry_key : Proposal → Text
    entry_key p = text_of (group_of p) ++ (0 ∷ or_xlm p.token)

    abbrev pub empty_entry : Proposal → Entry Group Amount
    empty_entry p = record {
      group = group_of p;
      token = or_xlm p.token;
      total = js.no_amount;
      count = 0;
    }

    abbrev pub counted : Proposal → Entry Group Amount → Entry Group Amount
    counted p e = record e {
      total = js.add e.total (js.parse_amount p.amount);
      count = e.count + 1;
    }

    -- The loop over the proposals.
    unfoldable pub tally :
        (Proposal → Bool)
        → List Proposal
        → List (Text × Entry Group Amount)
        → List (Text × Entry Group Amount)
    tally is_in [] totals = totals
    tally is_in (p ∷ ps) totals =
        tally is_in ps
          (if is_in p then update (entry_key p) (empty_entry p) (counted p) totals else totals)

  abbrev pub category_of : Proposal → ProposalCategory
  category_of p = category_or_other p.category

  abbrev pub owner_of : Proposal → Text
  owner_of p = or_default (codes "Unknown") p.proposer

  -- `b.total - a.total || a.group.localeCompare(b.group)`, positive.
  abbrev pub sorts_later :
      {Group : Type 0} → (Group → Text) → Entry Group Amount → Entry Group Amount → Bool
  sorts_later text_of a b =
      js.exceeds b.total a.total
      || not (js.exceeds a.total b.total) && js.locale_after (text_of a.group) (text_of b.group)

  unfoldable pub token_totals :
      List (Entry ProposalCategory Amount) → List (Text × Amount) → List (Text × Amount)
  token_totals [] totals = totals
  token_totals (e ∷ es) totals =
      token_totals es (update e.token js.no_amount (λ t. js.add t e.total) totals)

  abbrev or_none : Option Amount → Amount
  or_none none = js.no_amount
  or_none (some a) = a

  abbrev pub category_bucket :
      List (Text × Amount) → Entry ProposalCategory Amount → CategorySpendBucket Amount
  category_bucket by_token r =
      let token_total = or_none (get r.token by_token) in
      record {
        category = r.group;
        token = r.token;
        total = js.format_amount r.total;
        count = r.count;
        share =
            if js.exceeds token_total js.no_amount
            then js.percentage r.total token_total
            else js.no_amount;
      }

  unfoldable pub category_entries :
      AnalyticsContext → ParsedAnalyticsQuery → List (Entry ProposalCategory Amount)
  unfolding tally
  category_entries context query =
      values (tally category_of category_text (is_counted js query) context.proposals [])

  unfoldable pub handle_get_spend_by_category :
      Params → AnalyticsContext → AnalyticsApiResponse (List (CategorySpendBucket Amount))
  unfolding category_entries sort token_totals
  handle_get_spend_by_category params context = validated js params (λ query.
      let entries = category_entries context query in
      map (category_bucket (token_totals entries [])) (sort (sorts_later category_text) entries))

  unfoldable pub owner_entries : AnalyticsContext → ParsedAnalyticsQuery → List (Entry Text Amount)
  unfolding tally
  owner_entries context query =
      values (tally owner_of same_text (is_counted js query) context.proposals [])

  -- The loop over the owners of the context, with the set of the owners that have a row.
  unfoldable pub zero_rows :
      ParsedAnalyticsQuery → (owners with_spend : List Text) → List (Entry Text Amount)
  zero_rows query [] with_spend = []
  zero_rows query (owner ∷ owners) with_spend =
      elim (any (text_eq owner) with_spend
        || not (filtered query.owner (λ o. mentions js o owner))) [
          | true ↦ zero_rows query owners with_spend
          | false ↦
              record {
                group = owner;
                token = zero_token query.token;
                total = js.no_amount;
                count = 0;
              }
              ∷ zero_rows query owners (owner ∷ with_spend)
        ]

  unfoldable pub owner_rows : AnalyticsContext → ParsedAnalyticsQuery → List (Entry Text Amount)
  unfolding owner_entries zero_rows
  owner_rows context query =
      let rows = owner_entries context query in
      rows ++ zero_rows query context.owners (map (λ (r : Entry Text Amount). r.group) rows)

  abbrev pub owner_bucket : Entry Text Amount → OwnerSpendBucket
  owner_bucket r = record {
    owner = r.group;
    token = r.token;
    total = js.format_amount r.total;
    count = r.count;
  }

  unfoldable pub handle_get_spend_by_owner :
      Params → AnalyticsContext → AnalyticsApiResponse (List OwnerSpendBucket)
  unfolding owner_rows sort
  handle_get_spend_by_owner params context =
      validated js params
        (λ query. map owner_bucket (sort (sorts_later same_text) (owner_rows context query)))
