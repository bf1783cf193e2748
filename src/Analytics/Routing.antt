-- ===== src/Analytics/Routing.antt =====
-- frontend/src/lib/analyticsApi.ts: `handleAnalyticsRoute`.
pub mod Statuses
use accord_protocol.Prelude.{
  ℕ, Bool, true, false, not, ◌&&◌, List, [], ◌∷◌, ◌++◌, ◌==◌, if◌then◌else◌,
}
use accord_protocol.Prelude.Text.{Text, codes, text_eq}
use accord_protocol.Analytics.Js.{Js}
use accord_protocol.Analytics.Query.{Params, create_error_response}
use accord_protocol.Analytics.Endpoints.{AnalyticsContext, AnalyticsApiResponse, ok, failed}
use accord_protocol.Analytics.Spending.{
  CategorySpendBucket, OwnerSpendBucket, handle_get_spend_by_category, handle_get_spend_by_owner,
}
use accord_protocol.Analytics.Treasury.{
  TreasurySummary, TreasuryBalance, handle_get_stats_summary, handle_get_treasury_balance,
}
use accord_protocol.Analytics.Flow.{TreasuryFlowBucket, handle_get_treasury_flow}

-- The data of the five endpoints.
pub data Payload (Amount : Type 0) : Type 0 where
  summary : TreasurySummary → Payload Amount
  by_category : List (CategorySpendBucket Amount) → Payload Amount
  by_owner : List OwnerSpendBucket → Payload Amount
  balance : TreasuryBalance → Payload Amount
  flow : List TreasuryFlowBucket → Payload Amount

abbrev pub with_payload {ℓ κ} :
    {A : Type ℓ} {B : Type κ} → (A → B) → AnalyticsApiResponse A → AnalyticsApiResponse B
with_payload f (ok a) = ok (f a)
with_payload f (failed status error) = failed status error

abbrev pub is_nil : Text → Bool
is_nil [] = true
is_nil (c ∷ s) = false

-- `pathname.replace(/\/+$/, "")`.
unfoldable pub strip_slashes : Text → Text
strip_slashes [] = []
strip_slashes (c ∷ s) =
    let rest = strip_slashes s in if c == 47 && is_nil rest then [] else c ∷ rest

unfoldable pub normalized_path : Text → Text
unfolding strip_slashes
normalized_path pathname =
    let path = strip_slashes pathname in if is_nil path then codes "/" else path

abbrev pub not_found {ℓ} : {B : Type ℓ} → Text → AnalyticsApiResponse B
not_found pathname =
    failed 404
      (create_error_response "NOT_FOUND" (codes "Endpoint " ++ (pathname ++ codes " not found")) [])

module _ {Amount : Type 0} (js : Js Amount) where
  unfoldable pub handle_analytics_route :
      (method pathname : Text) → Params → AnalyticsContext → AnalyticsApiResponse (Payload Amount)
  unfolding normalized_path
  handle_analytics_route method pathname params context =
      let path = normalized_path pathname in
      if not (text_eq (js.to_upper method) (codes "GET"))
      then failed 405 (
          create_error_response "METHOD_NOT_ALLOWED"
            (codes "HTTP method " ++ (method ++ codes " not allowed")) [])
      else if text_eq path (codes "/stats/summary")
      then with_payload summary (handle_get_stats_summary js params context)
      else if text_eq path (codes "/spend/by-category")
      then with_payload by_category (handle_get_spend_by_category js params context)
      else if text_eq path (codes "/spend/by-owner")
      then with_payload by_owner (handle_get_spend_by_owner js params context)
      else if text_eq path (codes "/treasury/balance")
      then with_payload balance (handle_get_treasury_balance js params context)
      else if text_eq path (codes "/treasury/flow")
      then with_payload flow (handle_get_treasury_flow js params context)
      else not_found pathname
