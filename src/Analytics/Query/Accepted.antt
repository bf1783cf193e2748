-- ===== src/Analytics/Query/Accepted.antt =====
-- Which queries are accepted, and what their data is.
use accord_protocol.Prelude.{◌≡◌, refl, ◌↔◌, ◌⊎◌, List, [], ◌∷◌, ◌++◌, subst}
use accord_protocol.Prelude.Text.{codes}
use accord_protocol.Analytics.Js.{Js}
use accord_protocol.Analytics.Query.{
  ApiErrorDetail, ParsedAnalyticsQuery, QueryValidationResult, success, failure, Params, get_param,
  allowed_sort_fields, allowed_sort_orders, allowed_granularities, allowed_categories,
  allowed_statuses, allowed_time_series, query_details, query_data, start_of, end_of,
  parse_and_validate_analytics_query, result, check_order,
}
use accord_protocol.Analytics.Query.Checks.{
  Given, Among, IsLimit, IsOffset, InOrder, IsDate, instant, append-empty, sort_iff, category_iff,
  status_iff, granularity_iff, time_series_iff, order_iff, IsLimit-iff, IsOffset-iff, IsDate-iff,
  dates_iff, parse_date-kept, parse_limit-IsLimit, parse_offset-IsOffset,
}

abbrev pub IsSuccess : QueryValidationResult → Type 0
IsSuccess (success q) = Unit
IsSuccess (failure status e) = ⊥

nil-append {ℓ} : {A : Type ℓ} (xs ys : List A) → xs ≡ [] → ys ≡ [] → xs ++ ys ≡ []
nil-append [] ys h k = k
nil-append (x ∷ xs) ys h k = absurd (cc)

module _ {Amount : Type 0} (js : Js Amount) (raw : Params) where
  -- Each parameter is absent or one of its allowed values; `status` and `category` may be "all".
  pub record IsAcceptable : Type 0 where
    pub limit : Given (λ t. IsLimit (js.to_number t)) (get_param raw "limit")
    pub offset : Given (λ t. IsOffset (js.to_number t)) (get_param raw "offset")
    pub sort : Given (Among allowed_sort_fields) (get_param raw "sort")
    pub order : Given (λ t. Among allowed_sort_orders (js.to_lower t)) (get_param raw "order")
    pub category :
        Given (λ t. (t ≡ codes "all") ⊎ Among allowed_categories t) (get_param raw "category")
    pub status : Given (λ t. (t ≡ codes "all") ⊎ Among allowed_statuses t) (get_param raw "status")
    pub start_date : Given (IsDate js) (get_param raw "startDate")
    pub end_date : Given (IsDate js) (get_param raw "endDate")
    pub dates :
        InOrder (instant js (get_param raw "startDate")) (instant js (get_param raw "endDate"))
    pub granularity : Given (Among allowed_granularities) (get_param raw "granularity")
    pub time_series : Given (Among allowed_time_series) (get_param raw "timeSeries")

  no_details : query_details js raw ≡ [] → IsAcceptable
  unfolding query_details
  no_details h =
      let (limit, h1) = append-empty _ _ h in
      let (offset, h2) = append-empty _ _ h1 in
      let (sort, h3) = append-empty _ _ h2 in
      let (order, h4) = append-empty _ _ h3 in
      let (category, h5) = append-empty _ _ h4 in
      let (status, h6) = append-empty _ _ h5 in
      let (start, h7) = append-empty _ _ h6 in
      let (end, h8) = append-empty _ _ h7 in
      let (dates, h9) = append-empty (check_order js (start_of js raw).1 (end_of js raw).1) _ h8 in
      let (granularity, series) = append-empty _ _ h9 in
      let s : (start_of js raw).1 ≡ get_param raw "startDate" =
        parse_date-kept js _ (get_param raw "startDate") start in
      let e : (end_of js raw).1 ≡ get_param raw "endDate" =
        parse_date-kept js _ (get_param raw "endDate") end in
      record {
        limit = (IsLimit-iff js (get_param raw "limit")).0 limit;
        offset = (IsOffset-iff js (get_param raw "offset")).0 offset;
        sort = (sort_iff (get_param raw "sort")).0 sort;
        order = (order_iff js (get_param raw "order")).0 order;
        category = (category_iff (get_param raw "category")).0 category;
        status = (status_iff (get_param raw "status")).0 status;
        start_date = (IsDate-iff js _ (get_param raw "startDate")).0 start;
        end_date = (IsDate-iff js _ (get_param raw "endDate")).0 end;
        dates =
            (dates_iff js (get_param raw "startDate") (get_param raw "endDate")).0
              (rw s at (rw e at dates));
        granularity = (granularity_iff (get_param raw "granularity")).0 granularity;
        time_series = (time_series_iff (get_param raw "timeSeries")).0 series;
      }

  details-empty : IsAcceptable → query_details js raw ≡ []
  unfolding query_details
  details-empty a =
      let start = (IsDate-iff js _ (get_param raw "startDate")).1 a.start_date in
      let end = (IsDate-iff js _ (get_param raw "endDate")).1 a.end_date in
      let s : (start_of js raw).1 ≡ get_param raw "startDate" =
        parse_date-kept js _ (get_param raw "startDate") start in
      let e : (end_of js raw).1 ≡ get_param raw "endDate" =
        parse_date-kept js _ (get_param raw "endDate") end in
      nil-append _ _ ((IsLimit-iff js (get_param raw "limit")).1 a.limit) (
        nil-append _ _ ((IsOffset-iff js (get_param raw "offset")).1 a.offset) (
          nil-append _ _ ((sort_iff (get_param raw "sort")).1 a.sort) (
            nil-append _ _ ((order_iff js (get_param raw "order")).1 a.order) (
              nil-append _ _ ((category_iff (get_param raw "category")).1 a.category) (
                nil-append _ _ ((status_iff (get_param raw "status")).1 a.status) (
                  nil-append _ _ start (
                    nil-append _ _ end (
                      nil-append _ _
                        (rw s (
                          rw e (
                            (dates_iff js (get_param raw "startDate") (get_param raw "endDate")).1
                              a.dates)))
                        (nil-append _ _
                          ((granularity_iff (get_param raw "granularity")).1 a.granularity)
                          ((time_series_iff (get_param raw "timeSeries")).1 a.time_series))))))))))

result-IsSuccess :
    {Amount : Type 0} (js : Js Amount) (ds : List ApiErrorDetail) (q : ParsedAnalyticsQuery)
    → IsSuccess (result js ds q)
    → ds ≡ []
result-IsSuccess js [] q h = refl
result-IsSuccess js (d ∷ ds) q h = absurd h

result-empty :
    {Amount : Type 0} (js : Js Amount) (ds : List ApiErrorDetail) (q : ParsedAnalyticsQuery)
    → ds ≡ []
    → IsSuccess (result js ds q)
result-empty js [] q h = tt
result-empty js (d ∷ ds) q h = absurd (cc)

-- A query is accepted exactly when each parameter is absent or has an allowed value, where a date is
-- allowed when it is any text that `Date.parse` reads, be it in ISO 8601 or not, and the start is
-- not after the end.
pub parse_and_validate_analytics_query_iff :
    {Amount : Type 0} (js : Js Amount) (raw : Params)
    → IsSuccess (parse_and_validate_analytics_query js raw) ↔ IsAcceptable js raw
unfolding parse_and_validate_analytics_query
parse_and_validate_analytics_query_iff js raw = (
  (λ h. no_details js raw (result-IsSuccess js (query_details js raw) (query_data js raw) h)),
  λ a. result-empty js (query_details js raw) (query_data js raw) (details-empty js raw a),
)

-- What the endpoints rely on in the data of an accepted query.
pub record IsSound {Amount : Type 0} (js : Js Amount) (q : ParsedAnalyticsQuery) : Type 0 where
  pub limit : IsLimit q.limit
  pub offset : IsOffset q.offset
  pub start_date : Given (IsDate js) q.start_date
  pub end_date : Given (IsDate js) q.end_date
  pub dates : InOrder (instant js q.start_date) (instant js q.end_date)

query_data-IsSound :
    {Amount : Type 0} (js : Js Amount) (raw : Params)
    → IsAcceptable js raw
    → IsSound js (query_data js raw)
unfolding query_data
query_data-IsSound js raw a =
    let start = (IsDate-iff js _ (get_param raw "startDate")).1 a.start_date in
    let end = (IsDate-iff js _ (get_param raw "endDate")).1 a.end_date in
    let s : (start_of js raw).1 ≡ get_param raw "startDate" =
      parse_date-kept js _ (get_param raw "startDate") start in
    let e : (end_of js raw).1 ≡ get_param raw "endDate" =
      parse_date-kept js _ (get_param raw "endDate") end in
    record {
      limit = parse_limit-IsLimit js (get_param raw "limit");
      offset = parse_offset-IsOffset js (get_param raw "offset");
      start_date = rw s a.start_date;
      end_date = rw e a.end_date;
      dates = rw s (rw e a.dates);
    }

result-eq-success :
    {Amount : Type 0} (js : Js Amount) (ds : List ApiErrorDetail) (q r : ParsedAnalyticsQuery)
    → result js ds q ≡ success r
    → (ds ≡ []) × (q ≡ r)
result-eq-success js [] q r h = (refl, cc)
result-eq-success js (d ∷ ds) q r h = absurd (cc)

-- The data of an accepted query has a limit from 1 to 100, an offset of at least 0, and dates, where
-- it has any, that can be read and that are in order.
pub parse_and_validate_analytics_query-IsSound :
    {Amount : Type 0} (js : Js Amount) (raw : Params) (q : ParsedAnalyticsQuery)
    → parse_and_validate_analytics_query js raw ≡ success q
    → IsSound js q
unfolding parse_and_validate_analytics_query
parse_and_validate_analytics_query-IsSound js raw q h =
    let (none_pushed, same) = result-eq-success js (query_details js raw) (query_data js raw) q h in
    subst (IsSound js) same (query_data-IsSound js raw (no_details js raw none_pushed))
