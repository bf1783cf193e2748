-- ===== src/Analytics/Query.antt =====
-- frontend/src/lib/analyticsApi.ts: the query parameters that all endpoints share.
pub mod Checks
pub mod Accepted
use accord_protocol.Prelude.{
  ℕ, String, Bool, true, false, not, ◌&&◌, ◌||◌, Option, none, some, List, [], ◌∷◌, ◌++◌, str_eq,
  if◌then◌else◌, ltb, inl, inr, ◌⊎◌,
}
use accord_protocol.Prelude.Number.{Number, nat, is_integer, ltb_number}
use accord_protocol.Prelude.Text.{Text, codes, text_eq, trim}
use accord_protocol.Proposals.{Status, pending, ready, executed, expired, revoked}
use accord_protocol.Sdk.Types.{ProposalCategory, payroll, grant, ops, other}
use accord_protocol.Analytics.Range.{AnalyticsGranularity, by_day, by_week, by_month}
use accord_protocol.Analytics.Js.{Js}

pub data SortField : Type 0 where
  deadline amount created_at : SortField

pub data SortOrder : Type 0 where
  asc desc : SortOrder

pub record ApiErrorDetail : Type 0 where
  pub field : String
  pub message : String
  pub code : String

-- `details` is the empty list where the response has none.
pub record ApiErrorResponse : Type 0 where
  pub code : String
  pub message : Text
  pub details : List ApiErrorDetail

unfoldable pub create_error_response : String → Text → List ApiErrorDetail → ApiErrorResponse
create_error_response code message details = record {
  code = code;
  message = message;
  details = details;
}

unfoldable pub create_validation_error : Text → List ApiErrorDetail → ApiErrorResponse
unfolding create_error_response
create_validation_error message details = create_error_response "VALIDATION_ERROR" message details

pub record ParsedAnalyticsQuery : Type 0 where
  pub limit : Number
  pub offset : Number
  pub sort : SortField
  pub order : SortOrder
  pub category : Option ProposalCategory
  pub status : Option Status
  pub owner : Option Text
  pub token : Option Text
  pub start_date : Option Text
  pub end_date : Option Text
  pub granularity : Option AnalyticsGranularity
  pub time_series : Option Bool

pub data QueryValidationResult : Type 0 where
  success : ParsedAnalyticsQuery → QueryValidationResult
  failure : (status : ℕ) → ApiErrorResponse → QueryValidationResult

-- `undefined`, a `URLSearchParams`, or an object with the text `String(value)` of each value, and
-- `none` for a value that is undefined or null.
pub data Params : Type 0 where
  absent : Params
  search_params : List (String × Text) → Params
  plain : List (String × Option Text) → Params

-- `raw.get(key)`, the first value of the key, and `raw[key]`.
unfoldable pub first_value {ℓ} : {V : Type ℓ} → String → List (String × V) → Option V
first_value key [] = none
first_value key ((k, v) ∷ m) = if str_eq k key then some v else first_value key m

abbrev pub non_empty : Option Text → Option Text
non_empty none = none
non_empty (some []) = none
non_empty (some (c ∷ s)) = some (c ∷ s)

abbrev flatten : Option (Option Text) → Option Text
flatten none = none
flatten (some o) = o

unfoldable pub get_param : Params → String → Option Text
get_param absent key = none
get_param (search_params m) key = non_empty (first_value key m)
get_param (plain m) key = non_empty (flatten (first_value key m))

-- A parameter's value, and the detail that is pushed if it is not allowed.
abbrev pub Checked {ℓ} : Type ℓ → Type ℓ
Checked A = List ApiErrorDetail × A

abbrev detail : String → String → String → List ApiErrorDetail
detail field message code = record { field = field; message = message; code = code } ∷ []

-- `allowed.includes(text)` with the value that the text then is.
unfoldable pub find_allowed {ℓ} : {A : Type ℓ} → List (Text × A) → Text → Option A
find_allowed [] s = none
find_allowed ((t, a) ∷ m) s = if text_eq t s then some a else find_allowed m s

abbrev pub allowed_sort_fields : List (Text × SortField)
allowed_sort_fields =
    (codes "deadline", deadline) ∷ (codes "amount", amount) ∷ (codes "createdAt", created_at) ∷ []

abbrev pub allowed_sort_orders : List (Text × SortOrder)
allowed_sort_orders = (codes "asc", asc) ∷ (codes "desc", desc) ∷ []

abbrev pub allowed_granularities : List (Text × AnalyticsGranularity)
allowed_granularities =
    (codes "day", by_day) ∷ (codes "week", by_week) ∷ (codes "month", by_month) ∷ []

abbrev pub allowed_categories : List (Text × ProposalCategory)
allowed_categories =
    (codes "Transfer", ProposalCategory.transfer)
    ∷ (codes "Payroll", payroll)
    ∷ (codes "Grant", grant)
    ∷ (codes "Ops", ops)
    ∷ (codes "Other", other)
    ∷ []

abbrev pub allowed_statuses : List (Text × Status)
allowed_statuses =
    (codes "pending", pending)
    ∷ (codes "ready", ready)
    ∷ (codes "executed", executed)
    ∷ (codes "expired", expired)
    ∷ (codes "revoked", revoked)
    ∷ []

-- `timeSeries` is a text here, so its tests for booleans never hold.
abbrev pub allowed_time_series : List (Text × Bool)
allowed_time_series = (codes "true", true) ∷ (codes "false", false) ∷ []

abbrev pub or_detail {ℓ} : {A : Type ℓ} → List ApiErrorDetail → A → Option A → Checked A
or_detail d fallback none = (d, fallback)
or_detail d fallback (some a) = ([], a)

abbrev pub some_or_detail {ℓ} : {A : Type ℓ} → List ApiErrorDetail → Option A → Checked (Option A)
some_or_detail d none = (d, none)
some_or_detail d (some a) = ([], some a)

unfoldable pub parse_sort : Option Text → Checked SortField
parse_sort none = ([], created_at)
parse_sort (some t) =
    or_detail (detail "sort" "Sort must be one of: deadline, amount, createdAt" "INVALID_SORT")
      created_at (find_allowed allowed_sort_fields t)

unfoldable pub parse_category : Option Text → Checked (Option ProposalCategory)
parse_category none = ([], none)
parse_category (some t) =
    if text_eq t (codes "all")
    then ([], none)
    else some_or_detail
        (detail "category" "Category must be 'all' or one of: Transfer, Payroll, Grant, Ops, Other"
          "INVALID_CATEGORY")
        (find_allowed allowed_categories t)

unfoldable pub parse_status : Option Text → Checked (Option Status)
parse_status none = ([], none)
parse_status (some t) =
    if text_eq t (codes "all")
    then ([], none)
    else some_or_detail
        (detail "status"
          "Status must be 'all' or one of: pending, ready, executed, expired, revoked"
          "INVALID_STATUS")
        (find_allowed allowed_statuses t)

unfoldable pub parse_granularity : Option Text → Checked (Option AnalyticsGranularity)
parse_granularity none = ([], none)
parse_granularity (some t) =
    some_or_detail
      (detail "granularity" "Granularity must be one of: day, week, month" "INVALID_GRANULARITY")
      (find_allowed allowed_granularities t)

unfoldable pub parse_time_series : Option Text → Checked (Option Bool)
parse_time_series none = ([], none)
parse_time_series (some t) =
    some_or_detail
      (detail "timeSeries" "timeSeries must be a boolean ('true' or 'false')" "INVALID_TIME_SERIES")
      (find_allowed allowed_time_series t)

abbrev pub trimmed : Option Text → Option Text
trimmed none = none
trimmed (some t) = some (trim t)

module _ {Amount : Type 0} (js : Js Amount) where
  unfoldable pub parse_limit : Option Text → Checked Number
  parse_limit none = ([], nat 20)
  parse_limit (some t) =
      let n = js.to_number t in
      if not (is_integer n) || ltb_number n (nat 1) || ltb_number (nat 100) n
      then (detail "limit" "Limit must be an integer between 1 and 100" "INVALID_LIMIT", nat 20)
      else ([], n)

  unfoldable pub parse_offset : Option Text → Checked Number
  parse_offset none = ([], nat 0)
  parse_offset (some t) =
      let n = js.to_number t in
      if not (is_integer n) || ltb_number n (nat 0)
      then (detail "offset" "Offset must be a non-negative integer" "INVALID_OFFSET", nat 0)
      else ([], n)

  unfoldable pub parse_order : Option Text → Checked SortOrder
  parse_order none = ([], desc)
  parse_order (some t) =
      or_detail (detail "order" "Order must be one of: asc, desc" "INVALID_ORDER") desc
        (find_allowed allowed_sort_orders (js.to_lower t))

  abbrev is_some : Option ℕ → Bool
  is_some none = false
  is_some (some n) = true

  unfoldable pub is_valid_iso_date : Text → Bool
  is_valid_iso_date [] = false
  is_valid_iso_date (c ∷ s) = is_some (js.date_parse (c ∷ s))

  unfoldable pub parse_date : List ApiErrorDetail → Option Text → Checked (Option Text)
  parse_date d none = ([], none)
  parse_date d (some t) = if is_valid_iso_date t then ([], some t) else (d, none)

  -- `startMs > endMs`, which NaN makes false.
  abbrev pub later : Option ℕ → Option ℕ → Bool
  later (some s) (some e) = ltb e s
  later _ _ = false

  unfoldable pub check_order : Option Text → Option Text → List ApiErrorDetail
  check_order (some s) (some e) =
      if later (js.date_parse s) (js.date_parse e)
      then detail "startDate" "startDate must be before or equal to endDate" "INVALID_DATE_RANGE"
      else []
  check_order _ _ = []

  abbrev pub result : List ApiErrorDetail → ParsedAnalyticsQuery → QueryValidationResult
  result [] query = success query
  result (d ∷ ds) query =
      failure 400 (create_validation_error (codes "Invalid query parameters") (d ∷ ds))

  abbrev pub start_of : Params → Checked (Option Text)
  start_of raw =
      parse_date
        (detail "startDate" "startDate must be a valid ISO 8601 date or date-time string"
          "INVALID_START_DATE")
        (get_param raw "startDate")

  abbrev pub end_of : Params → Checked (Option Text)
  end_of raw =
      parse_date
        (detail "endDate" "endDate must be a valid ISO 8601 date or date-time string"
          "INVALID_END_DATE")
        (get_param raw "endDate")

  -- All that is pushed to `details`, in its order.
  unfoldable pub query_details : Params → List ApiErrorDetail
  query_details raw =
      (parse_limit (get_param raw "limit")).0
      ++ ((parse_offset (get_param raw "offset")).0
          ++ ((parse_sort (get_param raw "sort")).0
              ++ ((parse_order (get_param raw "order")).0
                  ++ ((parse_category (get_param raw "category")).0
                      ++ ((parse_status (get_param raw "status")).0
                          ++ ((start_of raw).0
                              ++ ((end_of raw).0
                                  ++ (check_order (start_of raw).1 (end_of raw).1
                                      ++ ((parse_granularity (get_param raw "granularity")).0
                                          ++ (parse_time_series
                                              (get_param raw "timeSeries")).0)))))))))

  unfoldable pub query_data : Params → ParsedAnalyticsQuery
  query_data raw = record {
    limit = (parse_limit (get_param raw "limit")).1;
    offset = (parse_offset (get_param raw "offset")).1;
    sort = (parse_sort (get_param raw "sort")).1;
    order = (parse_order (get_param raw "order")).1;
    category = (parse_category (get_param raw "category")).1;
    status = (parse_status (get_param raw "status")).1;
    owner = trimmed (get_param raw "owner");
    token = trimmed (get_param raw "token");
    start_date = (start_of raw).1;
    end_date = (end_of raw).1;
    granularity = (parse_granularity (get_param raw "granularity")).1;
    time_series = (parse_time_series (get_param raw "timeSeries")).1;
  }

  unfoldable pub parse_and_validate_analytics_query : Params → QueryValidationResult
  unfolding query_details query_data
  parse_and_validate_analytics_query raw = result (query_details raw) (query_data raw)
