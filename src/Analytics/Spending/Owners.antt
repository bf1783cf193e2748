-- ===== src/Analytics/Spending/Owners.antt =====
-- Owners without spending.
use accord_protocol.Prelude.{
  ◌≡◌, refl, ◌∙◌, subst, Bool, true, false, not, ◌||◌, inl, inr, List, [], ◌∷◌, ◌++◌, map, any,
  arith, Bool-cases,
}
use accord_protocol.Prelude.Text.{Text, text_eq, text_eq_iff}
use accord_protocol.Prelude.Sort.{insert, sort}
use accord_protocol.Analytics.Js.{Js}
use accord_protocol.Analytics.Query.{
  ParsedAnalyticsQuery, Params, success, parse_and_validate_analytics_query,
}
use accord_protocol.Analytics.Endpoints.{AnalyticsContext, ok, filtered, mentions}
use accord_protocol.Analytics.Spending.{
  Entry, OwnerSpendBucket, owner_entries, owner_rows, zero_rows, handle_get_spend_by_owner,
  owner_bucket, sorts_later, same_text,
}

module _ {Amount : Type 0} (js : Js Amount) (owner : Text) where
  abbrev has : List (Entry Text Amount) → Bool
  has [] = false
  has (e ∷ es) = text_eq owner e.group || has es

  abbrev pub has_row : List OwnerSpendBucket → Bool
  has_row [] = false
  has_row (r ∷ rs) = text_eq owner r.owner || has_row rs

  abbrev groups : List (Entry Text Amount) → List Text
  groups es = map (λ (r : Entry Text Amount). r.group) es

  has-append : (es fs : List (Entry Text Amount)) → has (es ++ fs) ≡ (has es || has fs)
  has-append [] fs = refl
  has-append (e ∷ es) fs = ground (arith, has-append es fs)

  has-insert :
      (later : Entry Text Amount → Entry Text Amount → Bool) (e : Entry Text Amount)
      (es : List (Entry Text Amount))
      → has (insert later e es) ≡ has (e ∷ es)
  unfolding insert
  has-insert later e [] = refl
  has-insert later e (f ∷ es) = ground (arith, has-insert later e es)

  has-sort :
      (later : Entry Text Amount → Entry Text Amount → Bool) (es : List (Entry Text Amount))
      → has (sort later es) ≡ has es
  unfolding sort
  has-sort later [] = refl
  has-sort later (e ∷ es) = ground (arith, has-insert later e (sort later es), has-sort later es)

  has-groups : (es : List (Entry Text Amount)) → any (text_eq owner) (groups es) ≡ has es
  has-groups [] = refl
  has-groups (e ∷ es) = ground (arith, has-groups es)

  has_row-map : (es : List (Entry Text Amount)) → has_row (map (owner_bucket js) es) ≡ has es
  has_row-map [] = refl
  has_row-map (e ∷ es) = ground (arith, has_row-map es)

  zero_rows-has_self :
      (query : ParsedAnalyticsQuery) (owners with_spend : List Text)
      → filtered query.owner (λ o. mentions js o owner) ≡ true
      → (any (text_eq owner) with_spend || has (zero_rows js query (owner ∷ owners) with_spend))
        ≡ true
  unfolding zero_rows
  zero_rows-has_self query owners with_spend k =
      elim (Bool-cases (any (text_eq owner) with_spend)) [
        | inl there ↦ rw there refl
        | inr missing ↦
            rw (missing, zero_rows) (rw (k, zero_rows) (rw ((text_eq_iff owner owner).1 refl) refl))
      ]

  -- An owner that passes the filter has a row already, or gets one.
  zero_rows-has :
      (query : ParsedAnalyticsQuery) (owners with_spend : List Text)
      → any (text_eq owner) owners ≡ true
      → filtered query.owner (λ o. mentions js o owner) ≡ true
      → (any (text_eq owner) with_spend || has (zero_rows js query owners with_spend)) ≡ true
  unfolding zero_rows
  zero_rows-has query [] with_spend h k = absurd (cc)
  zero_rows-has query (o ∷ os) with_spend h k = elim (Bool-cases (text_eq owner o)) [
    | inl same ↦
        subst
          (λ (x : Text).
            (any (text_eq owner) with_spend || has (zero_rows js query (x ∷ os) with_spend)) ≡ true)
          ((text_eq_iff owner o).0 same) (zero_rows-has_self query os with_spend k)
    | inr differs ↦
        elim (Bool-cases
          (any (text_eq o) with_spend || not (filtered query.owner (λ f. mentions js f o)))) [
            | inl skipped ↦
                rw (skipped, zero_rows) (zero_rows-has query os with_spend (rw differs at h) k)
            | inr added ↦
                rw (added, zero_rows)
                  (rw differs
                    (rw differs at (zero_rows-has query os (o ∷ with_spend) (rw differs at h) k)))
          ]
  ]

-- Each owner of the context that passes the owner filter has a row, with or without spending.
pub handle_get_spend_by_owner-has_row :
    {Amount : Type 0} (js : Js Amount) (owner : Text) (params : Params) (context : AnalyticsContext)
    (query : ParsedAnalyticsQuery)
    → parse_and_validate_analytics_query js params ≡ success query
    → any (text_eq owner) context.owners ≡ true
    → filtered query.owner (λ o. mentions js o owner) ≡ true
    → (rows : List OwnerSpendBucket) × (handle_get_spend_by_owner js params context ≡ ok rows)
      × (has_row js owner rows ≡ true)
unfolding handle_get_spend_by_owner owner_rows
handle_get_spend_by_owner-has_row js owner params context query h k l =
    let es = owner_rows js context query in
    let sorted = sort (sorts_later js same_text) es in
    (
      map (owner_bucket js) sorted,
      rw h,
      has_row-map js owner sorted
          ∙ has-sort js owner (sorts_later js same_text) es
          ∙ has-append js owner (owner_entries js context query) _
          ∙ rw (← has-groups js owner (owner_entries js context query))
              (zero_rows-has js owner query context.owners _ k l),
    )
