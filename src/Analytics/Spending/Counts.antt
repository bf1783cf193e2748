-- ===== src/Analytics/Spending/Counts.antt =====
-- How many proposals the rows of `handleGetSpendByCategory` count.
use accord_protocol.Prelude.{
  ℕ, ◌+◌, ◌≡◌, refl, sym, ◌∙◌, Bool, true, List, [], ◌∷◌, ◌++◌, map, length, All, arith, ◌&&◌,
  if◌then◌else◌, Bool-cases, inl, inr,
}
use accord_protocol.Prelude.Text.{Text, text_eq, text_eq_iff}
use accord_protocol.Sdk.Types.{ProposalCategory, payroll, grant, ops, other}
use accord_protocol.Prelude.Sort.{insert, sort}
use accord_protocol.Analytics.Js.{Js, update}
use accord_protocol.Analytics.Query.{
  ParsedAnalyticsQuery, Params, success, parse_and_validate_analytics_query,
}
use accord_protocol.Analytics.Endpoints.{
  Proposal, AnalyticsContext, ok, or_xlm, category_text, filter, is_counted,
}
use accord_protocol.Analytics.Spending.{
  Entry, CategorySpendBucket, entry_key, empty_entry, counted, tally, values, category_of,
  category_entries, handle_get_spend_by_category, category_bucket, sorts_later, token_totals,
}

module _ {Group Amount : Type 0} (chosen : Group → Text → Bool) where
  -- The counts of the entries with a chosen group and token, added up.
  abbrev counts : List (Entry Group Amount) → ℕ
  counts [] = 0
  counts (e ∷ es) = (if chosen e.group e.token then e.count else 0) + counts es

  counts-insert :
      (later : Entry Group Amount → Entry Group Amount → Bool) (e : Entry Group Amount)
      (es : List (Entry Group Amount))
      → counts (insert later e es) ≡ counts (e ∷ es)
  unfolding insert
  counts-insert later e [] = refl
  counts-insert later e (f ∷ es) = ground (arith, counts-insert later e es)

  counts-sort :
      (later : Entry Group Amount → Entry Group Amount → Bool) (es : List (Entry Group Amount))
      → counts (sort later es) ≡ counts es
  unfolding sort
  counts-sort later [] = refl
  counts-sort later (e ∷ es) =
      omega (arith, counts-insert later e (sort later es), counts-sort later es)

module _ {Group Amount : Type 0} (js : Js Amount) (group_of : Proposal → Group)
    (text_of : Group → Text) (chosen : Group → Text → Bool)
    (apart : (g h : Group) (s t : Text)
      → text_of g ++ (0 ∷ s) ≡ text_of h ++ (0 ∷ t)
      → (g ≡ h) × (s ≡ t)) where
  -- The key of an entry is that of its group and token.
  abbrev IsKeyed : Text × Entry Group Amount → Type 0
  IsKeyed r = r.0 ≡ text_of r.1.group ++ (0 ∷ r.1.token)

  abbrev is_chosen : Proposal → Bool
  is_chosen p = chosen (group_of p) (or_xlm p.token)

  one : Proposal → ℕ
  one p = if is_chosen p then 1 else 0

  -- An entry that the key of `p` finds has the group and the token of `p`.
  chosen_as :
      (p : Proposal) (j : Text) (e : Entry Group Amount)
      → IsKeyed (j, e)
      → text_eq j (entry_key js group_of text_of p) ≡ true
      → chosen e.group e.token ≡ is_chosen p
  chosen_as p j e h same =
      let k =
        apart e.group (group_of p) e.token (or_xlm p.token) (sym h ∙ (text_eq_iff _ _).0 same) in
      rw k.0 (rw k.1)

  one_more :
      (p : Proposal) (j : Text) (e : Entry Group Amount) (n : ℕ)
      → chosen e.group e.token ≡ is_chosen p
      → (if chosen e.group e.token then e.count + 1 else 0) + n
        ≡ one p + ((if chosen e.group e.token then e.count else 0) + n)
  unfolding one
  one_more p j e n h = ground (arith, h)

  counts-update :
      (p : Proposal) (m : List (Text × Entry Group Amount))
      → All IsKeyed m
      → counts chosen (
          values (
            update
              (entry_key js group_of text_of p)
              (empty_entry js group_of text_of p)
              (counted js group_of text_of p)
              m))
        ≡ one p + counts chosen (values m)
  unfolding update one
  counts-update p [] h = ground arith
  counts-update p ((j, e) ∷ m) h = elim (Bool-cases (text_eq j (entry_key js group_of text_of p))) [
    | inl same ↦ rw same (one_more p j e (counts chosen (values m)) (chosen_as p j e h.0 same))
    | inr another ↦ rw another (omega (arith, counts-update p m h.1))
  ]

  IsKeyed-update :
      (p : Proposal) (m : List (Text × Entry Group Amount))
      → All IsKeyed m
      → All IsKeyed (
          update
            (entry_key js group_of text_of p)
            (empty_entry js group_of text_of p)
            (counted js group_of text_of p)
            m)
  unfolding update
  IsKeyed-update p [] h = (refl, tt)
  IsKeyed-update p ((j, e) ∷ m) h =
      elim (Bool-cases (text_eq j (entry_key js group_of text_of p))) [
        | inl same ↦ rw same (h.0, h.1)
        | inr another ↦ rw another (h.0, IsKeyed-update p m h.1)
      ]

  abbrev is_chosen_in : (Proposal → Bool) → Proposal → Bool
  is_chosen_in is_in p = is_in p && is_chosen p

  counts-tally :
      (is_in : Proposal → Bool) (ps : List Proposal) (m : List (Text × Entry Group Amount))
      → All IsKeyed m
      → counts chosen (values (tally js group_of text_of is_in ps m))
        ≡ length (filter (is_chosen_in is_in) ps) + counts chosen (values m)
  unfolding tally filter one
  counts-tally is_in [] m h = omega arith
  counts-tally is_in (p ∷ ps) m h = elim (Bool-cases (is_in p)) [
    | inl inside ↦
        rw inside
          (ground (arith, counts-tally is_in ps _ (IsKeyed-update p m h), counts-update p m h))
    | inr outside ↦ rw outside (counts-tally is_in ps m h)
  ]

category_text-apart :
    (g h : ProposalCategory) (s t : Text)
    → category_text g ++ (0 ∷ s) ≡ category_text h ++ (0 ∷ t)
    → (g ≡ h) × (s ≡ t)
category_text-apart ProposalCategory.transfer h s t e = ground arith
category_text-apart payroll h s t e = ground arith
category_text-apart grant h s t e = ground arith
category_text-apart ops h s t e = ground arith
category_text-apart other h s t e = ground arith

module _ {Amount : Type 0} (js : Js Amount) (chosen : ProposalCategory → Text → Bool) where
  -- The counts of the rows with a chosen category and token, added up.
  abbrev pub row_counts : List (CategorySpendBucket Amount) → ℕ
  row_counts [] = 0
  row_counts (r ∷ rs) = (if chosen r.category r.token then r.count else 0) + row_counts rs

  row_counts-map :
      (by_token : List (Text × Amount)) (es : List (Entry ProposalCategory Amount))
      → row_counts (map (category_bucket js by_token) es) ≡ counts chosen es
  row_counts-map by_token [] = refl
  row_counts-map by_token (e ∷ es) = omega (arith, row_counts-map by_token es)

  -- The proposals of the context that the endpoint counts, with a chosen category and token.
  abbrev pub counted_proposals : ParsedAnalyticsQuery → AnalyticsContext → List Proposal
  counted_proposals query context =
      filter (λ p. is_counted js query p && chosen (category_of js p) (or_xlm p.token))
        context.proposals

-- The rows of spending by category count each executed transfer that passes the filters once: for
-- any choice of categories and tokens, the counts of the chosen rows add up to the number of these
-- transfers with a chosen category and token.
pub handle_get_spend_by_category-counts :
    {Amount : Type 0} (js : Js Amount) (chosen : ProposalCategory → Text → Bool) (params : Params)
    (context : AnalyticsContext) (query : ParsedAnalyticsQuery)
    → parse_and_validate_analytics_query js params ≡ success query
    → (rows : List (CategorySpendBucket Amount)) × (handle_get_spend_by_category js params context
        ≡ ok rows)
      × (row_counts js chosen rows ≡ length (counted_proposals js chosen query context))
unfolding handle_get_spend_by_category category_entries
handle_get_spend_by_category-counts js chosen params context query h =
    let es = category_entries js context query in
    let by_token = token_totals js es [] in
    let sorted = sort (sorts_later js category_text) es in
    (
      map (category_bucket js by_token) sorted,
      rw h,
      omega (
        arith,
        row_counts-map js chosen by_token sorted,
        counts-sort chosen (sorts_later js category_text) es,
        counts-tally js (category_of js) category_text chosen category_text-apart
            (is_counted js query) context.proposals [] tt,
      ),
    )
