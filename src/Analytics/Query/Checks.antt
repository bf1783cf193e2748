-- ===== src/Analytics/Query/Checks.antt =====
-- When each check of a parameter pushes no detail.
use accord_protocol.Prelude.{
  ℕ, ◌≤◌, ◌≡◌, refl, ◌↔◌, ◌⊎◌, inl, inr, ◌≢◌, Bool, true, false, not, ◌||◌, Option, none, some,
  List, [], ◌∷◌, ◌++◌, arith, if◌then◌else◌, Bool-cases, Option-cases,
}
use accord_protocol.Prelude.Number.{
  Number, nan, infinity, neg_infinity, ratio, nat, is_integer, leb_number, ltb_number,
}
use accord_protocol.Prelude.Text.{Text, codes, text_eq, text_eq_iff}
use accord_protocol.Analytics.Js.{Js}
use accord_protocol.Analytics.Query.{
  created_at, desc, ApiErrorDetail, find_allowed, allowed_sort_fields, allowed_sort_orders,
  allowed_granularities, allowed_categories, allowed_statuses, allowed_time_series, or_detail,
  some_or_detail, parse_sort, parse_category, parse_status, parse_granularity, parse_time_series,
  parse_limit, parse_offset, parse_order, parse_date, check_order, later, is_valid_iso_date,
}

-- A parameter is absent, or its text satisfies P.
abbrev pub Given : (Text → Type 0) → Option Text → Type 0
Given P none = Unit
Given P (some t) = P t

abbrev pub Among {ℓ} : {A : Type ℓ} → List (Text × A) → Text → Type 0
Among [] t = ⊥
Among ((u, a) ∷ m) t = (u ≡ t) ⊎ Among m t

module _ {ℓ} {A : Type ℓ} where
  -- The first text is another one.
  later_among :
      (u t : Text) (m : List (Text × A)) → text_eq u t ≡ false → (u ≡ t) ⊎ Among m t → Among m t
  later_among u t m other (inl same) = absurd (cc ((text_eq_iff u t).1 same))
  later_among u t m other (inr h) = h

  not_all :
      (t : Text) (m : List (Text × A))
      → text_eq t (codes "all") ≡ false
      → (t ≡ codes "all") ⊎ Among m t
      → Among m t
  not_all t m other (inl same) = absurd (cc ((text_eq_iff t (codes "all")).1 same))
  not_all t m other (inr h) = h

  pub find_allowed_iff : (m : List (Text × A)) (t : Text) → (find_allowed m t ≢ none) ↔ Among m t
  unfolding find_allowed
  find_allowed_iff [] t = (λ h. h refl, λ h. absurd h)
  find_allowed_iff ((u, a) ∷ m) t = elim (Bool-cases (text_eq u t)) [
    | inl same ↦ rw same (λ h. inl ((text_eq_iff u t).0 same), λ h. λ e. cc)
    | inr other ↦ rw other (
      λ h. inr ((find_allowed_iff m t).0 h),
      λ h. (find_allowed_iff m t).1 (later_among u t m other h),
    )
  ]

  or_detail_iff :
      (d : ApiErrorDetail) (fallback : A) (o : Option A)
      → ((or_detail (d ∷ []) fallback o).0 ≡ []) ↔ (o ≢ none)
  or_detail_iff d fallback none = (λ h. absurd (cc), λ h. absurd (h refl))
  or_detail_iff d fallback (some a) = (λ h. λ e. cc, λ h. refl)

  some_or_detail_iff :
      (d : ApiErrorDetail) (o : Option A) → ((some_or_detail (d ∷ []) o).0 ≡ []) ↔ (o ≢ none)
  some_or_detail_iff d none = (λ h. absurd (cc), λ h. absurd (h refl))
  some_or_detail_iff d (some a) = (λ h. λ e. cc, λ h. refl)

  known_iff :
      (m : List (Text × A)) (d : ApiErrorDetail) (fallback : A) (t : Text)
      → ((or_detail (d ∷ []) fallback (find_allowed m t)).0 ≡ []) ↔ Among m t
  known_iff m d fallback t =
      let f = find_allowed_iff m t in
      let o = or_detail_iff d fallback (find_allowed m t) in (λ h. f.0 (o.0 h), λ h. o.1 (f.1 h))

  some_known_iff :
      (m : List (Text × A)) (d : ApiErrorDetail) (t : Text)
      → ((some_or_detail (d ∷ []) (find_allowed m t)).0 ≡ []) ↔ Among m t
  some_known_iff m d t =
      let f = find_allowed_iff m t in
      let o = some_or_detail_iff d (find_allowed m t) in (λ h. f.0 (o.0 h), λ h. o.1 (f.1 h))

  -- The tests of a category and of a status, where "all" stands for none.
  all_or_known_iff :
      (m : List (Text × A)) (d : ApiErrorDetail) (t : Text)
      → ((if text_eq t (codes "all")
            then ([], none)
            else some_or_detail (d ∷ []) (find_allowed m t)).0
          ≡ [])
        ↔ ((t ≡ codes "all") ⊎ Among m t)
  all_or_known_iff m d t = elim (Bool-cases (text_eq t (codes "all"))) [
    | inl same ↦ rw same (λ h. inl ((text_eq_iff t (codes "all")).0 same), λ h. refl)
    | inr other ↦
        rw other (
          λ h. inr ((some_known_iff m d t).0 h),
          λ h. (some_known_iff m d t).1 (not_all t m other h),
        )
  ]

  pub append-empty : (xs ys : List A) → (xs ++ ys ≡ []) → (xs ≡ []) × (ys ≡ [])
  append-empty [] ys h = (refl, h)
  append-empty (x ∷ xs) ys h = absurd (cc)

pub record IsLimit (n : Number) : Type 0 where
  pub whole : is_integer n ≡ true
  pub positive : leb_number (nat 1) n ≡ true
  pub bounded : leb_number n (nat 100) ≡ true

pub record IsOffset (n : Number) : Type 0 where
  pub whole : is_integer n ≡ true
  pub natural : leb_number (nat 0) n ≡ true

abbrev refused_limit : Number → Bool
refused_limit n = not (is_integer n) || ltb_number n (nat 1) || ltb_number (nat 100) n

abbrev refused_offset : Number → Bool
refused_offset n = not (is_integer n) || ltb_number n (nat 0)

guards :
    (a b c : Bool) → ((not a || b || c) ≡ false) ↔ ((a ≡ true) × (not b ≡ true) × (not c ≡ true))
guards a b c = ground arith

two_guards : (a b : Bool) → ((not a || b) ≡ false) ↔ ((a ≡ true) × (not b ≡ true))
two_guards a b = ground arith

refused_limit_iff : (n : Number) → (refused_limit n ≡ false) ↔ IsLimit n
refused_limit_iff nan = (λ h. absurd (cc), λ h. absurd (cc h.whole))
refused_limit_iff infinity = (λ h. absurd (cc), λ h. absurd (cc h.whole))
refused_limit_iff neg_infinity = (λ h. absurd (cc), λ h. absurd (cc h.whole))
refused_limit_iff (ratio n d) =
    let b =
      guards (is_integer (ratio n d)) (ltb_number (ratio n d) (nat 1))
        (ltb_number (nat 100) (ratio n d)) in
    (
      (λ h. let (x, y, z) = b.0 h in record { whole = x; positive = y; bounded = z }),
      λ h. b.1 (h.whole, h.positive, h.bounded),
    )

refused_offset_iff : (n : Number) → (refused_offset n ≡ false) ↔ IsOffset n
refused_offset_iff nan = (λ h. absurd (cc), λ h. absurd (cc h.whole))
refused_offset_iff infinity = (λ h. absurd (cc), λ h. absurd (cc h.whole))
refused_offset_iff neg_infinity = (λ h. absurd (cc), λ h. absurd (cc h.whole))
refused_offset_iff (ratio n d) =
    let b = two_guards (is_integer (ratio n d)) (ltb_number (ratio n d) (nat 0)) in
    ((λ h. let (x, y) = b.0 h in record { whole = x; natural = y }), λ h. b.1 (h.whole, h.natural))

-- Both instants are there, and the first is after the second.
abbrev pub InOrder : Option ℕ → Option ℕ → Type 0
InOrder (some s) (some e) = s ≤ e
InOrder _ _ = Unit

pub sort_iff : (o : Option Text) → ((parse_sort o).0 ≡ []) ↔ Given (Among allowed_sort_fields) o
unfolding parse_sort
sort_iff none = (λ h. tt, λ h. refl)
sort_iff (some t) = known_iff allowed_sort_fields _ created_at t

pub category_iff :
    (o : Option Text)
    → ((parse_category o).0 ≡ []) ↔ Given (λ t. (t ≡ codes "all") ⊎ Among allowed_categories t) o
unfolding parse_category
category_iff none = (λ h. tt, λ h. refl)
category_iff (some t) = all_or_known_iff allowed_categories _ t

pub status_iff :
    (o : Option Text)
    → ((parse_status o).0 ≡ []) ↔ Given (λ t. (t ≡ codes "all") ⊎ Among allowed_statuses t) o
unfolding parse_status
status_iff none = (λ h. tt, λ h. refl)
status_iff (some t) = all_or_known_iff allowed_statuses _ t

pub granularity_iff :
    (o : Option Text) → ((parse_granularity o).0 ≡ []) ↔ Given (Among allowed_granularities) o
unfolding parse_granularity
granularity_iff none = (λ h. tt, λ h. refl)
granularity_iff (some t) = some_known_iff allowed_granularities _ t

pub time_series_iff :
    (o : Option Text) → ((parse_time_series o).0 ≡ []) ↔ Given (Among allowed_time_series) o
unfolding parse_time_series
time_series_iff none = (λ h. tt, λ h. refl)
time_series_iff (some t) = some_known_iff allowed_time_series _ t

not_read : {o : Option ℕ} → (n : ℕ) × (o ≡ some n) → o ≡ none → ⊥
not_read (n, e) f = cc

InOrder-none : (m : Option ℕ) → InOrder m none
InOrder-none none = tt
InOrder-none (some m) = tt

module _ {Amount : Type 0} (js : Js Amount) where
  pub order_iff :
      (o : Option Text)
      → ((parse_order js o).0 ≡ []) ↔ Given (λ t. Among allowed_sort_orders (js.to_lower t)) o
  unfolding parse_order
  order_iff none = (λ h. tt, λ h. refl)
  order_iff (some t) = known_iff allowed_sort_orders _ desc (js.to_lower t)

  pub IsLimit-iff :
      (o : Option Text) → ((parse_limit js o).0 ≡ []) ↔ Given (λ t. IsLimit (js.to_number t)) o
  unfolding parse_limit
  IsLimit-iff none = (λ h. tt, λ h. refl)
  IsLimit-iff (some t) = elim (Bool-cases (refused_limit (js.to_number t))) [
    | inl out ↦
        rw (out, refused_limit) (λ h. absurd (cc), λ h. absurd (cc ((refused_limit_iff _).1 h)))
    | inr inside ↦ rw (inside, refused_limit) (λ h. (refused_limit_iff _).0 inside, λ h. refl)
  ]

  pub IsOffset-iff :
      (o : Option Text) → ((parse_offset js o).0 ≡ []) ↔ Given (λ t. IsOffset (js.to_number t)) o
  unfolding parse_offset
  IsOffset-iff none = (λ h. tt, λ h. refl)
  IsOffset-iff (some t) = elim (Bool-cases (refused_offset (js.to_number t))) [
    | inl out ↦
        rw (out, refused_offset) (λ h. absurd (cc), λ h. absurd (cc ((refused_offset_iff _).1 h)))
    | inr inside ↦ rw (inside, refused_offset) (λ h. (refused_offset_iff _).0 inside, λ h. refl)
  ]

  -- A text of at least one code unit that `Date.parse` reads.
  abbrev pub IsDate : Text → Type 0
  IsDate t = (t ≢ []) × ((n : ℕ) × (js.date_parse t ≡ some n))

  pub IsDate-iff :
      (d : ApiErrorDetail) (o : Option Text) → ((parse_date js (d ∷ []) o).0 ≡ []) ↔ Given IsDate o
  unfolding parse_date is_valid_iso_date
  IsDate-iff d none = (λ h. tt, λ h. refl)
  IsDate-iff d (some []) = (λ h. absurd (cc), λ h. absurd (h.0 refl))
  IsDate-iff d (some (c ∷ t)) = elim (Option-cases (js.date_parse (c ∷ t))) [
    | inl e ↦ rw e (λ h. absurd (cc), λ h. absurd (not_read h.1 refl))
    | inr (n, e) ↦ rw e (λ h. ((λ f. cc), (n, refl)), λ h. refl)
  ]

  -- The instant of a date that is given.
  abbrev pub instant : Option Text → Option ℕ
  instant none = none
  instant (some t) = js.date_parse t

  later_iff : (m n : Option ℕ) → (later js m n ≡ false) ↔ InOrder m n
  later_iff none n = (λ h. tt, λ h. refl)
  later_iff (some m) none = (λ h. tt, λ h. refl)
  later_iff (some m) (some n) = ground arith

  pub dates_iff : (s e : Option Text) → (check_order js s e ≡ []) ↔ InOrder (instant s) (instant e)
  unfolding check_order
  dates_iff none e = (λ h. tt, λ h. refl)
  dates_iff (some s) none = (λ h. InOrder-none (js.date_parse s), λ h. refl)
  dates_iff (some s) (some e) = elim (Bool-cases (later js (js.date_parse s) (js.date_parse e))) [
    | inl out ↦ rw (out, later) (λ h. absurd (cc), λ h. absurd (cc ((later_iff _ _).1 h)))
    | inr fine ↦ rw (fine, later) (λ h. (later_iff _ _).0 fine, λ h. refl)
  ]

  pub parse_date-kept :
      (d : ApiErrorDetail) (o : Option Text)
      → (parse_date js (d ∷ []) o).0 ≡ []
      → (parse_date js (d ∷ []) o).1 ≡ o
  unfolding parse_date
  parse_date-kept d none h = refl
  parse_date-kept d (some t) h = ground arith

  -- Whether or not a detail is pushed, the limit and the offset are in range.
  pub parse_limit-IsLimit : (o : Option Text) → IsLimit (parse_limit js o).1
  unfolding parse_limit
  parse_limit-IsLimit none = record { whole = refl; positive = refl; bounded = refl }
  parse_limit-IsLimit (some t) = elim (Bool-cases (refused_limit (js.to_number t))) [
    | inl out ↦ rw (out, refused_limit) (record { whole = refl; positive = refl; bounded = refl })
    | inr inside ↦ rw (inside, refused_limit) ((refused_limit_iff _).0 inside)
  ]

  pub parse_offset-IsOffset : (o : Option Text) → IsOffset (parse_offset js o).1
  unfolding parse_offset
  parse_offset-IsOffset none = record { whole = refl; natural = refl }
  parse_offset-IsOffset (some t) = elim (Bool-cases (refused_offset (js.to_number t))) [
    | inl out ↦ rw (out, refused_offset) (record { whole = refl; natural = refl })
    | inr inside ↦ rw (inside, refused_offset) ((refused_offset_iff _).0 inside)
  ]
