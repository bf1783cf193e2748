-- ===== src/Sdk/Validation/Addresses.antt =====
-- What the address checks accept.
use accord_protocol.Prelude.{
  ℕ, ◌+◌, String, ◌≡◌, refl, ◌≢◌, ◌↔◌, true, false, ◌||◌, List, [], ◌∷◌, arith, All, eq_iff,
}
use accord_protocol.Sdk.Failure.{Field, ok, element, >>=-eq-ok_tt}
use accord_protocol.Sdk.Stellar.{Stellar}
use accord_protocol.Sdk.Validation.{
  contains, validate_address, validate_from, validate_addresses, first_time,
}

abbrev pub IsDistinct : List String → Type 0
IsDistinct [] = Unit
IsDistinct (x ∷ xs) = All (λ y. y ≢ x) xs × IsDistinct xs

abbrev IsNew : List String → String → Type 0
IsNew seen a = contains seen a ≡ false

contains-cons :
    (x : String) (seen : List String) (a : String) → IsNew (x ∷ seen) a ↔ ((a ≢ x) × IsNew seen a)
unfolding contains
contains-cons x seen a = (λ h. ground (arith, eq_iff x a), λ h. ground (arith, eq_iff x a))

All-IsNew-cons :
    (x : String) (seen xs : List String)
    → All (IsNew (x ∷ seen)) xs ↔ (All (λ y. y ≢ x) xs × All (IsNew seen) xs)
All-IsNew-cons x seen [] = ((λ h. (tt, tt)), (λ h. tt))
All-IsNew-cons x seen (y ∷ ys) =
    let ih = All-IsNew-cons x seen ys in
    let here = contains-cons x seen y in
    (
      (λ (h, hs). (((here.0 h).0, (ih.0 hs).0), ((here.0 h).1, (ih.0 hs).1))),
      (λ ((a, as1), (b, bs)). (here.1 (a, b), ih.1 (as1, bs))),
    )

All-IsNew : (xs : List String) → All (IsNew []) xs
unfolding contains
All-IsNew [] = tt
All-IsNew (x ∷ xs) = (refl, All-IsNew xs)

module _ (st : Stellar) where
  -- Not empty, and an account or a contract for the library's checks.
  abbrev pub IsAddress : String → Type 0
  IsAddress a = (a ≢ "") × ((st.is_valid_account a || st.is_valid_contract a) ≡ true)

  pub validate_address_iff :
      (a : String) (field : Field) → (validate_address st a field ≡ ok tt) ↔ IsAddress a
  unfolding validate_address
  validate_address_iff a field =
      (λ h. ground (arith, eq_iff a ""), λ h. ground (arith, eq_iff a ""))

  first_time_iff :
      (seen : List String) (a name : String) → (first_time st seen a name ≡ ok tt) ↔ IsNew seen a
  first_time_iff seen a name = (λ h. ground arith, λ h. rw h)

  validate_from_iff :
      (name : String) (i : ℕ) (seen xs : List String)
      → (validate_from st name i seen xs ≡ ok tt)
        ↔ (All IsAddress xs × All (IsNew seen) xs × IsDistinct xs)
  unfolding validate_from
  validate_from_iff name i seen [] = (λ h. (tt, tt, tt), λ h. refl)
  validate_from_iff name i seen (a ∷ rest) =
      let ih = validate_from_iff name (i + 1) (a ∷ seen) rest in
      let valid = validate_address_iff a (element name i) in
      let unseen = first_time_iff seen a name in
      let later = All-IsNew-cons a seen rest in
      (
        λ h.
            let v = >>=-eq-ok_tt (validate_address st a (element name i)) _ h in
            let u = >>=-eq-ok_tt (first_time st seen a name) _ v.1 in
            let (as1, news, distinct) = ih.0 u.1 in
            let (ne, old) = later.0 news in
            ((valid.0 v.0, as1), (unseen.0 u.0, old), (ne, distinct)),
        λ ((v, vs), (n, ns), (ne, distinct)).
            rw (valid.1 v, unseen.1 n) (ih.1 (vs, later.1 (ne, ns), distinct)),
      )

  -- A list of addresses is accepted exactly when it is not empty, each address is valid, and no
  -- address stands in it twice.
  pub validate_addresses_iff :
      (xs : List String) (name : String)
      → (validate_addresses st xs name ≡ ok tt) ↔ ((xs ≢ []) × All IsAddress xs × IsDistinct xs)
  unfolding validate_addresses
  validate_addresses_iff [] name = (λ h. absurd (cc), λ (h, _, _). absurd (h refl))
  validate_addresses_iff (a ∷ rest) name =
      let whole = validate_from_iff name 0 [] (a ∷ rest) in
      (
        λ h. let (v, _, d) = whole.0 h in (λ e. cc, v, d),
        λ (_, v, d). whole.1 (v, All-IsNew (a ∷ rest), d),
      )
