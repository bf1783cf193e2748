-- ===== src/Sdk/Validation.antt =====
-- packages/sdk/src/validation.ts. The checks on `typeof` are the types of the arguments.
pub mod Addresses
pub mod Limits
use accord_protocol.Prelude.{
  ℕ, ◌+◌, String, Bool, true, false, not, ◌&&◌, ◌||◌, Option, none, some, List, [], ◌∷◌, ltb,
  str_eq, if◌then◌else◌, length,
}
use accord_protocol.Prelude.Int.{ℤ, pos, leb_ℤ}
use accord_protocol.Prelude.Number.{Number, nat, is_integer, ltb_number}
use accord_protocol.Prelude.Text.{Text, trim}
use accord_protocol.Sdk.Failure.{
  Field, named, element, address_empty, addresses_empty, description_empty, deadline_not_positive,
  threshold_not_positive, weight_not_positive, weight_too_large, address_invalid, duplicate_address,
  amount_not_positive, description_too_long, threshold_exceeds, Result, ok, ◌>>=◌, ◌>>◌, reject,
}
use accord_protocol.Sdk.Stellar.{Stellar}

-- `seen.has(address)`.
unfoldable pub contains : List String → String → Bool
contains [] a = false
contains (x ∷ xs) a = str_eq x a || contains xs a

module _ (st : Stellar) where
  open st use {is_valid_account, is_valid_contract}

  unfoldable pub validate_address : String → Field → Result (Unit {0})
  validate_address a field =
      if str_eq a ""
      then reject field address_empty
      else (if not (is_valid_account a) && not (is_valid_contract a)
          then reject field (address_invalid a)
          else ok tt)

  abbrev first_time : List String → String → String → Result (Unit {0})
  first_time seen a name =
      if contains seen a then reject (named name) (duplicate_address a) else ok tt

  -- The loop of `validateAddresses` from index `i`, with the addresses that it has seen.
  pub validate_from : String → ℕ → List String → List String → Result (Unit {0})
  unfolding contains
  validate_from name i seen [] = ok tt
  validate_from name i seen (a ∷ rest) = do
    validate_address a (element name i)
    first_time seen a name
    validate_from name (i + 1) (a ∷ seen) rest

  unfoldable pub validate_addresses : List String → String → Result (Unit {0})
  unfolding validate_from
  validate_addresses [] name = reject (named name) addresses_empty
  validate_addresses (a ∷ rest) name = validate_from name 0 [] (a ∷ rest)

unfoldable pub validate_positive_amount : ℤ → String → Result (Unit {0})
validate_positive_amount amount name =
    if leb_ℤ amount (pos 0) then reject (named name) (amount_not_positive amount) else ok tt

abbrev is_empty : Text → Bool
is_empty [] = true
is_empty (c ∷ s) = false

-- `description.length` counts code units.
unfoldable pub validate_description : Text → Result (Unit {0})
unfolding trim
validate_description s =
    if is_empty (trim s)
    then reject (named "description") description_empty
    else (if ltb 300 (length s)
        then reject (named "description") (description_too_long (length s))
        else ok tt)

unfoldable pub validate_deadline : ℤ → Result (Unit {0})
validate_deadline deadline =
    if leb_ℤ deadline (pos 0) then reject (named "deadline") deadline_not_positive else ok tt

abbrev exceeds : Number → Option Number → Bool
exceeds threshold none = false
exceeds threshold (some total) = ltb_number total threshold

abbrev total_or_nan : Option Number → Number
total_or_nan none = Number.nan
total_or_nan (some total) = total

unfoldable pub validate_threshold : Number → Option Number → Result (Unit {0})
validate_threshold threshold total =
    if not (is_integer threshold) || ltb_number threshold (nat 1)
    then reject (named "threshold") threshold_not_positive
    else (if exceeds threshold total
        then reject (named "threshold") (threshold_exceeds threshold (total_or_nan total))
        else ok tt)

unfoldable pub validate_weight : Number → Result (Unit {0})
validate_weight weight =
    if not (is_integer weight) || ltb_number weight (nat 1)
    then reject (named "weight") weight_not_positive
    else (if ltb_number (nat 100000) weight
        then reject (named "weight") weight_too_large
        else ok tt)
