-- ===== src/Sdk/Errors/Codes.antt =====
-- The error codes and the enum's reverse mapping.
use accord_protocol.Prelude.{
  ℕ, zero, suc, ◌≤◌, ◌<◌, ◌≡◌, refl, Bool, true, false, Option, none, some, List, [], ◌∷◌, arith,
  ◌&&◌, ◌==◌, ==_iff, Bool-cases, inl, inr, ◌↔◌,
}
use accord_protocol.Sdk.Errors.{
  ContractError, already_initialized, error_code, all_errors, find_error, contract_error,
}

find_error_sound :
    (n : ℕ) (es : List ContractError) {e : ContractError}
    → find_error n es ≡ some e
    → error_code e ≡ n
unfolding find_error
find_error_sound n [] h = ground arith
find_error_sound n (x ∷ xs) h = elim (Bool-cases (error_code x == n)) [
  | inl same ↦ let e = (==_iff _ _).0 same in ground arith
  | inr other ↦ find_error_sound n xs (rw (other, find_error) at h)
]

contract_error_complete : (e : ContractError) → contract_error (error_code e) ≡ some e
unfolding contract_error
contract_error_complete already_initialized = refl
contract_error_complete _ = refl

-- A number denotes a member of the enum exactly when it is that member's code, so the codes of
-- two members differ.
pub contract_error_iff :
    (n : ℕ) (e : ContractError) → (contract_error n ≡ some e) ↔ (error_code e ≡ n)
unfolding contract_error
contract_error_iff n e = (find_error_sound n all_errors, λ h. rw (← h) (contract_error_complete e))

abbrev is_known : Option ContractError → Bool
is_known none = false
is_known (some e) = true

abbrev known_below : ℕ → Bool
known_below zero = true
known_below (suc n) = is_known (contract_error (suc n)) && known_below n

known_below_sound :
    (k n : ℕ) → known_below k ≡ true → 0 < n → n ≤ k → is_known (contract_error n) ≡ true
known_below_sound zero n h p q = ground arith
known_below_sound (suc k) n h p q = ground (arith, known_below_sound k n)

all_known : known_below 57 ≡ true
unfolding contract_error
all_known = refl

error_code-le : (e : ContractError) → (0 < error_code e) × (error_code e ≤ 57)
error_code-le already_initialized = omega arith
error_code-le _ = omega arith

-- The codes are 1 to 57 with no gap: every other number is unknown.
pub contract_error-known_iff :
    (n : ℕ) → ((e : ContractError) × (contract_error n ≡ some e)) ↔ ((0 < n) × (n ≤ 57))
contract_error-known_iff n = (
  λ (e, h). let c = (contract_error_iff n e).0 h in omega (arith, error_code-le e),
  λ (p, q). found (contract_error n) (known_below_sound 57 n all_known p q),
)
  where
    found : (o : Option ContractError) → is_known o ≡ true → (e : ContractError) × (o ≡ some e)
    found none h = absurd (cc)
    found (some e) h = (e, refl)
