-- ===== src/ContractPattern.antt =====
-- The pattern `Error(Contract, #n)` by which the SDK (packages/sdk/src/errors.ts) and the front end
-- (frontend/src/lib/soroban.ts) find a contract error in a text. The two differ in whether `#` may
-- be left out and in whether case counts, which are the parameters here.
pub mod Found
use accord_protocol.Prelude.{
  ℕ, Bool, true, false, not, ◌&&◌, Option, none, some, List, [], ◌∷◌, ◌==◌, if◌then◌else◌,
}
use accord_protocol.Prelude.Text.{Text, codes, is_digit, is_space, to_upper, take_while, drop_while}

infixl 5 ◌>>=◌
abbrev pub ◌>>=◌ {ℓ κ} : {A : Type ℓ} {B : Type κ} → Option A → (A → Option B) → Option B
none >>= k = none
some a >>= k = k a

abbrev pub opening : Text
opening = codes "Error(Contract,"

abbrev is_empty : Text → Bool
is_empty [] = true
is_empty (c ∷ s) = false

abbrev same_letter : Bool → ℕ → ℕ → Bool
same_letter ignore_case a b = if ignore_case then to_upper a == to_upper b else a == b

-- What follows a literal piece of the pattern.
pub strip : Bool → Text → Text → Option Text
strip ignore_case [] s = some s
strip ignore_case (p ∷ ps) [] = none
strip ignore_case (p ∷ ps) (c ∷ s) =
    if same_letter ignore_case p c then strip ignore_case ps s else none

-- `#` or `#?`.
abbrev pub strip_hash : Bool → Text → Option Text
strip_hash optional [] = if optional then some [] else none
strip_hash optional (c ∷ s) =
    if c == b'#' then some s else (if optional then some (c ∷ s) else none)

-- `(\d+)\)`: the digits, if there are some and a parenthesis closes them.
abbrev pub captured : Text → Text → Option Text
captured digits [] = none
captured digits (c ∷ s) = if not (is_empty digits) && c == b')' then some digits else none

module _ (ignore_case hash_optional : Bool) where
  -- The pattern at the start of a text. Its parts are greedy, and no part can give back a character
  -- that the next one could use, so there is nothing to backtrack to.
  pub match_here : Text → Option Text
  unfolding strip is_space take_while drop_while
  match_here s = do
    rest ← strip ignore_case opening s
    number ← strip_hash hash_optional (drop_while is_space rest)
    captured (take_while is_digit number) (drop_while is_digit number)

  -- The first place at which the pattern matches.
  unfoldable pub find_code : Text → Option Text
  unfolding match_here
  find_code [] = none
  find_code (c ∷ s) =
      let later = find_code s in elim (match_here (c ∷ s)) [ some d ↦ some d | none ↦ later ]
