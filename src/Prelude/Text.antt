-- ===== src/Prelude/Text.antt =====
-- Text that the program walks, as a list of UTF-16 code units, as JavaScript's strings are.
use Prim.Native.Char.{code}
use Prim.Native.String.{String}
use Prim.Native.Nat.{ℕ, zero, suc, ◌+◌, ◌-◌, ◌*◌, ◌/◌, ◌%◌, ◌<◌}
use mathlib.Core.Path.{◌≡◌, refl}
use mathlib.Core.Logic.{◌≢◌, ◌↔◌, inl, inr}
use mathlib.Core.Bool.{Bool, true, false, ◌&&◌, ◌||◌}
use mathlib.Core.List.{List, [], ◌∷◌, ◌++◌, reverse}
use native.Mathlib.Omega.{arith}
use accord_protocol.Prelude.Tests.{ltb, leb, ◌==◌, if◌then◌else◌, Bool-cases}
use accord_protocol.Prelude.Lists.{All, All-append}

abbrev pub Text : Type 0
Text = List ℕ

-- The code units of a literal, whose characters are all below U+10000.
abbrev pub codes : String → Text
codes String.[] = []
codes (String.◌∷◌ c s) = code c ∷ codes s

abbrev pub is_digit : ℕ → Bool
is_digit c = leb 48 c && leb c 57

-- `\s` and the characters that `trim` removes.
unfoldable pub is_space : ℕ → Bool
is_space c =
    leb 9 c && leb c 13
    || c == 32
    || c == 0xa0
    || c == 0x1680
    || leb 0x2000 c && leb c 0x200a
    || c == 0x2028
    || c == 0x2029
    || c == 0x202f
    || c == 0x205f
    || c == 0x3000
    || c == 0xfeff

-- `c.toUpperCase()` on ASCII, as case-insensitive patterns over ASCII compare.
abbrev pub to_upper : ℕ → ℕ
to_upper c = if leb 97 c && leb c 122 then c - 32 else c

-- `s.startsWith(p)` and `s.includes(p)`.
abbrev pub starts_with : Text → Text → Bool
starts_with [] s = true
starts_with (c ∷ p) [] = false
starts_with (c ∷ p) (d ∷ s) = c == d && starts_with p s

unfoldable pub includes : Text → Text → Bool
includes p [] = starts_with p []
includes p (c ∷ s) = starts_with p (c ∷ s) || includes p s

unfoldable pub drop_while : (ℕ → Bool) → Text → Text
drop_while p [] = []
drop_while p (c ∷ s) = if p c then drop_while p s else c ∷ s

unfoldable pub take_while : (ℕ → Bool) → Text → Text
take_while p [] = []
take_while p (c ∷ s) = if p c then c ∷ take_while p s else []

-- `s.trim()`.
unfoldable pub trim : Text → Text
trim s = reverse (drop_while is_space (reverse (drop_while is_space s)))

-- The number that decimal digits denote.
unfoldable pub digits_value : ℕ → Text → ℕ
digits_value acc [] = acc
digits_value acc (c ∷ s) = digits_value (acc * 10 + (c - 48)) s

unfoldable pub decimal_value : Text → ℕ
unfolding digits_value
decimal_value s = digits_value 0 s

-- `String(n)` and `n.toString()` for a natural number; the fuel is above the number of digits.
unfoldable pub decimal_fuel : ℕ → ℕ → Text
decimal_fuel zero n = []
decimal_fuel (suc f) n =
    let more = decimal_fuel f (n / 10) in
    if ltb n 10 then (48 + n) ∷ [] else more ++ (48 + n % 10) ∷ []

unfoldable pub decimal : ℕ → Text
unfolding decimal_fuel
decimal n = decimal_fuel (suc n) n

abbrev pub text_eq : Text → Text → Bool
text_eq [] [] = true
text_eq [] (d ∷ t) = false
text_eq (c ∷ s) [] = false
text_eq (c ∷ s) (d ∷ t) = c == d && text_eq s t

-- Laws.
pub text_eq_iff : (s t : Text) → (text_eq s t ≡ true) ↔ (s ≡ t)
text_eq_iff [] [] = (λ h. refl, λ h. refl)
text_eq_iff [] (d ∷ t) = (λ h. cc, λ h. cc)
text_eq_iff (c ∷ s) [] = (λ h. cc, λ h. cc)
text_eq_iff (c ∷ s) (d ∷ t) =
    (λ h. ground (arith, (text_eq_iff s t).0), λ h. ground (arith, (text_eq_iff s t).1))

abbrev pub IsDigit : ℕ → Type 0
IsDigit c = is_digit c ≡ true

decimal_fuel-All : (f n : ℕ) → All IsDigit (decimal_fuel f n)
unfolding decimal_fuel
decimal_fuel-All zero n = tt
decimal_fuel-All (suc f) n = elim (Bool-cases (ltb n 10)) [
  | inl small ↦ rw small (ground arith, tt)
  | inr large ↦ rw large (All-append IsDigit _ _ (decimal_fuel-All f (n / 10)) (ground arith, tt))
]

pub decimal-All : (n : ℕ) → All IsDigit (decimal n)
unfolding decimal
decimal-All n = decimal_fuel-All (suc n) n

snoc-ne : (xs : Text) (x : ℕ) → xs ++ x ∷ [] ≢ []
snoc-ne [] x e = cc
snoc-ne (y ∷ xs) x e = cc

pub decimal-ne : (n : ℕ) → decimal n ≢ []
unfolding decimal
decimal-ne n e = elim (Bool-cases (ltb n 10)) [
  | inl small ↦ cc (rw (small, decimal_fuel) at e)
  | inr large ↦ snoc-ne (decimal_fuel n (n / 10)) (48 + n % 10) (rw (large, decimal_fuel) at e)
]

digits_value-append :
    (acc : ℕ) (xs ys : Text) → digits_value acc (xs ++ ys) ≡ digits_value (digits_value acc xs) ys
unfolding digits_value
digits_value-append acc [] ys = refl
digits_value-append acc (x ∷ xs) ys = digits_value-append (acc * 10 + (x - 48)) xs ys

decimal_value-decimal_fuel : (f n : ℕ) → n < f → decimal_value (decimal_fuel f n) ≡ n
unfolding decimal_value decimal_fuel
decimal_value-decimal_fuel zero n h = elim h [ ]
decimal_value-decimal_fuel (suc f) n h = elim (Bool-cases (ltb n 10)) [
  | inl small ↦ rw small (omega arith)
  | inr large ↦
      rw (large, digits_value-append 0 (decimal_fuel f (n / 10)) ((48 + n % 10) ∷ []))
        (rw (decimal_value-decimal_fuel f (n / 10) (ground arith)) (omega arith))
]

-- Reading a printed number gives it back.
pub decimal_value-decimal : (n : ℕ) → decimal_value (decimal n) ≡ n
unfolding decimal
decimal_value-decimal n = decimal_value-decimal_fuel (suc n) n (omega arith)

pub take_while-append :
    (p : ℕ → Bool) (xs : Text) (y : ℕ) (ys : Text)
    → All (λ c. p c ≡ true) xs
    → p y ≡ false
    → take_while p (xs ++ y ∷ ys) ≡ xs
unfolding take_while
take_while-append p [] y ys h k = rw k
take_while-append p (x ∷ xs) y ys h k = rw (h.0, take_while-append p xs y ys h.1 k)

pub drop_while-append :
    (p : ℕ → Bool) (xs : Text) (y : ℕ) (ys : Text)
    → All (λ c. p c ≡ true) xs
    → p y ≡ false
    → drop_while p (xs ++ y ∷ ys) ≡ y ∷ ys
unfolding drop_while
drop_while-append p [] y ys h k = rw k
drop_while-append p (x ∷ xs) y ys h k = rw h.0 (drop_while-append p xs y ys h.1 k)
