-- ===== src/Prelude/Double.antt =====
-- The double that stands for a whole number: JavaScript's `parseInt` on decimal digits. (Engines
-- read all digits, though the standard lets them take those past the twentieth as 0.)
use Prim.Native.Nat.{ℕ, zero, suc, ◌+◌, ◌-◌, ◌*◌, ◌/◌, ◌%◌, ◌^◌, ◌<◌}
use mathlib.Core.Path.{◌≡◌}
use native.Mathlib.Omega.{arith}
use accord_protocol.Prelude.Tests.{ltb, if◌then◌else◌}
use accord_protocol.Prelude.Number.{Number, nat, infinity}
use accord_protocol.Prelude.Text.{Text, digits_value}

-- How often a number is halved until it has at most 53 bits. What still has more after 1024 times
-- is beyond all doubles.
unfoldable pub halvings : ℕ → ℕ → ℕ
halvings zero n = 0
halvings (suc fuel) n = let more = halvings fuel (n / 2) in if ltb n (2 ^ 53) then 0 else suc more

-- `q`, or the next number when the rest `r` is more than the half, or is the half and `q` is odd.
abbrev pub to_even : ℕ → ℕ → ℕ → ℕ
to_even q r half = if ltb r half then q else (if ltb half r then q + 1 else q + q % 2)

-- A number of at least 2 ^ 53, rounded to 53 bits; from 2 ^ 1024 on, infinity.
unfoldable pub rounded : ℕ → Number
unfolding halvings
rounded n =
    let k = halvings 1024 n in
    let m = to_even (n / 2 ^ k) (n % 2 ^ k) (2 ^ (k - 1)) * 2 ^ k in
    if ltb m (2 ^ 1024) then nat m else infinity

abbrev pub to_number : ℕ → Number
to_number n = if ltb n (2 ^ 53) then nat n else rounded n

-- `parseInt(s, 10)` on decimal digits.
unfoldable pub parse_int : Text → Number
unfolding digits_value rounded
parse_int s = to_number (digits_value 0 s)

-- Numbers below 2 ^ 53 are exact.
pub to_number-exact : (n : ℕ) → n < 2 ^ 53 → to_number n ≡ nat n
to_number-exact n h = ground arith
