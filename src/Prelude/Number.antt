-- ===== src/Prelude/Number.antt =====
-- JavaScript's `number` as far as the program compares it: exact rationals, the infinities and
-- NaN. (Every double but those is a rational, and doubles are compared by value. Rounding is not
-- modelled, so no arithmetic is defined here.)
use Prim.Native.Nat.{ℕ, suc, ◌+◌, ◌*◌, ◌%◌}
use mathlib.Core.Bool.{Bool, true, false, not}
use accord_protocol.Prelude.Tests.{ltb, ◌==◌}
use accord_protocol.Prelude.Int.{ℤ, pos, pos_part, neg_part}

-- `ratio n d` is n / (d + 1).
pub data Number : Type 0 where
  nan : Number
  infinity neg_infinity : Number
  ratio : ℤ → ℕ → Number

abbrev pub int : ℤ → Number
int n = ratio n 0

abbrev pub nat : ℕ → Number
nat n = int (pos n)

-- `Number.isInteger`.
abbrev pub is_integer : Number → Bool
is_integer (ratio n d) = (pos_part n + neg_part n) % suc d == 0
is_integer _ = false

-- `a < b`; every comparison with NaN is false.
abbrev pub ltb_number : Number → Number → Bool
ltb_number nan b = false
ltb_number (ratio n d) (ratio m e) =
    ltb (pos_part n * suc e + neg_part m * suc d) (pos_part m * suc d + neg_part n * suc e)
ltb_number (ratio n d) infinity = true
ltb_number (ratio n d) _ = false
ltb_number infinity b = false
ltb_number neg_infinity nan = false
ltb_number neg_infinity neg_infinity = false
ltb_number neg_infinity _ = true

-- `a >= b` and `b <= a`.
abbrev pub leb_number : Number → Number → Bool
leb_number nan b = false
leb_number a nan = false
leb_number a b = not (ltb_number b a)
