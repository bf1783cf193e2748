-- ===== src/Analytics/Js.antt =====
-- What frontend/src/lib/analyticsApi.ts uses of JavaScript.
use accord_protocol.Prelude.{ℕ, Bool, Option, none, some, List, [], ◌∷◌, if◌then◌else◌}
use accord_protocol.Prelude.Number.{Number}
use accord_protocol.Prelude.Text.{Text, text_eq}

-- The parts of it that are a parameter: reading and printing numbers and dates, case, collation, and
-- the floating-point numbers that amounts are summed in. An instant is its count of milliseconds
-- from the beginning of the year 0; earlier ones are not modelled.
pub record Js (Amount : Type 0) : Type 0 where
  -- `Number(text)`
  pub to_number : Text → Number
  -- `Date.parse(text)`, with `none` for NaN; also `new Date(text).getTime()`
  pub date_parse : Text → Option ℕ
  -- `new Date(ms).toISOString()`
  pub to_iso_string : ℕ → Text
  pub to_lower : Text → Text
  pub to_upper : Text → Text
  -- `a.localeCompare(b) > 0`
  pub locale_after : Text → Text → Bool
  -- whether `a < b` for `[...].sort()`
  pub code_before : Text → Text → Bool
  -- `parseFloat(text) || 0`
  pub parse_amount : Text → Amount
  pub no_amount : Amount
  pub minus_one : Amount
  pub add : Amount → Amount → Amount
  -- `a > b`
  pub exceeds : Amount → Amount → Bool
  -- `String(a)` and `String(Number(a.toFixed(7)))`
  pub print : Amount → Text
  pub format_amount : Amount → Text
  -- `Number(((a / b) * 100).toFixed(2))`
  pub percentage : Amount → Amount → Amount

module _ {ℓ} {V : Type ℓ} where
  -- `map.get(key)` on a Map, in the order in which its keys came.
  unfoldable pub get : Text → List (Text × V) → Option V
  get k [] = none
  get k ((j, v) ∷ m) = if text_eq j k then some v else get k m

  -- `map.set(key, f(map.get(key) ?? initial))`.
  unfoldable pub update : Text → V → (V → V) → List (Text × V) → List (Text × V)
  update k initial f [] = (k, f initial) ∷ []
  update k initial f ((j, v) ∷ m) =
      let rest = update k initial f m in if text_eq j k then (j, f v) ∷ m else (j, v) ∷ rest
