-- ===== src/Prelude/Sort.antt =====
-- JavaScript's `sort`.
use mathlib.Core.Bool.{Bool}
use mathlib.Core.List.{List, [], ◌∷◌}
use accord_protocol.Prelude.Tests.{if◌then◌else◌}

-- `[...].sort(compare)`, a stable sort: `later a b` is `compare(a, b) > 0`.
module _ {ℓ} {A : Type ℓ} (later : A → A → Bool) where
  unfoldable pub insert : A → List A → List A
  insert x [] = x ∷ []
  insert x (y ∷ ys) = let rest = insert x ys in if later x y then y ∷ rest else x ∷ y ∷ ys

  unfoldable pub sort : List A → List A
  unfolding insert
  sort [] = []
  sort (x ∷ xs) = insert x (sort xs)
