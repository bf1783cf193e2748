-- ===== src/Governance/Dominant.antt =====
-- The entry of the heaviest owner.
use accord_protocol.Prelude.{ℕ, ◌≤◌, String, List, [], ◌∷◌, arith, All, ltb, if◌then◌else◌}
use accord_protocol.Governance.{heaviest, dominant_entry}

AtMost : ℕ → List (String × ℕ) → Type 0
AtMost m es = All (λ e. e.1 ≤ m) es

heaviest-ge : (best : String × ℕ) (es : List (String × ℕ)) → best.1 ≤ (heaviest best es).1
unfolding heaviest
heaviest-ge best [] = omega arith
heaviest-ge best (cur ∷ rest) =
    ground (arith, heaviest-ge (if ltb best.1 cur.1 then cur else best) rest)

heaviest-All :
    (best : String × ℕ) (es : List (String × ℕ)) → All (λ e. e.1 ≤ (heaviest best es).1) es
unfolding heaviest
heaviest-All best [] = tt
heaviest-All best (cur ∷ rest) = (
  ground (arith, heaviest-ge (if ltb best.1 cur.1 then cur else best) rest),
  heaviest-All (if ltb best.1 cur.1 then cur else best) rest,
)

-- No owner weighs more than the dominant one.
pub dominant_entry-All : (es : List (String × ℕ)) → All (λ e. e.1 ≤ (dominant_entry es).1) es
unfolding dominant_entry
dominant_entry-All [] = tt
dominant_entry-All (e ∷ rest) = heaviest-All e (e ∷ rest)
