-- ===== src/Governance/Rating.antt =====
-- What a rating promises of the weights that it rates.
use accord_protocol.Prelude.{
  ℕ, ◌+◌, ◌*◌, ◌≤◌, ◌<◌, min, max, String, ◌≡◌, arith, ◌⊎◌, inl, inr, List, [], ◌∷◌, All,
}
use accord_protocol.Governance.{
  GovernanceHealthInput, healthy, dominant_entry, calculate_governance_health, owner_count,
  quorum_of, assess, rating_of, concentration, quorum_safety, unilateral_cap, redundancy,
}
use accord_protocol.Governance.Dominant.{dominant_entry-All}

concentration-le : (d t w : ℕ) → (concentration d t w).0 ≤ 40
unfolding concentration
concentration-le d t w = ground arith

concentration-majority : (d t w : ℕ) → t < d * 2 → (concentration d t w).0 ≤ 5
unfolding concentration
concentration-majority d t w h = ground arith

quorum_safety-le : (q t : ℕ) → (quorum_safety q t).0 ≤ 40
unfolding quorum_safety
quorum_safety-le q t = ground arith

quorum_safety-safe : (q t : ℕ) → 18 < (quorum_safety q t).0 → (0 < q) × (q ≤ t) × (q * 100 ≤ 80 * t)
unfolding quorum_safety
quorum_safety-safe q t h = ground arith

quorum_safety-unsafe : (q t : ℕ) → t < q → (quorum_safety q t).0 ≤ 0
unfolding quorum_safety
quorum_safety-unsafe q t h = ground arith

unilateral_cap-le : (d q n p : ℕ) → (unilateral_cap d q n p).0 ≤ p
unfolding unilateral_cap
unilateral_cap-le d q n p = ground arith

unilateral_cap-le_10 : (d q n p : ℕ) → q ≤ d → 1 < n → (unilateral_cap d q n p).0 ≤ 10
unfolding unilateral_cap
unilateral_cap-le_10 d q n p h k = ground arith

redundancy-le : (n q : ℕ) → (redundancy n q).0 ≤ 20
unfolding redundancy
redundancy-le n q = ground arith

rating_of-healthy : (s : ℕ) → rating_of s ≡ healthy → 80 ≤ s
unfolding rating_of
rating_of-healthy s h = ground arith

module _ (i : GovernanceHealthInput) (dominant : String × ℕ) where
  abbrev conc : ℕ
  conc = (concentration dominant.1 i.total_weight i.warning_threshold_pct).0

  abbrev capped : ℕ
  capped = (unilateral_cap dominant.1 (quorum_of i) (owner_count i) conc).0

  abbrev safety : ℕ
  safety = (quorum_safety (quorum_of i) i.total_weight).0

  points_le :
      (80 ≤ max 0 (min 100 (capped + safety + (redundancy (owner_count i) (quorum_of i)).0)))
      → 60 ≤ capped + safety
  points_le h = omega (arith, redundancy-le (owner_count i) (quorum_of i), h)

  assess-points : (assess i dominant).rating ≡ healthy → 60 ≤ capped + safety
  unfolding assess
  assess-points h = points_le (rating_of-healthy _ h)

  safety_gt : 60 ≤ capped + safety → 18 < safety
  safety_gt h = omega (
    arith,
    unilateral_cap-le dominant.1 (quorum_of i) (owner_count i) conc,
    concentration-le dominant.1 i.total_weight i.warning_threshold_pct,
    h,
  )

  majority_gt : (dominant.1 * 2 ≤ i.total_weight) ⊎ (i.total_weight < dominant.1 * 2)
  majority_gt = omega arith

  no_majority : 60 ≤ capped + safety → dominant.1 * 2 ≤ i.total_weight
  no_majority h = elim majority_gt [
    | inl l ↦ l
    | inr g ↦ omega (
      arith,
      unilateral_cap-le dominant.1 (quorum_of i) (owner_count i) conc,
      concentration-majority dominant.1 i.total_weight i.warning_threshold_pct g,
      quorum_safety-le (quorum_of i) i.total_weight,
      h,
    )
  ]

  quorum_gt : (dominant.1 < quorum_of i) ⊎ (quorum_of i ≤ dominant.1)
  quorum_gt = omega arith

  no_unilateral : 1 < owner_count i → 60 ≤ capped + safety → dominant.1 < quorum_of i
  no_unilateral many h = elim quorum_gt [
    | inl l ↦ l
    | inr g ↦ omega (
      arith,
      unilateral_cap-le_10 dominant.1 (quorum_of i) (owner_count i) conc g many,
      quorum_safety-le (quorum_of i) i.total_weight,
      h,
    )
  ]

  -- What a healthy rating means for the dominant weight and the quorum.
  abbrev pub Balanced : Type 0
  Balanced =
      (0 < quorum_of i)
      × (quorum_of i * 100 ≤ 80 * i.total_weight)
      × (dominant.1 * 2 ≤ i.total_weight)
      × (dominant.1 < quorum_of i)

  assess-Balanced : 1 < owner_count i → (assess i dominant).rating ≡ healthy → Balanced
  assess-Balanced many h =
      let p = assess-points h in
      let (pos, _, high) = quorum_safety-safe (quorum_of i) i.total_weight (safety_gt p) in
      (pos, high, no_majority p, no_unilateral many p)

-- An owner of the input holds at most half of the total weight and less than the quorum.
abbrev pub IsShared : GovernanceHealthInput → String × ℕ → Type 0
IsShared i e = (e.1 * 2 ≤ i.total_weight) × (e.1 < quorum_of i)

IsShared-of_dominant :
    (i : GovernanceHealthInput) (dominant : String × ℕ) (es : List (String × ℕ))
    → All (λ e. e.1 ≤ dominant.1) es
    → Balanced i dominant
    → All (IsShared i) es
IsShared-of_dominant i d [] a b = tt
IsShared-of_dominant i d (e ∷ es) (le, a) (pos, high, half, lt) = (
  (omega (arith, le, half), omega (arith, le, lt)),
  IsShared-of_dominant i d es a (pos, high, half, lt),
)

unfold_healthy :
    (i : GovernanceHealthInput)
    → (calculate_governance_health i).rating ≡ healthy
    → (assess i (dominant_entry i.weights)).rating ≡ healthy
unfolding calculate_governance_health
unfold_healthy i h = ground arith

-- When more than one owner is counted, a healthy rating promises that the quorum is positive and at
-- most eighty percent of the total weight, and that every owner in the weights holds at most half
-- of the total weight and less than the quorum.
pub calculate_governance_health-healthy :
    (i : GovernanceHealthInput)
    → 1 < owner_count i
    → (calculate_governance_health i).rating ≡ healthy
    → (0 < quorum_of i) × (quorum_of i * 100 ≤ 80 * i.total_weight) × All (IsShared i) i.weights
calculate_governance_health-healthy i many h =
    let b = assess-Balanced i (dominant_entry i.weights) many (unfold_healthy i h) in
    (
      b.0,
      b.1,
      IsShared-of_dominant i (dominant_entry i.weights) i.weights (dominant_entry-All i.weights) b,
    )
