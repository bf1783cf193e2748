-- ===== src/Governance/Risks.antt =====
-- The risks that accompany a rating.
use accord_protocol.Prelude.{ℕ, ◌+◌, ◌≤◌, min, max, String, ◌≡◌, refl, arith, List, [], ◌∷◌, ◌++◌}
use accord_protocol.Governance.{
  GovernanceHealthInput, healthy, Risk, dominant_entry, calculate_governance_health, owner_count,
  quorum_of, assess, rating_of, concentration, quorum_safety, unilateral_cap, redundancy,
}

append-nil {ℓ} : {A : Type ℓ} (xs ys : List A) → (xs ++ ys) ≡ [] → (xs ≡ []) × (ys ≡ [])
append-nil [] ys h = (refl, h)
append-nil (x ∷ xs) ys h = ground arith

concentration-quiet : (d t w : ℕ) → (concentration d t w).1 ≡ [] → 32 ≤ (concentration d t w).0
unfolding concentration
concentration-quiet d t w h = ground arith

quorum_safety-quiet : (q t : ℕ) → (quorum_safety q t).1 ≡ [] → 40 ≤ (quorum_safety q t).0
unfolding quorum_safety
quorum_safety-quiet q t h = ground arith

unilateral_cap-quiet :
    (d q n p : ℕ) → (unilateral_cap d q n p).1 ≡ [] → (unilateral_cap d q n p).0 ≡ p
unfolding unilateral_cap
unilateral_cap-quiet d q n p h = ground arith

redundancy-quiet : (n q : ℕ) → (redundancy n q).1 ≡ [] → 10 ≤ (redundancy n q).0
unfolding redundancy
redundancy-quiet n q h = ground arith

rating_of-high : (s : ℕ) → 80 ≤ s → rating_of s ≡ healthy
unfolding rating_of
rating_of-high s h = ground arith

module _ (i : GovernanceHealthInput) (dominant : String × ℕ) where
  abbrev conc : ℕ × List Risk
  conc = concentration dominant.1 i.total_weight i.warning_threshold_pct

  abbrev cap : ℕ × List Risk
  cap = unilateral_cap dominant.1 (quorum_of i) (owner_count i) conc.0

  abbrev safety : ℕ × List Risk
  safety = quorum_safety (quorum_of i) i.total_weight

  abbrev spare : ℕ × List Risk
  spare = redundancy (owner_count i) (quorum_of i)

  quiet_points :
      conc.1 ≡ []
      → safety.1 ≡ []
      → cap.1 ≡ []
      → spare.1 ≡ []
      → 80 ≤ max 0 (min 100 (cap.0 + safety.0 + spare.0))
  quiet_points a b c d = omega (
    arith,
    concentration-quiet dominant.1 i.total_weight i.warning_threshold_pct a,
    quorum_safety-quiet (quorum_of i) i.total_weight b,
    unilateral_cap-quiet dominant.1 (quorum_of i) (owner_count i) conc.0 c,
    redundancy-quiet (owner_count i) (quorum_of i) d,
  )

  assess-quiet : (assess i dominant).flagged_risks ≡ [] → (assess i dominant).rating ≡ healthy
  unfolding assess
  assess-quiet h =
      let (abc, d) = append-nil (conc.1 ++ safety.1 ++ cap.1) spare.1 h in
      let (ab, c) = append-nil (conc.1 ++ safety.1) cap.1 abc in
      let (a, b) = append-nil conc.1 safety.1 ab in rating_of-high _ (quiet_points a b c d)

-- An analysis that flags no risk rates the weights healthy: every rating below healthy comes with
-- at least one flagged risk.
pub calculate_governance_health-flagged :
    (i : GovernanceHealthInput)
    → (calculate_governance_health i).flagged_risks ≡ []
    → (calculate_governance_health i).rating ≡ healthy
unfolding calculate_governance_health
calculate_governance_health-flagged i h = ground (arith, assess-quiet i (dominant_entry i.weights))
