-- ===== src/Governance/Examples.antt =====
-- The theorems on the rating at concrete weights.
use accord_protocol.Governance.Risks.{calculate_governance_health-flagged}
use accord_protocol.Prelude.{◌*◌, ◌≤◌, ◌<◌, ◌≡◌, refl, arith, none, some, [], ◌∷◌, All}
use accord_protocol.Governance.{
  GovernanceHealthInput, healthy, calculate_governance_health, default_warning_pct, concentration,
  quorum_safety, unilateral_cap, redundancy, rating_of,
}
use accord_protocol.Governance.Rating.{IsShared, calculate_governance_health-healthy}

abbrev five_owners : GovernanceHealthInput
five_owners = record {
  weights = ("A", 20) ∷ ("B", 20) ∷ ("C", 20) ∷ ("D", 20) ∷ ("E", 20) ∷ [];
  total_weight = 100;
  threshold = some 60;
  total_owners = none;
  warning_threshold_pct = default_warning_pct;
}

test_healthy : (calculate_governance_health five_owners).rating ≡ healthy
unfolding calculate_governance_health concentration quorum_safety unilateral_cap redundancy
    rating_of
test_healthy = refl

test_quiet : (calculate_governance_health five_owners).flagged_risks ≡ []
unfolding calculate_governance_health concentration quorum_safety unilateral_cap redundancy
    rating_of
test_quiet = refl

calculate_governance_health-healthy_example :
    (0 < 60) × (60 * 100 ≤ 80 * 100) × All (IsShared five_owners) five_owners.weights
calculate_governance_health-healthy_example =
    calculate_governance_health-healthy five_owners (omega arith) test_healthy

calculate_governance_health-flagged_example :
    (calculate_governance_health five_owners).rating ≡ healthy
calculate_governance_health-flagged_example =
    calculate_governance_health-flagged five_owners test_quiet
