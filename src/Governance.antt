-- ===== src/Governance.antt =====
-- frontend/src/lib/governanceHealth.ts: the score of a set of voting weights. Weights, the quorum
-- and the number of owners are natural numbers, as the contract's u32 values are, and percentages
-- are compared exactly, by cross multiplication, where the program divides doubles. The warning
-- threshold is in hundredths of a percent. A risk's text is kept as a constructor.
pub mod Rating
pub mod Dominant
pub mod Examples
pub mod Risks
use accord_protocol.Prelude.{
  ℕ, ◌+◌, ◌*◌, ◌/◌, min, max, String, Bool, true, false, ◌&&◌, ◌||◌, Option, none, some, List, [],
  ◌∷◌, ◌++◌, ltb, leb, ◌==◌, str_eq, if◌then◌else◌, length,
}

pub data GovernanceRating : Type 0 where
  healthy moderate_risk high_risk critical_risk : GovernanceRating

pub data Risk : Type 0 where
  no_owners majority_holder concentrated quorum_impossible quorum_zero quorum_high : Risk
  quorum_low unilateral single_owner two_of_two : Risk

pub record GovernanceHealthAnalysis : Type 0 where
  pub score : ℕ
  pub rating : GovernanceRating
  pub explanation : String
  pub flagged_risks : List Risk
  -- Percentages rounded to tenths, in tenths.
  pub dominant_share_pct : ℕ
  pub dominant_address : Option String
  pub quorum_ratio_pct : ℕ

pub record GovernanceHealthInput : Type 0 where
  pub weights : List (String × ℕ)
  pub total_weight : ℕ
  pub threshold : Option ℕ
  pub total_owners : Option ℕ
  pub warning_threshold_pct : ℕ

-- The default `warningThresholdPct = 33.33`.
abbrev pub default_warning_pct : ℕ
default_warning_pct = 3333

abbrev pub or_else : Option ℕ → ℕ → ℕ
or_else none d = d
or_else (some n) d = n

-- `entries.reduce((best, cur) => cur[1] > best[1] ? cur : best, best)`.
pub heaviest : String × ℕ → List (String × ℕ) → String × ℕ
heaviest best [] = best
heaviest best (cur ∷ rest) = heaviest (if ltb best.1 cur.1 then cur else best) rest

unfoldable pub dominant_entry : List (String × ℕ) → String × ℕ
unfolding heaviest
dominant_entry [] = ("", 0)
dominant_entry (e ∷ rest) = heaviest e (e ∷ rest)

abbrev address_or_null : String → Option String
address_or_null a = if str_eq a "" then none else some a

-- Points and the risks that were pushed.
abbrev Scored : Type 0
Scored = ℕ × List Risk

-- Concentration, at most 40 points: the share of the dominant weight is above a half, above the
-- warning threshold, or above a quarter.
unfoldable pub concentration : ℕ → ℕ → ℕ → Scored
concentration dominant total warning =
    if ltb total (dominant * 2)
    then (5, majority_holder ∷ [])
    else (if ltb (warning * total) (dominant * 10000)
        then (20, concentrated ∷ [])
        else (if ltb total (dominant * 4) then (32, []) else (40, [])))

-- Quorum safety, at most 40 points.
unfoldable pub quorum_safety : ℕ → ℕ → Scored
quorum_safety quorum total =
    if ltb total quorum
    then (0, quorum_impossible ∷ [])
    else (if leb quorum 0
        then (5, quorum_zero ∷ [])
        else (if ltb (80 * total) (quorum * 100)
            then (18, quorum_high ∷ [])
            else (if ltb (quorum * 100) (40 * total) then (22, quorum_low ∷ []) else (40, []))))

-- A single owner who meets the quorum caps the points for concentration.
unfoldable pub unilateral_cap : ℕ → ℕ → ℕ → ℕ → Scored
unilateral_cap dominant quorum owners pts =
    if leb quorum dominant && ltb 1 owners then (min pts 10, unilateral ∷ []) else (pts, [])

-- Redundancy of the signers, at most 20 points.
unfoldable pub redundancy : ℕ → ℕ → Scored
redundancy owners quorum =
    if leb owners 1
    then (0, single_owner ∷ [])
    else (if owners == 2
        then (10, (if quorum == 2 then two_of_two ∷ [] else []))
        else (if leb 3 owners && ltb owners 5 then (16, []) else (20, [])))

unfoldable pub rating_of : ℕ → GovernanceRating
rating_of score =
    if ltb score 40
    then critical_risk
    else (if ltb score 65 then high_risk else (if ltb score 80 then moderate_risk else healthy))

abbrev explanation_of : GovernanceRating → String
explanation_of healthy =
    "Governance is well-balanced with distributed voting power and an achievable quorum."
explanation_of moderate_risk =
    "Governance has moderate concentration or quorum friction. Minor rebalancing is recommended."
explanation_of high_risk =
    "Governance faces significant centralization or liveness risks that could compromise security."
explanation_of critical_risk =
    "Critical governance vulnerabilities detected: proposals may be blocked or controlled unilaterally."

-- A percentage of a positive total, rounded half up to tenths.
abbrev pct_tenths : ℕ → ℕ → ℕ
pct_tenths part total = (part * 2000 + total) / (total * 2)

abbrev unconfigured : GovernanceHealthAnalysis
unconfigured = record {
  score = 0;
  rating = critical_risk;
  explanation = "No active multisig owners or weights configured.";
  flagged_risks = no_owners ∷ [];
  dominant_share_pct = 0;
  dominant_address = none;
  quorum_ratio_pct = 0;
}

abbrev pub owner_count : GovernanceHealthInput → ℕ
owner_count i = or_else i.total_owners (length i.weights)

-- `threshold ?? Math.ceil(totalWeight * 0.5)`.
abbrev pub quorum_of : GovernanceHealthInput → ℕ
quorum_of i = or_else i.threshold ((i.total_weight + 1) / 2)

-- The score and the risks for a dominant entry.
unfoldable pub assess : GovernanceHealthInput → String × ℕ → GovernanceHealthAnalysis
assess i dominant =
    let quorum = quorum_of i in
    let (conc, conc_risks) = concentration dominant.1 i.total_weight i.warning_threshold_pct in
    let (quorum_pts, quorum_risks) = quorum_safety quorum i.total_weight in
    let (capped, cap_risks) = unilateral_cap dominant.1 quorum (owner_count i) conc in
    let (redundancy_pts, redundancy_risks) = redundancy (owner_count i) quorum in
    let score = max 0 (min 100 (capped + quorum_pts + redundancy_pts)) in
    record {
      score = score;
      rating = rating_of score;
      explanation = explanation_of (rating_of score);
      flagged_risks = conc_risks ++ quorum_risks ++ cap_risks ++ redundancy_risks;
      dominant_share_pct = pct_tenths dominant.1 i.total_weight;
      dominant_address = address_or_null dominant.0;
      quorum_ratio_pct = pct_tenths quorum i.total_weight;
    }

unfoldable pub calculate_governance_health : GovernanceHealthInput → GovernanceHealthAnalysis
unfolding assess dominant_entry
calculate_governance_health i =
    if owner_count i == 0 || leb i.total_weight 0
    then unconfigured
    else assess i (dominant_entry i.weights)
