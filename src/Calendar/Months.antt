-- ===== src/Calendar/Months.antt =====
-- The month of a day of the year.
use accord_protocol.Prelude.{
  ℕ, zero, suc, ◌+◌, ◌-◌, ◌≤◌, ◌<◌, ◌≡◌, refl, ltb, arith, List, [], ◌∷◌, Bool-cases, inl, inr,
}
use accord_protocol.Calendar.{year_length, february, month_lengths, month_from, days_before_month}

-- The length of the month with index `k`; 0 past the last.
abbrev pub month_length : List ℕ → ℕ → ℕ
month_length [] k = 0
month_length (l ∷ ls) zero = l
month_length (l ∷ ls) (suc k) = month_length ls k

abbrev sum : List ℕ → ℕ
sum [] = 0
sum (l ∷ ls) = l + sum ls

pub month_from-start :
    (ls : List ℕ) (m k q : ℕ)
    → q < month_length ls k
    → month_from ls m (days_before_month ls k + q) ≡ (m + k, q)
unfolding month_from days_before_month
month_from-start [] m k q h = elim h [ ]
month_from-start (l ∷ ls) m zero q h = ground arith
month_from-start (l ∷ ls) m (suc k) q h = ground (arith, month_from-start ls (suc m) k q h)

-- What `month_from` finds.
pub record Splits (ls : List ℕ) (m r : ℕ) (found : ℕ × ℕ) : Type 0 where
  pub after : m ≤ found.0
  pub sums : days_before_month ls (found.0 - m) + found.1 ≡ r
  pub within : found.1 < month_length ls (found.0 - m)

further :
    (l : ℕ) (ls : List ℕ) (m r : ℕ) (found : ℕ × ℕ)
    → Splits ls (suc m) (r - l) found
    → l ≤ r
    → Splits (l ∷ ls) m r found
unfolding days_before_month
further l ls m r found s h =
    let e : found.0 - m ≡ suc (found.0 - suc m) = omega (arith, s.after) in
    record {
      after = omega (arith, s.after);
      sums = rw e (omega (arith, s.sums));
      within = rw e (s.within);
    }

pub month_from-Splits : (ls : List ℕ) (m r : ℕ) → r < sum ls → Splits ls m r (month_from ls m r)
unfolding month_from days_before_month
month_from-Splits [] m r h = elim h [ ]
month_from-Splits (l ∷ ls) m r h = elim (Bool-cases (ltb r l)) [
  | inl here ↦
      rw (here, month_from)
        (record { after = omega arith; sums = ground arith; within = ground arith })
  | inr later ↦
      rw (later, month_from)
        (further l ls m r _ (month_from-Splits ls (suc m) (r - l) (ground arith)) (ground arith))
]

pub sum-month_lengths : (y : ℕ) → sum (month_lengths y) ≡ year_length y
unfolding year_length february
sum-month_lengths y = ground arith

pub days_before_month-lt-sum :
    (ls : List ℕ) (k q : ℕ) → q < month_length ls k → days_before_month ls k + q < sum ls
unfolding days_before_month
days_before_month-lt-sum [] k q h = elim h [ ]
days_before_month-lt-sum (l ∷ ls) zero q h = omega arith
days_before_month-lt-sum (l ∷ ls) (suc k) q h = omega (arith, days_before_month-lt-sum ls k q h)

pub days_before_month-suc :
    (ls : List ℕ) (k : ℕ)
    → days_before_month ls (suc k) ≡ days_before_month ls k + month_length ls k
unfolding days_before_month
days_before_month-suc [] k = refl
days_before_month-suc (l ∷ []) zero = omega arith
days_before_month-suc (l ∷ m ∷ ls) zero = omega arith
days_before_month-suc (l ∷ ls) (suc k) = omega (arith, days_before_month-suc ls k)
