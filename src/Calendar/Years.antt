-- ===== src/Calendar/Years.antt =====
-- The year of a day.
use accord_protocol.Prelude.{
  ℕ, zero, suc, ◌+◌, ◌*◌, ◌/◌, ◌≤◌, ◌<◌, ◌≡◌, ltb, arith, Bool-cases, inl, inr, ltb→lt, ap, subst,
}
use accord_protocol.Calendar.{is_leap, year_length, days_before, year_from, year_of}

pub days_before-suc : (y : ℕ) → days_before (suc y) ≡ days_before y + year_length y
unfolding days_before year_length is_leap
days_before-suc y = ground arith

pub days_before-ge : (y : ℕ) → 365 * y ≤ days_before y
unfolding days_before
days_before-ge y = omega arith

pub days_before-le : (y : ℕ) → days_before y ≤ 366 * y
unfolding days_before
days_before-le y = omega arith

-- The days of the year `y`.
pub record IsIn (y n : ℕ) : Type 0 where
  pub from : days_before y ≤ n
  pub until : n < days_before (suc y)

shift_zero : (y n : ℕ) → days_before y ≤ n → n < days_before (y + 0) → ⊥
shift_zero y n h k = let e : y + 0 ≡ y = omega arith in omega (arith, ap days_before e)

year_from-IsIn :
    (fuel y n : ℕ) → days_before y ≤ n → n < days_before (y + fuel) → IsIn (year_from fuel y n) n
unfolding year_from
year_from-IsIn zero y n h k = absurd (shift_zero y n h k)
year_from-IsIn (suc fuel) y n h k = elim (Bool-cases (ltb n (days_before (suc y)))) [
  | inl here ↦ rw (here, year_from) (record { from = h; until = ltb→lt _ _ here })
  | inr later ↦
      rw (later, year_from)
        (year_from-IsIn fuel (suc y) n (ground arith)
          (subst (λ (z : ℕ). n < days_before z) (omega arith) k))
]

pub year_of-IsIn : (n : ℕ) → IsIn (year_of n) n
unfolding year_of
year_of-IsIn n =
    year_from-IsIn (suc n) (n / 366) n (omega (arith, days_before-le (n / 366)))
      (omega (arith, days_before-ge (n / 366 + suc n)))

-- The years do not overlap.
days_before_mono : (y z : ℕ) → y ≤ z → days_before y ≤ days_before z
unfolding days_before
days_before_mono y z h = omega arith

pub IsIn-unique : (y z n : ℕ) → IsIn y n → IsIn z n → y ≡ z
IsIn-unique y z n a b = grind (arith, days_before_mono (suc y) z, days_before_mono (suc z) y)

pub year_of_mono : (n m : ℕ) → n ≤ m → year_of n ≤ year_of m
year_of_mono n m h =
    let i = year_of-IsIn n in
    let j = year_of-IsIn m in
    grind (arith, i.from, j.until, days_before_mono (suc (year_of m)) (year_of n))
