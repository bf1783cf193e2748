-- ===== src/Analytics/Range/Parsing.antt =====
-- Which texts are dates, and which day they stand for.
use accord_protocol.Prelude.{
  ℕ, zero, suc, ◌+◌, ◌-◌, ◌*◌, ◌/◌, ◌%◌, ◌≤◌, ◌<◌, ◌≡◌, refl, ◌↔◌, inl, inr, false, Option, none,
  some, List, [], ◌∷◌, arith, ap, sym, ◌∙◌, leb, Bool-cases, leb→le, All, length, le→leb,
}
use accord_protocol.Prelude.Text.{Text, text_eq, text_eq_iff}
use accord_protocol.Calendar.{Date, date_of, day_of, utc, month_lengths, february}
use accord_protocol.Calendar.Iso.{iso, iso_date}
use accord_protocol.Calendar.Civil.{IsValid, date_of-IsValid, day_of-date_of, IsIn-year}
use accord_protocol.Calendar.Months.{month_length}
use accord_protocol.Calendar.Years.{days_before-ge, days_before-le}
use accord_protocol.Analytics.Range.{date_only, parse_date_only, kept}

month_length-le : (ls : List ℕ) (k : ℕ) → All (λ l. l ≤ 31) ls → month_length ls k ≤ 31
month_length-le [] k h = omega arith
month_length-le (l ∷ ls) zero h = h.0
month_length-le (l ∷ ls) (suc k) h = month_length-le ls k h.1

month_in_list : (ls : List ℕ) (k : ℕ) → 1 ≤ month_length ls k → k < length ls
month_in_list [] k h = omega arith
month_in_list (l ∷ ls) zero h = omega arith
month_in_list (l ∷ ls) (suc k) h = omega (arith, month_in_list ls k h)

february-le : (y : ℕ) → february y ≤ 31
unfolding february
february-le y = ground arith

pub record IsShort (t : Date) : Type 0 where
  pub month_le : t.month ≤ 12
  pub day_le : t.day ≤ 31

pub IsValid-IsShort : (t : Date) → IsValid t → IsShort t
IsValid-IsShort t v =
    let k : t.month - 1 < length (month_lengths t.year) =
      month_in_list (month_lengths t.year) (t.month - 1) (omega (arith, v.day_in)) in
    record {
      month_le = omega (arith, k);
      day_le = omega (
        arith,
        v.day_in,
        month_length-le (month_lengths t.year) (t.month - 1) (omega (arith, february-le t.year)),
      );
    }

date_only-iso_date :
    (t : Date) → t.year ≤ 9999 → IsShort t → date_only (iso_date t) ≡ some (t.year, t.month, t.day)
unfolding date_only iso_date
date_only-iso_date t h s = rw (le→leb _ _ h) (ground (arith, s))

date_only-iso_date_late : (t : Date) → 9999 < t.year → date_only (iso_date t) ≡ none
unfolding date_only iso_date
date_only-iso_date_late t h = ground arith

not_early : (y : ℕ) → 100 ≤ y → leb y 99 ≡ false
not_early y h = ground arith

pub utc-date : (t : Date) → IsValid t → 100 ≤ t.year → utc t.year t.month t.day ≡ day_of t
unfolding utc day_of
utc-date t v h =
    let s = IsValid-IsShort t v in
    let months = 12 * t.year + t.month - 1 in
    let y : months / 12 ≡ t.year = omega (arith, v.month_in, s.month_le) in
    let m : months % 12 ≡ t.month - 1 = omega (arith, v.month_in, s.month_le) in
    rw (not_early t.year h) (rw y (rw m (omega (arith, v.day_in))))

-- A year below 100 is read as one of the twentieth century.
pub utc-early : (t : Date) → IsValid t → t.year < 100 → 365 * 1900 ≤ utc t.year t.month t.day
unfolding utc
utc-early t v h =
    let s = IsValid-IsShort t v in
    let months = 12 * (1900 + t.year) + t.month - 1 in
    let y : months / 12 ≡ 1900 + t.year = omega (arith, v.month_in, s.month_le) in
    rw (le→leb t.year 99 (omega arith))
      (rw y (omega (arith, days_before-ge (1900 + t.year), v.day_in)))

-- A text that was kept.
kept-some :
    (v : Text) (o : Option (ℕ × ℕ × ℕ)) (n : ℕ)
    → kept v o ≡ some n
    → (y : ℕ) × (m : ℕ) × (d : ℕ) × (o ≡ some (y, m, d)) × (utc y m d ≡ n) × (v ≡ iso n)
kept-some v none n h = absurd (cc)
kept-some v (some (y, m, d)) n h = elim (Bool-cases (text_eq (iso (utc y m d)) v)) [
  | inl same ↦
      let e : utc y m d ≡ n = cc (rw same at h) in
      (y, m, d, refl, e, sym ((text_eq_iff _ _).0 same) ∙ ap iso e)
  | inr other ↦ absurd (cc (rw other at h))
]

-- The day that `Date.UTC` makes of a year below 100 is in another year.
too_early :
    (n y m d : ℕ)
    → (utc y m d ≡ n)
    → ◌≡◌ {A = Option (ℕ × ℕ × ℕ)}
        (some ((date_of n).year, (date_of n).month, (date_of n).day))
        (some (y, m, d))
    → (date_of n).year < 100
    → ⊥
too_early n y m d u e h =
    let same : utc (date_of n).year (date_of n).month (date_of n).day ≡ n = ground (arith, e, u) in
    let i = IsIn-year (date_of n) (date_of-IsValid n) in
    omega (
      arith,
      utc-early (date_of n) (date_of-IsValid n) h,
      same,
      day_of-date_of n,
      i.until,
      days_before-le (suc (date_of n).year),
    )

reads :
    (n : ℕ) → 100 ≤ (date_of n).year → (date_of n).year ≤ 9999 → parse_date_only (iso n) ≡ some n
unfolding parse_date_only iso
reads n h k =
    let v = date_of-IsValid n in
    let u : utc (date_of n).year (date_of n).month (date_of n).day ≡ n =
      utc-date (date_of n) v h ∙ day_of-date_of n in
    rw (date_only-iso_date (date_of n) k (IsValid-IsShort (date_of n) v))
      (rw u (rw ((text_eq_iff (iso_date (date_of n)) (iso_date (date_of n))).1 refl)))

-- The day of a date that reads as itself is in one of the years that `Date.UTC` takes as they are.
read_back :
    (n y m d : ℕ)
    → date_only (iso n) ≡ some (y, m, d)
    → utc y m d ≡ n
    → (100 ≤ (date_of n).year) × ((date_of n).year ≤ 9999)
unfolding iso
read_back n y m d h u =
    let v = date_of-IsValid n in
    let t = date_of n in
    elim (Bool-cases (leb (date_of n).year 9999)) [
      | inl near ↦
          let r : (date_of n).year ≤ 9999 = leb→le _ _ near in
          let e = date_only-iso_date (date_of n) r (IsValid-IsShort (date_of n) v) in
          elim (Bool-cases (leb 100 (date_of n).year)) [
            | inl late ↦ (leb→le _ _ late, r)
            | inr early ↦ absurd (too_early n y m d u (sym e ∙ h) (ground arith))
          ]
      | inr far ↦ absurd (cc (date_only-iso_date_late (date_of n) (ground arith)))
    ]

-- `parseDateOnly` returns a day exactly for the text of that day, if its year is from 100 to 9999.
pub parse_date_only_iff :
    (v : Text) (n : ℕ)
    → (parse_date_only v ≡ some n)
      ↔ ((v ≡ iso n) × (100 ≤ (date_of n).year) × ((date_of n).year ≤ 9999))
unfolding parse_date_only
parse_date_only_iff v n = (
  (λ h.
      let (y, m, d, o, u, e) = kept-some v (date_only v) n h in
      let r = read_back n y m d (ap date_only (sym e) ∙ o) u in (e, r.0, r.1)),
  λ h. rw h.0 (reads n h.1 h.2),
)
