-- ===== src/Analytics/Range/Days.antt =====
-- The days that `clampDateRange` computes with.
use accord_protocol.Prelude.{
  ℕ, ◌+◌, ◌-◌, ◌≤◌, ◌≡◌, Bool, true, false, ltb, leb, ◌&&◌, if◌then◌else◌, Bool-cases, Option, none,
  some, arith, ◌∙◌, inl, inr,
}
use accord_protocol.Calendar.{date_of}
use accord_protocol.Calendar.Years.{year_of_mono}
use accord_protocol.Analytics.Range.{raise, lower, ordered, shorten, clamp_days, after}

-- A day of one of the years that the text of a range can name.
pub record IsDay (n : ℕ) : Type 0 where
  pub late : 100 ≤ (date_of n).year
  pub near : (date_of n).year ≤ 9999

abbrev pub AreDays : Option ℕ → Type 0
AreDays none = Unit
AreDays (some n) = IsDay n

IsDay-between : (a n b : ℕ) → IsDay a → IsDay b → a ≤ n → n ≤ b → IsDay n
unfolding date_of
IsDay-between a n b x y h k = record {
  late = omega (arith, x.late, year_of_mono a n h);
  near = omega (arith, y.near, year_of_mono n b k);
}

abbrev pub BothDays : Option ℕ × Option ℕ → Type 0
BothDays r = AreDays r.0 × AreDays r.1

IsDay-if : (b : Bool) (m n : ℕ) → IsDay m → IsDay n → IsDay (if b then m else n)
IsDay-if true m n h k = h
IsDay-if false m n h k = k

raise-AreDays : (lo o : Option ℕ) → AreDays lo → AreDays o → AreDays (raise lo o)
raise-AreDays none o h k = k
raise-AreDays (some lo) none h k = k
raise-AreDays (some lo) (some n) h k = IsDay-if (ltb n lo) lo n h k

lower-AreDays : (hi o : Option ℕ) → AreDays hi → AreDays o → AreDays (lower hi o)
lower-AreDays none o h k = k
lower-AreDays (some hi) none h k = k
lower-AreDays (some hi) (some n) h k = IsDay-if (ltb hi n) hi n h k

shorten-AreDays : (d s e : Option ℕ) → AreDays s → AreDays e → AreDays (shorten d s e)
shorten-AreDays none s e h k = h
shorten-AreDays (some d) none e h k = h
shorten-AreDays (some d) (some s) none h k = h
shorten-AreDays (some d) (some s) (some e) h k = elim (Bool-cases (leb 1 d && ltb (d - 1 + s) e)) [
  | inl long ↦ rw long (IsDay-between s (e - (d - 1)) e h k (ground arith) (omega arith))
  | inr short ↦ rw short h
]

ordered-BothDays : (s e : Option ℕ) → AreDays s → AreDays e → BothDays (ordered (s, e))
ordered-BothDays none e h k = (h, k)
ordered-BothDays (some s) none h k = (h, k)
ordered-BothDays (some s) (some e) h k = elim (Bool-cases (ltb e s)) [
  | inl swapped ↦ rw swapped (k, h)
  | inr kept ↦ rw kept (h, k)
]

-- One end of a range within the bounds.
module _ (lo hi : Option ℕ) where
  pub within : Option ℕ → Option ℕ
  within o = lower hi (raise lo o)

  within-AreDays : (o : Option ℕ) → AreDays lo → AreDays hi → AreDays o → AreDays (within o)
  unfolding within
  within-AreDays o h k l = lower-AreDays hi (raise lo o) k (raise-AreDays lo o h l)

  within_idem : (o : Option ℕ) → within (within o) ≡ within o
  unfolding within
  within_idem o = ground arith

  within-ordered : (s e : Option ℕ) → after s e ≡ false → after (within s) (within e) ≡ false
  unfolding within
  within-ordered s e h = ground arith

  within-shorten :
      (d s e : Option ℕ)
      → within s ≡ s
      → within e ≡ e
      → after s e ≡ false
      → within (shorten d s e) ≡ shorten d s e
  unfolding within
  within-shorten d s e h k l = ground arith

ordered-ordered : (s e : Option ℕ) → after (ordered (s, e)).0 (ordered (s, e)).1 ≡ false
ordered-ordered s e = ground arith

ordered_self : (s e : Option ℕ) → after s e ≡ false → ordered (s, e) ≡ (s, e)
ordered_self s e h = ground arith

shorten-ordered : (d s e : Option ℕ) → after s e ≡ false → after (shorten d s e) e ≡ false
shorten-ordered d s e h = ground arith

shorten_idem : (d s e : Option ℕ) → shorten d (shorten d s e) e ≡ shorten d s e
shorten_idem d s e = ground arith

-- The days that the code computes, by what is proved above.
module _ (s e lo hi d : Option ℕ) where
  pub lowest : Option ℕ
  lowest = within lo hi (ordered (s, e)).0

  pub highest : Option ℕ
  highest = within lo hi (ordered (s, e)).1

  pub clamp_days_lem : clamp_days (s, e) lo hi d ≡ (shorten d lowest highest, highest)
  unfolding clamp_days lowest highest within
  clamp_days_lem = ground arith

  still_ordered : after lowest highest ≡ false
  unfolding lowest highest
  still_ordered = within-ordered lo hi (ordered (s, e)).0 (ordered (s, e)).1 (ordered-ordered s e)

  pub clamp_days-ordered : after (shorten d lowest highest) highest ≡ false
  clamp_days-ordered = shorten-ordered d lowest highest still_ordered

  pub clamp_days-BothDays :
      AreDays s → AreDays e → AreDays lo → AreDays hi → BothDays (shorten d lowest highest, highest)
  unfolding lowest highest
  clamp_days-BothDays hs he hl hh =
      let o = ordered-BothDays s e hs he in
      let top = within-AreDays lo hi (ordered (s, e)).1 hl hh o.1 in
      (shorten-AreDays d _ highest (within-AreDays lo hi (ordered (s, e)).0 hl hh o.0) top, top)

clamp_days_self :
    (s e lo hi d : Option ℕ)
    → after s e ≡ false
    → within lo hi s ≡ s
    → within lo hi e ≡ e
    → clamp_days (s, e) lo hi d ≡ (shorten d s e, e)
unfolding lowest highest
clamp_days_self s e lo hi d h k l =
    clamp_days_lem s e lo hi d ∙ rw (ordered_self s e h) (rw k (rw l))

pub clamp_days_idem :
    (s e lo hi d : Option ℕ)
    → clamp_days (clamp_days (s, e) lo hi d) lo hi d ≡ clamp_days (s, e) lo hi d
unfolding lowest highest
clamp_days_idem s e lo hi d =
    let top = within_idem lo hi (ordered (s, e)).1 in
    let o = clamp_days-ordered s e lo hi d in
    let again =
      clamp_days_self (shorten d (lowest s e lo hi d) (highest s e lo hi d)) (highest s e lo hi d)
        lo hi d o
        (within-shorten lo hi d _ _ (within_idem lo hi (ordered (s, e)).0) top
          (still_ordered s e lo hi d))
        top in
    rw (clamp_days_lem s e lo hi d)
      (again ∙ rw (shorten_idem d (lowest s e lo hi d) (highest s e lo hi d)))

pub clamp_days-within :
    (s e mn mx d : Option ℕ) (lo hi days a b : ℕ)
    → (clamp_days (s, e) mn mx d).0 ≡ some a
    → (clamp_days (s, e) mn mx d).1 ≡ some b
    → mn ≡ some lo
    → mx ≡ some hi
    → d ≡ some days
    → lo ≤ hi
    → 1 ≤ days
    → (lo ≤ a) × (a ≤ b) × (b ≤ hi) × (b + 1 ≤ a + days)
unfolding clamp_days
clamp_days-within s e mn mx d lo hi days a b x y hl hh hd k l = ground arith
