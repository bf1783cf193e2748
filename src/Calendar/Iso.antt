-- ===== src/Calendar/Iso.antt =====
-- `new Date(ms).toISOString().slice(0, 10)`. A year above 9999 has a sign and six digits, so the
-- slice ends after the month.
use accord_protocol.Prelude.{ℕ, ◌+◌, ◌/◌, ◌%◌, leb, if◌then◌else◌, [], ◌∷◌, ◌++◌}
use accord_protocol.Prelude.Text.{Text}
use accord_protocol.Calendar.{Date, date_of}

abbrev digit : ℕ → ℕ
digit n = 48 + n % 10

abbrev two : ℕ → Text
two n = digit (n / 10) ∷ digit n ∷ []

abbrev four : ℕ → Text
four n = digit (n / 1000) ∷ digit (n / 100) ∷ two n

unfoldable pub iso_date : Date → Text
iso_date t =
    if leb t.year 9999
    then four t.year ++ (45 ∷ two t.month ++ (45 ∷ two t.day))
    else 43 ∷ two (t.year / 10000) ++ (four t.year ++ (45 ∷ two t.month))

unfoldable pub iso : ℕ → Text
iso n = iso_date (date_of n)
