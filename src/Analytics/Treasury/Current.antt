-- ===== src/Analytics/Treasury/Current.antt =====
-- The current balance is that of the latest snapshot on or before the last day asked for.
use accord_protocol.Prelude.{ℕ, ◌+◌, ◌≤◌, ◌<◌, ◌⊎◌, Option, none, some, List, [], ◌∷◌, All}
use accord_protocol.Prelude.Text.{Text}
use accord_protocol.Analytics.Js.{Js}
use accord_protocol.Analytics.Endpoints.{BalanceSnapshot}
use accord_protocol.Analytics.Treasury.Latest.{Has}

-- Before the end of the day that begins at the instant `n`; no instant is when there is no such day.
abbrev pub IsBy : ℕ → Option ℕ → Type 0
IsBy ts none = ⊥
IsBy ts (some n) = ts < n + 86400000

-- Whether an instant is not after the last day that is asked for: the day that the text denotes,
-- when there is a text and it is not empty.
abbrev pub IsUntil : {Amount : Type 0} → Js Amount → Option Text → ℕ → Type 0
IsUntil js none ts = Unit
IsUntil js (some []) ts = Unit
IsUntil js (some (c ∷ t)) ts = IsBy ts (js.date_parse (c ∷ t))

-- Which snapshot of a list is the current one: one with the property, and no other one that has it
-- is later; none only when no snapshot has it.
pub data IsCurrent (P : BalanceSnapshot → Type 0) (ss : List BalanceSnapshot)
    : Option BalanceSnapshot → Type 0 where
  nothing : All (λ s. ¬ P s) ss → IsCurrent P ss none
  current :
      (c : BalanceSnapshot)
      → Has c ss
      → P c
      → All (λ s. (¬ P s) ⊎ (s.timestamp ≤ c.timestamp)) ss
      → IsCurrent P ss (some c)
