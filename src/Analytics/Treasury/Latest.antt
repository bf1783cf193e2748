-- ===== src/Analytics/Treasury/Latest.antt =====
-- The snapshot that is found is the latest one that passes the test.
use accord_protocol.Prelude.{
  false, All, ℕ, ◌≤◌, ◌≡◌, refl, ◌⊎◌, inl, inr, Bool, true, Option, none, some, List, [], ◌∷◌, ltb,
  arith, Bool-cases,
}
use accord_protocol.Prelude.Sort.{insert, sort}
use accord_protocol.Analytics.Js.{Js}
use accord_protocol.Analytics.Query.{ParsedAnalyticsQuery}
use accord_protocol.Analytics.Endpoints.{BalanceSnapshot, AnalyticsContext}
use accord_protocol.Analytics.Treasury.{sorts_later, by_end, find_last, current_snapshot}

-- In the order of time, from `m` on.
abbrev Ascending : ℕ → List BalanceSnapshot → Type 0
Ascending m [] = Unit
Ascending m (s ∷ ss) = (m ≤ s.timestamp) × Ascending s.timestamp ss

Ascending-lower : (k m : ℕ) (ss : List BalanceSnapshot) → k ≤ m → Ascending m ss → Ascending k ss
Ascending-lower k m [] h a = tt
Ascending-lower k m (s ∷ ss) h a = (omega (arith, a.0), a.1)

abbrev pub Has : BalanceSnapshot → List BalanceSnapshot → Type 0
Has s [] = ⊥
Has s (t ∷ ts) = (s ≡ t) ⊎ Has s ts

-- A snapshot that does not pass the test or is not later than `c`.
abbrev pub Yields : (BalanceSnapshot → Bool) → BalanceSnapshot → BalanceSnapshot → Type 0
Yields test c s = (test s ≡ false) ⊎ (s.timestamp ≤ c.timestamp)

-- What the search for the last snapshot that passes a test gives in a list in the order of time.
pub data Chosen (test : BalanceSnapshot → Bool) (ss : List BalanceSnapshot)
    : Option BalanceSnapshot → Type 0 where
  not_chosen : All (λ s. test s ≡ false) ss → Chosen test ss none
  chosen :
      (c : BalanceSnapshot)
      → Has c ss
      → test c ≡ true
      → All (Yields test c) ss
      → Chosen test ss (some c)

moved :
    {s x t : BalanceSnapshot} {P Q : Type 0}
    → (s ≡ t) ⊎ Q
    → (Q → (s ≡ x) ⊎ P)
    → (s ≡ x) ⊎ ((s ≡ t) ⊎ P)
moved (inl e) k = inr (inl e)
moved (inr q) k = elim (k q) [ inl e ↦ inl e | inr p ↦ inr (inr p) ]

under : {A P Q : Type 0} → A ⊎ P → (P → Q) → A ⊎ Q
under (inl e) k = inl e
under (inr p) k = inr (k p)

past : (c f s : BalanceSnapshot) (ss : List BalanceSnapshot) → Has c (f ∷ ss) → Has c (f ∷ s ∷ ss)
past c f s ss (inl e) = inl e
past c f s ss (inr h) = inr (inr h)

older :
    (test : BalanceSnapshot → Bool) (f s c : BalanceSnapshot)
    → f.timestamp ≤ s.timestamp
    → test s ≡ true
    → Yields test c s
    → Yields test c f
older test f s c h p (inl e) = absurd (cc (e, p))
older test f s c h p (inr k) = inr (omega (arith, h, k))

-- The list grows by a snapshot in front that yields to the chosen one.
module _ {test : BalanceSnapshot → Bool} where
  before :
      (f s : BalanceSnapshot) (ss : List BalanceSnapshot) {o : Option BalanceSnapshot}
      → f.timestamp ≤ s.timestamp
      → Chosen test (s ∷ ss) o
      → test s ≡ true
      → Chosen test (f ∷ s ∷ ss) o
  before f s ss h (not_chosen a) p = absurd (cc (a.0, p))
  before f s ss h (chosen c k q a) p = chosen c (inr k) q (older test f s c h p a.0, a)

  skip :
      (f s : BalanceSnapshot) (ss : List BalanceSnapshot) {o : Option BalanceSnapshot}
      → test s ≡ false
      → Chosen test (f ∷ ss) o
      → Chosen test (f ∷ s ∷ ss) o
  skip f s ss h (not_chosen a) = not_chosen (a.0, (h, a.1))
  skip f s ss h (chosen c k q a) = chosen c (past c f s ss k) q (a.0, (inl h, a.1))

  leave :
      (s : BalanceSnapshot) (ss : List BalanceSnapshot) {o : Option BalanceSnapshot}
      → test s ≡ false
      → Chosen test ss o
      → Chosen test (s ∷ ss) o
  leave s ss h (not_chosen a) = not_chosen (h, a)
  leave s ss h (chosen c k q a) = chosen c (inr k) q (inl h, a)

module _ {Amount : Type 0} (js : Js Amount) where
  Ascending-insert :
      (m : ℕ) (x : BalanceSnapshot) (ss : List BalanceSnapshot)
      → m ≤ x.timestamp
      → Ascending m ss
      → Ascending m (insert (sorts_later js) x ss)
  unfolding insert
  Ascending-insert m x [] h a = (h, tt)
  Ascending-insert m x (s ∷ ss) h a = elim (Bool-cases (ltb s.timestamp x.timestamp)) [
    | inl later ↦ rw later (a.0, Ascending-insert s.timestamp x ss (ground arith) a.1)
    | inr sooner ↦ rw sooner (h, (ground arith, a.1))
  ]

  Ascending-sort : (ss : List BalanceSnapshot) → Ascending 0 (sort (sorts_later js) ss)
  unfolding sort
  Ascending-sort [] = tt
  Ascending-sort (s ∷ ss) =
      Ascending-insert 0 s (sort (sorts_later js) ss) (omega arith) (Ascending-sort ss)

  Has-insert :
      (s x : BalanceSnapshot) (ss : List BalanceSnapshot)
      → Has s (insert (sorts_later js) x ss)
      → (s ≡ x) ⊎ Has s ss
  unfolding insert
  Has-insert s x [] h = h
  Has-insert s x (t ∷ ts) h = elim (Bool-cases (ltb t.timestamp x.timestamp)) [
    | inl later ↦ moved (rw later at h) (λ k. Has-insert s x ts k)
    | inr sooner ↦ rw sooner at h
  ]

  Has-sort :
      (s : BalanceSnapshot) (ss : List BalanceSnapshot)
      → Has s (sort (sorts_later js) ss)
      → Has s ss
  unfolding sort
  Has-sort s [] h = h
  Has-sort s (t ∷ ts) h = under (Has-insert s t (sort (sorts_later js) ts) h) (Has-sort s ts)

  All-insert :
      (P : BalanceSnapshot → Type 0) (x : BalanceSnapshot) (ss : List BalanceSnapshot)
      → All P (insert (sorts_later js) x ss)
      → P x × All P ss
  unfolding insert
  All-insert P x [] h = h
  All-insert P x (t ∷ ts) h = elim (Bool-cases (ltb t.timestamp x.timestamp)) [
    | inl later ↦
        let k : P t × All P (insert (sorts_later js) x ts) = rw later at h in
        let rest = All-insert P x ts k.1 in (rest.0, (k.0, rest.1))
    | inr sooner ↦ rw sooner at h
  ]

  All-sort :
      (P : BalanceSnapshot → Type 0) (ss : List BalanceSnapshot)
      → All P (sort (sorts_later js) ss)
      → All P ss
  unfolding sort
  All-sort P [] h = tt
  All-sort P (t ∷ ts) h =
      let k = All-insert P t (sort (sorts_later js) ts) h in (k.0, All-sort P ts k.1)

  find_last-from :
      (test : BalanceSnapshot → Bool) (f : BalanceSnapshot) (ss : List BalanceSnapshot)
      → Ascending f.timestamp ss
      → test f ≡ true
      → Chosen test (f ∷ ss) (find_last js test ss (some f))
  unfolding find_last
  find_last-from test f [] a h = chosen f (inl refl) h (inr (omega arith), tt)
  find_last-from test f (s ∷ ss) a h = elim (Bool-cases (test s)) [
    | inl passes ↦ rw passes (before f s ss a.0 (find_last-from test s ss a.1 passes) passes)
    | inr skipped ↦
        rw skipped
          (skip f s ss skipped (find_last-from test f ss (Ascending-lower _ _ ss a.0 a.1) h))
  ]

  find_last-Chosen :
      (test : BalanceSnapshot → Bool) (m : ℕ) (ss : List BalanceSnapshot)
      → Ascending m ss
      → Chosen test ss (find_last js test ss none)
  unfolding find_last
  find_last-Chosen test m [] a = not_chosen tt
  find_last-Chosen test m (s ∷ ss) a = elim (Bool-cases (test s)) [
    | inl passes ↦ rw passes (find_last-from test s ss a.1 passes)
    | inr skipped ↦ rw skipped (leave s ss skipped (find_last-Chosen test s.timestamp ss a.1))
  ]

  sorted-Chosen :
      (test : BalanceSnapshot → Bool) (ss : List BalanceSnapshot) {o : Option BalanceSnapshot}
      → Chosen test (sort (sorts_later js) ss) o
      → Chosen test ss o
  sorted-Chosen test ss (not_chosen a) = not_chosen (All-sort _ ss a)
  sorted-Chosen test ss (chosen c h p a) =
      chosen c (Has-sort c ss h) p (All-sort (Yields test c) ss a)

-- The current snapshot is chosen by the code's own test of the end date.
pub current_snapshot-Chosen :
    {Amount : Type 0} (js : Js Amount) (query : ParsedAnalyticsQuery) (context : AnalyticsContext)
    → Chosen (by_end js query) context.balance_snapshots (current_snapshot js query context)
unfolding current_snapshot
current_snapshot-Chosen js query context =
    sorted-Chosen js (by_end js query) context.balance_snapshots (
      find_last-Chosen js (by_end js query) 0 (sort (sorts_later js) context.balance_snapshots)
        (Ascending-sort js context.balance_snapshots))
