-- ===== src/Frontend/ContractEvents/Deduped.antt =====
-- The events that are left, and their order.
use accord_protocol.Prelude.{
  ◌≤◌, ◌<◌, ◌≡◌, refl, sym, ap, ◌∙◌, ◌⊎◌, inl, inr, Bool, true, false, ◌||◌, List, [], ◌∷◌, All,
  any, arith, Bool-cases,
}
use accord_protocol.Prelude.Text.{Text, text_eq, text_eq_iff}
use accord_protocol.Prelude.Sort.{insert, sort}
use accord_protocol.Frontend.ContractEvents.{
  ContractEvent, canonical_event_key, first_events, comes_after, dedupe_contract_events,
}

text_eq_comm : (s t : Text) → text_eq s t ≡ text_eq t s
text_eq_comm [] [] = refl
text_eq_comm [] (d ∷ t) = refl
text_eq_comm (c ∷ s) [] = refl
text_eq_comm (c ∷ s) (d ∷ t) = ground (arith, text_eq_comm s t)

differs :
    (k j : Text) (seen : List Text)
    → any (text_eq k) seen ≡ true
    → any (text_eq j) seen ≡ false
    → text_eq k j ≡ false
differs k j seen h l = elim (Bool-cases (text_eq k j)) [
  | inl same ↦ absurd (cc (ap (λ (t : Text). any (text_eq t) seen) ((text_eq_iff k j).0 same)))
  | inr other ↦ other
]

-- A key that equals one seen before was seen as well.
seen_too :
    (k j : Text) (seen : List Text)
    → any (text_eq j) seen ≡ true
    → (text_eq k j || any (text_eq k) seen) ≡ any (text_eq k) seen
seen_too k j seen h = elim (Bool-cases (text_eq k j)) [
  | inl same ↦
      rw same (sym (ap (λ (t : Text). any (text_eq t) seen) ((text_eq_iff k j).0 same) ∙ h))
  | inr other ↦ rw other
]

module _ {Payload : Type 0} where
  -- An event with the key is in the list.
  abbrev pub has_key : Text → List (ContractEvent Payload) → Bool
  has_key k [] = false
  has_key k (e ∷ es) = text_eq k (canonical_event_key e) || has_key k es

  abbrev pub Distinct : List (ContractEvent Payload) → Type 0
  Distinct [] = Unit
  Distinct (e ∷ es) = (has_key (canonical_event_key e) es ≡ false) × Distinct es

  -- By ledger, and within a ledger by index.
  abbrev pub NotAfter : ContractEvent Payload → ContractEvent Payload → Type 0
  NotAfter a b = (a.ledger < b.ledger) ⊎ ((a.ledger ≡ b.ledger) × (a.event_index ≤ b.event_index))

  abbrev pub InOrder : List (ContractEvent Payload) → Type 0
  InOrder [] = Unit
  InOrder (e ∷ es) = All (NotAfter e) es × InOrder es

  NotAfter-trans : (a b c : ContractEvent Payload) → NotAfter a b → NotAfter b c → NotAfter a c
  NotAfter-trans a b c h k = ground arith

  module _ (locale_after : Text → Text → Bool) where
    comes_after-NotAfter :
        (a b : ContractEvent Payload) → comes_after locale_after a b ≡ true → NotAfter b a
    comes_after-NotAfter a b h = ground arith

    not_comes_after :
        (a b : ContractEvent Payload) → comes_after locale_after a b ≡ false → NotAfter a b
    not_comes_after a b h = ground arith

    has_key-insert :
        (k : Text) (e : ContractEvent Payload) (es : List (ContractEvent Payload))
        → has_key k (insert (comes_after locale_after) e es) ≡ has_key k (e ∷ es)
    unfolding insert
    has_key-insert k e [] = refl
    has_key-insert k e (f ∷ es) = ground (arith, has_key-insert k e es)

    has_key-sort :
        (k : Text) (es : List (ContractEvent Payload))
        → has_key k (sort (comes_after locale_after) es) ≡ has_key k es
    unfolding sort
    has_key-sort k [] = refl
    has_key-sort k (e ∷ es) =
        ground (arith, has_key-insert k e (sort (comes_after locale_after) es), has_key-sort k es)

    Distinct-insert :
        (e : ContractEvent Payload) (es : List (ContractEvent Payload))
        → Distinct (e ∷ es)
        → Distinct (insert (comes_after locale_after) e es)
    unfolding insert
    Distinct-insert e [] d = d
    Distinct-insert e (f ∷ es) d = elim (Bool-cases (comes_after locale_after e f)) [
      | inl after ↦ rw after (
        ground (
          arith,
          has_key-insert (canonical_event_key f) e es,
          text_eq_comm (canonical_event_key e) (canonical_event_key f),
          d.1.0,
          d.0,
        ),
        Distinct-insert e es (ground arith, d.1.1),
      )
      | inr before ↦ rw before d
    ]

    Distinct-sort :
        (es : List (ContractEvent Payload))
        → Distinct es
        → Distinct (sort (comes_after locale_after) es)
    unfolding sort
    Distinct-sort [] d = tt
    Distinct-sort (e ∷ es) d =
        Distinct-insert e (sort (comes_after locale_after) es)
          (has_key-sort (canonical_event_key e) es ∙ d.0, Distinct-sort es d.1)

    All-insert :
        (P : ContractEvent Payload → Type 0) (e : ContractEvent Payload)
        (es : List (ContractEvent Payload))
        → P e
        → All P es
        → All P (insert (comes_after locale_after) e es)
    unfolding insert
    All-insert P e [] p a = (p, tt)
    All-insert P e (f ∷ es) p a = elim (Bool-cases (comes_after locale_after e f)) [
      | inl after ↦ rw after (a.0, All-insert P e es p a.1)
      | inr before ↦ rw before (p, a)
    ]

    NotAfter-All :
        (a b : ContractEvent Payload) (es : List (ContractEvent Payload))
        → NotAfter a b
        → All (NotAfter b) es
        → All (NotAfter a) es
    NotAfter-All a b [] h k = tt
    NotAfter-All a b (e ∷ es) h k = (NotAfter-trans a b e h k.0, NotAfter-All a b es h k.1)

    InOrder-insert :
        (e : ContractEvent Payload) (es : List (ContractEvent Payload))
        → InOrder es
        → InOrder (insert (comes_after locale_after) e es)
    unfolding insert
    InOrder-insert e [] o = (tt, tt)
    InOrder-insert e (f ∷ es) o = elim (Bool-cases (comes_after locale_after e f)) [
      | inl after ↦ rw after (
        All-insert (NotAfter f) e es (comes_after-NotAfter e f after) o.0,
        InOrder-insert e es o.1,
      )
      | inr before ↦
          let first = not_comes_after e f before in
          rw before ((first, NotAfter-All e f es first o.0), o)
    ]

    InOrder-sort :
        (es : List (ContractEvent Payload)) → InOrder (sort (comes_after locale_after) es)
    unfolding sort
    InOrder-sort [] = tt
    InOrder-sort (e ∷ es) = InOrder-insert e (sort (comes_after locale_after) es) (InOrder-sort es)

  -- No event that is left has a key that was seen before.
  first_events-unseen :
      (k : Text) (es : List (ContractEvent Payload)) (seen : List Text)
      → any (text_eq k) seen ≡ true
      → has_key k (first_events es seen) ≡ false
  unfolding first_events
  first_events-unseen k [] seen h = refl
  first_events-unseen k (e ∷ es) seen h =
      elim (Bool-cases (any (text_eq (canonical_event_key e)) seen)) [
        | inl old ↦ rw (old, first_events) (first_events-unseen k es seen h)
        | inr new ↦
            rw (new, first_events)
              (ground (
                arith,
                differs k (canonical_event_key e) seen h new,
                first_events-unseen k es (canonical_event_key e ∷ seen) (ground (arith, h)),
              ))
      ]

  first_events-Distinct :
      (es : List (ContractEvent Payload)) (seen : List Text) → Distinct (first_events es seen)
  unfolding first_events
  first_events-Distinct [] seen = tt
  first_events-Distinct (e ∷ es) seen =
      elim (Bool-cases (any (text_eq (canonical_event_key e)) seen)) [
        | inl old ↦ rw (old, first_events) (first_events-Distinct es seen)
        | inr new ↦
            rw (new, first_events)
              (
                first_events-unseen (canonical_event_key e) es (canonical_event_key e ∷ seen) (
                    ground (
                      arith,
                      (text_eq_iff (canonical_event_key e) (canonical_event_key e)).1 refl,
                    )),
                first_events-Distinct es (canonical_event_key e ∷ seen),
              )
      ]

  -- Each key of the list was seen before or is left.
  has_key-first_events :
      (k : Text) (es : List (ContractEvent Payload)) (seen : List Text)
      → (any (text_eq k) seen || has_key k (first_events es seen))
        ≡ (any (text_eq k) seen || has_key k es)
  unfolding first_events
  has_key-first_events k [] seen = refl
  has_key-first_events k (e ∷ es) seen =
      elim (Bool-cases (any (text_eq (canonical_event_key e)) seen)) [
        | inl old ↦
            rw (old, first_events)
              (ground (
                arith,
                has_key-first_events k es seen,
                seen_too k (canonical_event_key e) seen old,
              ))
        | inr new ↦
            rw (new, first_events)
              (ground (arith, has_key-first_events k es (canonical_event_key e ∷ seen)))
      ]

-- What `dedupeContractEvents` promises.
pub record Deduped {Payload : Type 0} (events left : List (ContractEvent Payload)) : Type 0 where
  pub distinct : Distinct left
  pub in_order : InOrder left
  pub same_keys : (k : Text) → has_key k left ≡ has_key k events

-- The events that are left have different keys, which are the keys of the events passed in, and are
-- ordered by ledger and, within a ledger, by index.
pub dedupe_contract_events-Deduped :
    {Payload : Type 0} (locale_after : Text → Text → Bool) (events : List (ContractEvent Payload))
    → Deduped events (dedupe_contract_events locale_after events)
unfolding dedupe_contract_events
dedupe_contract_events-Deduped locale_after events = record {
  distinct = Distinct-sort locale_after (first_events events []) (first_events-Distinct events []);
  in_order = InOrder-sort locale_after (first_events events []);
  same_keys =
      λ k. has_key-sort locale_after k (first_events events []) ∙ has_key-first_events k events [];
}
