-- ===== src/Frontend/ContractEvents/Keys.antt =====
-- Keys tell events apart.
use accord_protocol.Prelude.{ℕ, ◌≡◌, refl, sym, ap, ◌∙◌, ◌↔◌, [], ◌∷◌, ◌++◌, All, All-append}
use mathlib.Core.List.{reverse, reverse-append, reverse-reverse, append_assoc}
use accord_protocol.Prelude.Text.{
  Text, is_digit, IsDigit, decimal, decimal-All, decimal_value, decimal_value-decimal, take_while,
  drop_while, take_while-append, drop_while-append,
}
use accord_protocol.Frontend.ContractEvents.{ContractEvent, canonical_event_key}

-- A number before a colon is read off.
decimal-append_inj :
    (m n : ℕ) (s t : Text) → decimal m ++ (58 ∷ s) ≡ decimal n ++ (58 ∷ t) → (m ≡ n) × (s ≡ t)
decimal-append_inj m n s t e =
    let taken : decimal m ≡ decimal n =
      sym (take_while-append is_digit (decimal m) 58 s (decimal-All m) refl)
      ∙ ap (take_while is_digit) e
      ∙ take_while-append is_digit (decimal n) 58 t (decimal-All n) refl in
    let rest : 58 ∷ s ≡ 58 ∷ t =
      sym (drop_while-append is_digit (decimal m) 58 s (decimal-All m) refl)
      ∙ ap (drop_while is_digit) e
      ∙ drop_while-append is_digit (decimal n) 58 t (decimal-All n) refl in
    (sym (decimal_value-decimal m) ∙ ap decimal_value taken ∙ decimal_value-decimal n, cc)

All-reverse : (xs : Text) → All IsDigit xs → All IsDigit (reverse xs)
All-reverse [] h = tt
All-reverse (x ∷ xs) h =
    rw (reverse-append (x ∷ []) xs)
      (All-append IsDigit (reverse xs) (x ∷ []) (All-reverse xs h.1) (h.0, tt))

mirrored : (h d : Text) → reverse (h ++ (58 ∷ d)) ≡ reverse d ++ (58 ∷ reverse h)
mirrored h d =
    reverse-append h (58 ∷ d)
    ∙ ap (λ (t : Text). t ++ reverse h) (reverse-append (58 ∷ []) d)
    ∙ append_assoc (reverse d) (58 ∷ []) (reverse h)

back : (s t : Text) → reverse s ≡ reverse t → s ≡ t
back s t e = sym (reverse-reverse s) ∙ ap reverse e ∙ reverse-reverse t

-- A number after a colon is read off from the end.
append-decimal_inj :
    (s t : Text) (m n : ℕ) → s ++ (58 ∷ decimal m) ≡ t ++ (58 ∷ decimal n) → (s ≡ t) × (m ≡ n)
append-decimal_inj s t m n e =
    let f : reverse (decimal m) ++ (58 ∷ reverse s) ≡ reverse (decimal n) ++ (58 ∷ reverse t) =
      sym (mirrored s (decimal m)) ∙ ap reverse e ∙ mirrored t (decimal n) in
    let dm = All-reverse (decimal m) (decimal-All m) in
    let dn = All-reverse (decimal n) (decimal-All n) in
    let taken : reverse (decimal m) ≡ reverse (decimal n) =
      sym (take_while-append is_digit (reverse (decimal m)) 58 (reverse s) dm refl)
      ∙ ap (take_while is_digit) f
      ∙ take_while-append is_digit (reverse (decimal n)) 58 (reverse t) dn refl in
    let rest : 58 ∷ reverse s ≡ 58 ∷ reverse t =
      sym (drop_while-append is_digit (reverse (decimal m)) 58 (reverse s) dm refl)
      ∙ ap (drop_while is_digit) f
      ∙ drop_while-append is_digit (reverse (decimal n)) 58 (reverse t) dn refl in
    let hashes : reverse s ≡ reverse t = cc (rest) in
    let numbers : decimal m ≡ decimal n = back (decimal m) (decimal n) taken in
    (
      back s t hashes,
      sym (decimal_value-decimal m) ∙ ap decimal_value numbers ∙ decimal_value-decimal n,
    )

-- Two events have one key exactly when they have the same ledger, hash and index.
pub canonical_event_key_iff :
    {Payload : Type 0} (a b : ContractEvent Payload)
    → (canonical_event_key a ≡ canonical_event_key b)
      ↔ ((a.ledger ≡ b.ledger) × (a.tx_hash ≡ b.tx_hash) × (a.event_index ≡ b.event_index))
unfolding canonical_event_key
canonical_event_key_iff a b = (
  (λ e.
      let (ledger, rest) = decimal-append_inj a.ledger b.ledger _ _ e in
      let (hash, index) = append-decimal_inj a.tx_hash b.tx_hash a.event_index b.event_index rest in
      (ledger, hash, index)),
  λ h. cc,
)
