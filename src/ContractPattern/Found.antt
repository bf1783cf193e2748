-- ===== src/ContractPattern/Found.antt =====
-- When the pattern is found.
use accord_protocol.Prelude.{
  ℕ, ◌≡◌, refl, ◌≢◌, Bool, true, false, none, some, [], ◌∷◌, ◌++◌, arith, All, length, ◌∙◌,
}
use accord_protocol.Prelude.Text.{
  Text, codes, is_digit, is_space, IsDigit, take_while, drop_while, take_while-append,
  drop_while-append,
}
use accord_protocol.ContractPattern.{opening, strip, match_here, find_code, same_letter}

abbrev pub IsSpace : ℕ → Type 0
IsSpace c = is_space c ≡ true

-- No opening parenthesis stands in the text.
abbrev pub HasNoParen : Text → Type 0
HasNoParen s = All (λ c. c ≢ b'(') s

abbrev pub spelled : Text → Text → Text → Text
spelled spaces digits rest = opening ++ (spaces ++ b'#' ∷ (digits ++ b')' ∷ rest))

hash_after_spaces :
    (spaces rest : Text)
    → All IsSpace spaces
    → drop_while is_space (spaces ++ b'#' ∷ rest) ≡ b'#' ∷ rest
hash_after_spaces spaces rest h =
    drop_while-append is_space spaces b'#' rest h (unfold is_space in refl)

module _ (digits rest : Text) (h : All IsDigit digits) where
  taken : take_while is_digit (digits ++ b')' ∷ rest) ≡ digits
  taken = take_while-append is_digit digits b')' rest h refl

  dropped : drop_while is_digit (digits ++ b')' ∷ rest) ≡ b')' ∷ rest
  dropped = drop_while-append is_digit digits b')' rest h refl

-- The pattern matches when its parts do.
match_here-some :
    (ic ho : Bool) (s : Text) {u v rest : Text} (d : ℕ) (digits : Text)
    → strip ic opening s ≡ some u
    → drop_while is_space u ≡ b'#' ∷ v
    → take_while is_digit v ≡ d ∷ digits
    → drop_while is_digit v ≡ b')' ∷ rest
    → match_here ic ho s ≡ some (d ∷ digits)
unfolding match_here
match_here-some ic ho s d digits e0 e1 e2 e3 = rw (e0, e1) (rw (e2, e3) refl)

opening-letters : (ic : Bool) (s : Text) → strip ic opening (opening ++ s) ≡ some s
unfolding strip
opening-letters true s = refl
opening-letters false s = refl

match_here-spelled :
    (ic ho : Bool) (spaces : Text) (d : ℕ) (digits rest : Text)
    → All IsSpace spaces
    → All IsDigit (d ∷ digits)
    → match_here ic ho (spelled spaces (d ∷ digits) rest) ≡ some (d ∷ digits)
match_here-spelled ic ho spaces d digits rest hs hd =
    match_here-some ic ho _ d digits (opening-letters ic _)
      (hash_after_spaces spaces ((d ∷ digits) ++ b')' ∷ rest) hs) (taken (d ∷ digits) rest hd)
      (dropped (d ∷ digits) rest hd)

strip-none :
    (ic : Bool) (ps cs : Text) (p x : ℕ) (qs s : Text)
    → length ps ≡ length cs
    → same_letter ic p x ≡ false
    → strip ic (ps ++ p ∷ qs) (cs ++ x ∷ s) ≡ none
unfolding strip
strip-none ic [] [] p x qs s e h = rw h
strip-none ic [] (c ∷ cs) p x qs s e h = absurd (omega arith)
strip-none ic (q ∷ ps) [] p x qs s e h = absurd (omega arith)
strip-none ic (q ∷ ps) (c ∷ cs) p x qs s e h =
    ground (arith, strip-none ic ps cs p x qs s (omega arith) h)

no_paren_letter : (ic : Bool) (x : ℕ) → x ≢ b'(' → same_letter ic b'(' x ≡ false
no_paren_letter true x h = ground arith
no_paren_letter false x h = ground arith

-- The pattern does not match where the sixth character is no parenthesis.
match_here-none_at :
    (ic ho : Bool) (c0 c1 c2 c3 c4 x : ℕ) (s : Text)
    → x ≢ b'('
    → match_here ic ho (c0 ∷ c1 ∷ c2 ∷ c3 ∷ c4 ∷ x ∷ s) ≡ none
unfolding match_here
match_here-none_at ic ho c0 c1 c2 c3 c4 x s h = rw (
    strip-none ic (codes "Error") (c0 ∷ c1 ∷ c2 ∷ c3 ∷ c4 ∷ []) b'(' x (codes "Contract,") s refl
      (no_paren_letter ic x h))

match_here-none :
    (ic ho : Bool) (c : ℕ) (before after : Text)
    → HasNoParen (c ∷ before)
    → match_here ic ho (c ∷ before ++ (opening ++ after)) ≡ none
match_here-none ic ho c0 [] after h = match_here-none_at ic ho c0 _ _ _ _ _ _ (omega arith)
match_here-none ic ho c0 (c1 ∷ []) after h = match_here-none_at ic ho c0 c1 _ _ _ _ _ (omega arith)
match_here-none ic ho c0 (c1 ∷ c2 ∷ []) after h =
    match_here-none_at ic ho c0 c1 c2 _ _ _ _ (omega arith)
match_here-none ic ho c0 (c1 ∷ c2 ∷ c3 ∷ []) after h =
    match_here-none_at ic ho c0 c1 c2 c3 _ _ _ (omega arith)
match_here-none ic ho c0 (c1 ∷ c2 ∷ c3 ∷ c4 ∷ []) after h =
    match_here-none_at ic ho c0 c1 c2 c3 c4 _ _ (omega arith)
match_here-none ic ho c0 (c1 ∷ c2 ∷ c3 ∷ c4 ∷ c5 ∷ before) after h =
    match_here-none_at ic ho c0 c1 c2 c3 c4 c5 _ h.1.1.1.1.1.0

module _ (ic ho : Bool) (c : ℕ) (s : Text) where
  find_code-here :
      (digits : Text)
      → match_here ic ho (c ∷ s) ≡ some digits
      → find_code ic ho (c ∷ s) ≡ some digits
  unfolding find_code
  find_code-here digits e = rw (e, find_code)

  find_code-later : match_here ic ho (c ∷ s) ≡ none → find_code ic ho (c ∷ s) ≡ find_code ic ho s
  unfolding find_code
  find_code-later e = rw (e, find_code)

-- The code is found in a text that has no parenthesis before the pattern, whatever follows it.
pub find_code-spelled :
    (ic ho : Bool) (before spaces : Text) (d : ℕ) (digits rest : Text)
    → HasNoParen before
    → All IsSpace spaces
    → All IsDigit (d ∷ digits)
    → find_code ic ho (before ++ spelled spaces (d ∷ digits) rest) ≡ some (d ∷ digits)
find_code-spelled ic ho [] spaces d digits rest h hs hd =
    find_code-here ic ho _ _ _ (match_here-spelled ic ho spaces d digits rest hs hd)
find_code-spelled ic ho (c ∷ before) spaces d digits rest h hs hd =
    find_code-later ic ho c _ (match_here-none ic ho c before _ h)
    ∙ find_code-spelled ic ho before spaces d digits rest h.1 hs hd

pub find_code-digits :
    (ic ho : Bool) (before spaces digits rest : Text)
    → HasNoParen before
    → All IsSpace spaces
    → digits ≢ []
    → All IsDigit digits
    → find_code ic ho (before ++ spelled spaces digits rest) ≡ some digits
find_code-digits ic ho before spaces [] rest h hs ne hd = absurd (ne refl)
find_code-digits ic ho before spaces (d ∷ digits) rest h hs ne hd =
    find_code-spelled ic ho before spaces d digits rest h hs hd
