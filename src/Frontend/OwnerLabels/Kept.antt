-- ===== src/Frontend/OwnerLabels/Kept.antt =====
-- A label that was set is the one that is shown.
use accord_protocol.Prelude.{
  ◌≡◌, refl, sym, ap, ◌∙◌, Bool, true, false, not, ◌||◌, Option, none, some, [], ◌∷◌, ◌++◌, any,
  if◌then◌else◌, String, str_eq, eq_iff, arith, Bool-cases, inl, inr,
}
use mathlib.Core.List.{reverse, reverse-append}
use accord_protocol.Prelude.Text.{Text, trim, drop_while, is_space}
use accord_protocol.Frontend.LocalStorage.{LocalStorage}
use accord_protocol.Frontend.OwnerLabels.{
  OwnerLabelMap, label_of, set_label, delete_label, is_blank, shown, edited, get_owner_labels,
  get_owner_label, set_owner_label,
}

-- A text has something else than space.
abbrev solid : Text → Bool
solid s = any (λ c. not (is_space c)) s

solid-append : (s t : Text) → solid (s ++ t) ≡ (solid s || solid t)
solid-append [] t = refl
solid-append (c ∷ s) t = ground (arith, solid-append s t)

solid-reverse : (s : Text) → solid (reverse s) ≡ solid s
solid-reverse [] = refl
solid-reverse (c ∷ s) =
    ap solid (reverse-append (c ∷ []) s)
    ∙ solid-append (reverse s) (c ∷ [])
    ∙ ground (arith, solid-reverse s)

solid-drop_while : (s : Text) → solid (drop_while is_space s) ≡ solid s
unfolding drop_while
solid-drop_while [] = refl
solid-drop_while (c ∷ s) = ground (arith, solid-drop_while s)

-- Nothing is left of a text without anything solid.
drop_while-blank : (s : Text) → solid s ≡ false → drop_while is_space s ≡ []
unfolding drop_while
drop_while-blank [] h = refl
drop_while-blank (c ∷ s) h = ground (arith, drop_while-blank s)

solid-trim : (s : Text) → solid (trim s) ≡ solid s
unfolding trim
solid-trim s =
    solid-reverse (drop_while is_space (reverse (drop_while is_space s)))
    ∙ solid-drop_while (reverse (drop_while is_space s))
    ∙ solid-reverse (drop_while is_space s)
    ∙ solid-drop_while s

trim-blank : (s : Text) → solid s ≡ false → trim s ≡ []
unfolding trim drop_while
trim-blank s h = rw (drop_while-blank s h) refl

not_blank : (t : Text) → solid t ≡ true → is_blank t ≡ false
not_blank [] h = ground arith
not_blank (c ∷ t) h = refl

is_blank-trim : (s : Text) → is_blank (trim s) ≡ not (solid s)
is_blank-trim s = elim (Bool-cases (solid s)) [
  | inl h ↦ rw (h, not_blank (trim s) (solid-trim s ∙ h)) refl
  | inr h ↦ rw (h, trim-blank s h) refl
]

is_blank-trim_twice : (s : Text) → is_blank (trim (trim s)) ≡ is_blank (trim s)
is_blank-trim_twice s = is_blank-trim (trim s) ∙ ap not (solid-trim s) ∙ sym (is_blank-trim s)

label_of-set_label :
    (a b : String) (l : Text) (m : OwnerLabelMap)
    → label_of b (set_label a l m) ≡ (if str_eq a b then some l else label_of b m)
unfolding label_of set_label
label_of-set_label a b l [] = refl
label_of-set_label a b l ((c, k) ∷ m) =
    ground (arith, eq_iff a b, eq_iff c a, eq_iff c b, label_of-set_label a b l m)

label_of-delete_label :
    (a b : String) (m : OwnerLabelMap)
    → label_of b (delete_label a m) ≡ (if str_eq a b then none else label_of b m)
unfolding label_of delete_label
label_of-delete_label a b [] = ground arith
label_of-delete_label a b ((c, k) ∷ m) =
    ground (arith, eq_iff a b, eq_iff c a, eq_iff c b, label_of-delete_label a b m)

-- The label that an address has after `a` was given the text `l`.
abbrev pub label_after : String → Text → Option Text → String → Option Text
label_after a l before b =
    if str_eq a b then (if is_blank (trim l) then none else some (trim l)) else before

shown-if :
    (a b : String) (x y : Option Text)
    → shown (if str_eq a b then x else y) ≡ (if str_eq a b then shown x else shown y)
shown-if a b x y = ground arith

shown-edited :
    (a b : String) (l : Text) (m : OwnerLabelMap)
    → shown (label_of b (edited a l m)) ≡ label_after a l (shown (label_of b m)) b
shown-edited a b l m = elim (Bool-cases (is_blank (trim l))) [
  | inl h ↦ rw (h, label_of-delete_label a b m) (shown-if a b none (label_of b m))
  | inr h ↦
      rw (h, label_of-set_label a b (trim l) m)
        (shown-if a b (some (trim l)) (label_of b m) ∙ rw (is_blank-trim_twice l, h) refl)
]

module _ (storage : LocalStorage OwnerLabelMap) where
  open storage use {Store}

  -- When the storage throws, every label is as before.
  set_owner_label-thrown :
      (a b : String) (l : Text) (s : Store)
      → storage.write s (edited a l (get_owner_labels storage s)) ≡ none
      → get_owner_label storage b (set_owner_label storage a l s) ≡ get_owner_label storage b s
  unfolding get_owner_label set_owner_label
  set_owner_label-thrown a b l s h = rw (h) refl

  -- When the storage takes the write, an address that was given a text then has the text without the
  -- space around it, or no label when nothing else is in the text; the labels of all other
  -- addresses are as before.
  pub get_owner_label-set_owner_label :
      (a b : String) (l : Text) (s t : Store)
      → storage.write s (edited a l (get_owner_labels storage s)) ≡ some t
      → get_owner_label storage b (set_owner_label storage a l s)
        ≡ label_after a l (get_owner_label storage b s) b
  unfolding get_owner_label set_owner_label
  get_owner_label-set_owner_label a b l s t h =
      rw (h, storage.read-write s t _ h) (shown-edited a b l (get_owner_labels storage s))
