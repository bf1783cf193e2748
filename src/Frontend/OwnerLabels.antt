-- ===== src/Frontend/OwnerLabels.antt =====
-- frontend/src/lib/ownerLabels.ts: the names that the user gave to owners. An address that names a
-- member of `Object.prototype` is not modelled.
pub mod Kept
use accord_protocol.Prelude.{
  Bool, true, false, Option, none, some, List, [], ◌∷◌, if◌then◌else◌, String, str_eq,
}
use accord_protocol.Prelude.Text.{Text, trim}
use accord_protocol.Frontend.LocalStorage.{LocalStorage}

abbrev pub OwnerLabelMap : Type 0
OwnerLabelMap = List (String × Text)

unfoldable pub label_of : String → OwnerLabelMap → Option Text
label_of a [] = none
label_of a ((b, l) ∷ m) = if str_eq b a then some l else label_of a m

-- `labels[address] = label`.
unfoldable pub set_label : String → Text → OwnerLabelMap → OwnerLabelMap
set_label a l [] = (a, l) ∷ []
set_label a l ((b, k) ∷ m) =
    let rest = set_label a l m in if str_eq b a then (b, l) ∷ m else (b, k) ∷ rest

-- `delete labels[address]`; each address stands once, so that all of its entries are one.
unfoldable pub delete_label : String → OwnerLabelMap → OwnerLabelMap
delete_label a [] = []
delete_label a ((b, k) ∷ m) =
    let rest = delete_label a m in if str_eq b a then rest else (b, k) ∷ rest

abbrev pub is_blank : Text → Bool
is_blank [] = true
is_blank (c ∷ s) = false

-- `label && label.trim() ? label : null`.
abbrev pub shown : Option Text → Option Text
shown none = none
shown (some l) = if is_blank (trim l) then none else some l

abbrev pub edited : String → Text → OwnerLabelMap → OwnerLabelMap
edited a l m = if is_blank (trim l) then delete_label a m else set_label a (trim l) m

module _ (storage : LocalStorage OwnerLabelMap) where
  open storage use {Store}

  abbrev or_empty : Option OwnerLabelMap → OwnerLabelMap
  or_empty none = []
  or_empty (some m) = m

  abbrev pub get_owner_labels : Store → OwnerLabelMap
  get_owner_labels s = or_empty (storage.read s)

  unfoldable pub get_owner_label : String → Store → Option Text
  unfolding label_of
  get_owner_label a s = shown (label_of a (get_owner_labels s))

  abbrev or_store : Option Store → Store → Store
  or_store none s = s
  or_store (some t) s = t

  unfoldable pub set_owner_label : String → Text → Store → Store
  unfolding set_label delete_label
  set_owner_label a l s = or_store (storage.write s (edited a l (get_owner_labels s))) s
