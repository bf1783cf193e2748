-- ===== src/Frontend/AddressBook/Distinct.antt =====
-- One entry for each address.
use accord_protocol.Prelude.{
  String, ◌≡◌, ◌≢◌, refl, ap, ◌∙◌, sym, true, false, Option, none, some, List, [], ◌∷◌, ◌++◌,
  str_eq, eq_iff, All, All-append, Bool-cases, inl, inr,
}
use accord_protocol.Frontend.LocalStorage.{LocalStorage}
use accord_protocol.Frontend.AddressBook.{
  AddressBookEntry, find_address, rename_first, without_id, saved, get_address_book, persist,
  save_address_book_entry, remove_address_book_entry,
}

-- No two entries have the same address.
abbrev pub IsDistinct : List AddressBookEntry → Type 0
IsDistinct [] = Unit
IsDistinct (e ∷ es) = All (λ f. f.address ≢ e.address) es × IsDistinct es

rename_first-All :
    (P : String → Type 0) (name a : String) (es : List AddressBookEntry)
    → All (λ e. P e.address) es
    → All (λ e. P e.address) (rename_first name a es)
unfolding rename_first
rename_first-All P name a [] h = tt
rename_first-All P name a (e ∷ es) (p, h) = elim (Bool-cases (str_eq e.address a)) [
  | inl same ↦ rw (same, All, rename_first) (p, h)
  | inr other ↦ rw (other, All, rename_first) (p, rename_first-All P name a es h)
]

rename_first-IsDistinct :
    (name a : String) (es : List AddressBookEntry)
    → IsDistinct es
    → IsDistinct (rename_first name a es)
unfolding rename_first
rename_first-IsDistinct name a [] h = tt
rename_first-IsDistinct name a (e ∷ es) (p, h) = elim (Bool-cases (str_eq e.address a)) [
  | inl same ↦ rw (same, IsDistinct, rename_first) (p, h)
  | inr other ↦
      rw (other, IsDistinct, rename_first)
        (rename_first-All (λ b. b ≢ e.address) name a es p, rename_first-IsDistinct name a es h)
]

without_id-All :
    (P : AddressBookEntry → Type 0) (id : String) (es : List AddressBookEntry)
    → All P es
    → All P (without_id id es)
unfolding without_id
without_id-All P id [] h = tt
without_id-All P id (e ∷ es) (p, h) = elim (Bool-cases (str_eq e.id id)) [
  | inl same ↦ rw (same, All, without_id) (without_id-All P id es h)
  | inr other ↦ rw (other, All, without_id) (p, without_id-All P id es h)
]

without_id-IsDistinct :
    (id : String) (es : List AddressBookEntry) → IsDistinct es → IsDistinct (without_id id es)
unfolding without_id
without_id-IsDistinct id [] h = tt
without_id-IsDistinct id (e ∷ es) (p, h) = elim (Bool-cases (str_eq e.id id)) [
  | inl same ↦ rw (same, IsDistinct, without_id) (without_id-IsDistinct id es h)
  | inr other ↦
      rw (other, IsDistinct, without_id) (without_id-All _ id es p, without_id-IsDistinct id es h)
]

IsDistinct-append :
    (es : List AddressBookEntry) (e : AddressBookEntry)
    → IsDistinct es
    → All (λ f. f.address ≢ e.address) es
    → IsDistinct (es ++ (e ∷ []))
IsDistinct-append [] e h n = (tt, tt)
IsDistinct-append (f ∷ es) e (p, h) (m, n) =
    (All-append _ es (e ∷ []) p ((λ s. m (sym s)), tt), IsDistinct-append es e h n)

find_address-none :
    (a : String) (es : List AddressBookEntry)
    → find_address a es ≡ none
    → All (λ f. f.address ≢ a) es
unfolding find_address
find_address-none a [] h = tt
find_address-none a (e ∷ es) h = elim (Bool-cases (str_eq e.address a)) [
  | inl same ↦ absurd (cc (rw (same, find_address) at h))
  | inr other ↦ (
    λ p. let same = (eq_iff e.address a).1 p in absurd (cc (same, other)),
    find_address-none a es (rw (other, find_address) at h),
  )
]

saved-IsDistinct :
    (found : Option AddressBookEntry) (id name a : String) (es : List AddressBookEntry)
    → find_address a es ≡ found
    → IsDistinct es
    → IsDistinct (saved found id name a es).1
saved-IsDistinct none id name a es h d = IsDistinct-append es _ d (find_address-none a es h)
saved-IsDistinct (some e) id name a es h d = rename_first-IsDistinct name a es d

abbrev renamed : String → Option AddressBookEntry → Option AddressBookEntry
renamed name none = none
renamed name (some e) = some (record e { name = name })

module _ (name a : String) (f : AddressBookEntry) (es : List AddressBookEntry) where
  find_address-here : str_eq f.address a ≡ true → find_address a (f ∷ es) ≡ some f
  unfolding find_address
  find_address-here e = rw (e, find_address) refl

  find_address-later : str_eq f.address a ≡ false → find_address a (f ∷ es) ≡ find_address a es
  unfolding find_address
  find_address-later e = rw (e, find_address) refl

  rename_first-here :
      str_eq f.address a ≡ true → rename_first name a (f ∷ es) ≡ record f { name = name } ∷ es
  unfolding rename_first
  rename_first-here e = rw (e, rename_first) refl

  rename_first-later :
      str_eq f.address a ≡ false → rename_first name a (f ∷ es) ≡ f ∷ rename_first name a es
  unfolding rename_first
  rename_first-later e = rw (e, rename_first) refl

find_address-rename_first :
    (name a : String) (es : List AddressBookEntry)
    → find_address a (rename_first name a es) ≡ renamed name (find_address a es)
unfolding find_address rename_first
find_address-rename_first name a [] = refl
find_address-rename_first name a (f ∷ es) = elim (Bool-cases (str_eq f.address a)) [
  | inl same ↦
      ap (find_address a) (rename_first-here name a f es same)
      ∙ find_address-here name a (record f { name = name }) es same
      ∙ ap (renamed name) (sym (find_address-here name a f es same))
  | inr other ↦
      ap (find_address a) (rename_first-later name a f es other)
      ∙ find_address-later name a f (rename_first name a es) other
      ∙ find_address-rename_first name a es
      ∙ ap (renamed name) (sym (find_address-later name a f es other))
]

find_address-append :
    (a : String) (es : List AddressBookEntry) (e : AddressBookEntry)
    → find_address a es ≡ none
    → e.address ≡ a
    → find_address a (es ++ (e ∷ [])) ≡ some e
find_address-append a [] e h p = find_address-here "" a e [] ((eq_iff e.address a).1 p)
find_address-append a (f ∷ es) e h p = elim (Bool-cases (str_eq f.address a)) [
  | inl same ↦ let here = find_address-here "" a f es same in absurd (cc (here, h))
  | inr other ↦
      let later = find_address-later "" a f es other in
      find_address-later "" a f (es ++ (e ∷ [])) other
      ∙ find_address-append a es e (sym later ∙ h) p
]

find_address-saved :
    (found : Option AddressBookEntry) (id name a : String) (es : List AddressBookEntry)
    → find_address a es ≡ found
    → find_address a (saved found id name a es).1 ≡ some (saved found id name a es).0
find_address-saved none id name a es h = find_address-append a es _ h refl
find_address-saved (some e) id name a es h =
    find_address-rename_first name a es ∙ ap (renamed name) h

module _ (storage : LocalStorage (List AddressBookEntry)) where
  open storage use {Store}

  abbrev pub HoldsDistinct : Store → Type 0
  HoldsDistinct s = IsDistinct (get_address_book storage s)

  written-HoldsDistinct :
      (es : List AddressBookEntry) (s : Store) (o : Option Store)
      → storage.write s es ≡ o
      → HoldsDistinct s
      → IsDistinct es
      → HoldsDistinct (persist storage es s)
  unfolding persist
  written-HoldsDistinct es s none h d k = rw h d
  written-HoldsDistinct es s (some t) h d k = rw (h, storage.read-write s t es h) k

  -- Saving an entry keeps the addresses of the stored book distinct, whether the address is new or
  -- is renamed, and whether the storage takes the write or throws.
  pub save_address_book_entry-HoldsDistinct :
      (id name address : String) (s : Store)
      → HoldsDistinct s
      → HoldsDistinct (save_address_book_entry storage id name address s).1
  unfolding save_address_book_entry
  save_address_book_entry-HoldsDistinct id name address s d =
      written-HoldsDistinct _ s _ refl d (saved-IsDistinct _ id name address _ refl d)

  -- Removing an id keeps them distinct as well.
  pub remove_address_book_entry-HoldsDistinct :
      (id : String) (s : Store)
      → HoldsDistinct s
      → HoldsDistinct (remove_address_book_entry storage id s)
  unfolding remove_address_book_entry
  remove_address_book_entry-HoldsDistinct id s d =
      written-HoldsDistinct _ s _ refl d (without_id-IsDistinct id _ d)

  -- When the storage takes the very list that saving writes, the entry that is then found under the
  -- saved address is the one that saving returned.
  pub save_address_book_entry-found :
      (id name address : String) (s t : Store)
      → storage.write s
          (saved
            (find_address address (get_address_book storage s))
            id
            name
            address
            (get_address_book storage s)).1
        ≡ some t
      → find_address address
          (get_address_book storage (save_address_book_entry storage id name address s).1)
        ≡ some (save_address_book_entry storage id name address s).0
  unfolding save_address_book_entry persist
  save_address_book_entry-found id name address s t e =
      rw (e, storage.read-write s t _ e)
        (find_address-saved (find_address address (get_address_book storage s)) id name address _
          refl)
