-- ===== src/Frontend/AddressBook.antt =====
-- frontend/src/lib/addressBook.ts: the recipients that the user has named. The text
-- `${address}-${Date.now()}` of a new id is an argument.
pub mod Distinct
use accord_protocol.Prelude.{
  String, Bool, true, false, Option, none, some, List, [], ◌∷◌, ◌++◌, str_eq, if◌then◌else◌,
}
use accord_protocol.Frontend.LocalStorage.{LocalStorage}

pub record AddressBookEntry : Type 0 where
  pub id : String
  pub name : String
  pub address : String

-- The optional fields of a patch.
pub record Patch : Type 0 where
  pub name : Option String
  pub address : Option String

abbrev or_else : Option String → String → String
or_else none d = d
or_else (some s) d = s

-- `entries.find((e) => e.address === address)`.
unfoldable pub find_address : String → List AddressBookEntry → Option AddressBookEntry
find_address a [] = none
find_address a (e ∷ es) = elim (str_eq e.address a) [ true ↦ some e | false ↦ find_address a es ]

-- `existing.name = name` on the first entry with the address.
unfoldable pub rename_first : String → String → List AddressBookEntry → List AddressBookEntry
rename_first name a [] = []
rename_first name a (e ∷ es) = elim (str_eq e.address a) [
  | true ↦ record e { name = name } ∷ es
  | false ↦ e ∷ rename_first name a es
]

-- `{ ...entries[idx], ...patch }` on the first entry with the id.
unfoldable pub patch_first : String → Patch → List AddressBookEntry → List AddressBookEntry
patch_first id patch [] = []
patch_first id patch (e ∷ es) = elim (str_eq e.id id) [
  | true ↦
      record e { name = or_else patch.name e.name; address = or_else patch.address e.address } ∷ es
  | false ↦ e ∷ patch_first id patch es
]

has_id : String → List AddressBookEntry → Bool
has_id id [] = false
has_id id (e ∷ es) = elim (str_eq e.id id) [ true ↦ true | false ↦ has_id id es ]

unfoldable pub without_id : String → List AddressBookEntry → List AddressBookEntry
without_id id [] = []
without_id id (e ∷ es) = elim (str_eq e.id id) [
  | true ↦ without_id id es
  | false ↦ e ∷ without_id id es
]

-- The entries that `saveAddressBookEntry` persists and the entry that it returns.
abbrev pub saved :
    Option AddressBookEntry
    → (id name address : String) → List AddressBookEntry
    → AddressBookEntry × List AddressBookEntry
saved (some existing) id name address es =
    (record existing { name = name }, rename_first name address es)
saved none id name address es =
    let entry : AddressBookEntry = record { id = id; name = name; address = address } in
    (entry, es ++ (entry ∷ []))

module _ (storage : LocalStorage (List AddressBookEntry)) where
  open storage use {Store}

  abbrev or_empty : Option (List AddressBookEntry) → List AddressBookEntry
  or_empty none = []
  or_empty (some entries) = entries

  abbrev pub get_address_book : Store → List AddressBookEntry
  get_address_book s = or_empty (storage.read s)

  abbrev or_store : Option Store → Store → Store
  or_store none s = s
  or_store (some t) s = t

  unfoldable pub persist : List AddressBookEntry → Store → Store
  persist entries s = or_store (storage.write s entries) s

  unfoldable pub save_address_book_entry :
      (id name address : String) → Store → AddressBookEntry × Store
  save_address_book_entry id name address s =
      let (entry, es) =
        saved (find_address address (get_address_book s)) id name address (get_address_book s) in
      (entry, persist es s)

  unfoldable pub update_address_book_entry : String → Patch → Store → Store
  unfolding has_id
  update_address_book_entry id patch s =
      if has_id id (get_address_book s)
      then persist (patch_first id patch (get_address_book s)) s
      else s

  unfoldable pub remove_address_book_entry : String → Store → Store
  remove_address_book_entry id s = persist (without_id id (get_address_book s)) s
