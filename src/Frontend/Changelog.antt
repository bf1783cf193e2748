-- ===== src/Frontend/Changelog.antt =====
-- frontend/src/lib/changelog.ts: which entries of the changelog the user has not seen. Parsing the
-- changelog's text is left out.
pub mod Unread
use accord_protocol.Prelude.{
  ℕ, Bool, true, false, Option, none, some, List, [], ◌∷◌, ◌++◌, String, str_eq, length, drop,
}
use accord_protocol.Frontend.LocalStorage.{LocalStorage}

module _ (Entry : Type 0) where
  pub record ChangelogRelease : Type 0 where
    pub version : String
    pub entries : List Entry

-- The count of entries as the code writes it, a whole number.
pub record ChangelogSeen : Type 0 where
  pub version : String
  pub entry_count : ℕ

module _ {Entry : Type 0} where
  abbrev pub seen_top : ChangelogRelease Entry → ChangelogSeen
  seen_top top = record { version = top.version; entry_count = length top.entries }

  abbrev pub seen_of : List (ChangelogRelease Entry) → Option ChangelogSeen
  seen_of [] = none
  seen_of (top ∷ rest) = some (seen_top top)

  unfoldable pub all_entries : List (ChangelogRelease Entry) → List Entry
  all_entries [] = []
  all_entries (r ∷ rs) = r.entries ++ all_entries rs

  -- The loop over the releases.
  unfoldable pub unread_since : ChangelogSeen → List (ChangelogRelease Entry) → List Entry
  unread_since seen [] = []
  unread_since seen (r ∷ rs) = elim (str_eq r.version seen.version) [
    | true ↦ drop seen.entry_count r.entries
    | false ↦ r.entries ++ unread_since seen rs
  ]

  unfoldable pub get_unread_entries :
      List (ChangelogRelease Entry) → Option ChangelogSeen → List Entry
  unfolding all_entries unread_since
  get_unread_entries releases none = all_entries releases
  get_unread_entries releases (some seen) = unread_since seen releases

-- A stored value that is not such a record reads as nothing.
module _ (storage : LocalStorage ChangelogSeen) where
  open storage use {Store}

  unfoldable pub get_changelog_seen : Store → Option ChangelogSeen
  get_changelog_seen s = storage.read s

  abbrev or_store : Option Store → Store → Store
  or_store none s = s
  or_store (some t) s = t

  abbrev store_seen : Option ChangelogSeen → Store → Store
  store_seen none s = s
  store_seen (some seen) s = or_store (storage.write s seen) s

module _ {Entry : Type 0} (storage : LocalStorage ChangelogSeen) where
  open storage use {Store}

  unfoldable pub mark_changelog_seen :
      List (ChangelogRelease Entry) → Store → Option ChangelogSeen × Store
  mark_changelog_seen releases s = (seen_of releases, store_seen storage (seen_of releases) s)
