-- ===== src/Frontend/Changelog/Unread.antt =====
-- What is unread after the changelog was marked as seen.
use accord_protocol.Prelude.{
  Bool, true, false, any, ◌≡◌, refl, some, List, [], ◌∷◌, ◌++◌, String, str_eq, eq_iff, length,
  drop, arith, ap, sym, ◌∙◌,
}
use mathlib.Core.List.{append_assoc}
use accord_protocol.Frontend.LocalStorage.{LocalStorage}
use accord_protocol.Frontend.Changelog.{
  ChangelogRelease, ChangelogSeen, seen_top, all_entries, unread_since, get_unread_entries,
  get_changelog_seen, mark_changelog_seen,
}

drop-length {ℓ} : {A : Type ℓ} (xs ys : List A) → drop (length xs) (xs ++ ys) ≡ ys
drop-length [] ys = refl
drop-length (x ∷ xs) ys = drop-length xs ys

append-nil {ℓ} : {A : Type ℓ} (xs : List A) → xs ++ [] ≡ xs
append-nil [] = refl
append-nil (x ∷ xs) = ap (λ t. x ∷ t) (append-nil xs)

str_eq_same : (v : String) → str_eq v v ≡ true
str_eq_same v = ground (arith, eq_iff v v)

module _ {Entry : Type 0} where
  -- The release with other entries.
  abbrev pub holding : ChangelogRelease Entry → List Entry → ChangelogRelease Entry
  holding r now = record { version = r.version; entries = now }

  abbrev pub is_among : String → List (ChangelogRelease Entry) → Bool
  is_among v rs = any (λ r. str_eq r.version v) rs

  unread_since-same :
      (seen : ChangelogSeen) (r : ChangelogRelease Entry) (rs : List (ChangelogRelease Entry))
      → str_eq r.version seen.version ≡ true
      → unread_since seen (r ∷ rs) ≡ drop seen.entry_count r.entries
  unfolding unread_since
  unread_since-same seen r rs h = rw (unread_since, h) refl

  unread_since-other :
      (seen : ChangelogSeen) (r : ChangelogRelease Entry) (rs : List (ChangelogRelease Entry))
      → str_eq r.version seen.version ≡ false
      → unread_since seen (r ∷ rs) ≡ r.entries ++ unread_since seen rs
  unfolding unread_since
  unread_since-other seen r rs h = rw (unread_since, h) refl

  others-split :
      (v : String) (r : ChangelogRelease Entry) (rs : List (ChangelogRelease Entry))
      → is_among v (r ∷ rs) ≡ false
      → (str_eq r.version v ≡ false) × (is_among v rs ≡ false)
  others-split v r rs h = ground arith

  unread_since-passed :
      (top : ChangelogRelease Entry) (newer older : List (ChangelogRelease Entry))
      (now : List Entry)
      → is_among top.version newer ≡ false
      → unread_since (seen_top top) (newer ++ (holding top now ∷ older))
        ≡ all_entries newer ++ drop (length top.entries) now
  unfolding all_entries
  unread_since-passed top [] older now h =
      unread_since-same (seen_top top) (holding top now) older (str_eq_same top.version)
  unread_since-passed top (r ∷ newer) older now h =
      unread_since-other (seen_top top) r (newer ++ (holding top now ∷ older))
        (others-split top.version r newer h).0
      ∙ ap (λ es. r.entries ++ es)
          (unread_since-passed top newer older now (others-split top.version r newer h).1)
      ∙ sym (append_assoc r.entries (all_entries newer) (drop (length top.entries) now))

module _ {Entry : Type 0} (storage : LocalStorage ChangelogSeen) where
  open storage use {Store}

  -- When the storage takes the write, marking a changelog with `top` as its top release as seen
  -- returns what is then read back. Of a later changelog, where releases of other versions may stand
  -- before that one and where it holds the entries `now`, unread are the entries of those releases
  -- and of `now` the ones past as many as it had when it was marked. If `now` is its own entries and
  -- further ones after all of them, these are exactly the further ones; entries put among its own
  -- would shift others past that number in their place.
  pub get_unread_entries-mark_changelog_seen :
      (top : ChangelogRelease Entry) (rest newer older : List (ChangelogRelease Entry))
      (now added : List Entry) (s t : Store)
      → storage.write s (seen_top top) ≡ some t
      → is_among top.version newer ≡ false
      → (get_changelog_seen storage (mark_changelog_seen storage (top ∷ rest) s).1
          ≡ (mark_changelog_seen storage (top ∷ rest) s).0)
        × (get_unread_entries
              (newer ++ (holding top now ∷ older))
              (mark_changelog_seen storage (top ∷ rest) s).0
            ≡ all_entries newer ++ drop (length top.entries) now)
        × (get_unread_entries
              (newer ++ (holding top (top.entries ++ added) ∷ older))
              (mark_changelog_seen storage (top ∷ rest) s).0
            ≡ all_entries newer ++ added)
  unfolding get_unread_entries mark_changelog_seen get_changelog_seen
  get_unread_entries-mark_changelog_seen top rest newer older now added s t e h = (
    rw (e, storage.read-write s t _ e) refl,
    unread_since-passed top newer older now h,
    unread_since-passed top newer older (top.entries ++ added) h
        ∙ ap (λ es. all_entries newer ++ es) (drop-length top.entries added),
  )
