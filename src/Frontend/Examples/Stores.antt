-- ===== src/Frontend/Examples/Stores.antt =====
-- The labels of owners, the changelog and the templates at concrete inputs, over a storage that takes every write.
use accord_protocol.Prelude.{List, ℕ, ◌≡◌, refl, Option, none, some, [], ◌∷◌, ◌++◌}
use accord_protocol.Prelude.Text.{codes, trim, drop_while, is_space}
use accord_protocol.Frontend.LocalStorage.{LocalStorage}
use accord_protocol.Frontend.Examples.{memory}
use accord_protocol.Frontend.Templates.{
  ProposalTemplate, ProposalTemplateFields, new_template, renamed, get_proposal_templates,
  rename_proposal_template, persist,
}
use accord_protocol.Frontend.Templates.Named.{
  rename, described, apply_edit, view, apply_edit-described,
}
use accord_protocol.Frontend.OwnerLabels.{
  label_of, set_label, OwnerLabelMap, get_owner_labels, edited, get_owner_label, set_owner_label,
}
use accord_protocol.Frontend.OwnerLabels.Kept.{label_after, get_owner_label-set_owner_label}
use accord_protocol.Frontend.Changelog.{
  unread_since, ChangelogRelease, ChangelogSeen, seen_top, all_entries, get_unread_entries,
  mark_changelog_seen, get_changelog_seen,
}
use accord_protocol.Frontend.Changelog.Unread.{holding, get_unread_entries-mark_changelog_seen}

abbrev labels : LocalStorage OwnerLabelMap
labels = memory OwnerLabelMap

abbrev labelled : Option OwnerLabelMap
labelled = some (("A", codes "Ann") ∷ ("B", codes "Bob") ∷ [])

test_trimmed :
    get_owner_label labels "A" (set_owner_label labels "A" (codes " Al ") labelled)
    ≡ some (codes "Al")
unfolding get_owner_label set_owner_label label_of set_label trim drop_while is_space
test_trimmed = refl

get_owner_label-set_owner_label_example :
    get_owner_label labels "B" (set_owner_label labels "A" (codes " Al ") labelled)
    ≡ label_after "A" (codes " Al ") (get_owner_label labels "B" labelled) "B"
get_owner_label-set_owner_label_example =
    get_owner_label-set_owner_label labels "A" "B" (codes " Al ") labelled
      (some (edited "A" (codes " Al ") (get_owner_labels labels labelled))) refl

abbrev seen : LocalStorage ChangelogSeen
seen = memory ChangelogSeen

abbrev unreleased : ChangelogRelease ℕ
unreleased = record { version = "Unreleased"; entries = 1 ∷ 2 ∷ [] }

abbrev first_release : ChangelogRelease ℕ
first_release = record { version = "0.1.0"; entries = 3 ∷ [] }

test_unread :
    get_unread_entries
      (unreleased ∷ holding first_release (3 ∷ 4 ∷ []) ∷ [])
      (mark_changelog_seen seen (first_release ∷ []) none).0
    ≡ 1 ∷ 2 ∷ 4 ∷ []
unfolding get_unread_entries mark_changelog_seen unread_since
test_unread = refl

-- An entry that is put before the seen one is not unread; the seen one is in its place.
test_shifted :
    get_unread_entries
      (holding first_release (4 ∷ 3 ∷ []) ∷ [])
      (mark_changelog_seen seen (first_release ∷ []) none).0
    ≡ 3 ∷ []
unfolding get_unread_entries mark_changelog_seen unread_since
test_shifted = refl

get_unread_entries-mark_changelog_seen_example :
    (get_changelog_seen seen (mark_changelog_seen seen (first_release ∷ []) none).1
      ≡ (mark_changelog_seen seen (first_release ∷ []) none).0)
    × (get_unread_entries
          (unreleased ∷ holding first_release (4 ∷ 3 ∷ []) ∷ [])
          (mark_changelog_seen seen (first_release ∷ []) none).0
        ≡ all_entries (unreleased ∷ []) ++ (3 ∷ []))
    × (get_unread_entries
          (unreleased ∷ holding first_release (3 ∷ 4 ∷ []) ∷ [])
          (mark_changelog_seen seen (first_release ∷ []) none).0
        ≡ all_entries (unreleased ∷ []) ++ (4 ∷ []))
get_unread_entries-mark_changelog_seen_example =
    get_unread_entries-mark_changelog_seen seen first_release [] (unreleased ∷ []) [] (4 ∷ 3 ∷ [])
      (4 ∷ []) none (some (seen_top first_release)) refl refl

abbrev templates : LocalStorage (List ProposalTemplate)
templates = memory (List ProposalTemplate)

abbrev no_fields : ProposalTemplateFields
no_fields = record {
  recipient = none;
  amount = none;
  token = none;
  description = none;
  category = none;
  kind = none;
  interval = none;
  cliff = none;
  end_date = none;
  cap = none;
}

abbrev payroll : ProposalTemplate
payroll = new_template (codes "2026-01-01") (codes "1") (codes "a") (codes "Pay") no_fields

test_taken :
    (us : List ProposalTemplate)
    → (t : Option (List ProposalTemplate)) × (templates.write none us ≡ some t)
test_taken us = (some us, refl)

test_renamed :
    get_proposal_templates templates (
      rename_proposal_template templates payroll.id
        (codes "Rent")
        (λ n. codes "2026-02-02")
        (some (payroll ∷ [])))
    ≡ record payroll { name = codes "Rent"; updated_at = codes "2026-02-02" } ∷ []
unfolding rename_proposal_template renamed persist
test_renamed = refl

apply_edit-described_example :
    view templates
      (apply_edit templates
        (rename payroll.id (codes "Rent") (λ n. codes "2026-02-02"))
        (some (payroll ∷ [])))
      payroll.id
    ≡ described
        (rename payroll.id (codes "Rent") (λ n. codes "2026-02-02"))
        (view templates (some (payroll ∷ [])))
        payroll.id
apply_edit-described_example =
    apply_edit-described templates (rename payroll.id (codes "Rent") (λ n. codes "2026-02-02"))
      payroll.id (some (payroll ∷ [])) test_taken
