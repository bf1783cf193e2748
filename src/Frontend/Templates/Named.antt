-- ===== src/Frontend/Templates/Named.antt =====
-- The names and fields that the ids of templates have after each operation.
use accord_protocol.Prelude.{
  ℕ, suc, ◌≡◌, refl, ap, ◌∙◌, Option, none, some, List, [], ◌∷◌, ◌++◌, if◌then◌else◌, arith,
}
use accord_protocol.Prelude.Text.{Text, text_eq, text_eq_iff}
use accord_protocol.Frontend.LocalStorage.{LocalStorage}
use accord_protocol.Frontend.Templates.{
  ProposalTemplate, ProposalTemplateFields, template_id, new_template, renamed, without_template,
  get_proposal_templates, persist, save_proposal_template, rename_proposal_template,
  delete_proposal_template,
}

-- The name and the fields under an id.
unfoldable pub entry_of : Text → List ProposalTemplate → Option (Text × ProposalTemplateFields)
entry_of x [] = none
entry_of x (t ∷ ts) = if text_eq t.id x then some (t.name, t.fields) else entry_of x ts

abbrev pub View : Type 0
View = Text → Option (Text × ProposalTemplateFields)

pub data Edit : Type 0 where
  save : (iso ms random name : Text) → ProposalTemplateFields → Edit
  rename : (id name : Text) → (ℕ → Text) → Edit
  delete : (id : Text) → Edit

abbrev with_name :
    Text → Option (Text × ProposalTemplateFields) → Option (Text × ProposalTemplateFields)
with_name name none = none
with_name name (some e) = some (name, e.1)

abbrev or_new :
    Option (Text × ProposalTemplateFields)
    → Option (Text × ProposalTemplateFields)
    → Option (Text × ProposalTemplateFields)
or_new none e = e
or_new (some d) e = some d

-- What an edit does to the entries by id: saving adds one under an id that has none.
abbrev pub described : Edit → View → View
described (save iso ms random name fields) v x =
    or_new (v x) (if text_eq (template_id ms random) x then some (name, fields) else none)
described (rename id name clock) v x = if text_eq id x then with_name name (v x) else v x
described (delete id) v x = if text_eq id x then none else v x

entry_of-append :
    (x : Text) (t : ProposalTemplate) (ts : List ProposalTemplate)
    → entry_of x (ts ++ (t ∷ []))
      ≡ or_new (entry_of x ts) (if text_eq t.id x then some (t.name, t.fields) else none)
unfolding entry_of
entry_of-append x t [] = refl
entry_of-append x t (u ∷ ts) = ground (arith, entry_of-append x t ts)

entry_of-renamed :
    (x id name : Text) (clock : ℕ → Text) (ts : List ProposalTemplate)
    → entry_of x (renamed id name clock ts)
      ≡ (if text_eq id x then with_name name (entry_of x ts) else entry_of x ts)
unfolding entry_of renamed
entry_of-renamed x id name clock [] = ground arith
entry_of-renamed x id name clock (t ∷ ts) = ground (
  arith,
  text_eq_iff t.id id,
  text_eq_iff t.id x,
  text_eq_iff id x,
  entry_of-renamed x id name clock ts,
  entry_of-renamed x id name (λ n. clock (suc n)) ts,
)

entry_of-without_template :
    (x id : Text) (ts : List ProposalTemplate)
    → entry_of x (without_template id ts) ≡ (if text_eq id x then none else entry_of x ts)
unfolding entry_of without_template
entry_of-without_template x id [] = ground arith
entry_of-without_template x id (t ∷ ts) = ground (
  arith,
  text_eq_iff t.id id,
  text_eq_iff t.id x,
  text_eq_iff id x,
  entry_of-without_template x id ts,
)

module _ (storage : LocalStorage (List ProposalTemplate)) where
  open storage use {Store}

  abbrev pub apply_edit : Edit → Store → Store
  apply_edit (save iso ms random name fields) s =
      (save_proposal_template storage iso ms random name fields s).1
  apply_edit (rename id name clock) s = rename_proposal_template storage id name clock s
  apply_edit (delete id) s = delete_proposal_template storage id s

  abbrev pub view : Store → View
  view s x = entry_of x (get_proposal_templates storage s)

  -- The templates that are read after a store of a list.
  get-persist :
      (ts : List ProposalTemplate) (s : Store)
      → ((us : List ProposalTemplate) → (t : Store) × (storage.write s us ≡ some t))
      → get_proposal_templates storage (persist storage ts s) ≡ ts
  unfolding persist
  get-persist ts s h = rw ((h ts).1, storage.read-write s (h ts).0 ts (h ts).1) refl

  -- When the storage takes every write, each edit does to the name and fields under any id what
  -- its description says: a saved template is found under its id unless one was there, a renamed
  -- one keeps its fields, a deleted one is gone, and no other id is touched.
  pub apply_edit-described :
      (e : Edit) (x : Text) (s : Store)
      → ((us : List ProposalTemplate) → (t : Store) × (storage.write s us ≡ some t))
      → view (apply_edit e s) x ≡ described e (view s) x
  unfolding save_proposal_template rename_proposal_template delete_proposal_template
  apply_edit-described (save iso ms random name fields) x s h =
      ap (entry_of x) (get-persist _ s h)
      ∙ entry_of-append x (new_template iso ms random name fields)
          (get_proposal_templates storage s)
  apply_edit-described (rename id name clock) x s h =
      ap (entry_of x) (get-persist _ s h)
      ∙ entry_of-renamed x id name clock (get_proposal_templates storage s)
  apply_edit-described (delete id) x s h =
      ap (entry_of x) (get-persist _ s h)
      ∙ entry_of-without_template x id (get_proposal_templates storage s)
