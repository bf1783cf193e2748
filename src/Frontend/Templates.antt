-- ===== src/Frontend/Templates.antt =====
-- frontend/src/lib/proposalTemplates.ts: the stored templates of proposals. The clock and the random
-- part of an id are parameters.
pub mod Named
use accord_protocol.Prelude.{
  ℕ, suc, Bool, true, false, Option, none, some, List, [], ◌∷◌, ◌++◌, if◌then◌else◌,
}
use accord_protocol.Prelude.Text.{Text, codes, text_eq}
use accord_protocol.Frontend.LocalStorage.{LocalStorage}

pub record ProposalTemplateFields : Type 0 where
  pub recipient : Option Text
  pub amount : Option Text
  pub token : Option Text
  pub description : Option Text
  pub category : Option Text
  pub kind : Option Text
  pub interval : Option Text
  pub cliff : Option Text
  pub end_date : Option Text
  pub cap : Option Text

pub record ProposalTemplate : Type 0 where
  pub id : Text
  pub name : Text
  pub fields : ProposalTemplateFields
  pub created_at : Text
  pub updated_at : Text

-- The time in milliseconds and the random part, as they are printed.
abbrev pub template_id : Text → Text → Text
template_id ms random = codes "template-" ++ ms ++ codes "-" ++ random

-- The template that is saved; `iso` is the time as `toISOString` prints it.
abbrev pub new_template : Text → Text → Text → Text → ProposalTemplateFields → ProposalTemplate
new_template iso ms random name fields = record {
  id = template_id ms random;
  name = name;
  fields = fields;
  created_at = iso;
  updated_at = iso;
}

-- The clock is read once for each template with the id; `clock n` is the n-th reading.
unfoldable pub renamed : Text → Text → (ℕ → Text) → List ProposalTemplate → List ProposalTemplate
renamed id name clock [] = []
renamed id name clock (t ∷ ts) =
    if text_eq t.id id
    then record t { name = name; updated_at = clock 0 } ∷ renamed id name (λ n. clock (suc n)) ts
    else t ∷ renamed id name clock ts

unfoldable pub without_template : Text → List ProposalTemplate → List ProposalTemplate
without_template id [] = []
without_template id (t ∷ ts) =
    let rest = without_template id ts in if text_eq t.id id then rest else t ∷ rest

module _ (storage : LocalStorage (List ProposalTemplate)) where
  open storage use {Store}

  abbrev or_empty : Option (List ProposalTemplate) → List ProposalTemplate
  or_empty none = []
  or_empty (some ts) = ts

  abbrev pub get_proposal_templates : Store → List ProposalTemplate
  get_proposal_templates s = or_empty (storage.read s)

  abbrev or_store : Option Store → Store → Store
  or_store none s = s
  or_store (some t) s = t

  unfoldable pub persist : List ProposalTemplate → Store → Store
  persist ts s = or_store (storage.write s ts) s

  unfoldable pub save_proposal_template :
      (iso ms random name : Text) → ProposalTemplateFields → Store → ProposalTemplate × Store
  save_proposal_template iso ms random name fields s =
      let t = new_template iso ms random name fields in
      (t, persist (get_proposal_templates s ++ (t ∷ [])) s)

  unfoldable pub rename_proposal_template : Text → Text → (ℕ → Text) → Store → Store
  rename_proposal_template id name clock s =
      persist (renamed id name clock (get_proposal_templates s)) s

  unfoldable pub delete_proposal_template : Text → Store → Store
  delete_proposal_template id s = persist (without_template id (get_proposal_templates s)) s
