-- ===== src/Sdk/Client/Proposed.antt =====
-- What the requests that create proposals have been checked for.
use accord_protocol.Prelude.{
  ℕ, suc, ◌≤◌, String, ◌≡◌, Option, none, some, List, [], ◌∷◌, arith, All, length,
}
use accord_protocol.Prelude.Int.{ℤ, pos}
use accord_protocol.Prelude.Text.{Text}
use accord_protocol.Sdk.Failure.{ok, named, >>=-eq-ok_tt}
use accord_protocol.Sdk.Stellar.{Stellar}
use accord_protocol.Sdk.Types.{Transfer, ProposalCategory}
use accord_protocol.Sdk.Validation.{
  validate_address, validate_description, validate_deadline, validate_positive_amount,
}
use accord_protocol.Sdk.Validation.Addresses.{IsAddress, validate_address_iff}
use accord_protocol.Sdk.Validation.Limits.{
  IsBlank, validate_description_iff, validate_deadline_iff, validate_positive_amount_iff,
}
use accord_protocol.Sdk.Client.Call.{Call}
use accord_protocol.Sdk.Client.Governance.{validate_transfers}
use accord_protocol.Sdk.Client.Request.{
  Request, prepare, proposal_text, create_proposal, create_proposal_with_attachment,
  create_asset_proposal, create_add_owner_proposal, create_remove_owner_proposal,
  create_change_threshold_proposal, create_change_weight_proposal, create_spending_limit_proposal,
  create_spending_window_proposal, create_recurring_proposal, create_cancel_recurring_proposal,
  create_pause_recurring_proposal, create_resume_recurring_proposal,
  create_modify_recurring_proposal, create_grant_role_proposal, create_revoke_role_proposal,
}

-- The description is not blank and has at most 300 code units, and the deadline is positive.
abbrev pub IsTextChecked : Option (Text × ℤ) → Type 0
IsTextChecked none = Unit
IsTextChecked (some (d, t)) = (¬ IsBlank d) × (length d ≤ 300) × ((k : ℕ) × (t ≡ pos (suc k)))

text_checked :
    (d : Text) (t : ℤ)
    → validate_description d ≡ ok tt
    → validate_deadline t ≡ ok tt
    → IsTextChecked (some (d, t))
text_checked d t h k =
    let (nb, short) = (validate_description_iff d).0 h in (nb, short, (validate_deadline_iff t).0 k)

module _ (st : Stellar) where
  -- No request to create a proposal gets past its checks with a blank or overlong description, or
  -- with a deadline that is not positive.
  pub prepare-IsTextChecked :
      (r : Request) {c : Call st.ScVal} → prepare st r ≡ ok c → IsTextChecked (proposal_text r)
  unfolding prepare
  prepare-IsTextChecked (create_proposal proposer transfers description deadline category) h =
      text_checked description deadline (ground arith) (ground arith)
  prepare-IsTextChecked
        (create_proposal_with_attachment proposer transfers description deadline category
          attachment_hash)
        h =
      text_checked description deadline (ground arith) (ground arith)
  prepare-IsTextChecked (create_asset_proposal proposer transfers description deadline category) h =
      text_checked description deadline (ground arith) (ground arith)
  prepare-IsTextChecked
        (create_add_owner_proposal proposer new_owner weight description deadline category) h =
      text_checked description deadline (ground arith) (ground arith)
  prepare-IsTextChecked
        (create_remove_owner_proposal proposer owner_to_remove description deadline category) h =
      text_checked description deadline (ground arith) (ground arith)
  prepare-IsTextChecked
        (create_change_threshold_proposal proposer new_threshold description deadline category) h =
      text_checked description deadline (ground arith) (ground arith)
  prepare-IsTextChecked
        (create_change_weight_proposal proposer target_owner new_weight description deadline
          category)
        h =
      text_checked description deadline (ground arith) (ground arith)
  prepare-IsTextChecked
        (create_spending_limit_proposal proposer owner token limit description deadline category)
        h =
      text_checked description deadline (ground arith) (ground arith)
  prepare-IsTextChecked
        (create_spending_window_proposal proposer owner token limit window_secs description deadline
          category)
        h =
      text_checked description deadline (ground arith) (ground arith)
  prepare-IsTextChecked (create_recurring_proposal proposer params description deadline category)
        h =
      text_checked description deadline (ground arith) (ground arith)
  prepare-IsTextChecked
        (create_cancel_recurring_proposal proposer schedule_id description deadline category) h =
      text_checked description deadline (ground arith) (ground arith)
  prepare-IsTextChecked
        (create_pause_recurring_proposal proposer schedule_id description deadline category) h =
      text_checked description deadline (ground arith) (ground arith)
  prepare-IsTextChecked
        (create_resume_recurring_proposal proposer schedule_id description deadline category) h =
      text_checked description deadline (ground arith) (ground arith)
  prepare-IsTextChecked
        (create_modify_recurring_proposal proposer params description deadline category) h =
      text_checked description deadline (ground arith) (ground arith)
  prepare-IsTextChecked
        (create_grant_role_proposal proposer target role description deadline category) h =
      text_checked description deadline (ground arith) (ground arith)
  prepare-IsTextChecked
        (create_revoke_role_proposal proposer target role description deadline category) h =
      text_checked description deadline (ground arith) (ground arith)
  prepare-IsTextChecked _ h = tt

  abbrev pub IsPayable : Transfer → Type 0
  IsPayable t = IsAddress st t.to × IsAddress st t.token × ((k : ℕ) × (t.amount ≡ pos (suc k)))

  validate_transfers-ok : (ts : List Transfer) → validate_transfers st ts ≡ ok tt → All IsPayable ts
  unfolding validate_transfers
  validate_transfers-ok [] h = tt
  validate_transfers-ok (t ∷ ts) h =
      let (to, e1) = >>=-eq-ok_tt (validate_address st t.to (named "transfer.to")) _ h in
      let (token, e2) = >>=-eq-ok_tt (validate_address st t.token (named "transfer.token")) _ e1 in
      let (paid, e3) = >>=-eq-ok_tt (validate_positive_amount t.amount "transfer.amount") _ e2 in
      (
        (
          (validate_address_iff st t.to _).0 to,
          (validate_address_iff st t.token _).0 token,
          (validate_positive_amount_iff t.amount _).0 paid,
        ),
        validate_transfers-ok ts e3,
      )

  -- `createProposal` lets only transfers through whose recipient and token are valid addresses and
  -- whose amount is positive.
  pub create_proposal-IsPayable :
      (proposer : String) (transfers : List Transfer) (description : Text) (deadline : ℤ)
      (category : ProposalCategory) {c : Call st.ScVal}
      → prepare st (create_proposal proposer transfers description deadline category) ≡ ok c
      → All IsPayable transfers
  unfolding prepare
  create_proposal-IsPayable proposer transfers description deadline category h =
      validate_transfers-ok transfers (ground arith)
