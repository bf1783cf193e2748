-- ===== src/Frontend/ContractEvents.antt =====
-- frontend/src/lib/contract.ts: the events of the contract, and the history of the total weight.
pub mod Keys
pub mod Deduped
use accord_protocol.Prelude.{
  ℕ, Bool, true, false, not, ◌&&◌, ◌||◌, String, Option, none, some, List, [], ◌∷◌, ◌++◌, any, ltb,
  ◌==◌, if◌then◌else◌,
}
use accord_protocol.Prelude.Int.{ℤ, pos, ◌+ℤ◌, ◌-ℤ◌, ltb_ℤ}
use accord_protocol.Prelude.Text.{Text, codes, text_eq, includes, decimal}
use accord_protocol.Prelude.Sort.{insert, sort}

-- An event by its three fields that tell events apart: the numbers that `Number` gives of the ledger
-- and of the index, which count from 0, and the text of the hash; an absent field is 0 or empty.
pub record ContractEvent (Payload : Type 0) : Type 0 where
  pub ledger : ℕ
  pub tx_hash : Text
  pub event_index : ℕ
  pub payload : Payload

pub data ProposalEventType : Type 0 where
  approved revoked executed owner_weight_changed : ProposalEventType
  recurring_payment_created recurring_payment_disbursed recurring_stream_claimed : ProposalEventType
  recurring_payment_paused recurring_payment_cancelled : ProposalEventType

module _ {Payload : Type 0} where
  unfoldable pub canonical_event_key : ContractEvent Payload → Text
  canonical_event_key e = decimal e.ledger ++ (58 ∷ (e.tx_hash ++ (58 ∷ decimal e.event_index)))

  -- The filter, with the keys seen so far.
  unfoldable pub first_events :
      List (ContractEvent Payload) → (seen : List Text) → List (ContractEvent Payload)
  first_events [] seen = []
  first_events (e ∷ es) seen = elim (any (text_eq (canonical_event_key e)) seen) [
    | true ↦ first_events es seen
    | false ↦ e ∷ first_events es (canonical_event_key e ∷ seen)
  ]

-- `locale_after a b` is `a.localeCompare(b) > 0`.
module _ {Payload : Type 0} (locale_after : Text → Text → Bool) where
  -- The comparison of the sort, where it is positive.
  abbrev pub comes_after : ContractEvent Payload → ContractEvent Payload → Bool
  comes_after a b =
      if not (a.ledger == b.ledger)
      then ltb b.ledger a.ledger
      else if not (a.event_index == b.event_index)
      then ltb b.event_index a.event_index
      else locale_after a.tx_hash b.tx_hash

  unfoldable pub dedupe_contract_events :
      List (ContractEvent Payload) → List (ContractEvent Payload)
  unfolding first_events sort
  dedupe_contract_events events = sort comes_after (first_events events [])

-- `replace(/_/g, "")`.
unfoldable pub without_underscores : Text → Text
without_underscores [] = []
without_underscores (c ∷ s) = let rest = without_underscores s in if c == 95 then rest else c ∷ rest

abbrev one_of : List String → Text → Bool
one_of words s = any (λ w. text_eq (codes w) s) words

-- An event of a recurring payment or schedule whose first or second topic has the word.
abbrev recurring_word : String → Text → Text → Bool
recurring_word word first second =
    (includes (codes "recurring") first || includes (codes "schedule") first)
    && (includes (codes word) first || includes (codes word) second)

abbrev event_type_of : Text → Text → Option ProposalEventType
event_type_of first second =
    if one_of ("approved" ∷ "proposalapproved" ∷ "approve" ∷ []) first
    then some approved
    else if one_of ("revoked" ∷ "proposalrevoked" ∷ "revoke" ∷ []) first
    then some revoked
    else if one_of ("executed" ∷ "proposalexecuted" ∷ "execute" ∷ []) first
    then some executed
    else if one_of ("ownerweightchanged" ∷ "cwgt" ∷ "ownerweightchange" ∷ []) first
    then some owner_weight_changed
    else if one_of
          ("recurringpaymentcreated" ∷ "recurringcreated" ∷ "reccreate" ∷ "reccreated"
            ∷ "recpmtcreated" ∷ "schedulecreated" ∷ [])
          first
        || recurring_word "create" first second
    then some recurring_payment_created
    else if one_of
          ("recurringpaymentdisbursed" ∷ "recurringdisbursed" ∷ "recdisburse" ∷ "recdisbursed"
            ∷ "recpmtdisbursed" ∷ "scheduledisbursed" ∷ "disbursed" ∷ "disburse" ∷ [])
          first
        || recurring_word "disburs" first second
    then some recurring_payment_disbursed
    else if one_of ("strclm" ∷ "streamclaim" ∷ "recurringstreamclaimed" ∷ []) first
    then some recurring_stream_claimed
    else if one_of
          ("recurringpaymentpaused" ∷ "recurringpaused" ∷ "recpause" ∷ "recpaused" ∷ "recpmtpaused"
            ∷ "schedulepaused" ∷ "paused" ∷ "pause" ∷ [])
          first
        || recurring_word "pause" first second
    then some recurring_payment_paused
    else if one_of
          ("recurringpaymentcancelled" ∷ "recurringpaymentcanceled" ∷ "recurringcancelled"
            ∷ "recurringcanceled" ∷ "reccancel" ∷ "reccancelled" ∷ "reccanceled" ∷ "recpmtcancelled"
            ∷ "recpmtcanceled" ∷ "schedulecancelled" ∷ "schedulecanceled" ∷ "cancelled" ∷ "canceled"
            ∷ "cancel" ∷ [])
          first
        || recurring_word "cancel" first second
    then some recurring_payment_cancelled
    else none

unfoldable pub resolve_event_type : Text → Text → Option ProposalEventType
unfolding without_underscores includes
resolve_event_type first second =
    event_type_of (without_underscores first) (without_underscores second)

-- Weights are whole numbers.
pub record OwnerWeightChangeEvent : Type 0 where
  pub old_weight : ℤ
  pub new_weight : ℤ
  pub new_total_weight : Option ℤ
  pub ledger : Option ℕ
  pub timestamp : Text

pub record WeightHistoryPoint (Instant : Type 0) : Type 0 where
  pub timestamp : Text
  pub ledger : ℕ
  pub total_weight : ℤ
  pub date : Instant

abbrev or_zero : Option ℕ → ℕ
or_zero none = 0
or_zero (some n) = n

-- `date_parse` reads a time, and `now` is the instant of the call, taken not to change.
module _ {Instant : Type 0} (date_parse : Text → Option Instant) (now : Instant) where
  abbrev or_now : Option Instant → Instant
  or_now none = now
  or_now (some d) = d

  abbrev or_estimate : Option ℤ → ℤ → ℤ
  or_estimate none estimate = estimate
  or_estimate (some total) estimate = total

  abbrev pub next_total : OwnerWeightChangeEvent → ℤ → ℤ
  next_total e total =
      let next = or_estimate e.new_total_weight (total +ℤ (e.new_weight -ℤ e.old_weight)) in
      if ltb_ℤ next (pos 0) then pos 0 else next

  -- The loop; the round of a whole number is itself.
  unfoldable pub reconstruct_total_weight_history :
      List OwnerWeightChangeEvent → (current_total : ℤ) → List (WeightHistoryPoint Instant)
  reconstruct_total_weight_history [] current_total = []
  reconstruct_total_weight_history (e ∷ es) current_total =
      record {
        timestamp = e.timestamp;
        ledger = or_zero e.ledger;
        total_weight = next_total e current_total;
        date = or_now (date_parse e.timestamp);
      }
      ∷ reconstruct_total_weight_history es (next_total e current_total)
