-- ===== src/Sdk/Client/Transaction/Submission.antt =====
-- A whole request: nothing leaves the client before all checks have passed.
use accord_protocol.Prelude.{◌≡◌, ◌≢◌, none, List, inl, inr, ap, ◌∙◌}
use accord_protocol.Sdk.Failure.{ok, Result-cases}
use accord_protocol.Sdk.Stellar.{Stellar}
use accord_protocol.Sdk.Validation.Addresses.{IsAddress}
use accord_protocol.Sdk.Client.Call.{Call}
use accord_protocol.Sdk.Client.Request.{Request, prepare, proposal_text}
use accord_protocol.Sdk.Client.Checked.{prepare-IsAddress}
use accord_protocol.Sdk.Client.Proposed.{IsTextChecked, prepare-IsTextChecked}
use accord_protocol.Sdk.Client.Transaction.{Effect, Host, continue, execute_transaction, submit}
use accord_protocol.Sdk.Client.Transaction.Outcome.{unsigned-log}

module _ (st : Stellar) (host : Host st.ScVal) (r : Request) (l : List (Effect host.Tx)) where
  -- The request passed its checks and encodings, its signer is a valid address, the texts of a
  -- proposal are within their limits, and there is a signing callback.
  pub record IsSendable : Type 0 where
    pub call : Call st.ScVal
    pub prepared : prepare st r ≡ ok call
    pub caller : IsAddress st call.caller
    pub texts : IsTextChecked (proposal_text r)
    pub signer : host.sign ≢ none

  -- A request that asked anything of the network was sendable, whatever came of it.
  pub submit-IsSendable : (submit st host r l).1 ≢ l → IsSendable
  unfolding submit
  submit-IsSendable touched = elim (Result-cases (prepare st r)) [
    | inl (call, e) ↦ record {
      call = call;
      prepared = e;
      caller = prepare-IsAddress st r e;
      texts = prepare-IsTextChecked st r e;
      signer = λ absent. touched (
          ap (λ p. (continue p (execute_transaction st host) l).1) e
          ∙ unsigned-log st host call l absent);
    }
    | inr (t, e) ↦ absurd (touched (ap (λ p. (continue p (execute_transaction st host) l).1) e))
  ]
