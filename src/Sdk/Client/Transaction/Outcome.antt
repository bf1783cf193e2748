-- ===== src/Sdk/Client/Transaction/Outcome.antt =====
-- What a state-changing call returns or throws.
use accord_protocol.Prelude.{
  ℕ, String, ◌≡◌, refl, Option, none, some, List, [], ◌∷◌, ◌++◌, All, inl, inr, ap, ◌∙◌, sym,
  Bool-cases, str_eq, not, ◌&&◌,
}
use accord_protocol.Prelude.Text.{Text, decimal}
use accord_protocol.ContractPattern.Found.{HasNoParen, IsSpace, spelled}
use accord_protocol.Sdk.Failure.{
  accord, foreign, contract, named, Result, ok, err, Field, Result-cases,
}
use accord_protocol.Prelude.Double.{to_number}
use accord_protocol.Sdk.Errors.Parse.{parse_contract_error, parse_contract_error-rounded}
use accord_protocol.Sdk.Stellar.{Stellar}
use accord_protocol.Sdk.Validation.{validate_address}
use accord_protocol.Sdk.Validation.Addresses.{IsAddress, validate_address_iff}
use accord_protocol.Sdk.Client.Call.{Call}
use accord_protocol.Sdk.Client.Transaction.{
  Effect, fetched, simulated, signed, sent, failure, Sent, hash, Host, Exec, continue, caught,
  checked_simulation, simulation_text, checked_send, attempt, with_signer, execute_transaction,
}
use accord_protocol.Sdk.Client.Transaction.Protocol.{continue-ok}

-- A value, or one of the SDK's own errors.
abbrev pub IsAccord : {A : Type 0} → Result A → Type 0
IsAccord (ok a) = Unit
IsAccord (err (accord e)) = Unit
IsAccord (err (foreign s)) = ⊥

pub caught-IsAccord : {A : Type 0} (r : Result A) → IsAccord (caught r)
caught-IsAccord (ok a) = tt
caught-IsAccord (err (accord e)) = tt
caught-IsAccord (err (foreign s)) = tt

validate_address-IsAccord :
    (st : Stellar) (a : String) (field : Field) → IsAccord (validate_address st a field)
unfolding validate_address
validate_address-IsAccord st a field = elim (Bool-cases (str_eq a "")) [
  | inl empty ↦ rw empty tt
  | inr full ↦ elim (Bool-cases (not (st.is_valid_account a) && not (st.is_valid_contract a))) [
    | inl bad ↦ rw (full, bad) tt
    | inr good ↦ rw (full, good) tt
  ]
]

continue-IsAccord :
    {Tx A B : Type 0} (r : Result A) (k : A → Exec Tx B) (l : List (Effect Tx))
    → IsAccord r
    → ((a : A) → IsAccord (k a l).0)
    → IsAccord (continue r k l).0
continue-IsAccord (ok a) k l h n = n a
continue-IsAccord (err (accord e)) k l h n = tt
continue-IsAccord (err (foreign s)) k l h n = h

checked_send-ok : (reply : Sent) {h : String} → checked_send reply ≡ ok h → reply ≡ hash h
checked_send-ok (hash h) e = cc
checked_send-ok (Sent.rejected text) e = cc

caught-ok : {A : Type 0} (r : Result A) {a : A} → caught r ≡ ok a → r ≡ ok a
caught-ok (ok b) e = e
caught-ok (err (accord x)) e = cc
caught-ok (err (foreign x)) e = cc

module _ {A B : Type 0} {a c : A} {b d : B} where
  result_of : ◌≡◌ {A = A × B} (a, b) (c, d) → a ≡ c
  result_of e = ap (λ (p : A × B). p.0) e

  log_of : ◌≡◌ {A = A × B} (a, b) (c, d) → b ≡ d
  log_of e = ap (λ (p : A × B). p.1) e

  pair_path : a ≡ c → b ≡ d → ◌≡◌ {A = A × B} (a, b) (c, d)
  pair_path e f = λ i. (e i, f i)

simulation_text-spelled :
    (fn : String) (before spaces digits rest : Text)
    → simulation_text fn (some (before ++ spelled spaces digits rest))
      ≡ before ++ spelled spaces digits rest
simulation_text-spelled fn [] spaces digits rest = refl
simulation_text-spelled fn (c ∷ before) spaces digits rest = refl

reported :
    (fn : String) (before spaces rest : Text) (n : ℕ)
    → HasNoParen before
    → All IsSpace spaces
    → parse_contract_error
        (foreign (simulation_text fn (some (before ++ spelled spaces (decimal n) rest))))
      ≡ contract (to_number n)
reported fn before spaces rest n np sp =
    ap (λ s. parse_contract_error (foreign s))
      (simulation_text-spelled fn before spaces (decimal n) rest)
    ∙ parse_contract_error-rounded before spaces rest n np sp

module _ (st : Stellar) (host : Host st.ScVal) (call : Call st.ScVal)
    (l : List (Effect host.Tx)) where
  open host use {Tx, Simulation}

  with_signer-IsAccord :
      (signer : Option (List (Effect Tx) → Tx → Result Tx))
      → IsAccord (with_signer st host signer call l).0
  with_signer-IsAccord none = tt
  with_signer-IsAccord (some f) = caught-IsAccord (attempt st host f call l).0

  -- Whatever the network, the signer and the SDK answer or throw, a transaction gives a hash or one
  -- of the SDK's own errors.
  pub execute_transaction-IsAccord : IsAccord (execute_transaction st host call l).0
  unfolding execute_transaction
  execute_transaction-IsAccord =
      continue-IsAccord (validate_address st call.caller (named "callerAddress")) _ l
        (validate_address-IsAccord st call.caller (named "callerAddress"))
        λ _. with_signer-IsAccord host.sign

  -- The network accepted a transaction: fetched, simulated, signed and sent, once each.
  pub record Delivery (h : String) (l' : List (Effect Tx)) : Type 0 where
    pub raw : Tx
    pub prepared : Tx
    pub tx : Tx
    pub log : l' ≡ sent tx ∷ signed prepared ∷ simulated raw ∷ fetched call.caller ∷ l
    pub accepted :
        host.send (signed prepared ∷ simulated raw ∷ fetched call.caller ∷ l) tx ≡ ok (hash h)

  attempt-ok :
      (f : List (Effect Tx) → Tx → Result Tx) {h : String} {l' : List (Effect Tx)}
      → attempt st host f call l ≡ (ok h, l')
      → Delivery h l'
  unfolding attempt
  attempt-ok f {h} {l'} e =
      continue-ok (host.get_account l call.caller) _ _
        (λ account _. continue-ok (host.build account call) _ _ (λ raw _.
          continue-ok (host.simulate _ raw) _ _ (λ answer _.
            continue-ok (checked_simulation call.fn_name answer) _ _ (λ sim _.
              continue-ok (host.assemble raw sim) _ _ (λ prepared _.
                continue-ok (f _ prepared) _ _ (λ tx _.
                  continue-ok (host.send _ tx) _ _ (λ reply s z. record {
                    raw = raw;
                    prepared = prepared;
                    tx = tx;
                    log = sym (log_of z);
                    accepted = s ∙ ap ok (checked_send-ok reply (result_of z));
                  })))))))
        e

  with_signer-ok :
      (signer : Option (List (Effect Tx) → Tx → Result Tx)) {h : String} {l' : List (Effect Tx)}
      → with_signer st host signer call l ≡ (ok h, l')
      → Delivery h l'
  with_signer-ok none e = cc (result_of e)
  with_signer-ok (some f) e =
      let r = caught-ok (attempt st host f call l).0 (result_of e) in
      attempt-ok f (pair_path r (log_of e))

  -- A call that returns a hash has fetched the account, simulated, signed and sent, once each and
  -- in this order, and the hash is the network's answer to what was sent.
  pub execute_transaction-ok :
      (h : String) (l' : List (Effect Tx))
      → execute_transaction st host call l ≡ (ok h, l')
      → Delivery h l'
  unfolding execute_transaction
  execute_transaction-ok h l' e =
      continue-ok (validate_address st call.caller (named "callerAddress")) _ _
        (λ _ _ e1. with_signer-ok host.sign e1) e

  -- With no signing callback nothing is asked of the network.
  pub unsigned-log : host.sign ≡ none → (execute_transaction st host call l).1 ≡ l
  unfolding execute_transaction
  unsigned-log e =
      rw e (elim (Result-cases (validate_address st call.caller (named "callerAddress"))) [
        | inl (u, v) ↦ rw v refl
        | inr (t, v) ↦ rw v refl
      ])

  attempt-failed :
      (f : List (Effect Tx) → Tx → Result Tx) (account : host.Account) (raw : Tx)
      (text : Option Text)
      → host.get_account l call.caller ≡ ok account
      → host.build account call ≡ ok raw
      → host.simulate (fetched call.caller ∷ l) raw ≡ ok (failure text)
      → attempt st host f call l ≡ (
        err (accord (parse_contract_error (foreign (simulation_text call.fn_name text)))),
        simulated raw ∷ fetched call.caller ∷ l,
      )
  unfolding attempt
  attempt-failed f account raw text ha hb hs = rw ha (rw hb (rw hs refl))

  -- A simulation that reports a contract error ends the call: the SDK throws the contract error with
  -- the number that stands for the reported code, which is the code itself below 2 ^ 53,
  -- and nothing is signed or sent.
  pub execute_transaction-contract :
      (f : List (Effect Tx) → Tx → Result Tx) (account : host.Account) (raw : Tx)
      (before spaces rest : Text) (n : ℕ)
      → IsAddress st call.caller
      → host.sign ≡ some f
      → host.get_account l call.caller ≡ ok account
      → host.build account call ≡ ok raw
      → host.simulate (fetched call.caller ∷ l) raw
        ≡ ok (failure (some (before ++ spelled spaces (decimal n) rest)))
      → HasNoParen before
      → All IsSpace spaces
      → execute_transaction st host call l
        ≡ (err (accord (contract (to_number n))), simulated raw ∷ fetched call.caller ∷ l)
  unfolding execute_transaction
  execute_transaction-contract f account raw before spaces rest n va hf ha hb hs np sp =
      let checked = (validate_address_iff st call.caller (named "callerAddress")).1 va in
      let tried =
        attempt-failed f account raw (some (before ++ spelled spaces (decimal n) rest)) ha hb hs in
      let found = reported call.fn_name before spaces rest n np sp in
      ap (λ r. continue r (λ _. with_signer st host host.sign call) l) checked
      ∙ ap (λ signer. with_signer st host signer call l) hf
      ∙ ap (λ (p : Result String × List (Effect Tx)). (caught p.0, p.1)) tried
      ∙ ap (λ e. (err (accord e), simulated raw ∷ fetched call.caller ∷ l)) found
