-- ===== src/Sdk/Client/Transaction/Protocol.antt =====
-- The order of what `executeTransaction` does, and how it fails.
use accord_protocol.Prelude.{String, ◌≡◌, refl, Option, none, some, List, ◌∷◌, ap, ◌∙◌}
use accord_protocol.Sdk.Failure.{named, Result, ok, err}
use accord_protocol.Sdk.Stellar.{Stellar}
use accord_protocol.Sdk.Validation.{validate_address}
use accord_protocol.Sdk.Client.Call.{Call}
use accord_protocol.Sdk.Client.Transaction.{
  Effect, fetched, simulated, signed, sent, Simulated, success, failure, Host, Exec, continue,
  checked_simulation, attempt, with_signer, execute_transaction,
}

module _ {Tx A B : Type 0} where
  -- What holds of the log now and after each way to go on holds in the end.
  pub continue-log :
      (P : List (Effect Tx) → Type 0) (r : Result A) (k : A → Exec Tx B) (l : List (Effect Tx))
      → P l
      → ((a : A) → r ≡ ok a → P (k a l).1)
      → P (continue r k l).1
  continue-log P (ok a) k l h n = n a refl
  continue-log P (err t) k l h n = h

  -- What follows from each way to go on follows from a success.
  pub continue-ok :
      {Q : Type 0} (r : Result A) (k : A → Exec Tx B) (l : List (Effect Tx)) {b : B}
      {l' : List (Effect Tx)}
      → ((a : A) → r ≡ ok a → k a l ≡ (ok b, l') → Q)
      → continue r k l ≡ (ok b, l')
      → Q
  continue-ok (ok a) k l n h = n a refl h
  continue-ok (err t) k l n h = cc (ap (λ (p : Result B × List (Effect Tx)). p.0) h)

pub checked_simulation-ok :
    {S : Type 0} (fn : String) (answer : Simulated S) {s : S}
    → checked_simulation fn answer ≡ ok s
    → answer ≡ success s
checked_simulation-ok fn (success s) h = cc
checked_simulation-ok fn (failure text) h = cc

module _ (st : Stellar) (host : Host st.ScVal) (call : Call st.ScVal)
    (l : List (Effect host.Tx)) where
  open host use {Tx, Simulation}

  -- The stages of a transaction, with the log that each leaves. A transaction is signed only after
  -- its simulation succeeded, and what is sent is what the signer returned.
  pub data Protocol : List (Effect Tx) → Type 0 where
    untouched : Protocol l
    asked : Protocol (fetched call.caller ∷ l)
    tried : (raw : Tx) → Protocol (simulated raw ∷ fetched call.caller ∷ l)
    approved :
        (raw prepared : Tx) (sim : Simulation)
        → host.simulate (fetched call.caller ∷ l) raw ≡ ok (success sim)
        → host.assemble raw sim ≡ ok prepared
        → Protocol (signed prepared ∷ simulated raw ∷ fetched call.caller ∷ l)
    delivered :
        (raw prepared tx : Tx) (sim : Simulation) (f : List (Effect Tx) → Tx → Result Tx)
        → host.sign ≡ some f
        → host.simulate (fetched call.caller ∷ l) raw ≡ ok (success sim)
        → host.assemble raw sim ≡ ok prepared
        → f (simulated raw ∷ fetched call.caller ∷ l) prepared ≡ ok tx
        → Protocol (sent tx ∷ signed prepared ∷ simulated raw ∷ fetched call.caller ∷ l)

  attempt-Protocol :
      (f : List (Effect Tx) → Tx → Result Tx)
      → host.sign ≡ some f
      → Protocol (attempt st host f call l).1
  unfolding attempt
  attempt-Protocol f signer =
      continue-log Protocol (host.get_account l call.caller) _ _ asked λ account _.
        continue-log Protocol (host.build account call) _ _ asked λ raw _.
          continue-log Protocol (host.simulate _ raw) _ _ (tried raw) λ answer e.
            continue-log Protocol (checked_simulation call.fn_name answer) _ _ (tried raw) λ sim c.
              let good = e ∙ ap ok (checked_simulation-ok call.fn_name answer c) in
              continue-log Protocol (host.assemble raw sim) _ _ (tried raw) λ prepared p.
                continue-log Protocol (f _ prepared) _ _ (approved raw prepared sim good p) λ tx s.
                  let done = delivered raw prepared tx sim f signer good p s in
                  continue-log Protocol (host.send _ tx) _ _ done λ reply _. done

  with_signer-Protocol :
      (signer : Option (List (Effect Tx) → Tx → Result Tx))
      → host.sign ≡ signer
      → Protocol (with_signer st host signer call l).1
  with_signer-Protocol none e = untouched
  with_signer-Protocol (some f) e = attempt-Protocol f e

  -- Whatever the network, the signer and the SDK answer, and whether the call succeeds or throws,
  -- what it has done is one of the stages: nothing, the account fetched, the transaction simulated,
  -- signed after a successful simulation, or sent after it was signed.
  pub execute_transaction-Protocol : Protocol (execute_transaction st host call l).1
  unfolding execute_transaction
  execute_transaction-Protocol =
      continue-log Protocol (validate_address st call.caller (named "callerAddress")) _ l untouched
        λ _ _. with_signer-Protocol host.sign refl
