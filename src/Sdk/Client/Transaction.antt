-- ===== src/Sdk/Client/Transaction.antt =====
-- packages/sdk/src/client.ts: `executeTransaction`, and a whole state-changing request. What the
-- network, the signing callback and the Stellar SDK answer is a parameter; an answer may depend
-- on all that was asked before.
pub mod Protocol
pub mod Outcome
pub mod Submission
use accord_protocol.Prelude.{String, Option, none, some, List, [], ◌∷◌, ◌++◌}
use accord_protocol.Prelude.Text.{Text, codes}
use accord_protocol.Sdk.Failure.{
  accord, foreign, rpc, validation, named, signing_missing, Result, ok, err,
}
use accord_protocol.Sdk.Errors.Parse.{parse_contract_error}
use accord_protocol.Sdk.Stellar.{Stellar}
use accord_protocol.Sdk.Validation.{validate_address}
use accord_protocol.Sdk.Client.Call.{Call}
use accord_protocol.Sdk.Client.Request.{Request, prepare}

-- What the client does to the world, newest first in a log.
pub data Effect (Tx : Type 0) : Type 0 where
  fetched : String → Effect Tx
  simulated signed sent : Tx → Effect Tx

-- An error answer carries the text that the code reads, which may be absent or empty.
pub data Simulated (Simulation : Type 0) : Type 0 where
  success : Simulation → Simulated Simulation
  failure : Option Text → Simulated Simulation

pub data Sent : Type 0 where
  hash : String → Sent
  rejected : Text → Sent

pub record Host (ScVal : Type 0) : Type 1 where
  pub Account : Type 0
  pub Tx : Type 0
  pub Simulation : Type 0
  -- `server.getAccount`, `server.simulateTransaction` and `server.sendTransaction`.
  pub get_account : List (Effect Tx) → String → Result Account
  pub simulate : List (Effect Tx) → Tx → Result (Simulated Simulation)
  pub send : List (Effect Tx) → Tx → Result Sent
  -- `TransactionBuilder … build()` and `assembleTransaction(…).build()`.
  pub build : Account → Call ScVal → Result Tx
  pub assemble : Tx → Simulation → Result Tx
  -- `signTransactionFn`.
  pub sign : Option (List (Effect Tx) → Tx → Result Tx)

-- An action returns or throws, and leaves a longer log either way.
abbrev pub Exec : Type 0 → Type 0 → Type 0
Exec Tx A = List (Effect Tx) → Result A × List (Effect Tx)

module _ {Tx A B : Type 0} where
  abbrev pub continue : Result A → (A → Exec Tx B) → Exec Tx B
  continue (ok a) k l = k a l
  continue (err t) k l = (err t, l)

  infixl 5 ◌>>=◌
  abbrev pub ◌>>=◌ : Exec Tx A → (A → Exec Tx B) → Exec Tx B
  ◌>>=◌ m k l = let (r, l') = m l in continue r k l'

module _ {Tx A : Type 0} where
  abbrev pub lift : Result A → Exec Tx A
  lift r l = (r, l)

-- The `catch` clause: an `AccordError` goes on, anything else is parsed.
abbrev pub caught : {A : Type 0} → Result A → Result A
caught (ok a) = ok a
caught (err (accord e)) = err (accord e)
caught (err (foreign t)) = err (accord (parse_contract_error (foreign t)))

-- `errSim.error || "Simulation of '…' failed."`.
abbrev simulation_text : String → Option Text → Text
simulation_text fn none = codes "Simulation of '" ++ (codes fn ++ codes "' failed.")
simulation_text fn (some []) = codes "Simulation of '" ++ (codes fn ++ codes "' failed.")
simulation_text fn (some (c ∷ s)) = c ∷ s

abbrev pub checked_simulation : {S : Type 0} → String → Simulated S → Result S
checked_simulation fn (success s) = ok s
checked_simulation fn (failure text) =
    err (accord (parse_contract_error (foreign (simulation_text fn text))))

abbrev pub checked_send : Sent → Result String
checked_send (hash h) = ok h
checked_send (rejected text) = err (accord (rpc (codes "Transaction submission failed: " ++ text)))

module _ (st : Stellar) (host : Host st.ScVal) where
  open host use {Tx, Account, Simulation}

  abbrev fetch : String → Exec Tx Account
  fetch a l = (host.get_account l a, fetched a ∷ l)

  abbrev simulate : Tx → Exec Tx (Simulated Simulation)
  simulate tx l = (host.simulate l tx, simulated tx ∷ l)

  abbrev send : Tx → Exec Tx Sent
  send tx l = (host.send l tx, sent tx ∷ l)

  abbrev sign_with : (List (Effect Tx) → Tx → Result Tx) → Tx → Exec Tx Tx
  sign_with f tx l = (f l tx, signed tx ∷ l)

  -- The body of the `try`.
  pub attempt : (List (Effect Tx) → Tx → Result Tx) → Call st.ScVal → Exec Tx String
  attempt f call = do
    account ← fetch call.caller
    raw ← lift (host.build account call)
    answer ← simulate raw
    sim ← lift (checked_simulation call.fn_name answer)
    prepared ← lift (host.assemble raw sim)
    tx ← sign_with f prepared
    reply ← send tx
    lift (checked_send reply)

  abbrev with_signer : Option (List (Effect Tx) → Tx → Result Tx) → Call st.ScVal → Exec Tx String
  with_signer none call l = (err (accord (validation (named "signTransaction") signing_missing)), l)
  with_signer (some f) call l = let (r, l') = attempt f call l in (caught r, l')

  unfoldable pub execute_transaction : Call st.ScVal → Exec Tx String
  unfolding attempt
  execute_transaction call = lift (validate_address st call.caller (named "callerAddress")) >>= λ _.
      with_signer host.sign call

  -- A request of the client: its checks and encodings, then the transaction.
  unfoldable pub submit : Request → Exec Tx String
  unfolding execute_transaction
  submit r = lift (prepare st r) >>= execute_transaction
