-- ===== src/Sdk/Client/View.antt =====
-- packages/sdk/src/client.ts: `simulateView`, which reads from the contract. What the network and
-- the Stellar SDK answer is a parameter, as it is for transactions.
pub mod Reading
use accord_protocol.Prelude.{String, Option, none, some, List, [], ◌∷◌}
use accord_protocol.Prelude.Text.{Text, codes}
use accord_protocol.Sdk.Failure.{accord, foreign, Result, ok, err}
use accord_protocol.Sdk.Errors.Parse.{parse_contract_error}
use accord_protocol.Sdk.Stellar.{Stellar}
use accord_protocol.Sdk.Client.Transaction.{
  Effect, fetched, simulated, Simulated, success, failure, Exec, ◌>>=◌, lift, caught,
}

pub record Reader (ScVal : Type 0) : Type 1 where
  pub Account : Type 0
  pub Tx : Type 0
  pub Simulation : Type 0
  -- The optional `sourceAccount` of the configuration, and `Keypair.random().publicKey()`.
  pub source_account : Option String
  pub random_key : String
  -- `server.getAccount`, and `new Account(source, "0")`, which throws on an invalid source.
  pub get_account : List (Effect Tx) → String → Result Account
  pub new_account : String → Result Account
  -- `TransactionBuilder … build()` on the function's name and arguments.
  pub build : Account → String → List ScVal → Result Tx
  pub simulate : List (Effect Tx) → Tx → Result (Simulated Simulation)
  -- `success.result?.retval`.
  pub retval : Simulation → Option ScVal

-- `errSim.error || "Simulation failed"`.
abbrev pub view_failure : Option Text → Text
view_failure none = codes "Simulation failed"
view_failure (some []) = codes "Simulation failed"
view_failure (some (c ∷ s)) = c ∷ s

abbrev pub checked_view : {S : Type 0} → Simulated S → Result S
checked_view (success s) = ok s
checked_view (failure text) = err (accord (parse_contract_error (foreign (view_failure text))))

-- The inner `catch`: an account that cannot be fetched is a fresh one.
abbrev pub account_or : {Account : Type 0} → Result Account → Result Account → Result Account
account_or fresh (ok a) = ok a
account_or fresh (err t) = fresh

-- An empty `sourceAccount` counts as none.
abbrev source_or : String → Option String → String
source_or key none = key
source_or key (some String.[]) = key
source_or key (some (String.◌∷◌ c s)) = String.◌∷◌ c s

abbrev pub value_or_void : (st : Stellar) → Option st.ScVal → st.ScVal
value_or_void st none = st.scv_void
value_or_void st (some v) = v

module _ (st : Stellar) (host : Reader st.ScVal) where
  open host use {Tx, Account, Simulation}

  abbrev pub view_source : String
  view_source = source_or host.random_key host.source_account

  abbrev fetch : Exec Tx Account
  fetch l = (
    account_or (host.new_account view_source) (host.get_account l view_source),
    fetched view_source ∷ l,
  )

  abbrev simulate : Tx → Exec Tx (Simulated Simulation)
  simulate tx l = (host.simulate l tx, simulated tx ∷ l)

  -- The body of the outer `try`.
  pub look : String → List st.ScVal → Exec Tx st.ScVal
  look fn_name args = do
    account ← fetch
    tx ← lift (host.build account fn_name args)
    answer ← simulate tx
    sim ← lift (checked_view answer)
    lift (ok (value_or_void st (host.retval sim)))

  unfoldable pub simulate_view : String → List st.ScVal → Exec Tx st.ScVal
  unfolding look
  simulate_view fn_name args l = let (r, l') = look fn_name args l in (caught r, l')
