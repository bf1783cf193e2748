-- ===== src/Sdk/Client/View/Reading.antt =====
-- What `simulateView` does and gives.
use accord_protocol.Prelude.{String, ◌≡◌, refl, List, ◌∷◌}
use accord_protocol.Sdk.Failure.{ok}
use accord_protocol.Sdk.Stellar.{Stellar}
use accord_protocol.Sdk.Client.Transaction.{Effect, fetched, simulated, success}
use accord_protocol.Sdk.Client.Transaction.Protocol.{continue-log}
use accord_protocol.Sdk.Client.Transaction.Outcome.{IsAccord, caught-IsAccord}
use accord_protocol.Sdk.Client.View.{
  Reader, checked_view, account_or, value_or_void, view_source, look, simulate_view,
}

module _ (st : Stellar) (host : Reader st.ScVal) (fn_name : String) (args : List st.ScVal)
    (l : List (Effect host.Tx)) where
  open host use {Tx}

  -- What `simulateView` may have done: the account was asked for, and then one transaction was simulated.
  pub data IsReading : List (Effect Tx) → Type 0 where
    asked : IsReading (fetched (view_source st host) ∷ l)
    tried : (tx : Tx) → IsReading (simulated tx ∷ fetched (view_source st host) ∷ l)

  look-IsReading : IsReading (look st host fn_name args l).1
  unfolding look
  look-IsReading =
      continue-log IsReading
        (account_or (host.new_account (view_source st host))
          (host.get_account l (view_source st host)))
        _ _ asked
        λ account _. continue-log IsReading (host.build account fn_name args) _ _ asked λ tx _.
          continue-log IsReading (host.simulate _ tx) _ _ (tried tx) λ answer _.
            continue-log IsReading (checked_view answer) _ _ (tried tx) λ sim _. tried tx

  -- Whatever the network and the Stellar SDK answer, `simulateView` signs and sends nothing: it asks
  -- for one account and simulates at most one transaction. It returns a value or throws one of the
  -- SDK's own errors. (What a view method does with that value is not part of this.)
  pub simulate_view-IsReading :
      IsReading (simulate_view st host fn_name args l).1
      × IsAccord (simulate_view st host fn_name args l).0
  unfolding simulate_view
  simulate_view-IsReading = (look-IsReading, caught-IsAccord (look st host fn_name args l).0)

  -- `simulateView` succeeds with the value of its simulation, or void when it has none, also when the
  -- account could not be fetched: then a fresh one stands in for it.
  pub simulate_view-ok :
      (account : host.Account) (tx : Tx) (sim : host.Simulation)
      → account_or
          (host.new_account (view_source st host))
          (host.get_account l (view_source st host))
        ≡ ok account
      → host.build account fn_name args ≡ ok tx
      → host.simulate (fetched (view_source st host) ∷ l) tx ≡ ok (success sim)
      → simulate_view st host fn_name args l ≡ (
        ok (value_or_void st (host.retval sim)),
        simulated tx ∷ fetched (view_source st host) ∷ l,
      )
  unfolding simulate_view look
  simulate_view-ok account tx sim a b s = rw a (rw b (rw s refl))
