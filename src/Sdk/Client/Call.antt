-- ===== src/Sdk/Client/Call.antt =====
-- packages/sdk/src/client.ts: what a state-changing method hands to `executeTransaction`.
use accord_protocol.Prelude.{String, List}

pub record Call (ScVal : Type 0) : Type 0 where
  pub fn_name : String
  pub args : List ScVal
  pub caller : String
