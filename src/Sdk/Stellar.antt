-- ===== src/Sdk/Stellar.antt =====
-- What the SDK takes from @stellar/stellar-sdk and from Node: the address checks, the constructors
-- of contract values (`xdr.ScVal`) and the decoding of hexadecimal text. A constructor that may
-- throw returns a result.
use accord_protocol.Prelude.{ℕ, String, Bool, List}
use accord_protocol.Prelude.Int.{ℤ}
use accord_protocol.Prelude.Number.{Number}
use accord_protocol.Prelude.Text.{Text}
use accord_protocol.Sdk.Failure.{Result}

pub record Stellar : Type 1 where
  -- `StrKey.isValidEd25519PublicKey` and `StrKey.isValidContract`.
  pub is_valid_account : String → Bool
  pub is_valid_contract : String → Bool
  pub ScVal : Type 0
  -- `new Address(address).toScVal()`.
  pub address : String → Result ScVal
  -- `nativeToScVal(value, { type })` at the types "u64" and "i128".
  pub native_u64 : ℤ → Result ScVal
  pub native_i128 : ℤ → Result ScVal
  pub scv_u32 : Number → ScVal
  pub scv_symbol : String → ScVal
  pub scv_string : Text → ScVal
  pub scv_bool : Bool → ScVal
  pub scv_bytes : List ℕ → ScVal
  pub scv_void : ScVal
  pub scv_vec : List ScVal → ScVal
  pub scv_map : List (ScVal × ScVal) → ScVal
  -- `Buffer.from(text, "hex")`.
  pub hex_bytes : Text → List ℕ
