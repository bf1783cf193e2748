-- ===== src/Sdk/Conversion.antt =====
-- packages/sdk/src/conversion.ts, the encoders: from arguments to contract values.
use accord_protocol.Prelude.{
  ℕ, suc, ◌/◌, String, true, false, Option, none, some, List, [], ◌∷◌, ◌==◌, if◌then◌else◌, length,
}
use accord_protocol.Prelude.Int.{ℤ, pos_part, neg_part, sub_ℕ}
use accord_protocol.Prelude.Number.{Number, ratio, is_integer}
use accord_protocol.Prelude.Text.{Text, codes}
use accord_protocol.Sdk.Failure.{Result, ok, err, foreign, ◌>>=◌}
use accord_protocol.Sdk.Stellar.{Stellar}
use accord_protocol.Sdk.Types.{
  Role, role_text, ProposalCategory, category_text, recurring_kind_text, Transfer, AssetReference,
  address, classic, AssetTransfer, OwnerWeight, CreateRecurringParams, ModifyRecurringParams,
  Integer, big, num, Hash, hex, bytes,
}

abbrev whole : Number → ℤ
whole (ratio n d) = sub_ℕ (pos_part n / suc d) (neg_part n / suc d)
whole _ = ℤ.pos 0

-- `BigInt(value)`: a number that is no integer is a RangeError, whose text is shortened.
abbrev pub to_bigint : Integer → Result ℤ
to_bigint (big n) = ok n
to_bigint (num x) = if is_integer x then ok (whole x) else err (foreign (codes "RangeError"))

-- `items.map(f)` where `f` may throw.
abbrev pub traverse : {A B : Type 0} → (A → Result B) → List A → Result (List B)
traverse f [] = ok []
traverse f (x ∷ xs) = do y ← f x; ys ← traverse f xs; ok (y ∷ ys)

-- `hash.startsWith("0x") ? hash.slice(2) : hash`.
abbrev strip_0x : Text → Text
strip_0x [] = []
strip_0x (a ∷ []) = a ∷ []
strip_0x (a ∷ b ∷ s) = elim (a == b'0') [
  | true ↦ elim (b == b'x') [ true ↦ s | false ↦ a ∷ b ∷ s ]
  | false ↦ a ∷ b ∷ s
]

module _ (st : Stellar) where
  open st use {
    ScVal, native_u64, native_i128, scv_u32, scv_symbol, scv_bytes, scv_void, scv_vec, scv_map,
    hex_bytes,
  }

  abbrev pub address_to_sc_val : String → Result ScVal
  address_to_sc_val a = st.address a

  abbrev pub u64_to_sc_val : Integer → Result ScVal
  u64_to_sc_val n = do i ← to_bigint n; native_u64 i

  abbrev pub i128_to_sc_val : Integer → Result ScVal
  i128_to_sc_val n = do i ← to_bigint n; native_i128 i

  abbrev pub addresses_to_sc_val : List String → Result ScVal
  addresses_to_sc_val xs = do vals ← traverse address_to_sc_val xs; ok (scv_vec vals)

  abbrev hash_bytes : Hash → List ℕ
  hash_bytes (hex s) = hex_bytes (strip_0x s)
  hash_bytes (bytes bs) = bs

  unfoldable pub bytes32_to_sc_val : Hash → Result ScVal
  bytes32_to_sc_val h =
      if length (hash_bytes h) == 32
      then ok (scv_bytes (hash_bytes h))
      else err (foreign (codes "bytes32 must be exactly 32 bytes"))

  -- `!hash` holds of an absent hash and of the empty text.
  abbrev pub optional_bytes32_to_sc_val : Option Hash → Result ScVal
  optional_bytes32_to_sc_val none = ok scv_void
  optional_bytes32_to_sc_val (some (hex [])) = ok scv_void
  optional_bytes32_to_sc_val (some h) = bytes32_to_sc_val h

  abbrev pub category_to_sc_val : ProposalCategory → ScVal
  category_to_sc_val c = scv_symbol (category_text c)

  abbrev pub role_to_sc_val : Role → ScVal
  role_to_sc_val r = scv_symbol (role_text r)

  abbrev pub transfer_to_sc_val : Transfer → Result ScVal
  transfer_to_sc_val t = do
    amount ← i128_to_sc_val (big t.amount)
    to ← address_to_sc_val t.to
    token ← address_to_sc_val t.token
    ok (
        scv_map (
          (scv_symbol "amount", amount) ∷ (scv_symbol "to", to) ∷ (scv_symbol "token", token) ∷ []))

  abbrev pub transfers_to_sc_val : List Transfer → Result ScVal
  transfers_to_sc_val ts = do vals ← traverse transfer_to_sc_val ts; ok (scv_vec vals)

  abbrev asset_to_sc_val : AssetReference → Result ScVal
  asset_to_sc_val (address a) = do
    val ← address_to_sc_val a
    ok (scv_vec (scv_symbol "Address" ∷ val ∷ []))
  asset_to_sc_val (classic sym) = ok (scv_vec (scv_symbol "Classic" ∷ scv_symbol sym ∷ []))

  abbrev pub asset_transfer_to_sc_val : AssetTransfer → Result ScVal
  asset_transfer_to_sc_val t = do
    asset ← asset_to_sc_val t.asset
    amount ← i128_to_sc_val (big t.amount)
    to ← address_to_sc_val t.to
    ok (
        scv_map (
          (scv_symbol "amount", amount) ∷ (scv_symbol "asset", asset) ∷ (scv_symbol "to", to) ∷ []))

  abbrev pub asset_transfers_to_sc_val : List AssetTransfer → Result ScVal
  asset_transfers_to_sc_val ts = do vals ← traverse asset_transfer_to_sc_val ts; ok (scv_vec vals)

  unfoldable pub create_recurring_params_to_sc_val : CreateRecurringParams → Result ScVal
  create_recurring_params_to_sc_val p = do
    amount ← i128_to_sc_val (big p.amount)
    cliff_time ← u64_to_sc_val (big p.cliff_time)
    end_time ← u64_to_sc_val (big p.end_time)
    interval_secs ← u64_to_sc_val (big p.interval_secs)
    recipient ← address_to_sc_val p.recipient
    start_time ← u64_to_sc_val (big p.start_time)
    token ← address_to_sc_val p.token
    total_cap ← i128_to_sc_val (big p.total_cap)
    ok (
        scv_map (
          (scv_symbol "amount", amount)
          ∷ (scv_symbol "cliff_time", cliff_time)
          ∷ (scv_symbol "end_time", end_time)
          ∷ (scv_symbol "interval_secs", interval_secs)
          ∷ (scv_symbol "kind", scv_symbol (recurring_kind_text p.kind))
          ∷ (scv_symbol "recipient", recipient)
          ∷ (scv_symbol "start_time", start_time)
          ∷ (scv_symbol "token", token)
          ∷ (scv_symbol "total_cap", total_cap)
          ∷ []))

  abbrev or_void : (Integer → Result ScVal) → Option ℤ → Result ScVal
  or_void encode none = ok scv_void
  or_void encode (some n) = encode (big n)

  unfoldable pub modify_recurring_params_to_sc_val : ModifyRecurringParams → Result ScVal
  modify_recurring_params_to_sc_val p = do
    new_amount ← or_void i128_to_sc_val p.new_amount
    new_end_time ← or_void u64_to_sc_val p.new_end_time
    new_interval_secs ← or_void u64_to_sc_val p.new_interval_secs
    schedule_id ← u64_to_sc_val (big p.schedule_id)
    ok (
        scv_map (
          (scv_symbol "new_amount", new_amount)
          ∷ (scv_symbol "new_end_time", new_end_time)
          ∷ (scv_symbol "new_interval_secs", new_interval_secs)
          ∷ (scv_symbol "schedule_id", schedule_id)
          ∷ []))

  abbrev owner_weight_to_sc_val : OwnerWeight → Result ScVal
  owner_weight_to_sc_val w = do
    owner ← address_to_sc_val w.owner
    ok (scv_map ((scv_symbol "owner", owner) ∷ (scv_symbol "weight", scv_u32 w.weight) ∷ []))

  abbrev pub owner_weights_to_sc_val : List OwnerWeight → Result ScVal
  owner_weights_to_sc_val ws = do vals ← traverse owner_weight_to_sc_val ws; ok (scv_vec vals)
