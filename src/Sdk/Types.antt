-- ===== src/Sdk/Types.antt =====
-- packages/sdk/src/types.ts: the arguments of the state-changing methods.
use accord_protocol.Prelude.{ℕ, String, Option, List}
use accord_protocol.Prelude.Int.{ℤ}
use accord_protocol.Prelude.Number.{Number}
use accord_protocol.Prelude.Text.{Text}

pub data Role : Type 0 where
  proposer approver executor viewer : Role

pub data ProposalCategory : Type 0 where
  transfer payroll grant ops other : ProposalCategory

pub data RecurringKind : Type 0 where
  fixed_amount_per_period linear_vesting : RecurringKind

-- The texts that stand for them.
abbrev pub role_text : Role → String
role_text proposer = "Proposer"
role_text approver = "Approver"
role_text executor = "Executor"
role_text viewer = "Viewer"

abbrev pub category_text : ProposalCategory → String
category_text transfer = "Transfer"
category_text payroll = "Payroll"
category_text grant = "Grant"
category_text ops = "Ops"
category_text other = "Other"

abbrev pub recurring_kind_text : RecurringKind → String
recurring_kind_text fixed_amount_per_period = "FixedAmountPerPeriod"
recurring_kind_text linear_vesting = "LinearVesting"

pub record Transfer : Type 0 where
  pub to : String
  pub token : String
  pub amount : ℤ

pub data AssetReference : Type 0 where
  address classic : String → AssetReference

pub record AssetTransfer : Type 0 where
  pub to : String
  pub asset : AssetReference
  pub amount : ℤ

pub record OwnerWeight : Type 0 where
  pub owner : String
  pub weight : Number

pub record CreateRecurringParams : Type 0 where
  pub recipient : String
  pub token : String
  pub amount : ℤ
  pub interval_secs : ℤ
  pub start_time : ℤ
  pub end_time : ℤ
  pub cliff_time : ℤ
  pub total_cap : ℤ
  pub kind : RecurringKind

-- `undefined` and `null` are both `none`: the encoder treats them alike.
pub record ModifyRecurringParams : Type 0 where
  pub schedule_id : ℤ
  pub new_amount : Option ℤ
  pub new_interval_secs : Option ℤ
  pub new_end_time : Option ℤ

-- `bigint | number`.
pub data Integer : Type 0 where
  big : ℤ → Integer
  num : Number → Integer

-- `string | Uint8Array`.
pub data Hash : Type 0 where
  hex : Text → Hash
  bytes : List ℕ → Hash
