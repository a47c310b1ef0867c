-- ===== src/Policy.antt =====
-- packages/core/src/policy.ts and domain.ts: the policy, its rules, and the proposed action.
-- Amounts are minor units. A constraint's numbers are integers. `expires_at` is the instant that
-- `new Date(policy.expires_at).getTime()` gives, `none` where that is NaN.
use waysafe.Prelude.{ℕ, Bool, Option, List, Text}
use waysafe.Prelude.Int.{ℤ}
use waysafe.Merchant.Types.{MerchantRef, MerchantAssertion}

pub data UnlistedDisposition : Type 0 where
  allow deny step_up : UnlistedDisposition

pub data LimitWindow : Type 0 where
  day week month mandate : LimitWindow

pub record CumulativeLimit : Type 0 where
  pub window : LimitWindow
  pub max_amount : ℕ
  pub max_count : Option ℕ

pub data Basis : Type 0 where
  authorization settlement : Basis

pub record Accounting : Type 0 where
  pub timezone : Text
  pub basis : Basis
  pub reserve_on_step_up : Bool
  pub refunds_credit_budget : Bool

-- "HH:MM" texts.
pub record TimeWindow : Type 0 where
  pub days_of_week : Option (List ℕ)
  pub start_time : Option Text
  pub end_time : Option Text

pub record MerchantRules : Type 0 where
  pub allow : List MerchantRef
  pub deny : List MerchantRef
  pub unlisted : UnlistedDisposition
  pub step_up_on_first_use : Bool

pub record CategoryRules : Type 0 where
  pub allow : List Text
  pub deny : List Text
  pub deny_mcc : List Text
  pub unlisted : UnlistedDisposition

pub record CumulativeThreshold : Type 0 where
  pub window : LimitWindow
  pub amount : ℕ

pub record StepUpRules : Type 0 where
  pub above_amount : Option ℕ
  pub above_cumulative : Option CumulativeThreshold
  pub ttl_seconds : ℕ

pub data Operator : Type 0 where
  equals not_equals lte gte is_in not_in : Operator

-- A string, number or boolean.
pub data Scalar : Type 0 where
  string : Text → Scalar
  number : ℤ → Scalar
  boolean : Bool → Scalar

-- A constraint's value: a scalar, or an array of strings and numbers.
pub data ConstraintValue : Type 0 where
  scalar : Scalar → ConstraintValue
  array : List Scalar → ConstraintValue

pub record Constraint : Type 0 where
  pub key : Text
  pub operator : Operator
  pub value : ConstraintValue
  pub required : Bool

-- `approvers` are mandate ids; a policy without an escalation has none.
pub record Escalation : Type 0 where
  pub approvers : List Text

-- The accepted currencies (money.ts); `other` stands for what the schema would refuse.
pub data Currency : Type 0 where
  usd : Currency
  other : Text → Currency

pub record Policy : Type 0 where
  pub currency : Currency
  pub per_transaction_max : Option ℕ
  pub cumulative_limits : List CumulativeLimit
  pub merchants : MerchantRules
  pub categories : CategoryRules
  pub step_up : StepUpRules
  pub escalation : Escalation
  pub accounting : Accounting
  pub time_window : Option TimeWindow
  pub constraints : List Constraint
  pub expires_at : Option ℕ

-- `attestations[key]` is looked up in an association list.
pub record ProposedAction : Type 0 where
  pub amount : ℕ
  pub currency : Currency
  pub merchant : MerchantAssertion
  pub category : Option Text
  pub description : Option Text
  pub attestations : List (Text × Scalar)
  pub payment_method_ref : Option Text
