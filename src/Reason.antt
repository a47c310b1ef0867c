-- ===== src/Reason.antt =====
-- packages/core/src/reason-codes.ts: decisions, reason codes and the decision of each code.
-- A reason keeps its code and the policy field that produced it; the prose (`message`) and the
-- free-form `detail` are display data and are left out.
use waysafe.Prelude.{ℕ, Bool, true, false, Option}

pub data Decision : Type 0 where
  allow deny step_up : Decision

-- The codes that the modelled parts produce, and the rest of the public list.
pub data ReasonCode : Type 0 where
  allow_within_mandate : ReasonCode
  deny_no_active_mandate deny_mandate_expired deny_mandate_revoked deny_step_up_expired : ReasonCode
  deny_resource_url_not_permitted deny_decision_not_recorded : ReasonCode
  deny_settled_without_authorization deny_settled_above_authorization : ReasonCode
  deny_mandate_superseded deny_mandate_not_authenticated : ReasonCode
  deny_agent_not_bound deny_agent_suspended deny_principal_mismatch : ReasonCode
  deny_currency_not_permitted deny_transaction_limit_exceeded : ReasonCode
  deny_cumulative_limit_exceeded deny_velocity_limit_exceeded deny_merchant_blocked : ReasonCode
  deny_merchant_not_allowlisted deny_category_blocked deny_category_not_allowlisted : ReasonCode
  deny_outside_time_window deny_constraint_not_satisfied deny_merchant_unresolved : ReasonCode
  deny_asset_not_in_registry deny_asset_decimals_mismatch deny_asset_unspecified : ReasonCode
  deny_step_up_self_approval deny_mandate_not_an_approver deny_approver_would_escalate : ReasonCode
  deny_approver_cycle : ReasonCode
  step_up_amount_threshold step_up_cumulative_threshold step_up_merchant_not_allowlisted :
      ReasonCode
  step_up_category_not_allowlisted step_up_merchant_unverified step_up_first_time_merchant :
      ReasonCode
  step_up_mandate_requires_reauth : ReasonCode

-- The prefix of the code's name decides.
unfoldable pub decision_for_reason_code : ReasonCode → Decision
decision_for_reason_code allow_within_mandate = allow
decision_for_reason_code step_up_amount_threshold = step_up
decision_for_reason_code step_up_cumulative_threshold = step_up
decision_for_reason_code step_up_merchant_not_allowlisted = step_up
decision_for_reason_code step_up_category_not_allowlisted = step_up
decision_for_reason_code step_up_merchant_unverified = step_up
decision_for_reason_code step_up_first_time_merchant = step_up
decision_for_reason_code step_up_mandate_requires_reauth = step_up
decision_for_reason_code _ = deny

-- The JSON pointers that reasons and policy issues carry.
pub data PolicyPath : Type 0 where
  expires_at currency time_window days_of_week start_time end_time : PolicyPath
  merchants merchants_allow merchants_deny merchants_unlisted step_up_on_first_use : PolicyPath
  categories categories_deny_mcc categories_deny categories_unlisted : PolicyPath
  per_transaction_max cumulative_limits above_amount above_cumulative : PolicyPath
  constraint cumulative_limit cumulative_limit_max_count : ℕ → PolicyPath
  cumulative_limit_max_amount merchants_allow_entry : ℕ → PolicyPath

pub record Reason : Type 0 where
  pub code : ReasonCode
  pub policy_path : Option PolicyPath

-- `===` on decisions.
abbrev pub decision_eq : Decision → Decision → Bool
decision_eq allow allow = true
decision_eq deny deny = true
decision_eq step_up step_up = true
decision_eq allow deny = false
decision_eq allow step_up = false
decision_eq deny allow = false
decision_eq deny step_up = false
decision_eq step_up allow = false
decision_eq step_up deny = false
