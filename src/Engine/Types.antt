-- ===== src/Engine/Types.antt =====
-- packages/core/src/engine/types.ts: the engine's inputs and outputs.
use waysafe.Prelude.{ℕ, List, [], Text}
use waysafe.Prelude.Int.{ℤ, pos}
use waysafe.Policy.{Policy, ProposedAction, LimitWindow}
use waysafe.Merchant.Types.{ResolvedMerchant}
use waysafe.Reason.{Decision, Reason}

-- `amount` is a sum of signed ledger entries.
pub record WindowSpend : Type 0 where
  pub amount : ℤ
  pub count : ℕ

-- `seen_merchants` holds merchant reference keys.
pub record SpendSnapshot : Type 0 where
  pub day : WindowSpend
  pub week : WindowSpend
  pub month : WindowSpend
  pub mandate : WindowSpend
  pub seen_merchants : List Text

abbrev zero_window : WindowSpend
zero_window = record { amount = pos 0; count = 0 }

abbrev pub empty_spend_snapshot : SpendSnapshot
empty_spend_snapshot = record {
  day = zero_window;
  week = zero_window;
  month = zero_window;
  mandate = zero_window;
  seen_merchants = [];
}

abbrev pub window_spend : SpendSnapshot → LimitWindow → WindowSpend
window_spend s LimitWindow.day = s.day
window_spend s LimitWindow.week = s.week
window_spend s LimitWindow.month = s.month
window_spend s LimitWindow.mandate = s.mandate

-- `now` is in milliseconds since the epoch.
pub record EngineInput : Type 0 where
  pub policy : Policy
  pub action : ProposedAction
  pub merchant : ResolvedMerchant
  pub spend : SpendSnapshot
  pub now : ℕ

pub record EngineResult : Type 0 where
  pub decision : Decision
  pub reasons : List Reason
