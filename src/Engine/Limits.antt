-- ===== src/Engine/Limits.antt =====
-- packages/core/src/engine/evaluate.ts: transaction and cumulative limits, step-up thresholds.
use waysafe.Prelude.{
  ℕ, suc, ◌+◌, Bool, false, Option, none, some, List, [], ◌∷◌, ◌++◌, ltb, leb, if◌then◌else◌,
}
use waysafe.Prelude.Int.{ℤ, pos, ◌+ℤ◌, ltb_ℤ, leb_ℤ}
use waysafe.Reason.{ReasonCode, PolicyPath, Reason}
use waysafe.Policy.{Policy, CumulativeLimit, CumulativeThreshold, StepUpRules, ProposedAction}
use waysafe.Engine.Types.{SpendSnapshot, window_spend}
use waysafe.Engine.Window.{denied}

-- `max !== undefined && amount > max`
abbrev pub exceeds : Option ℕ → ℕ → Bool
exceeds none n = false
exceeds (some m) n = ltb m n

-- `window.amount + action.amount`
abbrev pub projected : SpendSnapshot → CumulativeLimit → ℕ → ℤ
projected spend limit amount = (window_spend spend limit.window).amount +ℤ pos amount

unfoldable pub amount_reasons : SpendSnapshot → ℕ → ℕ → CumulativeLimit → List Reason
amount_reasons spend amount i limit =
    if ltb_ℤ (pos limit.max_amount) (projected spend limit amount)
    then denied ReasonCode.deny_cumulative_limit_exceeded (PolicyPath.cumulative_limit i)
    else []

unfoldable pub count_reasons : SpendSnapshot → ℕ → CumulativeLimit → List Reason
count_reasons spend i limit =
    if exceeds limit.max_count ((window_spend spend limit.window).count + 1)
    then denied ReasonCode.deny_velocity_limit_exceeded (PolicyPath.cumulative_limit_max_count i)
    else []

-- The loop from index `i` on.
unfoldable pub limit_reasons : SpendSnapshot → ℕ → ℕ → List CumulativeLimit → List Reason
limit_reasons spend amount i [] = []
limit_reasons spend amount i (limit ∷ limits) =
    amount_reasons spend amount i limit
    ++ (count_reasons spend i limit ++ limit_reasons spend amount (suc i) limits)

unfoldable pub transaction_reasons : Policy → ProposedAction → List Reason
transaction_reasons policy action =
    if exceeds policy.per_transaction_max action.amount
    then denied ReasonCode.deny_transaction_limit_exceeded PolicyPath.per_transaction_max
    else []

unfoldable pub evaluate_limits : Policy → ProposedAction → SpendSnapshot → List Reason
unfolding limit_reasons transaction_reasons
evaluate_limits policy action spend =
    transaction_reasons policy action
    ++ limit_reasons spend action.amount 0 policy.cumulative_limits

-- `threshold !== undefined && amount >= threshold`
abbrev pub reaches : Option ℕ → ℕ → Bool
reaches none n = false
reaches (some t) n = leb t n

abbrev pub reaches_cumulative : Option CumulativeThreshold → SpendSnapshot → ℕ → Bool
reaches_cumulative none spend amount = false
reaches_cumulative (some t) spend amount =
    leb_ℤ (pos t.amount) ((window_spend spend t.window).amount +ℤ pos amount)

-- The reason of each threshold.
unfoldable pub above_amount_reasons : StepUpRules → ProposedAction → List Reason
above_amount_reasons rules action =
    if reaches rules.above_amount action.amount
    then denied ReasonCode.step_up_amount_threshold PolicyPath.above_amount
    else []

unfoldable pub above_cumulative_reasons : StepUpRules → ProposedAction → SpendSnapshot → List Reason
above_cumulative_reasons rules action spend =
    if reaches_cumulative rules.above_cumulative spend action.amount
    then denied ReasonCode.step_up_cumulative_threshold PolicyPath.above_cumulative
    else []

unfoldable pub evaluate_step_up_thresholds :
    StepUpRules → ProposedAction → SpendSnapshot → List Reason
unfolding above_amount_reasons above_cumulative_reasons
evaluate_step_up_thresholds rules action spend =
    above_amount_reasons rules action ++ above_cumulative_reasons rules action spend
