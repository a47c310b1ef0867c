-- ===== src/Engine/Evaluate.antt =====
-- packages/core/src/engine/evaluate.ts: `evaluate`, one rule over all dimensions:
-- DENY > STEP_UP > ALLOW.
use waysafe.Prelude.{Bool, none, List, [], ◌∷◌, ◌++◌, if◌then◌else◌, filter, is_empty}
use waysafe.Reason.{Decision, ReasonCode, Reason, decision_for_reason_code, decision_eq}
use waysafe.Time.{Formatter}
use waysafe.Engine.Types.{EngineInput, EngineResult}
use waysafe.Engine.Window.{evaluate_expiry, evaluate_currency, evaluate_time_window}
use waysafe.Engine.Checks.{evaluate_merchant, evaluate_category, evaluate_constraints}
use waysafe.Engine.Limits.{evaluate_limits, evaluate_step_up_thresholds}

-- `decisionForReasonCode(r.code) === d`
unfoldable pub has_decision : Decision → Reason → Bool
has_decision d r = decision_eq (decision_for_reason_code r.code) d

abbrev pub allow_reason : Reason
allow_reason = record { code = ReasonCode.allow_within_mandate; policy_path = none }

-- The reasons of all dimensions, in evaluation order.
unfoldable pub all_reasons : Formatter → EngineInput → List Reason
all_reasons intl input =
    evaluate_expiry input.policy input.now
    ++ (evaluate_currency input.policy input.action
        ++ (evaluate_time_window intl input.policy.time_window input.policy.accounting.timezone
              input.now
            ++ (evaluate_merchant input.policy.merchants input.merchant input.spend
                ++ (evaluate_category input.policy.categories input.action input.merchant
                    ++ (evaluate_constraints input.policy.constraints input.action
                        ++ (evaluate_limits input.policy input.action input.spend
                            ++ evaluate_step_up_thresholds input.policy.step_up input.action
                                input.spend))))))

-- Only the reasons of the winning tier are kept.
unfoldable pub combine : List Reason → EngineResult
combine reasons =
    let denies = filter (has_decision Decision.deny) reasons in
    let step_ups = filter (has_decision Decision.step_up) reasons in
    if is_empty denies
    then (if is_empty step_ups
        then record { decision = Decision.allow; reasons = allow_reason ∷ [] }
        else record { decision = Decision.step_up; reasons = step_ups })
    else record { decision = Decision.deny; reasons = denies }

unfoldable pub evaluate : Formatter → EngineInput → EngineResult
unfolding combine all_reasons
evaluate intl input = combine (all_reasons intl input)
