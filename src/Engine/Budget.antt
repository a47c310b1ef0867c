-- ===== src/Engine/Budget.antt =====
-- packages/core/src/engine/evaluate.ts: limits and thresholds against the specification.
use waysafe.Prelude.{
  ℕ, suc, ◌+◌, ◌≡◌, refl, ◌↔◌, false, Option, none, some, List, [], ◌∷◌, ◌++◌, arith, All,
  All-append, append-eq-nil,
}
use waysafe.Prelude.Int.{ℤ, pos, ◌+ℤ◌, ◌≤ℤ◌, ltb_ℤ}
use waysafe.Reason.{Reason, decision_for_reason_code}
use waysafe.Policy.{Policy, CumulativeLimit, CumulativeThreshold, StepUpRules, ProposedAction}
use waysafe.Engine.Types.{SpendSnapshot, window_spend}
use waysafe.Engine.Limits.{
  exceeds, projected, amount_reasons, count_reasons, limit_reasons, transaction_reasons,
  evaluate_limits, reaches, reaches_cumulative, above_amount_reasons, above_cumulative_reasons,
  evaluate_step_up_thresholds,
}
use waysafe.Engine.Spec.{UpTo, Below, LimitKept, BelowCumulative}
use waysafe.Engine.Timing.{
  IsDeny, IsStepUp, OnlyDenies, OnlyDenies-append, when-nil_iff, when-All, iff_trans,
}

-- `and` of two halves of a concatenation.
pub append-nil_iff :
    {P Q : Type 0} (xs ys : List Reason) → (xs ≡ []) ↔ P → (ys ≡ []) ↔ Q → (xs ++ ys ≡ []) ↔ (P × Q)
append-nil_iff xs ys p q =
    (λ e. let (a, b) = append-eq-nil xs ys e in (p.0 a, q.0 b), λ h. rw (p.1 h.0, q.1 h.1) refl)

exceeds_iff : (m : Option ℕ) (n : ℕ) → (exceeds m n ≡ false) ↔ UpTo m n
exceeds_iff none n = ((λ h. tt), λ h. refl)
exceeds_iff (some m) n = ground arith

ltb_ℤ_iff : (a b : ℤ) → (ltb_ℤ a b ≡ false) ↔ (b ≤ℤ a)
ltb_ℤ_iff a b = ground arith

module _ (spend : SpendSnapshot) (amount i : ℕ) (l : CumulativeLimit) where
  amount_reasons-nil_iff :
      (amount_reasons spend amount i l ≡ [])
      ↔ ((window_spend spend l.window).amount +ℤ pos amount ≤ℤ pos l.max_amount)
  unfolding amount_reasons
  amount_reasons-nil_iff =
      iff_trans (when-nil_iff _ _ _) (ltb_ℤ_iff (pos l.max_amount) (projected spend l amount))

  amount_reasons-OnlyDenies : OnlyDenies (amount_reasons spend amount i l)
  unfolding amount_reasons decision_for_reason_code
  amount_reasons-OnlyDenies = when-All _ _ _ IsDeny refl

module _ (spend : SpendSnapshot) (i : ℕ) (l : CumulativeLimit) where
  count_reasons-nil_iff :
      (count_reasons spend i l ≡ []) ↔ UpTo l.max_count ((window_spend spend l.window).count + 1)
  unfolding count_reasons
  count_reasons-nil_iff = iff_trans (when-nil_iff _ _ _) (exceeds_iff l.max_count _)

  count_reasons-OnlyDenies : OnlyDenies (count_reasons spend i l)
  unfolding count_reasons decision_for_reason_code
  count_reasons-OnlyDenies = when-All _ _ _ IsDeny refl

module _ (spend : SpendSnapshot) (amount : ℕ) where
  limit_reasons-nil_iff :
      (i : ℕ) (limits : List CumulativeLimit)
      → (limit_reasons spend amount i limits ≡ []) ↔ All (LimitKept spend amount) limits
  unfolding limit_reasons
  limit_reasons-nil_iff i [] = ((λ h. tt), λ h. refl)
  limit_reasons-nil_iff i (l ∷ limits) =
      let rest =
        append-nil_iff _ _ (count_reasons-nil_iff spend i l)
          (limit_reasons-nil_iff (suc i) limits) in
      let whole = append-nil_iff _ _ (amount_reasons-nil_iff spend amount i l) rest in
      ((λ e. let h = whole.0 e in ((h.0, h.1.0), h.1.1)), λ h. whole.1 (h.0.0, (h.0.1, h.1)))

  limit_reasons-OnlyDenies :
      (i : ℕ) (limits : List CumulativeLimit) → OnlyDenies (limit_reasons spend amount i limits)
  unfolding limit_reasons
  limit_reasons-OnlyDenies i [] = tt
  limit_reasons-OnlyDenies i (l ∷ limits) =
      OnlyDenies-append (amount_reasons spend amount i l) _
        (amount_reasons-OnlyDenies spend amount i l)
        (OnlyDenies-append (count_reasons spend i l) _ (count_reasons-OnlyDenies spend i l)
          (limit_reasons-OnlyDenies (suc i) limits))

module _ (policy : Policy) (action : ProposedAction) where
  transaction_reasons-nil_iff :
      (transaction_reasons policy action ≡ []) ↔ UpTo policy.per_transaction_max action.amount
  unfolding transaction_reasons
  transaction_reasons-nil_iff =
      iff_trans (when-nil_iff _ _ _) (exceeds_iff policy.per_transaction_max _)

  transaction_reasons-OnlyDenies : OnlyDenies (transaction_reasons policy action)
  unfolding transaction_reasons decision_for_reason_code
  transaction_reasons-OnlyDenies = when-All _ _ _ IsDeny refl

-- No limit reason exactly when the ceiling and every cumulative limit are kept.
pub evaluate_limits-nil_iff :
    (policy : Policy) (action : ProposedAction) (spend : SpendSnapshot)
    → (evaluate_limits policy action spend ≡ []) ↔ (
        UpTo policy.per_transaction_max action.amount
        × All (LimitKept spend action.amount) policy.cumulative_limits)
unfolding evaluate_limits
evaluate_limits-nil_iff policy action spend =
    append-nil_iff _ _ (transaction_reasons-nil_iff policy action)
      (limit_reasons-nil_iff spend action.amount 0 policy.cumulative_limits)

pub evaluate_limits-OnlyDenies :
    (policy : Policy) (action : ProposedAction) (spend : SpendSnapshot)
    → OnlyDenies (evaluate_limits policy action spend)
unfolding evaluate_limits
evaluate_limits-OnlyDenies policy action spend =
    OnlyDenies-append (transaction_reasons policy action) _
      (transaction_reasons-OnlyDenies policy action)
      (limit_reasons-OnlyDenies spend action.amount 0 policy.cumulative_limits)

reaches_iff : (t : Option ℕ) (n : ℕ) → (reaches t n ≡ false) ↔ Below t n
reaches_iff none n = ((λ h. tt), λ h. refl)
reaches_iff (some t) n = ground arith

reaches_cumulative_iff :
    (t : Option CumulativeThreshold) (spend : SpendSnapshot) (amount : ℕ)
    → (reaches_cumulative t spend amount ≡ false) ↔ BelowCumulative t spend amount
reaches_cumulative_iff none spend amount = ((λ h. tt), λ h. refl)
reaches_cumulative_iff (some t) spend amount = ground arith

module _ (rules : StepUpRules) (action : ProposedAction) (spend : SpendSnapshot) where
  above_amount-nil_iff :
      (above_amount_reasons rules action ≡ []) ↔ Below rules.above_amount action.amount
  unfolding above_amount_reasons
  above_amount-nil_iff = iff_trans (when-nil_iff _ _ _) (reaches_iff rules.above_amount _)

  above_cumulative-nil_iff :
      (above_cumulative_reasons rules action spend ≡ [])
      ↔ BelowCumulative rules.above_cumulative spend action.amount
  unfolding above_cumulative_reasons
  above_cumulative-nil_iff =
      iff_trans (when-nil_iff _ _ _)
        (reaches_cumulative_iff rules.above_cumulative spend action.amount)

  -- No threshold reason exactly below both thresholds.
  pub thresholds-nil_iff : (evaluate_step_up_thresholds rules action spend ≡ []) ↔ (
      Below rules.above_amount action.amount
      × BelowCumulative rules.above_cumulative spend action.amount)
  unfolding evaluate_step_up_thresholds
  thresholds-nil_iff = append-nil_iff _ _ above_amount-nil_iff above_cumulative-nil_iff

  above_amount-IsStepUp : All IsStepUp (above_amount_reasons rules action)
  unfolding above_amount_reasons decision_for_reason_code
  above_amount-IsStepUp = when-All _ _ _ IsStepUp refl

  above_cumulative-IsStepUp : All IsStepUp (above_cumulative_reasons rules action spend)
  unfolding above_cumulative_reasons decision_for_reason_code
  above_cumulative-IsStepUp = when-All _ _ _ IsStepUp refl

  pub thresholds-IsStepUp : All IsStepUp (evaluate_step_up_thresholds rules action spend)
  unfolding evaluate_step_up_thresholds
  thresholds-IsStepUp =
      All-append IsStepUp (above_amount_reasons rules action) _ above_amount-IsStepUp
        above_cumulative-IsStepUp
