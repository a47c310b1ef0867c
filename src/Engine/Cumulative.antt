-- ===== src/Engine/Cumulative.antt =====
-- packages/core/src/engine/evaluate.ts: a result without a cumulative denial.
use waysafe.Prelude.{
  ℕ, suc, ◌≡◌, ◌≢◌, refl, inl, inr, Bool, true, false, List, [], ◌∷◌, ◌++◌, arith, filter, is_empty,
  is_empty_iff, All, All-append_iff, filter-eq-nil, Bool-cases,
}
use waysafe.Prelude.Int.{ℤ, pos, ◌+ℤ◌, ◌≤ℤ◌, ltb_ℤ}
use waysafe.Reason.{Decision, ReasonCode, Reason, decision_for_reason_code}
use waysafe.Policy.{CumulativeLimit}
use waysafe.Time.{Formatter}
use waysafe.Engine.Types.{EngineInput, SpendSnapshot, window_spend}
use waysafe.Engine.Evaluate.{evaluate, combine, all_reasons, has_decision}
use waysafe.Engine.Combine.{decision_eq_iff}
use waysafe.Engine.Limits.{
  amount_reasons, count_reasons, limit_reasons, evaluate_limits, projected, transaction_reasons,
  evaluate_step_up_thresholds,
}
use waysafe.Engine.Window.{evaluate_expiry, evaluate_currency, evaluate_time_window}
use waysafe.Engine.Checks.{evaluate_merchant, evaluate_category, evaluate_constraints}

abbrev pub is_cumulative : ReasonCode → Bool
is_cumulative ReasonCode.deny_cumulative_limit_exceeded = true
is_cumulative _ = false

-- The reason is not the cumulative denial.
abbrev pub NotCumulative : Reason → Type 0
NotCumulative r = is_cumulative r.code ≡ false

cumulative_deny :
    (c : ReasonCode) → is_cumulative c ≡ true → decision_for_reason_code c ≡ Decision.deny
unfolding decision_for_reason_code
cumulative_deny ReasonCode.deny_cumulative_limit_exceeded h = refl
cumulative_deny _ h = cc

not_deny-NotCumulative :
    (r : Reason) → decision_for_reason_code r.code ≢ Decision.deny → NotCumulative r
not_deny-NotCumulative r h = elim (Bool-cases (is_cumulative r.code)) [
  | inl e ↦ absurd (h (cumulative_deny r.code e))
  | inr e ↦ e
]

denies_suffice :
    (rs : List Reason)
    → All NotCumulative (filter (has_decision Decision.deny) rs)
    → All NotCumulative rs
unfolding has_decision
denies_suffice [] h = tt
denies_suffice (r ∷ rs) h = elim (Bool-cases (has_decision Decision.deny r)) [
  | inl e ↦ let k = rw e at h in (k.0, denies_suffice rs k.1)
  | inr e ↦ (
    not_deny-NotCumulative r (λ q.
        let bad = (decision_eq_iff (decision_for_reason_code r.code) Decision.deny).1 q in cc),
    denies_suffice rs (rw e at h),
  )
]

combine-NotCumulative :
    (rs : List Reason) → All NotCumulative (combine rs).reasons → All NotCumulative rs
unfolding combine
combine-NotCumulative rs h = elim (Bool-cases (is_empty (filter (has_decision Decision.deny) rs))) [
  | inr e ↦ denies_suffice rs (rw (e, combine) at h)
  | inl e ↦ denies_suffice rs (rw ((is_empty_iff (filter (has_decision Decision.deny) rs)).0 e) tt)
]

ltb_ℤ-le : (a b : ℤ) → ltb_ℤ a b ≡ false → b ≤ℤ a
ltb_ℤ-le a b h = ground arith

module _ (spend : SpendSnapshot) (amount : ℕ) where
  amount-kept :
      (i : ℕ) (l : CumulativeLimit)
      → All NotCumulative (amount_reasons spend amount i l)
      → (window_spend spend l.window).amount +ℤ pos amount ≤ℤ pos l.max_amount
  unfolding amount_reasons
  amount-kept i l h = elim (Bool-cases (ltb_ℤ (pos l.max_amount) (projected spend l amount))) [
    | inl e ↦ let k = rw e at h in absurd (let bad = k.0 in cc)
    | inr e ↦ ltb_ℤ-le (pos l.max_amount) (projected spend l amount) e
  ]

  limits-kept :
      (i : ℕ) (ls : List CumulativeLimit)
      → All NotCumulative (limit_reasons spend amount i ls)
      → All (λ l. (window_spend spend l.window).amount +ℤ pos amount ≤ℤ pos l.max_amount) ls
  unfolding limit_reasons
  limits-kept i [] h = tt
  limits-kept i (l ∷ ls) h =
      let a = (All-append_iff NotCumulative (amount_reasons spend amount i l) _).0 h in
      let b = (All-append_iff NotCumulative (count_reasons spend i l) _).0 a.1 in
      (amount-kept i l a.0, limits-kept (suc i) ls b.1)

rest : (xs ys : List Reason) → All NotCumulative (xs ++ ys) → All NotCumulative ys
rest xs ys h = ((All-append_iff NotCumulative xs ys).0 h).1

-- Where the engine gives no cumulative denial, whatever else it says, the amount fits every cumulative limit.
pub evaluate-limits :
    (intl : Formatter) (input : EngineInput)
    → is_empty (filter (λ (r : Reason). is_cumulative r.code) (evaluate intl input).reasons) ≡ true
    → All
        (λ (l : CumulativeLimit).
          (window_spend input.spend l.window).amount +ℤ pos input.action.amount ≤ℤ pos l.max_amount)
        input.policy.cumulative_limits
unfolding evaluate all_reasons evaluate_limits
evaluate-limits intl input h =
    let none_left =
      (is_empty_iff (filter (λ (r : Reason). is_cumulative r.code) (evaluate intl input).reasons)).0
        h in
    let c =
      filter-eq-nil (λ (r : Reason). is_cumulative r.code) (evaluate intl input).reasons
        none_left in
    let p = input.policy in
    let l7 = evaluate_step_up_thresholds p.step_up input.action input.spend in
    let l6 = evaluate_limits p input.action input.spend ++ l7 in
    let x5 = evaluate_constraints p.constraints input.action in
    let x4 = evaluate_category p.categories input.action input.merchant in
    let x3 = evaluate_merchant p.merchants input.merchant input.spend in
    let x2 = evaluate_time_window intl p.time_window p.accounting.timezone input.now in
    let x1 = evaluate_currency p input.action in
    let x0 = evaluate_expiry p input.now in
    let l5 = x5 ++ l6 in
    let l4 = x4 ++ l5 in
    let l3 = x3 ++ l4 in
    let l2 = x2 ++ l3 in
    let a = combine-NotCumulative (x0 ++ (x1 ++ l2)) c in
    let b = rest x1 l2 (rest x0 (x1 ++ l2) a) in
    let d = rest x5 l6 (rest x4 l5 (rest x3 l4 (rest x2 l3 b))) in
    let limits = limit_reasons input.spend input.action.amount 0 p.cumulative_limits in
    let k =
      (All-append_iff NotCumulative (transaction_reasons p input.action) limits).0
        ((All-append_iff NotCumulative (evaluate_limits p input.action input.spend) l7).0 d).0 in
    limits-kept input.spend input.action.amount 0 p.cumulative_limits k.1
