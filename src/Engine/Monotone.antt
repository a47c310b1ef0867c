-- ===== src/Engine/Monotone.antt =====
-- packages/core/src/engine/evaluate.ts: a larger amount never gets a softer decision.
use waysafe.Prelude.{ℕ, ◌≤◌, ◌≡◌, refl, ◌≢◌, Option, none, some, arith, All-map}
use waysafe.Prelude.Int.{int_laws}
use waysafe.Reason.{Decision}
use waysafe.Time.{Formatter}
use waysafe.Policy.{CumulativeLimit, CumulativeThreshold}
use waysafe.Engine.Types.{SpendSnapshot, EngineInput}
use waysafe.Engine.Evaluate.{evaluate}
use waysafe.Engine.Spec.{Permits, Tolerates, UpTo, Below, LimitKept, BelowCumulative}
use waysafe.Engine.Verdict.{evaluate-allow_iff, evaluate-not-deny_iff}

-- The same question about another amount.
abbrev pub with_amount : EngineInput → ℕ → EngineInput
with_amount input n = record input { action = record (input.action) { amount = n } }

-- ALLOW, STEP_UP, DENY, from the softest to the hardest.
abbrev pub severity : Decision → ℕ
severity Decision.allow = 0
severity Decision.step_up = 1
severity Decision.deny = 2

module _ {a b : ℕ} (le : a ≤ b) where
  UpTo-le : (m : Option ℕ) → UpTo m b → UpTo m a
  UpTo-le none h = tt
  UpTo-le (some m) h = omega arith

  Below-le : (m : Option ℕ) → Below m b → Below m a
  Below-le none h = tt
  Below-le (some m) h = omega arith

  LimitKept-le :
      (spend : SpendSnapshot) (l : CumulativeLimit) → LimitKept spend b l → LimitKept spend a l
  LimitKept-le spend l h = (omega int_laws, h.1)

  BelowCumulative-le :
      (t : Option CumulativeThreshold) (spend : SpendSnapshot)
      → BelowCumulative t spend b
      → BelowCumulative t spend a
  BelowCumulative-le none spend h = tt
  BelowCumulative-le (some t) spend h = λ k. h (omega int_laws)

module _ (intl : Formatter) (input : EngineInput) {a b : ℕ} (le : a ≤ b) where
  Tolerates-le : Tolerates intl (with_amount input b) → Tolerates intl (with_amount input a)
  Tolerates-le t = record {
    live = t.live;
    currency = t.currency;
    in_time = t.in_time;
    known = t.known;
    not_blocked = t.not_blocked;
    listed = t.listed;
    mcc = t.mcc;
    category = t.category;
    constraints = t.constraints;
    amount = UpTo-le le input.policy.per_transaction_max t.amount;
    limits = All-map (LimitKept-le le input.spend) input.policy.cumulative_limits t.limits;
  }

  Permits-le : Permits intl (with_amount input b) → Permits intl (with_amount input a)
  Permits-le t = record {
    live = t.live;
    currency = t.currency;
    in_time = t.in_time;
    known = t.known;
    not_blocked = t.not_blocked;
    listed = t.listed;
    first_use = t.first_use;
    mcc = t.mcc;
    category = t.category;
    constraints = t.constraints;
    amount = UpTo-le le input.policy.per_transaction_max t.amount;
    limits = All-map (LimitKept-le le input.spend) input.policy.cumulative_limits t.limits;
    below_amount = Below-le le input.policy.step_up.above_amount t.below_amount;
    below_cumulative =
        BelowCumulative-le le input.policy.step_up.above_cumulative input.spend t.below_cumulative;
  }

-- Two decisions of which the softer tiers carry over from the second to the first.
severity-le :
    (x y : Decision)
    → (y ≡ Decision.allow → x ≡ Decision.allow)
    → (y ≢ Decision.deny → x ≢ Decision.deny)
    → severity x ≤ severity y
severity-le Decision.allow y f g = omega arith
severity-le Decision.step_up Decision.allow f g = let k = f refl in cc
severity-le Decision.step_up Decision.step_up f g = omega arith
severity-le Decision.step_up Decision.deny f g = omega arith
severity-le Decision.deny Decision.allow f g = let k = f refl in cc
severity-le Decision.deny Decision.step_up f g = absurd (g (λ e. cc) refl)
severity-le Decision.deny Decision.deny f g = omega arith

-- With everything else the same, a smaller amount never gets a harder decision than a larger one.
pub evaluate_mono_amount :
    (intl : Formatter) (input : EngineInput) (a b : ℕ)
    → a ≤ b
    → severity (evaluate intl (with_amount input a)).decision
      ≤ severity (evaluate intl (with_amount input b)).decision
evaluate_mono_amount intl input a b le =
    let allow_a = evaluate-allow_iff intl (with_amount input a) in
    let allow_b = evaluate-allow_iff intl (with_amount input b) in
    let deny_a = evaluate-not-deny_iff intl (with_amount input a) in
    let deny_b = evaluate-not-deny_iff intl (with_amount input b) in
    severity-le _ _ (λ e. allow_a.1 (Permits-le intl input le (allow_b.0 e)))
      (λ e. deny_a.1 (Tolerates-le intl input le (deny_b.0 e)))
