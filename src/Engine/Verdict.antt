-- ===== src/Engine/Verdict.antt =====
-- packages/core/src/engine/evaluate.ts: the decision of `evaluate` against the specification.
use waysafe.Prelude.{
  ◌≡◌, refl, ◌≢◌, ◌↔◌, false, List, [], ◌∷◌, ◌++◌, All, All-append_iff, All-map, is_empty,
}
use waysafe.Reason.{Decision, Reason}
use waysafe.Time.{Formatter}
use waysafe.Engine.Types.{SpendSnapshot, EngineInput}
use waysafe.Policy.{StepUpRules, ProposedAction}
use waysafe.Engine.Checks.{evaluate_category}
use waysafe.Engine.Limits.{evaluate_step_up_thresholds}
use waysafe.Engine.Evaluate.{all_reasons, evaluate}
use waysafe.Engine.Combine.{
  tier, Blocks, NotDeny, combine-allow_iff, combine-not-deny_iff, combine_consistent,
}
use waysafe.Engine.Spec.{Permits, Tolerates}
use waysafe.Engine.Timing.{
  IsDeny, OnlyDenies, evaluate_expiry-nil_iff, evaluate_expiry-OnlyDenies,
  evaluate_currency-nil_iff, evaluate_currency-OnlyDenies, evaluate_time_window-nil_iff,
  evaluate_time_window-OnlyDenies,
}
use waysafe.Engine.Budget.{
  append-nil_iff, evaluate_limits-nil_iff, evaluate_limits-OnlyDenies, thresholds-nil_iff,
  thresholds-IsStepUp,
}
use waysafe.Engine.Claims.{evaluate_constraints-nil_iff, evaluate_constraints-OnlyDenies}
use waysafe.Engine.Categories.{
  mcc_reasons-nil_iff, mcc_reasons-OnlyDenies, slug_reasons-nil_iff, slug_reasons-NotDeny_iff,
  slug_reasons-Blocks,
}
use waysafe.Engine.Counterparty.{
  Blocks-of_IsStepUp, NotDeny-of_IsStepUp, evaluate_merchant-nil_iff, evaluate_merchant-NotDeny_iff,
  evaluate_merchant-Blocks,
}

Blocks-of_IsDeny : (r : Reason) → IsDeny r → Blocks r
Blocks-of_IsDeny r h e = cc

-- Where all reasons deny, there is no reason to deny exactly when there is none at all.
OnlyDenies-iff : (rs : List Reason) → OnlyDenies rs → All NotDeny rs ↔ (rs ≡ [])
OnlyDenies-iff [] h = ((λ k. refl), λ k. tt)
OnlyDenies-iff (r ∷ rs) h = ((λ k. absurd (k.0 h.0)), λ k. cc)

-- Joining the accounts of two halves.
both_iff :
    {P Q : Type 0} (xs ys : List Reason)
    → All NotDeny xs ↔ P
    → All NotDeny ys ↔ Q
    → All NotDeny (xs ++ ys) ↔ (P × Q)
both_iff xs ys p q =
    let s = All-append_iff NotDeny xs ys in
    (λ h. (p.0 (s.0 h).0, q.0 (s.0 h).1), λ h. s.1 (p.1 h.0, q.1 h.1))

Blocks-append : (xs ys : List Reason) → All Blocks xs → All Blocks ys → All Blocks (xs ++ ys)
Blocks-append xs ys h k = (All-append_iff Blocks xs ys).1 (h, k)

hard : (rs : List Reason) → OnlyDenies rs → All Blocks rs
hard rs h = All-map Blocks-of_IsDeny rs h

-- A dimension that only denies is tolerated exactly when it is silent.
silent : {P : Type 0} {rs : List Reason} → OnlyDenies rs → (rs ≡ []) ↔ P → All NotDeny rs ↔ P
silent {rs} h e = let k = OnlyDenies-iff rs h in ((λ n. e.0 (k.0 n)), λ p. k.1 (e.1 p))

thresholds-NotDeny :
    (rules : StepUpRules) (action : ProposedAction) (spend : SpendSnapshot)
    → All NotDeny (evaluate_step_up_thresholds rules action spend) ↔ Unit {0}
thresholds-NotDeny rules action spend = (
  (λ h. tt),
  λ h.
      All-map NotDeny-of_IsStepUp (evaluate_step_up_thresholds rules action spend)
        (thresholds-IsStepUp rules action spend),
)

-- Eight nested pairs as one tuple.
flatten :
    {A B C D E F G H : Type 0}
    → A × (B × (C × (D × (E × (F × (G × H))))))
    → A × B × C × D × E × F × G × H
flatten (a, (b, (c, (d, (e, (f, (g, h))))))) = (a, b, c, d, e, f, g, h)

module _ (intl : Formatter) (input : EngineInput) where
  all_reasons-Blocks : All Blocks (all_reasons intl input)
  unfolding all_reasons evaluate_category
  all_reasons-Blocks =
      let p = input.policy in
      Blocks-append _ _ (hard _ (evaluate_expiry-OnlyDenies p input.now)) (
        Blocks-append _ _ (hard _ (evaluate_currency-OnlyDenies p input.action)) (
          Blocks-append _ _
            (hard _
              (evaluate_time_window-OnlyDenies intl p.time_window p.accounting.timezone input.now))
            (Blocks-append _ _ (evaluate_merchant-Blocks p.merchants input.merchant input.spend) (
              Blocks-append _ _
                (Blocks-append _ _ (hard _ (mcc_reasons-OnlyDenies p.categories input.merchant))
                  (slug_reasons-Blocks p.categories input.action.category))
                (Blocks-append _ _
                  (hard _ (evaluate_constraints-OnlyDenies p.constraints input.action))
                  (Blocks-append _ _
                    (hard _ (evaluate_limits-OnlyDenies p input.action input.spend))
                    (All-map Blocks-of_IsStepUp _
                      (thresholds-IsStepUp p.step_up input.action input.spend))))))))

  -- Every dimension is silent exactly when the action is permitted.
  all_reasons-nil_iff : (all_reasons intl input ≡ []) ↔ Permits intl input
  unfolding all_reasons evaluate_category
  all_reasons-nil_iff =
      let p = input.policy in
      let all = append-nil_iff _ _ (evaluate_expiry-nil_iff p input.now) (
        append-nil_iff _ _ (evaluate_currency-nil_iff p input.action) (
          append-nil_iff _ _
            (evaluate_time_window-nil_iff intl p.time_window p.accounting.timezone input.now)
            (append-nil_iff _ _ (evaluate_merchant-nil_iff p.merchants input.merchant input.spend) (
              append-nil_iff _ _
                (append-nil_iff _ _ (mcc_reasons-nil_iff p.categories input.merchant)
                  (slug_reasons-nil_iff p.categories input.action.category))
                (append-nil_iff _ _ (evaluate_constraints-nil_iff p.constraints input.action) (
                  append-nil_iff _ _ (evaluate_limits-nil_iff p input.action input.spend)
                    (thresholds-nil_iff p.step_up input.action input.spend))))))) in
      (
        λ e.
            let (live, cur, time, m, cat, con, lim, thr) = flatten (all.0 e) in
            record {
              live = live;
              currency = cur;
              in_time = time;
              known = m.0.0;
              not_blocked = m.0.1;
              listed = m.1;
              first_use = m.2;
              mcc = cat.0;
              category = cat.1;
              constraints = con;
              amount = lim.0;
              limits = lim.1;
              below_amount = thr.0;
              below_cumulative = thr.1;
            },
        λ h. all.1 (
          h.live,
          (
            h.currency,
            (
              h.in_time,
              (
                ((h.known, h.not_blocked), h.listed, h.first_use),
                (
                  (h.mcc, h.category),
                  (h.constraints, ((h.amount, h.limits), (h.below_amount, h.below_cumulative))),
                ),
              ),
            ),
          ),
        ),
      )

  -- No dimension denies exactly when the action is tolerated.
  all_reasons-NotDeny_iff : All NotDeny (all_reasons intl input) ↔ Tolerates intl input
  unfolding all_reasons evaluate_category
  all_reasons-NotDeny_iff =
      let p = input.policy in
      let m = input.merchant in
      let all =
        both_iff _ _
          (silent (evaluate_expiry-OnlyDenies p input.now) (evaluate_expiry-nil_iff p input.now))
          (both_iff _ _
            (silent (evaluate_currency-OnlyDenies p input.action)
              (evaluate_currency-nil_iff p input.action))
            (both_iff _ _
              (silent
                (evaluate_time_window-OnlyDenies intl p.time_window p.accounting.timezone input.now)
                (evaluate_time_window-nil_iff intl p.time_window p.accounting.timezone input.now))
              (both_iff _ _ (evaluate_merchant-NotDeny_iff p.merchants m input.spend) (
                both_iff _ _
                  (both_iff _ _
                    (silent (mcc_reasons-OnlyDenies p.categories m)
                      (mcc_reasons-nil_iff p.categories m))
                    (slug_reasons-NotDeny_iff p.categories input.action.category))
                  (both_iff _ _
                    (silent (evaluate_constraints-OnlyDenies p.constraints input.action)
                      (evaluate_constraints-nil_iff p.constraints input.action))
                    (both_iff _ _
                      (silent (evaluate_limits-OnlyDenies p input.action input.spend)
                        (evaluate_limits-nil_iff p input.action input.spend))
                      (thresholds-NotDeny p.step_up input.action input.spend))))))) in
      (
        λ e.
            let (live, cur, time, who, cat, con, lim, thr) = flatten (all.0 e) in
            record {
              live = live;
              currency = cur;
              in_time = time;
              known = who.0.0;
              not_blocked = who.0.1;
              listed = who.1;
              mcc = cat.0;
              category = cat.1;
              constraints = con;
              amount = lim.0;
              limits = lim.1;
            },
        λ h. all.1 (
          h.live,
          (
            h.currency,
            (
              h.in_time,
              (
                ((h.known, h.not_blocked), h.listed),
                ((h.mcc, h.category), (h.constraints, ((h.amount, h.limits), tt))),
              ),
            ),
          ),
        ),
      )

-- `evaluate` answers ALLOW exactly when the policy permits the action: the mandate is live, the
-- currency and the time are right, the merchant is known, not blocked, listed and vouched for (or
-- unlisted ones are allowed and it is verified), not new where that matters, its category code and
-- the asserted category are permitted, every required constraint is met, every ceiling is kept by
-- the spend with this action, and both step-up thresholds lie above it.
pub evaluate-allow_iff :
    (intl : Formatter) (input : EngineInput)
    → ((evaluate intl input).decision ≡ Decision.allow) ↔ Permits intl input
unfolding evaluate
evaluate-allow_iff intl input =
    let c = combine-allow_iff (all_reasons intl input) (all_reasons-Blocks intl input) in
    let s = all_reasons-nil_iff intl input in ((λ e. s.0 (c.0 e)), λ h. c.1 (s.1 h))

-- `evaluate` answers other than DENY exactly when nothing in the policy denies the action.
pub evaluate-not-deny_iff :
    (intl : Formatter) (input : EngineInput)
    → ((evaluate intl input).decision ≢ Decision.deny) ↔ Tolerates intl input
unfolding evaluate
evaluate-not-deny_iff intl input =
    let c = combine-not-deny_iff (all_reasons intl input) in
    let s = all_reasons-NotDeny_iff intl input in ((λ e. s.0 (c.0 e)), λ h. c.1 (s.1 h))

-- A result has at least one reason, and every reason's code belongs to its decision.
pub evaluate_consistent :
    (intl : Formatter) (input : EngineInput)
    → All (λ r. tier r ≡ (evaluate intl input).decision) (evaluate intl input).reasons
      × (is_empty (evaluate intl input).reasons ≡ false)
unfolding evaluate
evaluate_consistent intl input = combine_consistent (all_reasons intl input)
