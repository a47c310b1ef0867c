-- ===== src/Engine/Combine.antt =====
-- packages/core/src/engine/evaluate.ts: the precedence rule, for any list of reasons.
use waysafe.Prelude.{
  ◌≡◌, refl, ◌≢◌, ◌↔◌, inl, inr, true, false, List, [], ◌∷◌, arith, filter, is_empty, All,
  Bool-cases,
}
use waysafe.Reason.{Decision, Reason, decision_for_reason_code, decision_eq}
use waysafe.Engine.Evaluate.{has_decision, combine}

-- The decision that a reason's code belongs to.
abbrev pub tier : Reason → Decision
tier r = decision_for_reason_code r.code

pub decision_eq_iff : (a b : Decision) → (decision_eq a b ≡ true) ↔ (a ≡ b)
decision_eq_iff Decision.allow Decision.allow = ground arith
decision_eq_iff Decision.deny Decision.deny = ground arith
decision_eq_iff Decision.step_up Decision.step_up = ground arith
decision_eq_iff Decision.allow Decision.deny = ((λ h. cc), λ h. cc)
decision_eq_iff Decision.allow Decision.step_up = ((λ h. cc), λ h. cc)
decision_eq_iff Decision.deny Decision.allow = ((λ h. cc), λ h. cc)
decision_eq_iff Decision.deny Decision.step_up = ((λ h. cc), λ h. cc)
decision_eq_iff Decision.step_up Decision.allow = ((λ h. cc), λ h. cc)
decision_eq_iff Decision.step_up Decision.deny = ((λ h. cc), λ h. cc)

-- A reason that rules ALLOW out, and one that leaves DENY out.
abbrev pub Blocks : Reason → Type 0
Blocks r = tier r ≢ Decision.allow

abbrev pub NotDeny : Reason → Type 0
NotDeny r = tier r ≢ Decision.deny

-- The filter for a tier is empty exactly when no reason is of that tier.
tier_absent :
    (d : Decision) (rs : List Reason)
    → is_empty (filter (has_decision d) rs) ≡ true
    → All (λ r. tier r ≢ d) rs
unfolding has_decision
tier_absent d [] h = tt
tier_absent d (r ∷ rs) h = elim (Bool-cases (decision_eq (tier r) d)) [
  | inl e ↦ absurd (ground arith)
  | inr e ↦ (λ q. let k = (decision_eq_iff (tier r) d).1 q in cc, tier_absent d rs (rw e at h))
]

absent_tier :
    (d : Decision) (rs : List Reason) → All (λ r. tier r ≢ d) rs → filter (has_decision d) rs ≡ []
unfolding has_decision
absent_tier d [] h = refl
absent_tier d (r ∷ rs) h = elim (Bool-cases (decision_eq (tier r) d)) [
  | inl e ↦ absurd (h.0 ((decision_eq_iff (tier r) d).0 e))
  | inr e ↦ rw e (absent_tier d rs h.1)
]

nil_of_no_tier :
    (rs : List Reason)
    → All Blocks rs
    → All (λ r. tier r ≢ Decision.deny) rs
    → All (λ r. tier r ≢ Decision.step_up) rs
    → rs ≡ []
nil_of_no_tier [] a d u = refl
nil_of_no_tier (r ∷ rs) a d u = absurd (go (tier r) a.0 d.0 u.0)
  where
    go : (t : Decision) → t ≢ Decision.allow → t ≢ Decision.deny → t ≢ Decision.step_up → ⊥
    go Decision.allow x y z = x refl
    go Decision.deny x y z = y refl
    go Decision.step_up x y z = z refl

-- With no reason of the ALLOW tier among them, the reasons give ALLOW exactly when there are none.
pub combine-allow_iff :
    (rs : List Reason) → All Blocks rs → ((combine rs).decision ≡ Decision.allow) ↔ (rs ≡ [])
unfolding combine
combine-allow_iff rs h = (
  λ e.
      nil_of_no_tier rs h (tier_absent Decision.deny rs (ground arith))
        (tier_absent Decision.step_up rs (ground arith)),
  λ e. rw e refl,
)

-- The decision is DENY exactly when some reason is of the DENY tier.
pub combine-not-deny_iff :
    (rs : List Reason) → ((combine rs).decision ≢ Decision.deny) ↔ All NotDeny rs
unfolding combine
combine-not-deny_iff rs = (
  λ ne. tier_absent Decision.deny rs (ground arith),
  λ h. rw (absent_tier Decision.deny rs h) (ground arith),
)

tier_of_filter :
    (d : Decision) (rs : List Reason) → All (λ r. tier r ≡ d) (filter (has_decision d) rs)
unfolding has_decision
tier_of_filter d [] = tt
tier_of_filter d (r ∷ rs) = elim (Bool-cases (decision_eq (tier r) d)) [
  | inl e ↦ rw e ((decision_eq_iff (tier r) d).0 e, tier_of_filter d rs)
  | inr e ↦ rw e (tier_of_filter d rs)
]

-- Every reason in the result is of the tier of its decision, and there is at least one.
pub combine_consistent :
    (rs : List Reason)
    → All (λ r. tier r ≡ (combine rs).decision) (combine rs).reasons
      × (is_empty (combine rs).reasons ≡ false)
unfolding combine decision_for_reason_code
combine_consistent rs = elim (Bool-cases (is_empty (filter (has_decision Decision.deny) rs))) [
  | inl d ↦ elim (Bool-cases (is_empty (filter (has_decision Decision.step_up) rs))) [
    | inl u ↦ rw (d, u) ((refl, tt), refl)
    | inr u ↦ rw (d, u) (tier_of_filter Decision.step_up rs, u)
  ]
  | inr d ↦ rw d (tier_of_filter Decision.deny rs, d)
]
