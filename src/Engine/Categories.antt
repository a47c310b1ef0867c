-- ===== src/Engine/Categories.antt =====
-- packages/core/src/engine/evaluate.ts: category codes and slugs against the specification.
use waysafe.Prelude.{
  ◌≡◌, refl, ◌≢◌, ◌↔◌, inl, inr, true, false, Option, none, some, List, [], Text, All, Any,
  Bool-cases,
}
use waysafe.Reason.{decision_for_reason_code}
use waysafe.Policy.{CategoryRules, UnlistedDisposition}
use waysafe.Merchant.Types.{ResolvedMerchant}
use waysafe.Merchant.Resolve.{truthy}
use waysafe.Engine.Checks.{listed_in, mcc_reasons, slug_reasons, category_unlisted}
use waysafe.Engine.Combine.{Blocks, NotDeny}
use waysafe.Engine.Spec.{MccPermitted, Listed, SlugPermitted, SlugTolerated}
use waysafe.Engine.Timing.{IsDeny, OnlyDenies, when-nil_iff, when-All, iff_trans}
use waysafe.Engine.Claims.{includes_iff}

pub listed_in_iff : (list : List Text) (c : Option Text) → (listed_in list c ≡ true) ↔ Listed list c
listed_in_iff list none = ((λ h. cc), λ h. absurd h)
listed_in_iff list (some t) = includes_iff list t

-- Nothing of the kind is listed: a test that fails, and a statement about every value.
not_listed_iff :
    (list : List Text) (c : Option Text)
    → (listed_in list c ≡ false) ↔ ((t : Text) → c ≡ some t → ¬ Any (λ x. x ≡ t) list)
not_listed_iff list none = ((λ h t e. cc), λ h. refl)
not_listed_iff list (some t) = (
  λ h u e k.
      let same : t ≡ u = cc in
      let yes' : listed_in list (some t) ≡ true = (includes_iff list t).1 (rw same k) in cc,
  λ h. elim (Bool-cases (listed_in list (some t))) [
    | inl e ↦ absurd (h t refl ((includes_iff list t).0 e))
    | inr e ↦ e
  ],
)

-- No category-code reason exactly when the code is not one that is always denied.
pub mcc_reasons-nil_iff :
    (rules : CategoryRules) (m : ResolvedMerchant)
    → (mcc_reasons rules m ≡ []) ↔ MccPermitted rules m
unfolding mcc_reasons
mcc_reasons-nil_iff rules m =
    iff_trans (when-nil_iff _ _ _) (not_listed_iff rules.deny_mcc (truthy m.mcc))

pub mcc_reasons-OnlyDenies :
    (rules : CategoryRules) (m : ResolvedMerchant) → OnlyDenies (mcc_reasons rules m)
unfolding mcc_reasons decision_for_reason_code
mcc_reasons-OnlyDenies rules m = when-All _ _ _ IsDeny refl

unlisted-nil_iff :
    (u : UnlistedDisposition) → (category_unlisted u ≡ []) ↔ (u ≡ UnlistedDisposition.allow)
unlisted-nil_iff UnlistedDisposition.allow = ((λ h. refl), λ h. refl)
unlisted-nil_iff UnlistedDisposition.deny = ((λ h. cc), λ h. cc)
unlisted-nil_iff UnlistedDisposition.step_up = ((λ h. cc), λ h. cc)

unlisted-NotDeny_iff :
    (u : UnlistedDisposition) → All NotDeny (category_unlisted u) ↔ (u ≢ UnlistedDisposition.deny)
unfolding decision_for_reason_code
unlisted-NotDeny_iff UnlistedDisposition.allow = ((λ h. (λ e. cc)), λ h. tt)
unlisted-NotDeny_iff UnlistedDisposition.deny = ((λ h e. h.0 refl), λ h. absurd (h refl))
unlisted-NotDeny_iff UnlistedDisposition.step_up = ((λ h. (λ e. cc)), λ h. ((λ e. cc), tt))

unlisted-Blocks : (u : UnlistedDisposition) → All Blocks (category_unlisted u)
unfolding decision_for_reason_code
unlisted-Blocks UnlistedDisposition.allow = tt
unlisted-Blocks UnlistedDisposition.deny = ((λ e. cc), tt)
unlisted-Blocks UnlistedDisposition.step_up = ((λ e. cc), tt)

module _ (rules : CategoryRules) (c : Option Text) where
  -- The two tests of the slug, as case splits.
  pub slug_reasons-nil_iff : (slug_reasons rules c ≡ []) ↔ SlugPermitted rules c
  unfolding slug_reasons
  slug_reasons-nil_iff = elim (Bool-cases (listed_in rules.deny (truthy c))) [
    | inl e ↦ rw e ((λ h. cc), λ h. let k = (not_listed_iff rules.deny (truthy c)).1 h.0 in cc)
    | inr e ↦
        let free = (not_listed_iff rules.deny (truthy c)).0 e in
        elim (Bool-cases (listed_in rules.allow c)) [
          | inl a ↦ rw (e, a) ((λ h. (free, inl ((listed_in_iff rules.allow c).0 a))), λ h. refl)
          | inr a ↦
              rw (e, a)
                (
                  λ h. (free, inr ((unlisted-nil_iff rules.unlisted).0 h)),
                  λ h. elim h.1 [
                    | inl l ↦ let k = (listed_in_iff rules.allow c).1 l in cc
                    | inr u ↦ (unlisted-nil_iff rules.unlisted).1 u
                  ],
                )
        ]
  ]

  pub slug_reasons-NotDeny_iff : All NotDeny (slug_reasons rules c) ↔ SlugTolerated rules c
  unfolding slug_reasons decision_for_reason_code
  slug_reasons-NotDeny_iff = elim (Bool-cases (listed_in rules.deny (truthy c))) [
    | inl e ↦
        rw e (
          (λ h. absurd (h.0 refl)),
          λ h. let k = (not_listed_iff rules.deny (truthy c)).1 h.0 in cc,
        )
    | inr e ↦
        let free = (not_listed_iff rules.deny (truthy c)).0 e in
        elim (Bool-cases (listed_in rules.allow c)) [
          | inl a ↦ rw (e, a) ((λ h. (free, inl ((listed_in_iff rules.allow c).0 a))), λ h. tt)
          | inr a ↦
              rw (e, a)
                (
                  λ h. (free, inr ((unlisted-NotDeny_iff rules.unlisted).0 h)),
                  λ h. elim h.1 [
                    | inl l ↦ let k = (listed_in_iff rules.allow c).1 l in cc
                    | inr u ↦ (unlisted-NotDeny_iff rules.unlisted).1 u
                  ],
                )
        ]
  ]

  pub slug_reasons-Blocks : All Blocks (slug_reasons rules c)
  unfolding slug_reasons decision_for_reason_code
  slug_reasons-Blocks = elim (Bool-cases (listed_in rules.deny (truthy c))) [
    | inl e ↦ rw e ((λ q. cc), tt)
    | inr e ↦ elim (Bool-cases (listed_in rules.allow c)) [
      | inl a ↦ rw (e, a) tt
      | inr a ↦ rw (e, a) (unlisted-Blocks rules.unlisted)
    ]
  ]
