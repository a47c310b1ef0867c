-- ===== src/Engine/Checks.antt =====
-- packages/core/src/engine/evaluate.ts: merchant identity, categories and constraints.
use waysafe.Prelude.{
  ℕ, suc, Bool, true, false, ◌&&◌, not, Option, none, some, List, [], ◌∷◌, ◌++◌, Text,
  if◌then◌else◌, text_eq, includes, any, is_some,
}
use waysafe.Prelude.Int.{ℤ, leb_ℤ}
use waysafe.Reason.{ReasonCode, PolicyPath, Reason}
use waysafe.Policy.{
  UnlistedDisposition, MerchantRules, CategoryRules, Constraint, ConstraintValue, Scalar, string,
  number, boolean, scalar, array, Operator, ProposedAction,
}
use waysafe.Merchant.Types.{ResolvedMerchant, is_unknown, is_verified}
use waysafe.Merchant.Matching.{satisfies_allowlist, matches_denylist, verified_merchant_keys}
use waysafe.Merchant.Resolve.{truthy}
use waysafe.Engine.Types.{SpendSnapshot}
use waysafe.Engine.Window.{denied}

-- `unverifiedMerchantReason`
abbrev pub unverified_merchant : List Reason
unverified_merchant = denied ReasonCode.step_up_merchant_unverified PolicyPath.merchants

abbrev pub merchant_unlisted : UnlistedDisposition → List Reason
merchant_unlisted UnlistedDisposition.deny =
    denied ReasonCode.deny_merchant_not_allowlisted PolicyPath.merchants_unlisted
merchant_unlisted UnlistedDisposition.step_up =
    denied ReasonCode.step_up_merchant_not_allowlisted PolicyPath.merchants_unlisted
merchant_unlisted UnlistedDisposition.allow = []

-- The reasons that the allowlist gives.
unfoldable pub allowlist_reasons : MerchantRules → ResolvedMerchant → List Reason
allowlist_reasons rules merchant =
    let found = satisfies_allowlist rules.allow merchant in
    if found.matched
    then (if found.verified then [] else unverified_merchant)
    else merchant_unlisted rules.unlisted
      ++ (if is_verified merchant.trust then [] else unverified_merchant)

-- The step-up on first use.
unfoldable pub first_use_reasons : MerchantRules → ResolvedMerchant → SpendSnapshot → List Reason
first_use_reasons rules merchant spend =
    if rules.step_up_on_first_use
      && (is_verified merchant.trust
          && not (any (includes spend.seen_merchants) (verified_merchant_keys merchant)))
    then denied ReasonCode.step_up_first_time_merchant PolicyPath.step_up_on_first_use
    else []

unfoldable pub evaluate_merchant : MerchantRules → ResolvedMerchant → SpendSnapshot → List Reason
evaluate_merchant rules merchant spend =
    if is_unknown merchant.trust
    then denied ReasonCode.deny_merchant_unresolved PolicyPath.merchants
    else if is_some (matches_denylist rules.deny merchant)
    then denied ReasonCode.deny_merchant_blocked PolicyPath.merchants_deny
    else allowlist_reasons rules merchant ++ first_use_reasons rules merchant spend

-- `value && list.includes(value)`
abbrev pub listed_in : List Text → Option Text → Bool
listed_in list none = false
listed_in list (some t) = includes list t

abbrev pub category_unlisted : UnlistedDisposition → List Reason
category_unlisted UnlistedDisposition.deny =
    denied ReasonCode.deny_category_not_allowlisted PolicyPath.categories_unlisted
category_unlisted UnlistedDisposition.step_up =
    denied ReasonCode.step_up_category_not_allowlisted PolicyPath.categories_unlisted
category_unlisted UnlistedDisposition.allow = []

unfoldable pub mcc_reasons : CategoryRules → ResolvedMerchant → List Reason
mcc_reasons rules merchant =
    if listed_in rules.deny_mcc (truthy merchant.mcc)
    then denied ReasonCode.deny_category_blocked PolicyPath.categories_deny_mcc
    else []

unfoldable pub slug_reasons : CategoryRules → Option Text → List Reason
slug_reasons rules category =
    if listed_in rules.deny (truthy category)
    then denied ReasonCode.deny_category_blocked PolicyPath.categories_deny
    else if listed_in rules.allow category
    then []
    else category_unlisted rules.unlisted

unfoldable pub evaluate_category : CategoryRules → ProposedAction → ResolvedMerchant → List Reason
evaluate_category rules action merchant =
    mcc_reasons rules merchant ++ slug_reasons rules action.category

-- `attestations[key]`
unfoldable pub attestation : Text → List (Text × Scalar) → Option Scalar
attestation key [] = none
attestation key ((k, v) ∷ rest) = if text_eq k key then some v else attestation key rest

abbrev pub int_eq : ℤ → ℤ → Bool
int_eq a b = leb_ℤ a b && leb_ℤ b a

abbrev pub bool_eq : Bool → Bool → Bool
bool_eq true b = b
bool_eq false b = not b

-- `===` on scalars.
abbrev pub scalar_eq : Scalar → Scalar → Bool
scalar_eq (string a) (string b) = text_eq a b
scalar_eq (number a) (number b) = int_eq a b
scalar_eq (boolean a) (boolean b) = bool_eq a b
scalar_eq _ _ = false

-- `actual === constraint.value`; an array is equal to no scalar.
abbrev pub value_eq : Scalar → ConstraintValue → Bool
value_eq a (scalar b) = scalar_eq a b
value_eq a (array bs) = false

-- `actual <= value`, where both are numbers.
abbrev pub value_le : Scalar → ConstraintValue → Bool
value_le (number a) (scalar (number b)) = leb_ℤ a b
value_le _ _ = false

abbrev pub value_ge : Scalar → ConstraintValue → Bool
value_ge (number a) (scalar (number b)) = leb_ℤ b a
value_ge _ _ = false

-- Membership tests want an array, and a string or a number to look for.
abbrev pub value_in : (Bool → Bool) → Scalar → ConstraintValue → Bool
value_in f (boolean a) v = false
value_in f a (array bs) = f (any (scalar_eq a) bs)
value_in f a (scalar b) = false

-- The switch of `constraintSatisfied`, on the operator, the constraint's value and the actual one.
unfoldable pub operator_holds : Operator → ConstraintValue → Option Scalar → Bool
operator_holds op v none = false
operator_holds Operator.equals v (some a) = value_eq a v
operator_holds Operator.not_equals v (some a) = not (value_eq a v)
operator_holds Operator.lte v (some a) = value_le a v
operator_holds Operator.gte v (some a) = value_ge a v
operator_holds Operator.is_in v (some a) = value_in (λ b. b) a v
operator_holds Operator.not_in v (some a) = value_in not a v

unfoldable pub constraint_satisfied : Constraint → Option Scalar → Bool
unfolding operator_holds
constraint_satisfied c actual = operator_holds c.operator c.value actual

-- The test of one round of the loop.
unfoldable pub constraint_ok : List (Text × Scalar) → Constraint → Bool
constraint_ok attestations c =
    if c.required then constraint_satisfied c (attestation c.key attestations) else true

-- The loop from index `i` on.
unfoldable pub constraint_reasons : List (Text × Scalar) → ℕ → List Constraint → List Reason
constraint_reasons attestations i [] = []
constraint_reasons attestations i (c ∷ cs) =
    (if constraint_ok attestations c
      then []
      else denied ReasonCode.deny_constraint_not_satisfied (PolicyPath.constraint i))
    ++ constraint_reasons attestations (suc i) cs

unfoldable pub evaluate_constraints : List Constraint → ProposedAction → List Reason
unfolding constraint_reasons
evaluate_constraints constraints action = constraint_reasons action.attestations 0 constraints
