-- ===== src/Engine/Claims.antt =====
-- packages/core/src/engine/evaluate.ts: constraints against the specification.
use waysafe.Prelude.{
  ℕ, suc, ◌≡◌, refl, ◌↔◌, inl, inr, Bool, true, false, not, Option, none, some, List, [], ◌∷◌, Text,
  arith, All, Any, Bool-cases, text_eq_iff, includes, any,
}
use waysafe.Prelude.Int.{eq_of_parts}
use waysafe.Reason.{ReasonCode, PolicyPath, decision_for_reason_code}
use waysafe.Policy.{
  Constraint, ConstraintValue, Scalar, string, number, boolean, scalar, array, Operator,
  ProposedAction,
}
use waysafe.Engine.Checks.{
  attestation, scalar_eq, value_eq, value_le, value_ge, value_in, operator_holds,
  constraint_satisfied, constraint_ok, constraint_reasons, evaluate_constraints,
}
use waysafe.Engine.Spec.{Within, Outside, Meets, ConstraintMet, NumberLe, NumberGe}
use waysafe.Engine.Timing.{
  IsDeny, OnlyDenies, OnlyDenies-append, unless-nil_iff, unless-All, iff_trans,
}
use waysafe.Engine.Budget.{append-nil_iff}

pub includes_iff : (list : List Text) (t : Text) → (includes list t ≡ true) ↔ Any (λ x. x ≡ t) list
includes_iff [] t = ((λ h. cc), λ h. absurd h)
includes_iff (x ∷ xs) t = grind (arith, includes_iff xs t, text_eq_iff x t)

scalar_eq_iff : (a b : Scalar) → (scalar_eq a b ≡ true) ↔ (b ≡ a)
scalar_eq_iff (string a) (string b) =
    ((λ h. let e = (text_eq_iff a b).0 h in cc), λ h. (text_eq_iff a b).1 (cc))
scalar_eq_iff (number a) (number b) =
    ((λ h. let e = eq_of_parts a b (ground arith) in cc), λ h. let e : a ≡ b = cc in ground arith)
scalar_eq_iff (boolean true) (boolean true) = ground arith
scalar_eq_iff (boolean true) (boolean false) = ((λ h. cc), λ h. cc)
scalar_eq_iff (boolean false) (boolean true) = ((λ h. cc), λ h. cc)
scalar_eq_iff (boolean false) (boolean false) = ground arith
scalar_eq_iff (string a) (number b) = ((λ h. cc), λ h. cc)
scalar_eq_iff (string a) (boolean b) = ((λ h. cc), λ h. cc)
scalar_eq_iff (number a) (string b) = ((λ h. cc), λ h. cc)
scalar_eq_iff (number a) (boolean b) = ((λ h. cc), λ h. cc)
scalar_eq_iff (boolean true) (string b) = ((λ h. cc), λ h. cc)
scalar_eq_iff (boolean false) (string b) = ((λ h. cc), λ h. cc)
scalar_eq_iff (boolean true) (number b) = ((λ h. cc), λ h. cc)
scalar_eq_iff (boolean false) (number b) = ((λ h. cc), λ h. cc)

scalars_iff : (a : Scalar) (bs : List Scalar) → (any (scalar_eq a) bs ≡ true) ↔ Any (λ b. b ≡ a) bs
scalars_iff a [] = ((λ h. cc), λ h. absurd h)
scalars_iff a (b ∷ bs) = elim (Bool-cases (scalar_eq a b)) [
  | inl e ↦ rw e ((λ h. inl ((scalar_eq_iff a b).0 e)), λ h. refl)
  | inr e ↦ rw e (
    λ h. inr ((scalars_iff a bs).0 h),
    λ h. elim h [ inl q ↦ let k = (scalar_eq_iff a b).1 q in cc | inr q ↦ (scalars_iff a bs).1 q ],
  )
]

value_eq_iff : (a : Scalar) (v : ConstraintValue) → (value_eq a v ≡ true) ↔ (v ≡ scalar a)
value_eq_iff a (scalar b) =
    ((λ h. let e = (scalar_eq_iff a b).0 h in cc), λ h. (scalar_eq_iff a b).1 (cc))
value_eq_iff a (array bs) = ((λ h. cc), λ h. cc)

not_iff : {P : Type 0} (b : Bool) → (b ≡ true) ↔ P → (not b ≡ true) ↔ (¬ P)
not_iff true h = ((λ e. cc), λ n. absurd (n (h.0 refl)))
not_iff false h = ((λ e p. let k = h.1 p in cc), λ n. refl)

value_le_iff : (a : Scalar) (v : ConstraintValue) → (value_le a v ≡ true) ↔ NumberLe a v
value_le_iff (number a) (scalar (number b)) = ground arith
value_le_iff (number a) (scalar (string b)) = ((λ h. cc), λ h. absurd h)
value_le_iff (number a) (scalar (boolean b)) = ((λ h. cc), λ h. absurd h)
value_le_iff (number a) (array bs) = ((λ h. cc), λ h. absurd h)
value_le_iff (string a) v = ((λ h. cc), λ h. absurd h)
value_le_iff (boolean a) v = ((λ h. cc), λ h. absurd h)

value_ge_iff : (a : Scalar) (v : ConstraintValue) → (value_ge a v ≡ true) ↔ NumberGe a v
value_ge_iff (number a) (scalar (number b)) = ground arith
value_ge_iff (number a) (scalar (string b)) = ((λ h. cc), λ h. absurd h)
value_ge_iff (number a) (scalar (boolean b)) = ((λ h. cc), λ h. absurd h)
value_ge_iff (number a) (array bs) = ((λ h. cc), λ h. absurd h)
value_ge_iff (string a) v = ((λ h. cc), λ h. absurd h)
value_ge_iff (boolean a) v = ((λ h. cc), λ h. absurd h)

value_in_iff : (a : Scalar) (v : ConstraintValue) → (value_in (λ b. b) a v ≡ true) ↔ Within a v
value_in_iff (boolean a) (scalar b) = ((λ h. cc), λ h. absurd h)
value_in_iff (boolean a) (array bs) = ((λ h. cc), λ h. absurd h.0)
value_in_iff (string a) (scalar b) = ((λ h. cc), λ h. absurd h)
value_in_iff (number a) (scalar b) = ((λ h. cc), λ h. absurd h)
value_in_iff (string a) (array bs) =
    ((λ h. (tt, (scalars_iff (string a) bs).0 h)), λ h. (scalars_iff (string a) bs).1 h.1)
value_in_iff (number a) (array bs) =
    ((λ h. (tt, (scalars_iff (number a) bs).0 h)), λ h. (scalars_iff (number a) bs).1 h.1)

value_not_in_iff : (a : Scalar) (v : ConstraintValue) → (value_in not a v ≡ true) ↔ Outside a v
value_not_in_iff (boolean a) (scalar b) = ((λ h. cc), λ h. absurd h)
value_not_in_iff (boolean a) (array bs) = ((λ h. cc), λ h. absurd h.0)
value_not_in_iff (string a) (scalar b) = ((λ h. cc), λ h. absurd h)
value_not_in_iff (number a) (scalar b) = ((λ h. cc), λ h. absurd h)
value_not_in_iff (string a) (array bs) =
    let e = not_iff _ (scalars_iff (string a) bs) in ((λ h. (tt, e.0 h)), λ h. e.1 h.1)
value_not_in_iff (number a) (array bs) =
    let e = not_iff _ (scalars_iff (number a) bs) in ((λ h. (tt, e.0 h)), λ h. e.1 h.1)

Meets-iff :
    (op : Operator) (v : ConstraintValue) (a : Option Scalar)
    → (operator_holds op v a ≡ true) ↔ Meets op v a
unfolding operator_holds
Meets-iff op v none = ((λ h. cc), λ h. absurd h)
Meets-iff Operator.equals v (some a) = value_eq_iff a v
Meets-iff Operator.not_equals v (some a) = not_iff _ (value_eq_iff a v)
Meets-iff Operator.lte v (some a) = value_le_iff a v
Meets-iff Operator.gte v (some a) = value_ge_iff a v
Meets-iff Operator.is_in v (some a) = value_in_iff a v
Meets-iff Operator.not_in v (some a) = value_not_in_iff a v

constraint_ok_iff :
    (given : List (Text × Scalar)) (c : Constraint)
    → (constraint_ok given c ≡ true) ↔ ConstraintMet given c
unfolding constraint_ok constraint_satisfied
constraint_ok_iff given c = elim (Bool-cases c.required) [
  | inl e ↦ rw e (
    λ h k. (Meets-iff c.operator c.value (attestation c.key given)).0 h,
    λ h. (Meets-iff c.operator c.value (attestation c.key given)).1 (h refl),
  )
  | inr e ↦ rw e ((λ h k. cc), λ h. refl)
]

module _ (given : List (Text × Scalar)) where
  constraint_reasons-nil_iff :
      (i : ℕ) (cs : List Constraint)
      → (constraint_reasons given i cs ≡ []) ↔ All (ConstraintMet given) cs
  unfolding constraint_reasons
  constraint_reasons-nil_iff i [] = ((λ h. tt), λ h. refl)
  constraint_reasons-nil_iff i (c ∷ cs) =
      append-nil_iff _ _ (iff_trans (unless-nil_iff _ _ _) (constraint_ok_iff given c))
        (constraint_reasons-nil_iff (suc i) cs)

  constraint_reasons-OnlyDenies :
      (i : ℕ) (cs : List Constraint) → OnlyDenies (constraint_reasons given i cs)
  unfolding constraint_reasons decision_for_reason_code
  constraint_reasons-OnlyDenies i [] = tt
  constraint_reasons-OnlyDenies i (c ∷ cs) =
      OnlyDenies-append _ (constraint_reasons given (suc i) cs)
        (unless-All (constraint_ok given c) ReasonCode.deny_constraint_not_satisfied
          (PolicyPath.constraint i) IsDeny refl)
        (constraint_reasons-OnlyDenies (suc i) cs)

-- No constraint reason exactly when every required constraint is met by an attestation.
pub evaluate_constraints-nil_iff :
    (cs : List Constraint) (action : ProposedAction)
    → (evaluate_constraints cs action ≡ []) ↔ All (ConstraintMet action.attestations) cs
unfolding evaluate_constraints
evaluate_constraints-nil_iff cs action = constraint_reasons-nil_iff action.attestations 0 cs

pub evaluate_constraints-OnlyDenies :
    (cs : List Constraint) (action : ProposedAction) → OnlyDenies (evaluate_constraints cs action)
unfolding evaluate_constraints
evaluate_constraints-OnlyDenies cs action = constraint_reasons-OnlyDenies action.attestations 0 cs
