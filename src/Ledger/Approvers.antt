-- ===== src/Ledger/Approvers.antt =====
-- apps/api/src/authorization/in-memory-repository.ts: `checkApproverCycle`.
use waysafe.Prelude.{
  ◌≡◌, refl, ◌↔◌, inl, inr, Bool, false, ◌||◌, Option, none, some, List, [], ◌∷◌, Text, All, any,
  includes, Bool-cases, Option-cases,
}
use waysafe.Policy.{Policy}
use waysafe.Ledger.{MandateRow}
use waysafe.Ledger.Maps.{Map, get}

abbrev pub names_approver : Option MandateRow → Text → Bool
names_approver none id = false
names_approver (some m) id = includes m.current_version.policy.escalation.approvers id

-- Whether `checkApproverCycle` throws: the mandate names itself, or an approver names the mandate.
unfoldable pub check_approver_cycle : Map MandateRow → Text → Policy → Bool
check_approver_cycle mandates id policy =
    let approvers = policy.escalation.approvers in
    includes approvers id || any (λ a. names_approver (get a mandates) id) approvers

any-false_iff :
    (p : Text → Bool) (Q : Text → Type 0)
    → ((a : Text) → (p a ≡ false) ↔ Q a)
    → (xs : List Text) → (any p xs ≡ false) ↔ All Q xs
any-false_iff p Q e [] = ((λ h. tt), λ h. refl)
any-false_iff p Q e (x ∷ xs) =
    let ih = any-false_iff p Q e xs in
    elim (Bool-cases (p x)) [
      | inl h ↦ rw h ((λ k. cc), λ k. let bad = (e x).1 k.0 in cc)
      | inr h ↦ rw h ((λ k. ((e x).0 h, ih.0 k)), λ k. ih.1 k.1)
    ]

-- No stored mandate under the id `a` names `id` as its approver.
abbrev pub IsNotNamedBy : Map MandateRow → Text → Text → Type 0
IsNotNamedBy mandates id a =
    (m : MandateRow)
    → get a mandates ≡ some m
    → includes m.current_version.policy.escalation.approvers id ≡ false

names_approver-false_iff :
    (mandates : Map MandateRow) (id a : Text)
    → (names_approver (get a mandates) id ≡ false) ↔ IsNotNamedBy mandates id a
names_approver-false_iff mandates id a = elim (Option-cases (get a mandates)) [
  | inl q ↦ rw q ((λ h m k. cc), λ h. refl)
  | inr (m, q) ↦ rw q ((λ h m' k. let same : m ≡ m' = cc in rw same at h), λ h. h m refl)
]

-- `checkApproverCycle` lets a new mandate pass exactly when it does not name itself as its approver and
-- none of its stored approvers names it.
pub check_approver_cycle-false_iff :
    (mandates : Map MandateRow) (id : Text) (policy : Policy)
    → (check_approver_cycle mandates id policy ≡ false) ↔ (
        (includes policy.escalation.approvers id ≡ false)
        × All (IsNotNamedBy mandates id) policy.escalation.approvers)
unfolding check_approver_cycle
check_approver_cycle-false_iff mandates id policy =
    let approvers = policy.escalation.approvers in
    let e =
      any-false_iff (λ a. names_approver (get a mandates) id) (IsNotNamedBy mandates id)
        (names_approver-false_iff mandates id) approvers in
    elim (Bool-cases (includes approvers id)) [
      | inl h ↦ rw h ((λ k. cc), λ k. let bad = k.0 in cc)
      | inr h ↦ rw h ((λ k. (refl, e.0 k)), λ k. e.1 k.1)
    ]
