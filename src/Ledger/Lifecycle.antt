-- ===== src/Ledger/Lifecycle.antt =====
-- packages/core/src/domain.ts and apps/api/src/authorization/in-memory-repository.ts: the repository's
-- operations as one type, and the moves that they make on the status of an authorization.
use waysafe.Prelude.{ℕ, ◌≡◌, true, false, Option, none, some, List, [], ◌∷◌, Text, text_eq}
use waysafe.Time.{Formatter}
use waysafe.Ledger.{AuthorizationStatus, AuthorizationRow, Repository, Result}
use waysafe.Ledger.Operations.{
  StepUpOutcome, is_executable, is_pending, record_execution, resolve_step_up,
  record_step_up_approval_hold, record_refund,
}
use waysafe.Ledger.Save.{SaveAuthorizationInput, save_authorization}
use waysafe.Ledger.External.{
  SettleExternalInput, is_named, settle_external_authorization, release_external_authorization,
  SettlementOutcome,
}
use waysafe.Ledger.StepUp.{outcome_status}
use waysafe.Service.StepUp.{record_approver_ledger_entry}
pub mod Rows
pub mod Steps
pub mod Final

-- A call of the repository that writes authorizations or the ledger.
pub data Operation : Type 0 where
  execution : (mandate_id authorization_id : Text) → ℕ → Operation
  step_up : (mandate_id authorization_id : Text) → StepUpOutcome → ℕ → Operation
  approval : (mandate_id authorization_id : Text) → (amount now : ℕ) → Operation
  approver_entry : (mandate_id authorization_id : Text) → (amount now : ℕ) → Operation
  refunding : Text → (amount now : ℕ) → Operation
  saving : SaveAuthorizationInput → Operation
  settlement : SettleExternalInput → ℕ → Operation
  external_release : (mandate_id external_ref : Text) → ℕ → Operation

-- A call that throws leaves the store as it was.
abbrev pub after : Repository → Result Repository → Repository
after s (Result.ok s') = s'
after s (Result.thrown e) = s

abbrev pub after_settlement : Repository → Result (Repository × SettlementOutcome) → Repository
after_settlement s (Result.ok (s', o)) = s'
after_settlement s (Result.thrown e) = s

-- The store after a call, whether it throws or not.
abbrev pub run : Formatter → Operation → Repository → Repository
run intl (Operation.execution m id now) s = after s (record_execution intl s m id now)
run intl (Operation.step_up m id outcome now) s = after s (resolve_step_up intl s m id outcome now)
run intl (Operation.approval m id amount now) s =
    after s (record_step_up_approval_hold intl s m id amount now)
run intl (Operation.approver_entry m id amount now) s =
    record_approver_ledger_entry intl s m id amount now
run intl (Operation.refunding id amount now) s = after s (record_refund intl s id amount now)
run intl (Operation.saving i) s = (save_authorization intl s i).0
run intl (Operation.settlement i now) s =
    after_settlement s (settle_external_authorization intl s now i)
run intl (Operation.external_release m ref now) s =
    (release_external_authorization intl s now m ref).0

abbrev pub run_all : Formatter → List Operation → Repository → Repository
run_all intl [] s = s
run_all intl (op ∷ ops) s = run_all intl ops (run intl op s)

-- The statuses that an operation can give to a row.
pub data Moves : Operation → AuthorizationRow → AuthorizationStatus → Type 0 where
  stays : {op : Operation} {a : AuthorizationRow} → Moves op a a.status
  executes :
      {m id : Text} {now : ℕ} {a : AuthorizationRow}
      → is_executable a.status ≡ true
      → Moves (Operation.execution m id now) a AuthorizationStatus.executed
  resolves :
      {m id : Text} {o : StepUpOutcome} {now : ℕ} {a : AuthorizationRow}
      → is_pending a.status ≡ true
      → Moves (Operation.step_up m id o now) a (outcome_status o)
  settles :
      {i : SettleExternalInput} {now : ℕ} {a : AuthorizationRow}
      → is_named i.mandate_id i.external_ref a ≡ true
      → Moves (Operation.settlement i now) a AuthorizationStatus.executed
  lapses :
      {m ref : Text} {now : ℕ} {a : AuthorizationRow}
      → is_named m ref a ≡ true
      → is_executable a.status ≡ true
      → Moves (Operation.external_release m ref now) a AuthorizationStatus.expired

-- The row stays stored, with all but its status; where there is none, none appears.
abbrev pub StatusMoves : Operation → Option AuthorizationRow → Option AuthorizationRow → Type 0
StatusMoves op none o = o ≡ none
StatusMoves op (some a) none = ⊥
StatusMoves op (some a) (some b) = Moves op a b.status × (b ≡ record a { status = b.status })

-- The operation does not save an authorization of this id, as ids are generated afresh.
abbrev pub Spares : Text → Operation → Type 0
Spares k (Operation.saving i) = text_eq i.id k ≡ false
Spares k _ = Unit
