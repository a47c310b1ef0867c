-- ===== src/Execution/Payments.antt =====
-- apps/api/src/execution with apps/api/src/authorization: what an execution does to the books.
use waysafe.Prelude.{ℕ, ◌≡◌, refl, none, some, Text, txt}
use waysafe.Evidence.{EvidenceEvent, EvidenceStore, last_event, list_for_organization, new_event}
use waysafe.Evidence.Append.{last-append_event}
use waysafe.Ledger.{AuthorizationStatus, AuthorizationRow, Result, entries_of}
use waysafe.Ledger.Maps.{get}
use waysafe.Ledger.Execution.{IsSettled, record_execution-IsSettled}
use waysafe.Service.{Environment}
use waysafe.Execution.{
  ExecutableAuthorization, ExecutionResult, paid, declined, PaymentAdapter, ExecutionRepos,
  ExecutePaymentResult, executed, rejected, as_executable, execution_request, record_evidence,
  after_adapter, execute_payment,
}

-- The last event of the organization is of this type and about the authorization.
abbrev pub LastEvent : EvidenceStore → AuthorizationRow → Text → Type 0
LastEvent store a type =
    (e : EvidenceEvent) × (last_event (list_for_organization store a.organization_id) ≡ some e)
    × (e.type ≡ type)
    × (e.subject_id ≡ a.id)

abbrev pub executed_row : AuthorizationRow → AuthorizationRow
executed_row a = record a { status = AuthorizationStatus.executed }

-- What a call leaves, by the adapter's answer.
abbrev pub IsPaidOut :
    AuthorizationRow
    → ExecutionRepos
    → ExecutionResult
    → ExecutionRepos × Result ExecutePaymentResult
    → Type 0
IsPaidOut a repos (declined reason) (left, result) =
    (result ≡ Result.ok (rejected reason))
    × (left.authorization ≡ repos.authorization)
    × LastEvent left.evidence a (txt "execution.rejected")
IsPaidOut a repos (paid reference fee) (left, result) =
    (result ≡ Result.ok (executed (executed_row a)))
    × (get a.id left.authorization.authorizations ≡ some (executed_row a))
    × (as_executable (executed_row a) ≡ none)
    × IsSettled a.id a.action.amount (entries_of repos.authorization a.mandate_id)
        (entries_of left.authorization a.mandate_id)
    × LastEvent left.evidence a (txt "execution.completed")

-- The row of an execution is not executable again.
executed_row-none : (a : AuthorizationRow) → as_executable (executed_row a) ≡ none
unfolding as_executable
executed_row-none a = refl

module _ (env : Environment) (adapter : PaymentAdapter) (now : ℕ) where
  adapter-IsPaidOut :
      (repos : ExecutionRepos) (x : ExecutableAuthorization) (answer : ExecutionResult)
      → get x.authorization.id repos.authorization.authorizations ≡ some x.authorization
      → IsPaidOut x.authorization repos answer
          (after_adapter env adapter now x.authorization repos answer)
  unfolding after_adapter record_evidence new_event
  adapter-IsPaidOut repos x (declined reason) h =
      (refl, refl, (_, last-append_event env.node env.signer repos.evidence _, refl, refl))
  adapter-IsPaidOut repos x (paid reference fee) h =
      let a = x.authorization in
      let (s, done, row, books) =
        record_execution-IsSettled env.intl repos.authorization a.id a now h x.brand in
      rw (done, after_adapter)
        (rw row (
          refl,
          refl,
          executed_row-none a,
          books,
          (_, last-append_event env.node env.signer repos.evidence _, refl, refl),
        ))

  -- An executable authorization that is the stored one goes by the adapter's answer: where the adapter pays,
  -- the row becomes EXECUTED and is not executable again, its first reservation is released and its amount
  -- captured, and the last event tells of the execution; where it declines, the authorizations and the ledger
  -- stay as they are and the last event tells of the rejection.
  pub execute_payment-IsPaidOut :
      (repos : ExecutionRepos) (x : ExecutableAuthorization) (payment_method_ref : Text)
      → get x.authorization.id repos.authorization.authorizations ≡ some x.authorization
      → IsPaidOut x.authorization repos
          (adapter.execute (execution_request x.authorization payment_method_ref))
          (execute_payment env adapter now repos x payment_method_ref)
  unfolding execute_payment
  execute_payment-IsPaidOut repos x payment_method_ref h =
      adapter-IsPaidOut repos x
        (adapter.execute (execution_request x.authorization payment_method_ref)) h
