-- ===== src/Execution.antt =====
-- apps/api/src/execution: `asExecutable` and `executePayment`, with the payment adapter
-- (packages/core/src/payment-adapter.ts) as a parameter, whose answer is a function of the request.
use waysafe.Prelude.{
  ℕ, ◌≡◌, refl, Bool, true, false, Option, none, some, List, [], ◌∷◌, ◌++◌, Text, txt,
}
use waysafe.Prelude.Int.{pos}
use waysafe.Json.{Fields, json_number, json_string, no_fields, field}
use waysafe.Wire.{currency_text}
use waysafe.Evidence.{EvidenceStore, append_event}
use waysafe.Ledger.{AuthorizationRow, Repository, RepositoryError, Result}
use waysafe.Ledger.Maps.{get}
use waysafe.Ledger.Operations.{is_executable, record_execution}
use waysafe.Service.{Environment}
pub mod Payments

-- The brand is the status that `asExecutable` has seen.
pub record ExecutableAuthorization : Type 0 where
  pub authorization : AuthorizationRow
  pub brand : is_executable authorization.status ≡ true

-- `EXECUTABLE_STATUSES` are those of `is_executable`.
abbrev pub branded :
    (a : AuthorizationRow) (b : Bool) → is_executable a.status ≡ b → Option ExecutableAuthorization
branded a true e = some (record { authorization = a; brand = e })
branded a false e = none

unfoldable pub as_executable : AuthorizationRow → Option ExecutableAuthorization
as_executable a = branded a (is_executable a.status) refl

pub record ExecutionRequest : Type 0 where
  pub authorization_id : Text
  pub amount : ℕ
  pub currency : Text
  pub payment_method_ref : Text
  pub idempotency_key : Text

pub data ExecutionResult : Type 0 where
  paid : (provider_reference : Text) → (provider_fee : ℕ) → ExecutionResult
  declined : (reason : Text) → ExecutionResult

pub record PaymentAdapter : Type 0 where
  pub name : Text
  pub execute : ExecutionRequest → ExecutionResult

pub record ExecutionRepos : Type 0 where
  pub authorization : Repository
  pub evidence : EvidenceStore

pub data ExecutePaymentResult : Type 0 where
  executed : AuthorizationRow → ExecutePaymentResult
  rejected : (reason : Text) → ExecutePaymentResult

-- What the adapter is asked.
unfoldable pub execution_request : AuthorizationRow → Text → ExecutionRequest
execution_request a payment_method_ref = record {
  authorization_id = a.id;
  amount = a.action.amount;
  currency = currency_text a.action.currency;
  payment_method_ref = payment_method_ref;
  idempotency_key = txt "execute:" ++ a.id;
}

abbrev pub rejected_payload : Text → Text → Fields
rejected_payload provider reason =
    field (txt "provider") (json_string provider)
      (field (txt "reason") (json_string reason) no_fields)

abbrev pub completed_payload : Text → Text → ℕ → Fields
completed_payload provider reference fee = field (txt "provider") (json_string provider) (
    field (txt "provider_reference") (json_string reference)
      (field (txt "provider_fee") (json_number (pos fee)) no_fields))

module _ (env : Environment) (adapter : PaymentAdapter) (now : ℕ) where
  unfoldable pub record_evidence :
      AuthorizationRow → Text → Fields → ExecutionRepos → ExecutionRepos
  record_evidence a type payload repos = record repos {
    evidence = append_event env.node env.signer repos.evidence (record {
      organization_id = a.organization_id;
      type = type;
      subject_type = txt "authorization";
      subject_id = a.id;
      payload = payload;
      now = now;
    });
  }

  abbrev pub updated : AuthorizationRow → Option AuthorizationRow → Result ExecutePaymentResult
  updated a none = Result.thrown RepositoryError.no_such_authorization
  updated a (some row) = Result.ok (executed row)

  -- From `recordExecution` on.
  abbrev pub after_execution :
      AuthorizationRow
      → Fields
      → ExecutionRepos
      → Result Repository
      → ExecutionRepos × Result ExecutePaymentResult
  after_execution a payload repos (Result.thrown e) = (repos, Result.thrown e)
  after_execution a payload repos (Result.ok s) = (
    record_evidence a (txt "execution.completed") payload (record repos { authorization = s }),
    updated a (get a.id s.authorizations),
  )

  -- From the adapter's answer on.
  unfoldable pub after_adapter :
      AuthorizationRow
      → ExecutionRepos
      → ExecutionResult
      → ExecutionRepos × Result ExecutePaymentResult
  unfolding record_evidence
  after_adapter a repos (declined reason) = (
    record_evidence a (txt "execution.rejected") (rejected_payload adapter.name reason) repos,
    Result.ok (rejected reason),
  )
  after_adapter a repos (paid reference fee) =
      after_execution a (completed_payload adapter.name reference fee) repos
        (record_execution env.intl repos.authorization a.mandate_id a.id now)

  unfoldable pub execute_payment :
      ExecutionRepos
      → ExecutableAuthorization
      → (payment_method_ref : Text) → ExecutionRepos × Result ExecutePaymentResult
  unfolding after_adapter execution_request
  execute_payment repos executable payment_method_ref =
      let a = executable.authorization in
      after_adapter a repos (adapter.execute (execution_request a payment_method_ref))
