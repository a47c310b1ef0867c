-- ===== src/Ledger.antt =====
-- apps/api/src/authorization: the store of authorizations and ledger entries. Fields that are written
-- and never read back by an operation here (ids of ledger rows, provider, fees, names, intent texts)
-- are left out.
use waysafe.Prelude.{ℕ, Option, none, some, List, [], Text, txt}
use waysafe.Prelude.Int.{ℤ}
use waysafe.Reason.{Decision, Reason}
use waysafe.Policy.{Policy, ProposedAction}
use waysafe.Merchant.Types.{ResolvedMerchant}
use waysafe.Engine.Rollup.{LedgerEntryType}
use waysafe.Ledger.Maps.{Map, get}
pub mod Maps
pub mod Operations
pub mod Sums
pub mod Refunds
pub mod Execution
pub mod StepUp
pub mod Lifecycle
pub mod Gate
pub mod Access
pub mod Approvers
pub mod Save
pub mod Snapshot
pub mod Windows
pub mod Counts
pub mod Caps
pub mod Idempotency
pub mod External

pub data AuthorizationStatus : Type 0 where
  authorized denied pending_step_up step_up_approved : AuthorizationStatus
  step_up_declined expired executed : AuthorizationStatus

pub record LedgerEntryRow : Type 0 where
  pub mandate_id : Text
  pub authorization_id : Text
  pub type : LedgerEntryType
  pub amount : ℤ
  pub day_key : Text
  pub week_key : Text
  pub month_key : Text
  pub created_at : ℕ

pub data ActorKind : Type 0 where
  agent instrument : ActorKind

-- Instants stand for their ISO texts.
pub record AuthorizationRow : Type 0 where
  pub id : Text
  pub organization_id : Text
  pub actor_kind : ActorKind
  pub agent_id : Option Text
  pub instrument_id : Option Text
  pub principal_id : Text
  pub mandate_id : Text
  pub mandate_version_id : Text
  pub policy_hash : Text
  pub decision : Decision
  pub status : AuthorizationStatus
  pub reasons : List Reason
  pub action : ProposedAction
  pub merchant : ResolvedMerchant
  pub idempotency_key : Option Text
  pub request_hash : Option Text
  pub external_ref : Option Text
  pub external_revision : Option ℕ
  pub step_up_expires_at : Option ℕ
  pub created_at : ℕ
  pub decided_at : ℕ

pub data MandateStatus : Type 0 where
  draft pending_authentication active expired revoked superseded : MandateStatus

pub data AgentStatus : Type 0 where
  active suspended : AgentStatus

pub record AgentRow : Type 0 where
  pub id : Text
  pub organization_id : Text
  pub status : AgentStatus

pub record MandateVersionRow : Type 0 where
  pub id : Text
  pub policy : Policy
  pub policy_hash : Text
  pub authenticated_at : Option ℕ
  pub agent_ids : List Text

pub record MandateRow : Type 0 where
  pub id : Text
  pub organization_id : Text
  pub principal_id : Text
  pub status : MandateStatus
  pub current_version : MandateVersionRow

-- `InMemoryAuthorizationRepository`
pub record Repository : Type 0 where
  pub mandates : Map MandateRow
  pub agents : Map AgentRow
  pub ledger_by_mandate : Map (List LedgerEntryRow)
  pub authorizations : Map AuthorizationRow
  pub idempotency_index : Map Text

-- The errors that the operations throw.
pub data RepositoryError : Type 0 where
  no_such_authorization not_pending_step_up wrong_mandate not_executable : RepositoryError
  invalid_actor idempotency_key_claimed external_ref_conflict : RepositoryError
  no_external_authorization currency_mismatch : RepositoryError
  no_such_mandate wrong_version no_such_agent approver_cycle : RepositoryError

pub data Result (A : Type 0) : Type 0 where
  ok : A → Result A
  thrown : RepositoryError → Result A

-- `this.ledgerByMandate.get(mandateId) ?? []`
abbrev pub ledger_or_empty : Option (List LedgerEntryRow) → List LedgerEntryRow
ledger_or_empty none = []
ledger_or_empty (some es) = es

abbrev pub entries_of : Repository → Text → List LedgerEntryRow
entries_of s mandate_id = ledger_or_empty (get mandate_id s.ledger_by_mandate)

abbrev pub zone_or_utc : Option MandateRow → Text
zone_or_utc none = txt "UTC"
zone_or_utc (some m) = m.current_version.policy.accounting.timezone

-- `mandate?.currentVersion.policy.accounting.timezone ?? "UTC"`
abbrev pub timezone_of : Repository → Text → Text
timezone_of s mandate_id = zone_or_utc (get mandate_id s.mandates)
