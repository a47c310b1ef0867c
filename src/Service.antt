-- ===== src/Service.antt =====
-- apps/api/src/authorization/service.ts: `authorize` and what it calls, one call at a time: a lock runs its
-- callback. A call that throws leaves the writes that it made before.
use waysafe.Prelude.{
  ℕ, ◌+◌, ◌*◌, Bool, true, false, not, ◌&&◌, Option, none, some, List, [], ◌∷◌, Text, txt,
  if◌then◌else◌, is_some, any, text_eq,
}
use waysafe.Prelude.Int.{pos}
use waysafe.Time.{Formatter}
use waysafe.Reason.{Decision, ReasonCode, Reason}
use waysafe.Policy.{Policy, ProposedAction}
use waysafe.Merchant.Types.{MerchantDirectory, MerchantAttestationSource, ResolvedMerchant}
use waysafe.Merchant.Resolve.{truthy, resolve_merchant}
use waysafe.Engine.Types.{EngineInput, EngineResult}
use waysafe.Engine.Evaluate.{evaluate}
use waysafe.Engine.Rollup.{LedgerEntryType}
use waysafe.Json.{
  Json, Fields, json_null, json_boolean, json_number, json_string, json_array, json_object,
  no_fields, field, sort_keys_deep, stringify,
}
use waysafe.Wire.{
  decision_text, reason_code_items, currency_text, text_or_null, resolved_merchant_json, map_option,
  action_json,
}
use waysafe.Evidence.{Platform, EvidenceSigner, EvidenceStore, append_event, option_text_eq}
use waysafe.AgentKeys.{
  AgentKeys, AgentKeyVerification, KeyFailure, key_ok, key_failed, extract_key_prefix, verify_key,
}
use waysafe.Ledger.{
  AuthorizationStatus, ActorKind, AuthorizationRow, MandateRow, Repository, Result,
}
use waysafe.Ledger.Maps.{get}
use waysafe.Ledger.Operations.{is_reservation}
use waysafe.Ledger.Gate.{
  ResolveMandateInput, MandateGateResult, open_for, closed, resolve_mandate_gate,
  authorized_mandate_gate,
}
use waysafe.Ledger.Save.{
  NewLedgerEntry, SaveAuthorizationInput, save_authorization, find_by_idempotency_key,
}
use waysafe.Ledger.Snapshot.{get_spend_snapshot}
pub mod Authorize
pub mod Sound
pub mod Grant
pub mod Limits
pub mod Replay
pub mod Record
pub mod Receipts
pub mod StepUp
pub mod Settling
pub mod Sweep
pub mod Approval
pub mod Boundary

-- What the service is given: Node, the calendar, the signer and the merchant directory.
pub record Environment : Type 0 where
  pub intl : Formatter
  pub node : Platform
  pub signer : EvidenceSigner
  pub directory : MerchantDirectory

-- `AuthorizeRepos`
pub record AuthorizeRepos : Type 0 where
  pub authorization : Repository
  pub agent_keys : AgentKeys
  pub evidence : EvidenceStore

pub record AuthorizationRequest : Type 0 where
  pub agent_id : Text
  pub principal_id : Text
  pub mandate_id : Option Text
  pub action : ProposedAction
  pub idempotency_key : Option Text

-- `AuthorizeParams`, with the id that is generated where none is given, and the instant of `new Date()`.
pub record AuthorizeParams : Type 0 where
  pub organization_id : Text
  pub request : AuthorizationRequest
  pub now : ℕ
  pub api_key : Text
  pub id : Text
  pub clock : ℕ

pub data AuthorizeResult : Type 0 where
  decided : AuthorizationRow → (replayed : Bool) → AuthorizeResult
  idempotency_conflict : AuthorizationRow → AuthorizeResult
  no_mandate : List Reason → AuthorizeResult

unfoldable pub hash_authorization_request : Platform → AuthorizationRequest → Text
hash_authorization_request node r = node.sha256 (
    stringify (
      json_object (
        field (txt "agent_id") (json_string r.agent_id) (
          field (txt "principal_id") (json_string r.principal_id) (
            field (txt "mandate_id") (text_or_null r.mandate_id)
              (field (txt "action") (sort_keys_deep (action_json r.action)) no_fields))))))

abbrev pub plain_reason : ReasonCode → Reason
plain_reason code = record { code = code; policy_path = none }

abbrev pub actor_text : ActorKind → Text
actor_text ActorKind.agent = txt "agent"
actor_text ActorKind.instrument = txt "instrument"

-- `entry.type === "RESERVATION"`
abbrev pub reserves : NewLedgerEntry → Bool
reserves e = is_reservation e.type

-- The payload of an `authorization.decided` event.
unfoldable pub decision_payload : Platform → SaveAuthorizationInput → AuthorizationRow → Fields
decision_payload node i a = field (txt "decision") (json_string (decision_text a.decision)) (
    field (txt "reason_codes") (json_array (reason_code_items a.reasons)) (
      field (txt "amount") (json_number (pos a.action.amount)) (
        field (txt "currency") (json_string (currency_text a.action.currency)) (
          field (txt "mandate_id") (json_string i.mandate_id) (
            field (txt "mandate_version_id") (json_string i.mandate_version_id) (
              field (txt "policy_hash") (json_string i.policy_hash) (
                field (txt "actor_kind") (json_string (actor_text i.actor_kind)) (
                  field (txt "agent_id") (text_or_null i.agent_id) (
                    field (txt "principal_id") (json_string i.principal_id) (
                      field (txt "merchant") (resolved_merchant_json node.to_iso_string a.merchant)
                        (field (txt "reserved") (json_boolean (any reserves i.ledger_entries)) (
                          field (txt "step_up_expires_at")
                            (text_or_null (map_option node.to_iso_string i.step_up_expires_at))
                            no_fields))))))))))))

-- The events of an organization after one more.
unfoldable pub with_event :
    Environment
    → (organization_id type subject_type subject_id : Text) → Fields
    → ℕ
    → AuthorizeRepos
    → AuthorizeRepos
with_event env organization_id type subject_type subject_id payload now repos = record repos {
  evidence = append_event env.node env.signer repos.evidence (record {
    organization_id = organization_id;
    type = type;
    subject_type = subject_type;
    subject_id = subject_id;
    payload = payload;
    now = now;
  });
}

abbrev pub with_store : AuthorizeRepos → Repository → AuthorizeRepos
with_store repos s = record repos { authorization = s }

module _ (env : Environment) where
  -- `recordDecision`, from what `saveAuthorization` gives on.
  unfoldable pub after_save :
      AuthorizeRepos
      → SaveAuthorizationInput
      → Repository × Result AuthorizationRow
      → AuthorizeRepos × Result AuthorizationRow
  unfolding with_event
  after_save repos i (s, Result.thrown e) = (with_store repos s, Result.thrown e)
  after_save repos i (s, Result.ok a) = (
    with_event env i.organization_id (txt "authorization.decided") (txt "authorization") a.id
        (decision_payload env.node i a) i.now (with_store repos s),
    Result.ok a,
  )

  unfoldable pub record_decision :
      AuthorizeRepos → SaveAuthorizationInput → AuthorizeRepos × Result AuthorizationRow
  unfolding after_save
  record_decision repos i = after_save repos i (save_authorization env.intl repos.authorization i)

-- `AgentKeyCheck`
pub data AgentKeyCheck : Type 0 where
  credential_ok : AgentKeyCheck
  credential_refused : List Reason → AgentKeyCheck

pub data KeyOutcome : Type 0 where
  verified not_found revoked org_mismatch agent_mismatch : KeyOutcome

abbrev pub failure_outcome : KeyFailure → KeyOutcome
failure_outcome KeyFailure.not_found = KeyOutcome.not_found
failure_outcome KeyFailure.revoked = KeyOutcome.revoked

abbrev pub outcome_text : KeyOutcome → Text
outcome_text KeyOutcome.verified = txt "verified"
outcome_text KeyOutcome.not_found = txt "not_found"
outcome_text KeyOutcome.revoked = txt "revoked"
outcome_text KeyOutcome.org_mismatch = txt "org_mismatch"
outcome_text KeyOutcome.agent_mismatch = txt "agent_mismatch"

unfoldable pub key_outcome :
    AgentKeyVerification → (organization_id claimed_agent_id : Text) → KeyOutcome
key_outcome (key_failed reason) organization_id claimed = failure_outcome reason
key_outcome (key_ok row) organization_id claimed =
    if not (text_eq row.organization_id organization_id)
    then KeyOutcome.org_mismatch
    else if not (option_text_eq row.agent_id (some claimed))
    then KeyOutcome.agent_mismatch
    else KeyOutcome.verified

abbrev pub key_check : KeyOutcome → AgentKeyCheck
key_check KeyOutcome.verified = credential_ok
key_check _ = credential_refused (plain_reason ReasonCode.deny_agent_not_bound ∷ [])

abbrev pub key_event_type : KeyOutcome → Text
key_event_type KeyOutcome.verified = txt "agent_key.verified"
key_event_type _ = txt "agent_key.rejected"

abbrev pub or_claimed : Text → Option Text → Text
or_claimed claimed none = claimed
or_claimed claimed (some agent_id) = agent_id

abbrev pub key_subject : AgentKeyVerification → Text → Text
key_subject (key_failed reason) claimed = claimed
key_subject (key_ok row) claimed = or_claimed claimed (truthy row.agent_id)

unfoldable pub verify_agent_key :
    Environment
    → AuthorizeRepos
    → (organization_id claimed_agent_id api_key : Text) → ℕ
    → AuthorizeRepos × AgentKeyCheck
unfolding key_outcome with_event
verify_agent_key env repos organization_id claimed api_key now =
    let verification = (verify_key env.node.sha256 repos.agent_keys api_key now).1 in
    let outcome = key_outcome verification organization_id claimed in
    let payload =
      field (txt "key_prefix") (text_or_null (extract_key_prefix api_key))
        (field (txt "outcome") (json_string (outcome_text outcome)) no_fields) in
    (
      with_event env organization_id (key_event_type outcome) (txt "agent")
          (key_subject verification claimed) payload now
          (record repos {
            agent_keys = (verify_key env.node.sha256 repos.agent_keys api_key now).0;
          }),
      key_check outcome,
    )

unfoldable pub status_for_decision : Decision → AuthorizationStatus
status_for_decision Decision.allow = AuthorizationStatus.authorized
status_for_decision Decision.deny = AuthorizationStatus.denied
status_for_decision Decision.step_up = AuthorizationStatus.pending_step_up

unfoldable pub should_reserve : Decision → Bool → Bool
should_reserve Decision.allow reserve_on_step_up = true
should_reserve Decision.step_up reserve_on_step_up = reserve_on_step_up
should_reserve Decision.deny reserve_on_step_up = false

abbrev pub step_up_deadline : Decision → Policy → ℕ → Option ℕ
step_up_deadline Decision.step_up policy now = some (now + policy.step_up.ttl_seconds * 1000)
step_up_deadline _ policy now = none
