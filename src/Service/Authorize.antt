-- ===== src/Service/Authorize.antt =====
-- apps/api/src/authorization/service.ts: `authorize`.
use waysafe.Prelude.{ℕ, true, false, not, Option, none, some, List, [], ◌∷◌, Text, if◌then◌else◌}
use waysafe.Prelude.Int.{pos}
use waysafe.Reason.{Decision, ReasonCode, Reason}
use waysafe.Merchant.Types.{MerchantAttestationSource, ResolvedMerchant}
use waysafe.Merchant.Resolve.{truthy, resolve_merchant}
use waysafe.Engine.Types.{EngineInput, EngineResult}
use waysafe.Engine.Evaluate.{evaluate}
use waysafe.Engine.Rollup.{LedgerEntryType}
use waysafe.Evidence.{option_text_eq}
use waysafe.Ledger.{ActorKind, AuthorizationRow, MandateRow, Repository, Result}
use waysafe.Ledger.Maps.{get}
use waysafe.Ledger.Gate.{
  ResolveMandateInput, MandateGateResult, open_for, closed, resolve_mandate_gate,
  authorized_mandate_gate,
}
use waysafe.Ledger.Save.{NewLedgerEntry, SaveAuthorizationInput, find_by_idempotency_key}
use waysafe.Ledger.Snapshot.{get_spend_snapshot}
use waysafe.Service.{
  Environment, AuthorizeRepos, AuthorizeParams, AuthorizeResult, decided, idempotency_conflict,
  no_mandate, AgentKeyCheck, credential_ok, credential_refused, hash_authorization_request,
  plain_reason, record_decision, verify_agent_key, status_for_decision, should_reserve,
  step_up_deadline,
}

-- What a stored authorization answers to a request with its key.
unfoldable pub answer : AuthorizationRow → Text → AuthorizeResult
answer existing request_hash =
    if not (option_text_eq existing.request_hash (some request_hash))
    then idempotency_conflict existing
    else decided existing true

abbrev pub answer_found : Option AuthorizationRow → Text → Option AuthorizeResult
answer_found none request_hash = none
answer_found (some existing) request_hash = some (answer existing request_hash)

-- The lookup of the idempotency key, which `authorize` makes twice.
unfoldable pub replay : Repository → Text → Option Text → Text → Option AuthorizeResult
unfolding answer
replay s organization_id none request_hash = none
replay s organization_id (some key) request_hash =
    answer_found (find_by_idempotency_key s organization_id key) request_hash

abbrev pub map_result : {A B : Type 0} → (A → B) → Result A → Result B
map_result f (Result.ok a) = Result.ok (f a)
map_result f (Result.thrown e) = Result.thrown e

abbrev pub decided_now : AuthorizationRow → AuthorizeResult
decided_now a = decided a false

module _ (env : Environment) (p : AuthorizeParams) where
  unfoldable pub request_hash : Text
  request_hash = hash_authorization_request env.node p.request

  unfoldable pub merchant : ResolvedMerchant
  merchant =
      resolve_merchant p.request.action.merchant env.directory MerchantAttestationSource.agent
        p.clock

  -- The input of `recordDecision` for a decision under a mandate.
  unfoldable pub decision_input :
      MandateRow → EngineResult → Option ℕ → List NewLedgerEntry → SaveAuthorizationInput
  unfolding request_hash merchant
  decision_input m result step_up_expires_at ledger_entries = record {
    id = p.id;
    organization_id = p.organization_id;
    actor_kind = ActorKind.agent;
    agent_id = some p.request.agent_id;
    instrument_id = none;
    principal_id = p.request.principal_id;
    mandate_id = m.id;
    mandate_version_id = m.current_version.id;
    policy_hash = m.current_version.policy_hash;
    decision = result.decision;
    status = status_for_decision result.decision;
    reasons = result.reasons;
    action = p.request.action;
    merchant = merchant;
    idempotency_key = p.request.idempotency_key;
    request_hash = some request_hash;
    external_ref = none;
    external_revision = none;
    step_up_expires_at = step_up_expires_at;
    now = p.now;
    ledger_entries = ledger_entries;
  }

  abbrev pub finish :
      AuthorizeRepos × Result AuthorizationRow → AuthorizeRepos × Result AuthorizeResult
  finish (repos, r) = (repos, map_result decided_now r)

  -- The DENY that is persisted ahead of the engine.
  unfoldable pub refuse :
      AuthorizeRepos → MandateRow → List Reason → AuthorizeRepos × Result AuthorizeResult
  unfolding decision_input status_for_decision
  refuse repos m reasons = finish (
      record_decision env repos
        (decision_input m (record { decision = Decision.deny; reasons = reasons }) none []))

  -- What `evaluate` is given under the lock.
  unfoldable pub engine_input : AuthorizeRepos → MandateRow → EngineInput
  unfolding merchant
  engine_input repos m = record {
    policy = m.current_version.policy;
    action = p.request.action;
    merchant = merchant;
    spend =
        get_spend_snapshot env.intl repos.authorization m.id m.current_version.policy.accounting
          p.now none;
    now = p.now;
  }

  abbrev pub gated_result : AuthorizeRepos → MandateRow → Option ReasonCode → EngineResult
  gated_result repos m (some code) = record {
    decision = Decision.deny;
    reasons = plain_reason code ∷ [];
  }
  gated_result repos m none = evaluate env.intl (engine_input repos m)

  unfoldable pub decide_result : AuthorizeRepos → MandateRow → EngineResult
  unfolding engine_input
  decide_result repos m =
      gated_result repos m (authorized_mandate_gate (get m.id repos.authorization.mandates) p.now)

  unfoldable pub reservation_for : MandateRow → Decision → List NewLedgerEntry
  reservation_for m decision =
      if should_reserve decision m.current_version.policy.accounting.reserve_on_step_up
      then record { type = LedgerEntryType.reservation; amount = pos p.request.action.amount } ∷ []
      else []

  -- The decision under the mandate's lock, after the second lookup of the key.
  unfoldable pub decide : AuthorizeRepos → MandateRow → AuthorizeRepos × Result AuthorizeResult
  unfolding decide_result reservation_for decision_input
  decide repos m =
      let result = decide_result repos m in
      finish (
        record_decision env repos (
          decision_input m result (step_up_deadline result.decision m.current_version.policy p.now)
            (reservation_for m result.decision)))

  abbrev pub replay_now : AuthorizeRepos → Option AuthorizeResult
  replay_now repos =
      replay repos.authorization p.organization_id (truthy p.request.idempotency_key) request_hash

  -- The callback under the mandate's lock.
  unfoldable pub under_lock : AuthorizeRepos → MandateRow → AuthorizeRepos × Result AuthorizeResult
  unfolding decide request_hash
  under_lock repos m = elim (replay_now repos) [
    | none ↦ decide repos m
    | some result ↦ (repos, Result.ok result)
  ]

  abbrev pub shown : AgentKeyCheck → ReasonCode → List Reason
  shown credential_ok code = plain_reason code ∷ []
  shown (credential_refused reasons) code = reasons

  -- From the two checks on: the gate's result, and what `verifyAgentKey` says.
  unfoldable pub after_checks :
      AuthorizeRepos → MandateGateResult → AgentKeyCheck → AuthorizeRepos × Result AuthorizeResult
  unfolding refuse under_lock
  after_checks repos (closed none code) check =
      (repos, Result.ok (no_mandate (plain_reason code ∷ [])))
  after_checks repos (closed (some m) code) check = refuse repos m (shown check code)
  after_checks repos (open_for m) (credential_refused reasons) = refuse repos m reasons
  after_checks repos (open_for m) credential_ok = under_lock repos m

  abbrev pub gate_input : ResolveMandateInput
  gate_input = record {
    organization_id = p.organization_id;
    agent_id = p.request.agent_id;
    principal_id = p.request.principal_id;
    mandate_id = p.request.mandate_id;
  }

  abbrev pub checked : AuthorizeRepos → AuthorizeRepos × AgentKeyCheck
  checked repos = verify_agent_key env repos p.organization_id p.request.agent_id p.api_key p.now

  unfoldable pub authorize : AuthorizeRepos → AuthorizeRepos × Result AuthorizeResult
  unfolding after_checks request_hash
  authorize repos = elim (replay_now repos) [
    | none ↦
        after_checks (checked repos).0 (resolve_mandate_gate gate_input repos.authorization)
          (checked repos).1
    | some result ↦ (repos, Result.ok result)
  ]
