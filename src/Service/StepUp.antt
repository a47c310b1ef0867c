-- ===== src/Service/StepUp.antt =====
-- apps/api/src/authorization/service.ts: `resolveStepUpAsApprover` and `writeStepUpEvidence`. A step-up's event keeps the codes of its reasons; their prose is left out.
use waysafe.Prelude.{
  ℕ, Bool, false, not, Option, none, some, List, [], ◌∷◌, Text, txt, if◌then◌else◌, text_eq,
  includes, filter, is_empty, leb,
}
use waysafe.Prelude.Int.{ℤ, pos, pos_part, ◌-ℤ◌, ltb_ℤ}
use waysafe.Time.{Formatter}
use waysafe.Time.Keys.{window_keys}
use waysafe.Reason.{Decision, ReasonCode, Reason}
use waysafe.Merchant.Resolve.{truthy}
use waysafe.Engine.Types.{EngineResult}
use waysafe.Engine.Evaluate.{evaluate}
use waysafe.Engine.Cumulative.{is_cumulative}
use waysafe.Engine.Rollup.{LedgerEntryType}
use waysafe.Json.{
  Items, Fields, json_string, json_array, json_object, no_items, item, no_fields, field,
}
use waysafe.Wire.{reason_code_text, text_or_null}
use waysafe.Ledger.{
  AuthorizationRow, MandateRow, Repository, RepositoryError, Result, entries_of, timezone_of,
}
use waysafe.Ledger.Maps.{get}
use waysafe.Ledger.Operations.{
  StepUpOutcome, push_entry, with_entries, is_pending, get_authorization_hold, resolve_step_up,
  record_step_up_approval_hold,
}
use waysafe.Ledger.Gate.{
  MandateGateResult, open_for, closed, resolve_mandate_gate, authorized_mandate_gate,
}
use waysafe.Ledger.Snapshot.{get_spend_snapshot}
use waysafe.Service.{
  Environment, AuthorizeRepos, AgentKeyCheck, credential_ok, credential_refused, plain_reason,
  with_event, with_store, verify_agent_key,
}

-- `recordApproverLedgerEntry`
unfoldable pub record_approver_ledger_entry :
    Formatter → Repository → (mandate_id authorization_id : Text) → (amount now : ℕ) → Repository
record_approver_ledger_entry intl s mandate_id id amount now =
    with_entries mandate_id
      (push_entry mandate_id id LedgerEntryType.reservation (pos amount)
        (window_keys intl now (timezone_of s mandate_id)) now (entries_of s mandate_id))
      s

-- `ResolveStepUpAsApproverParams`
pub record ResolveStepUpParams : Type 0 where
  pub organization_id : Text
  pub step_up : AuthorizationRow
  pub approver_agent_id : Text
  pub approver_principal_id : Text
  pub approver_mandate_id : Option Text
  pub api_key : Text
  pub idempotency_key : Option Text
  pub now : ℕ

pub data ResolveStepUpResult : Type 0 where
  resolved : AuthorizationRow → ResolveStepUpResult
  rejected : List Reason → ResolveStepUpResult

-- What the callback under the two locks returns.
pub data LockResult : Type 0 where
  replayed : AuthorizationRow → LockResult
  settled : StepUpOutcome → AuthorizationRow → List Reason → LockResult

-- `step_up_expires_at && … <= now`
abbrev pub has_lapsed : Option ℕ → ℕ → Bool
has_lapsed none now = false
has_lapsed (some t) now = leb t now

abbrev pub code_items : List Reason → Items
code_items [] = no_items
code_items (r ∷ rs) =
    item (json_object (field (txt "code") (json_string (reason_code_text r.code)) no_fields))
      (code_items rs)

module _ (env : Environment) (p : ResolveStepUpParams) where
  unfoldable pub step_up_payload : Option Text → List Reason → Fields
  step_up_payload approver reasons = field (txt "authorization_id") (json_string p.step_up.id) (
      field (txt "original_mandate_id") (json_string p.step_up.mandate_id) (
        field (txt "approver_mandate_id") (text_or_null approver) (
          field (txt "reasons") (json_array (code_items reasons))
            (field (txt "idempotency_key") (text_or_null p.idempotency_key) no_fields))))

  -- The ids of the set, in its order.
  abbrev pub involved : Option Text → List Text
  involved none = p.step_up.mandate_id ∷ []
  involved (some approver) =
      if text_eq approver p.step_up.mandate_id
      then p.step_up.mandate_id ∷ []
      else p.step_up.mandate_id ∷ approver ∷ []

  abbrev pub append_each : Text → Fields → List Text → AuthorizeRepos → AuthorizeRepos
  append_each type payload [] repos = repos
  append_each type payload (id ∷ ids) repos =
      append_each type payload ids
        (with_event env p.organization_id type (txt "mandate") id payload p.now repos)

  unfoldable pub write_step_up_evidence :
      Text → Option Text → List Reason → AuthorizeRepos → AuthorizeRepos
  unfolding with_event step_up_payload
  write_step_up_evidence type approver reasons repos =
      append_each type (step_up_payload approver reasons) (involved (truthy approver)) repos

  -- A refused attempt, which leaves the step-up as it is.
  unfoldable pub reject :
      Option Text → List Reason → AuthorizeRepos → AuthorizeRepos × Result ResolveStepUpResult
  unfolding write_step_up_evidence
  reject approver reasons repos = (
    write_step_up_evidence (txt "step_up.resolution_rejected") approver reasons repos,
    Result.ok (rejected reasons),
  )

  abbrev pub updated_row : StepUpOutcome → List Reason → Option AuthorizationRow → Result LockResult
  updated_row outcome reasons none = Result.thrown RepositoryError.no_such_authorization
  updated_row outcome reasons (some row) = Result.ok (settled outcome row reasons)

  abbrev pub after_resolving :
      Repository → StepUpOutcome → List Reason → Result Repository → Repository × Result LockResult
  after_resolving s outcome reasons (Result.thrown e) = (s, Result.thrown e)
  after_resolving s outcome reasons (Result.ok s') =
      (s', updated_row outcome reasons (get p.step_up.id s'.authorizations))

  -- `repo.resolveStepUp(…)`, and the row that it returns.
  unfoldable pub settle : Repository → StepUpOutcome → List Reason → Repository × Result LockResult
  settle s outcome reasons =
      after_resolving s outcome reasons
        (resolve_step_up env.intl s p.step_up.mandate_id p.step_up.id outcome p.now)

  -- `evaluate` under a mandate, on its spend as it stands.
  unfoldable pub view_of : Repository → MandateRow → Text → ℕ → EngineResult
  view_of s m id amount = evaluate env.intl (record {
    policy = m.current_version.policy;
    action = record p.step_up.action { amount = amount };
    merchant = p.step_up.merchant;
    spend = get_spend_snapshot env.intl s id m.current_version.policy.accounting p.now none;
    now = p.now;
  })

  -- How much more an approval would hold.
  unfoldable pub incremental_hold : Repository → ℤ
  incremental_hold s =
      pos p.step_up.action.amount -ℤ get_authorization_hold s p.step_up.mandate_id p.step_up.id

  unfoldable pub cumulative_denial : Repository → MandateRow → List Reason
  unfolding view_of incremental_hold
  cumulative_denial s original =
      if ltb_ℤ (pos 0) (incremental_hold s)
      then filter (λ (r : Reason). is_cumulative r.code)
          (view_of s original p.step_up.mandate_id (pos_part (incremental_hold s))).reasons
      else []

  abbrev pub after_hold :
      Repository → List Reason → Result Repository → Repository × Result LockResult
  after_hold s reasons (Result.thrown e) = (s, Result.thrown e)
  after_hold s reasons (Result.ok s') = settle s' StepUpOutcome.approved reasons

  -- The approval: the approver's own entry, the hold on the spending mandate, and the status.
  unfoldable pub approve : Repository → MandateRow → List Reason → Repository × Result LockResult
  unfolding record_approver_ledger_entry settle
  approve s approver reasons =
      let t =
        record_approver_ledger_entry env.intl s approver.id p.step_up.id p.step_up.action.amount
          p.now in
      after_hold t reasons (
        record_step_up_approval_hold env.intl t p.step_up.mandate_id p.step_up.id
          p.step_up.action.amount p.now)

  abbrev pub by_verdict :
      Repository → MandateRow → EngineResult → Decision → Repository × Result LockResult
  by_verdict s approver result Decision.allow = approve s approver result.reasons
  by_verdict s approver result Decision.deny = settle s StepUpOutcome.declined result.reasons
  by_verdict s approver result Decision.step_up =
      settle s StepUpOutcome.declined (plain_reason ReasonCode.deny_approver_would_escalate ∷ [])

  -- The approver's own decision.
  unfoldable pub judge : Repository → MandateRow → Repository × Result LockResult
  unfolding approve view_of
  judge s approver =
      let result = view_of s approver approver.id p.step_up.action.amount in
      by_verdict s approver result result.decision

  -- From the spending mandate's own cap on.
  unfoldable pub check_cap : Repository → MandateRow → MandateRow → Repository × Result LockResult
  unfolding judge cumulative_denial settle
  check_cap s approver original =
      if is_empty (cumulative_denial s original)
      then judge s approver
      else settle s StepUpOutcome.declined (cumulative_denial s original)

  -- From the spending mandate's own authority on.
  abbrev pub check_original :
      Repository
      → MandateRow
      → Option MandateRow
      → Option ReasonCode
      → Repository × Result LockResult
  check_original s approver original (some code) =
      settle s StepUpOutcome.declined (plain_reason code ∷ [])
  check_original s approver none none = settle s StepUpOutcome.declined []
  check_original s approver (some m) none = check_cap s approver m

  -- From the fresh row on.
  abbrev pub check_fresh :
      Repository → MandateRow → Option AuthorizationRow → Repository × Result LockResult
  check_fresh s approver none = (s, Result.thrown RepositoryError.no_such_authorization)
  check_fresh s approver (some fresh) =
      if not (is_pending fresh.status)
      then (s, Result.ok (replayed fresh))
      else if has_lapsed fresh.step_up_expires_at p.now
      then settle s StepUpOutcome.expired (plain_reason ReasonCode.deny_step_up_expired ∷ [])
      else check_original s approver (get p.step_up.mandate_id s.mandates)
          (authorized_mandate_gate (get p.step_up.mandate_id s.mandates) p.now)

  -- The callback under the two mandates' locks.
  unfoldable pub resolve_locked : Repository → MandateRow → Repository × Result LockResult
  unfolding check_cap settle
  resolve_locked s approver = check_fresh s approver (get p.step_up.id s.authorizations)

  abbrev pub approvers_of : Option MandateRow → List Text
  approvers_of none = []
  approvers_of (some m) = m.current_version.policy.escalation.approvers

  abbrev outcome_event : StepUpOutcome → Text
  outcome_event StepUpOutcome.approved = txt "step_up.approved"
  outcome_event _ = txt "step_up.declined"

  -- The evidence that is written once the locks are released.
  abbrev pub after_lock :
      AuthorizeRepos
      → Text
      → Repository × Result LockResult
      → AuthorizeRepos × Result ResolveStepUpResult
  after_lock repos approver (s, Result.thrown e) = (with_store repos s, Result.thrown e)
  after_lock repos approver (s, Result.ok (replayed row)) =
      (with_store repos s, Result.ok (resolved row))
  after_lock repos approver (s, Result.ok (settled outcome row reasons)) = (
    write_step_up_evidence (outcome_event outcome) (some approver) reasons (with_store repos s),
    Result.ok (resolved row),
  )

  -- The two rules on the approver's mandate.
  unfoldable pub check_approver :
      AuthorizeRepos → MandateRow → AuthorizeRepos × Result ResolveStepUpResult
  unfolding resolve_locked reject
  check_approver repos m =
      if text_eq m.id p.step_up.mandate_id
      then reject (some m.id) (plain_reason ReasonCode.deny_step_up_self_approval ∷ []) repos
      else if not
          (includes (approvers_of (get p.step_up.mandate_id repos.authorization.mandates)) m.id)
      then reject (some m.id) (plain_reason ReasonCode.deny_mandate_not_an_approver ∷ []) repos
      else after_lock repos m.id (resolve_locked repos.authorization m)

  abbrev pub id_of : Option MandateRow → Option Text
  id_of none = none
  id_of (some m) = some m.id

  abbrev pub by_gate :
      AuthorizeRepos → MandateGateResult → AuthorizeRepos × Result ResolveStepUpResult
  by_gate repos (closed m code) = reject (id_of m) (plain_reason code ∷ []) repos
  by_gate repos (open_for m) = check_approver repos m

  abbrev pub approver_gate : Repository → MandateGateResult
  approver_gate s =
      resolve_mandate_gate
        (record {
          organization_id = p.organization_id;
          agent_id = p.approver_agent_id;
          principal_id = p.approver_principal_id;
          mandate_id = p.approver_mandate_id;
        })
        s

  abbrev pub by_key : AuthorizeRepos → AgentKeyCheck → AuthorizeRepos × Result ResolveStepUpResult
  by_key repos (credential_refused reasons) = reject none reasons repos
  by_key repos credential_ok = by_gate repos (approver_gate repos.authorization)

  abbrev pub approver_checked : AuthorizeRepos → AuthorizeRepos × AgentKeyCheck
  approver_checked repos =
      verify_agent_key env repos p.organization_id p.approver_agent_id p.api_key p.now

  unfoldable pub resolve_step_up_as_approver :
      AuthorizeRepos → AuthorizeRepos × Result ResolveStepUpResult
  unfolding check_approver reject
  resolve_step_up_as_approver repos = by_key (approver_checked repos).0 (approver_checked repos).1
