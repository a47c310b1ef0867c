-- ===== src/Ledger/Gate.antt =====
-- apps/api/src/authorization/in-memory-repository.ts: `resolveMandateGate`, `findActiveMandate`; and
-- apps/api/src/authorization/mandate-gate.ts.
use waysafe.Prelude.{
  ℕ, Bool, true, false, not, ◌&&◌, Option, none, some, [], ◌∷◌, Text, if◌then◌else◌, text_eq,
  includes, is_some, ltb,
}
use waysafe.Reason.{ReasonCode}
use waysafe.Merchant.Resolve.{truthy}
use waysafe.Ledger.{MandateStatus, AgentStatus, AgentRow, MandateRow, Repository}
use waysafe.Ledger.Maps.{Map, get}

pub record ResolveMandateInput : Type 0 where
  pub organization_id : Text
  pub agent_id : Text
  pub principal_id : Text
  pub mandate_id : Option Text

-- The mandate of the positive result; or the mandate that a refusal still names, and the code of its one
-- reason.
pub data MandateGateResult : Type 0 where
  open_for : MandateRow → MandateGateResult
  closed : Option MandateRow → ReasonCode → MandateGateResult

abbrev pub is_active : MandateStatus → Bool
is_active MandateStatus.active = true
is_active _ = false

abbrev pub is_active_agent : AgentStatus → Bool
is_active_agent AgentStatus.active = true
is_active_agent AgentStatus.suspended = false

-- `statusCode[mandate.status]`, on a status that is not ACTIVE; the fallback is never taken then.
unfoldable pub status_code : MandateStatus → ReasonCode
status_code MandateStatus.revoked = ReasonCode.deny_mandate_revoked
status_code MandateStatus.expired = ReasonCode.deny_mandate_expired
status_code MandateStatus.superseded = ReasonCode.deny_mandate_superseded
status_code MandateStatus.draft = ReasonCode.deny_mandate_not_authenticated
status_code MandateStatus.pending_authentication = ReasonCode.deny_mandate_not_authenticated
status_code MandateStatus.active = ReasonCode.deny_no_active_mandate

-- The test of one round of `findActiveMandate`.
abbrev pub serves : ResolveMandateInput → MandateRow → Bool
serves input m =
    text_eq m.organization_id input.organization_id
    && (text_eq m.principal_id input.principal_id
        && (is_active m.status && includes m.current_version.agent_ids input.agent_id))

unfoldable pub find_active_mandate : ResolveMandateInput → Map MandateRow → Option MandateRow
find_active_mandate input [] = none
find_active_mandate input ((k, m) ∷ ms) =
    if serves input m then some m else find_active_mandate input ms

abbrev pub named_or_active : Option Text → ResolveMandateInput → Repository → Option MandateRow
named_or_active (some id) input s = get id s.mandates
named_or_active none input s = find_active_mandate input s.mandates

-- The guards on the agent.
unfoldable pub gate_agent : ResolveMandateInput → MandateRow → Option AgentRow → MandateGateResult
gate_agent input m none = closed (some m) ReasonCode.deny_agent_not_bound
gate_agent input m (some a) =
    if not (
      text_eq a.organization_id input.organization_id
      && includes m.current_version.agent_ids input.agent_id)
    then closed (some m) ReasonCode.deny_agent_not_bound
    else if not (is_active_agent a.status)
    then closed (some m) ReasonCode.deny_agent_suspended
    else open_for m

-- The guards on the mandate.
unfoldable pub gate_mandate : ResolveMandateInput → Repository → MandateRow → MandateGateResult
unfolding gate_agent status_code
gate_mandate input s m =
    if not (text_eq m.organization_id input.organization_id)
    then closed none ReasonCode.deny_no_active_mandate
    else if not (text_eq m.principal_id input.principal_id)
    then closed (some m) ReasonCode.deny_principal_mismatch
    else if not (is_active m.status)
    then closed (some m) (status_code m.status)
    else if not (is_some m.current_version.authenticated_at)
    then closed (some m) ReasonCode.deny_mandate_not_authenticated
    else gate_agent input m (get input.agent_id s.agents)

unfoldable pub resolve_mandate_gate : ResolveMandateInput → Repository → MandateGateResult
unfolding gate_mandate find_active_mandate
resolve_mandate_gate input s = elim (named_or_active (truthy input.mandate_id) input s) [
  | none ↦ closed none ReasonCode.deny_no_active_mandate
  | some m ↦ gate_mandate input s m
]

-- `gateMandateStatus`: the code of its one reason.
unfoldable pub gate_mandate_status : Option MandateRow → Option ReasonCode
unfolding status_code
gate_mandate_status none = some ReasonCode.deny_no_active_mandate
gate_mandate_status (some m) = if is_active m.status then none else some (status_code m.status)

-- `now.getTime() < new Date(expires_at).getTime()`, false where the latter is NaN.
abbrev pub lives_at : ℕ → Option ℕ → Bool
lives_at now none = false
lives_at now (some t) = ltb now t

-- `gateMandateExpiry`: the code of its one reason.
unfoldable pub gate_mandate_expiry : Option MandateRow → ℕ → Option ReasonCode
gate_mandate_expiry none now = none
gate_mandate_expiry (some m) now =
    if lives_at now m.current_version.policy.expires_at
    then none
    else some ReasonCode.deny_mandate_expired

-- `a ?? b`
abbrev pub first_reason : Option ReasonCode → Option ReasonCode → Option ReasonCode
first_reason (some r) other = some r
first_reason none other = other

-- `gateMandateStatus(mandate) ?? gateMandateExpiry(mandate, now)` of `withAuthorizedMandate`.
unfoldable pub authorized_mandate_gate : Option MandateRow → ℕ → Option ReasonCode
unfolding gate_mandate_status gate_mandate_expiry
authorized_mandate_gate m now = first_reason (gate_mandate_status m) (gate_mandate_expiry m now)
