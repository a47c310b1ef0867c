-- ===== src/Tests/Ledgers.antt =====
-- apps/api/src/authorization/in-memory-repository.ts: the theorems at a sample store.
use waysafe.Prelude.{List, false, All, includes, ◌≡◌, ◌↔◌, true, refl, none, some, [], ◌∷◌, txt}
use waysafe.Prelude.Int.{pos, ◌+ℤ◌, ◌-ℤ◌}
use waysafe.Reason.{Decision}
use waysafe.Merchant.Types.{MerchantAttestationSource}
use waysafe.Merchant.Resolve.{resolve_merchant}
use waysafe.Engine.Rollup.{LedgerEntryType}
use waysafe.Ledger.{
  ActorKind, MandateRow, MandateStatus, AgentStatus, AuthorizationStatus, AuthorizationRow,
  LedgerEntryRow, Repository, Result, entries_of,
}
use waysafe.Ledger.Maps.{get, set}
use waysafe.Ledger.Operations.{
  StepUpOutcome, execute, executed_entries, record_execution, resolve_step_up, record_refund,
  refund, captured_amount, add_up, get_authorization_hold,
}
use waysafe.Ledger.Execution.{record_execution_twice}
use waysafe.Ledger.Refunds.{IsRefunded, record_refund-IsRefunded, record_refund_twice}
use waysafe.Ledger.StepUp.{IsResolved, resolve_step_up-IsResolved}
use waysafe.Ledger.Gate.{
  ResolveMandateInput, open_for, named_or_active, resolve_mandate_gate, authorized_mandate_gate,
  is_active, find_active_mandate, gate_mandate, gate_agent,
}
use waysafe.Ledger.Access.{MayAct, resolve_mandate_gate-open_iff, authorized_mandate_gate-none_iff}
use waysafe.Engine.Spec.{IsLive}
use waysafe.Policy.{Policy}
use waysafe.Ledger.Approvers.{check_approver_cycle, IsNotNamedBy, check_approver_cycle-false_iff}
use waysafe.Ledger.Lifecycle.{Operation, run, run_all, StatusMoves}
use waysafe.Ledger.Lifecycle.Steps.{run-StatusMoves}
use waysafe.Ledger.Lifecycle.Final.{IsLeft, run_all_final}
use waysafe.Tests.Samples.{tuesday, policy, action, directory, staples_assertion}

abbrev pub row : AuthorizationStatus → AuthorizationRow
row status = record {
  id = txt "a1";
  organization_id = txt "o1";
  actor_kind = ActorKind.agent;
  agent_id = some (txt "g1");
  instrument_id = none;
  principal_id = txt "p1";
  mandate_id = txt "m1";
  mandate_version_id = txt "v1";
  policy_hash = txt "h";
  decision = Decision.allow;
  status = status;
  reasons = [];
  action = action;
  merchant = resolve_merchant staples_assertion directory MerchantAttestationSource.agent 0;
  idempotency_key = none;
  request_hash = none;
  external_ref = none;
  external_revision = none;
  step_up_expires_at = none;
  created_at = 0;
  decided_at = 0;
}

abbrev pub mandate : MandateRow
mandate = record {
  id = txt "m1";
  organization_id = txt "o1";
  principal_id = txt "p1";
  status = MandateStatus.active;
  current_version = record {
    id = txt "v1";
    policy = policy;
    policy_hash = txt "h";
    authenticated_at = some 1;
    agent_ids = txt "g1" ∷ [];
  };
}

abbrev pub held : LedgerEntryRow
held = record {
  mandate_id = txt "m1";
  authorization_id = txt "a1";
  type = LedgerEntryType.reservation;
  amount = pos 4000;
  day_key = txt "2026-09-08";
  week_key = txt "2026-W37";
  month_key = txt "2026-09";
  created_at = 0;
}

-- A mandate with one authorization and its reservation.
abbrev pub store : AuthorizationStatus → Repository
store status = record {
  mandates = (txt "m1", mandate) ∷ [];
  agents =
      (txt "g1", record { id = txt "g1"; organization_id = txt "o1"; status = AgentStatus.active })
      ∷ [];
  ledger_by_mandate = (txt "m1", held ∷ []) ∷ [];
  authorizations = (txt "a1", row status) ∷ [];
  idempotency_index = [];
}

abbrev pub ready : Repository
ready = store AuthorizationStatus.authorized

abbrev executed_store : Repository
executed_store = execute tuesday ready (txt "a1") (row AuthorizationStatus.authorized) 7

-- After the execution nothing is held and the amount is captured.
books_test :
    (get_authorization_hold executed_store (txt "m1") (txt "a1") ≡ pos 0)
    × (captured_amount (txt "a1") (entries_of executed_store (txt "m1")) ≡ pos 4000)
unfolding execute executed_entries get set get_authorization_hold captured_amount add_up ◌+ℤ◌ ◌-ℤ◌
books_test = (refl, refl)

record_execution_twice_example :
    record_execution tuesday executed_store (txt "m1") (txt "a1") 9 ≡ Result.ok executed_store
unfolding record_execution get
record_execution_twice_example =
    record_execution_twice tuesday ready executed_store (txt "m1") (txt "a1") 7 9 refl

record_refund-IsRefunded_example :
    (s' : Repository) × (record_refund tuesday executed_store (txt "a1") 1500 8 ≡ Result.ok s')
    × IsRefunded (txt "a1") 1500 (entries_of executed_store (txt "m1")) (entries_of s' (txt "m1"))
unfolding execute get set
record_refund-IsRefunded_example =
    record_refund-IsRefunded tuesday executed_store (txt "a1") (row AuthorizationStatus.executed)
      1500 8 refl

abbrev refunded_store : Repository
refunded_store = refund tuesday executed_store (row AuthorizationStatus.executed) (txt "a1") 1500 8

record_refund_twice_example :
    record_refund tuesday refunded_store (txt "a1") 1500 9 ≡ Result.ok refunded_store
unfolding record_refund execute get set
record_refund_twice_example =
    record_refund_twice tuesday executed_store refunded_store (txt "a1") 1500 8 9 refl

abbrev pub pending : Repository
pending = store AuthorizationStatus.pending_step_up

resolve_step_up-IsResolved_example :
    (s' : Repository) × (resolve_step_up tuesday pending
        (txt "m1")
        (txt "a1")
        StepUpOutcome.declined
        7
      ≡ Result.ok s')
    × (get (txt "a1") s'.authorizations ≡ some (row AuthorizationStatus.step_up_declined))
    × IsResolved
        (txt "a1")
        StepUpOutcome.declined
        (entries_of pending (txt "m1"))
        (entries_of s' (txt "m1"))
unfolding get
resolve_step_up-IsResolved_example =
    resolve_step_up-IsResolved tuesday pending (txt "m1") (txt "a1") StepUpOutcome.declined 7
      (row AuthorizationStatus.pending_step_up) refl refl

run-StatusMoves_example :
    let op = Operation.execution (txt "m1") (txt "a1") 7 in
    StatusMoves op
      (get (txt "a1") ready.authorizations)
      (get (txt "a1") (run tuesday op ready).authorizations)
run-StatusMoves_example =
    run-StatusMoves tuesday ready (txt "a1") (Operation.execution (txt "m1") (txt "a1") 7) tt

-- A denied authorization is executed, approved, settled, released and refunded.
abbrev attempts : List Operation
attempts =
    Operation.execution (txt "m1") (txt "a1") 7
    ∷ Operation.step_up (txt "m1") (txt "a1") StepUpOutcome.approved 8
    ∷ Operation.settlement
        (record {
          mandate_id = txt "m1";
          external_ref = txt "iauth_1";
          settled_amount = 100;
          settled_currency = txt "usd";
        })
        8
    ∷ Operation.external_release (txt "m1") (txt "iauth_1") 9
    ∷ Operation.refunding (txt "a1") 100 9
    ∷ []

run_all_final_example :
    (b : AuthorizationRow) × (get
        (txt "a1")
        (run_all tuesday attempts (store AuthorizationStatus.denied)).authorizations
      ≡ some b)
    × IsLeft attempts (row AuthorizationStatus.denied) b
unfolding get
run_all_final_example =
    run_all_final tuesday attempts (store AuthorizationStatus.denied) (txt "a1")
      (row AuthorizationStatus.denied) (tt, (tt, (tt, (tt, (tt, tt))))) refl refl

abbrev request : ResolveMandateInput
request = record {
  organization_id = txt "o1";
  agent_id = txt "g1";
  principal_id = txt "p1";
  mandate_id = none;
}

gate_test : resolve_mandate_gate request ready ≡ open_for mandate
unfolding resolve_mandate_gate find_active_mandate gate_mandate gate_agent get
gate_test = refl

resolve_mandate_gate-open_iff_example :
    (resolve_mandate_gate request ready ≡ open_for mandate)
    ↔ ((named_or_active none request ready ≡ some mandate) × MayAct request ready mandate)
resolve_mandate_gate-open_iff_example = resolve_mandate_gate-open_iff request ready mandate

authorized_mandate_gate-none_iff_example : (authorized_mandate_gate (some mandate) 5 ≡ none) ↔ (
    (m : MandateRow) × (some mandate ≡ some m)
    × (is_active m.status ≡ true)
    × IsLive 5 m.current_version.policy.expires_at)
authorized_mandate_gate-none_iff_example = authorized_mandate_gate-none_iff (some mandate) 5

-- A policy that names the sample mandate as its approver.
abbrev escalating : Policy
escalating = record policy { escalation = record { approvers = txt "m1" ∷ [] } }

check_approver_cycle-false_iff_example :
    (check_approver_cycle ready.mandates (txt "m2") escalating ≡ false) ↔ (
      (includes (txt "m1" ∷ []) (txt "m2") ≡ false)
      × All (IsNotNamedBy ready.mandates (txt "m2")) (txt "m1" ∷ []))
check_approver_cycle-false_iff_example =
    check_approver_cycle-false_iff ready.mandates (txt "m2") escalating
