-- ===== src/Tests/Approvals.antt =====
-- apps/api/src/authorization/service.ts: the approval of a sample step-up.
use waysafe.Prelude.{
  ℕ, ◌≡◌, ◌≢◌, refl, Bool, true, false, none, some, List, [], ◌∷◌, Text, txt, Option,
}
use waysafe.Ledger.{
  AuthorizationStatus, AgentStatus, AuthorizationRow, MandateRow, Repository, Result,
}
use waysafe.Ledger.Maps.{get, set}
use waysafe.AgentKeys.{AgentKeys, create_key}
use waysafe.Service.{AuthorizeRepos}
use waysafe.Prelude.Int.{pos, ◌+ℤ◌, ◌-ℤ◌}
use waysafe.Prelude.{is_empty}
use waysafe.Policy.{LimitWindow}
use waysafe.Time.Keys.{window_keys}
use waysafe.Engine.Types.{window_spend}
use waysafe.Ledger.Operations.{get_authorization_hold, add_up}
use waysafe.Ledger.Snapshot.{get_spend_snapshot, sum_where, seen_merchants}
use waysafe.Engine.Rollup.{roll_up_window}
use waysafe.Ledger.Caps.{AmountsWithin}
use waysafe.Service.StepUp.{approve, view_of, incremental_hold, cumulative_denial}
use waysafe.Service.Boundary.{approve-window, approve-AmountsWithin}
use waysafe.Service.StepUp.{ResolveStepUpParams, resolved, resolve_step_up_as_approver}
use waysafe.Service.Approval.{Approved, resolve_step_up_as_approver-Approved}
use waysafe.Tests.Samples.{policy, ten}
use waysafe.Tests.Decisions.{allow_test, escalating_test}
use waysafe.Tests.Ledgers.{row, mandate, pending}
use waysafe.Tests.Services.{node, env}

-- The spending mandate names m2, whose agent is g2.
abbrev approver : MandateRow
approver = record mandate {
  id = txt "m2";
  current_version = record mandate.current_version { agent_ids = txt "g2" ∷ [] };
}

abbrev spender : MandateRow
spender = record mandate {
  current_version = record mandate.current_version {
    policy = record policy { escalation = record { approvers = txt "m2" ∷ [] } };
  };
}

abbrev approver_key : AgentKeys × Text
approver_key =
    create_key node.sha256 (record { by_id = []; by_prefix = [] }) (txt "o1") (some (txt "g2"))
      (txt "key2") (txt "abcdef01") (txt "secret") 1

abbrev repos : AuthorizeRepos
repos = record {
  authorization = record pending {
    mandates = (txt "m1", spender) ∷ (txt "m2", approver) ∷ [];
    agents =
        (
          txt "g2",
          record { id = txt "g2"; organization_id = txt "o1"; status = AgentStatus.active },
        )
        ∷ [];
  };
  agent_keys = approver_key.0;
  evidence = [];
}

abbrev params : ResolveStepUpParams
params = record {
  organization_id = txt "o1";
  step_up = row AuthorizationStatus.pending_step_up;
  approver_agent_id = txt "g2";
  approver_principal_id = txt "p1";
  approver_mandate_id = some (txt "m2");
  api_key = approver_key.1;
  idempotency_key = none;
  now = ten;
}

approval_test :
    (resolve_step_up_as_approver env params repos).1
    ≡ Result.ok (resolved (row AuthorizationStatus.step_up_approved))
unfolding resolve_step_up_as_approver waysafe.Service.verify_agent_key waysafe.Service.key_outcome
    waysafe.AgentKeys.verify_key waysafe.AgentKeys.find_key waysafe.AgentKeys.extract_key_prefix
    create_key get set waysafe.Ledger.Gate.resolve_mandate_gate waysafe.Ledger.Gate.gate_mandate
    waysafe.Ledger.Gate.gate_agent waysafe.Service.StepUp.check_approver
    waysafe.Service.StepUp.resolve_locked waysafe.Ledger.Gate.authorized_mandate_gate
    waysafe.Ledger.Gate.gate_mandate_status waysafe.Ledger.Gate.gate_mandate_expiry
    waysafe.Service.StepUp.check_cap waysafe.Service.StepUp.cumulative_denial
    waysafe.Service.StepUp.incremental_hold waysafe.Ledger.Operations.get_authorization_hold
    waysafe.Ledger.Operations.add_up waysafe.Service.StepUp.judge waysafe.Service.StepUp.view_of
    waysafe.Ledger.Snapshot.get_spend_snapshot waysafe.Ledger.Snapshot.sum_where
    waysafe.Engine.Rollup.roll_up_window waysafe.Ledger.Snapshot.seen_merchants
    waysafe.Service.StepUp.approve waysafe.Service.StepUp.record_approver_ledger_entry
    waysafe.Ledger.Operations.record_step_up_approval_hold waysafe.Ledger.Operations.approval_hold
    waysafe.Service.StepUp.settle waysafe.Ledger.Operations.resolve_step_up
    waysafe.Ledger.Operations.settle_step_up waysafe.Prelude.Int.◌-ℤ◌ waysafe.Prelude.Int.◌+ℤ◌
approval_test = rw allow_test refl

pending_test :
    get (txt "a1") repos.authorization.authorizations
    ≡ some (row AuthorizationStatus.pending_step_up)
unfolding get
pending_test = refl

resolve_step_up_as_approver-Approved_example :
    Approved env params repos (row AuthorizationStatus.pending_step_up)
resolve_step_up_as_approver-Approved_example =
    resolve_step_up_as_approver-Approved env params repos (row AuthorizationStatus.step_up_approved)
      (row AuthorizationStatus.pending_step_up) pending_test refl approval_test refl

-- The same step-up, without a reservation, raised at the beginning of the day.
abbrev unheld : Repository
unheld = record repos.authorization { ledger_by_mandate = [] }

approve-window_example :
    (window_spend
      (get_spend_snapshot env.intl
        (approve env params unheld approver []).0
        (txt "m1")
        policy.accounting
        0
        none)
      LimitWindow.day).amount
    ≡ (window_spend
        (get_spend_snapshot env.intl unheld (txt "m1") policy.accounting 0 none)
        LimitWindow.day).amount
      +ℤ pos 4000
unfolding get
approve-window_example =
    approve-window env params unheld approver spender (row AuthorizationStatus.pending_step_up) []
      LimitWindow.day refl refl refl refl refl

hold_test : incremental_hold env params unheld ≡ pos 4000
unfolding incremental_hold get_authorization_hold add_up get ◌-ℤ◌
hold_test = refl

cap_test : is_empty (cumulative_denial env params unheld spender) ≡ true
unfolding cumulative_denial incremental_hold view_of get_authorization_hold add_up get ◌-ℤ◌
    get_spend_snapshot sum_where roll_up_window seen_merchants
cap_test = rw escalating_test refl

approve-AmountsWithin_example :
    AmountsWithin
      (get_spend_snapshot env.intl
        (approve env params unheld approver []).0
        (txt "m1")
        policy.accounting
        ten
        none)
      policy.cumulative_limits
unfolding get window_keys
approve-AmountsWithin_example =
    approve-AmountsWithin env params unheld approver spender
      (row AuthorizationStatus.pending_step_up) [] refl refl refl refl refl hold_test refl cap_test
      refl
