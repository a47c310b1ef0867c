-- ===== src/Service/Record.antt =====
-- apps/api/src/authorization/service.ts: every decision of `authorize` goes through `recordDecision`.
use waysafe.Prelude.{
  ℕ, ◌≡◌, refl, ap, ◌∙◌, inl, inr, false, Option, none, some, List, [], Option-cases,
}
use waysafe.Reason.{Decision, Reason}
use waysafe.Merchant.Resolve.{truthy}
use waysafe.Engine.Types.{EngineResult}
use waysafe.Ledger.{AuthorizationRow, MandateRow, Repository, Result}
use waysafe.Ledger.Gate.{MandateGateResult, open_for, closed, resolve_mandate_gate}
use waysafe.Ledger.Save.{NewLedgerEntry}
use waysafe.Service.{
  Environment, AuthorizeRepos, AuthorizeParams, decided, AgentKeyCheck, credential_ok,
  credential_refused, with_event, record_decision, verify_agent_key, step_up_deadline,
}
use waysafe.Service.Authorize.{
  decision_input, refuse, decide, decide_result, reservation_for, replay_now, under_lock,
  after_checks, gate_input, checked, authorize, shown, finish, request_hash,
}
use waysafe.Service.Grant.{locked-Granted, decided-ne-replay}

module _ (env : Environment) (p : AuthorizeParams) where
  -- What was recorded, on which stores, and that it is what a call left.
  pub record Recorded (s : Repository) (repos : AuthorizeRepos) (a : AuthorizationRow)
      : Type 0 where
    pub before : AuthorizeRepos
    pub mandate : MandateRow
    pub result : EngineResult
    pub deadline : Option ℕ
    pub entries : List NewLedgerEntry
    pub made :
        (finish env p
          (record_decision env before (decision_input env p mandate result deadline entries))).1
        ≡ Result.ok (decided a false)
    pub left :
        repos
        ≡ (record_decision env before (decision_input env p mandate result deadline entries)).0
    pub same_store : before.authorization ≡ s

  refuse-Recorded :
      (repos : AuthorizeRepos) (m : MandateRow) (rs : List Reason) (a : AuthorizationRow)
      → (refuse env p repos m rs).1 ≡ Result.ok (decided a false)
      → Recorded repos.authorization (refuse env p repos m rs).0 a
  unfolding refuse
  refuse-Recorded repos m rs a h = record {
    before = repos;
    mandate = m;
    result = record { decision = Decision.deny; reasons = rs };
    deadline = none;
    entries = [];
    made = h;
    left = refl;
    same_store = refl;
  }

  under_lock-Recorded :
      (repos : AuthorizeRepos) (m : MandateRow) (a : AuthorizationRow)
      → (under_lock env p repos m).1 ≡ Result.ok (decided a false)
      → Recorded repos.authorization (under_lock env p repos m).0 a
  unfolding decide
  under_lock-Recorded repos m a h =
      let (d, w) = locked-Granted env p repos m a h in
      let result = decide_result env p repos m in
      record {
        before = repos;
        mandate = m;
        result = result;
        deadline = step_up_deadline result.decision m.current_version.policy p.now;
        entries = reservation_for env p m result.decision;
        made = d;
        left = w;
        same_store = refl;
      }

  after_checks-Recorded :
      (repos : AuthorizeRepos) (gate : MandateGateResult) (check : AgentKeyCheck)
      (a : AuthorizationRow)
      → (after_checks env p repos gate check).1 ≡ Result.ok (decided a false)
      → Recorded repos.authorization (after_checks env p repos gate check).0 a
  unfolding after_checks
  after_checks-Recorded repos (closed none code) check a h = cc
  after_checks-Recorded repos (closed (some m) code) check a h =
      refuse-Recorded repos m (shown env p check code) a h
  after_checks-Recorded repos (open_for m) (credential_refused rs) a h =
      refuse-Recorded repos m rs a h
  after_checks-Recorded repos (open_for m) credential_ok a h = under_lock-Recorded repos m a h

  pub authorize-Recorded :
      (repos : AuthorizeRepos) (a : AuthorizationRow)
      → (authorize env p repos).1 ≡ Result.ok (decided a false)
      → Recorded repos.authorization (authorize env p repos).0 a
  unfolding authorize verify_agent_key with_event
  authorize-Recorded repos a h = elim (Option-cases (replay_now env p repos)) [
    | inl q ↦
        rw (q, authorize)
          (after_checks-Recorded (checked env p repos).0
            (resolve_mandate_gate (gate_input env p) repos.authorization) (checked env p repos).1 a
            (rw (q, authorize) at h))
    | inr (r, q) ↦
        let t = rw (q, authorize) at h in
        let same : r ≡ decided a false = cc in
        absurd (
          decided-ne-replay env p repos.authorization p.organization_id
            (truthy p.request.idempotency_key) (request_hash env p) a (q ∙ ap some same))
  ]
