-- ===== src/Service/Grant.antt =====
-- apps/api/src/authorization/service.ts: everything that an ALLOW or a STEP_UP of `authorize` rests on.
use waysafe.Prelude.{
  ◌≡◌, ◌≢◌, refl, ap, ◌∙◌, sym, inl, inr, false, Option, none, some, List, [], Text, Option-cases,
  arith,
}
use waysafe.Reason.{Decision, Reason}
use waysafe.Merchant.Resolve.{truthy}
use waysafe.Engine.Types.{EngineResult}
use waysafe.Engine.Evaluate.{evaluate}
use waysafe.Ledger.{AuthorizationRow, MandateRow, Repository, Result}
use waysafe.Ledger.Maps.{Map, get}
use waysafe.Ledger.Gate.{
  MandateGateResult, open_for, closed, resolve_mandate_gate, authorized_mandate_gate,
}
use waysafe.Ledger.Save.{SaveAuthorizationInput, stored_row, save, find_by_idempotency_key}
use waysafe.Service.{
  Environment, AuthorizeRepos, AuthorizeParams, decided, AgentKeyCheck, credential_ok,
  credential_refused, verify_agent_key, with_event, step_up_deadline,
}
use waysafe.Service.Authorize.{
  answer, answer_found, replay, decision_input, refuse, engine_input, decide_result,
  reservation_for, decide, replay_now, under_lock, after_checks, gate_input, checked, authorize,
  gated_result, shown, request_hash,
}
use waysafe.Service.Sound.{WithIndex, HoldsKey, verify_agent_key-HoldsKey, finished}

module _ (env : Environment) (p : AuthorizeParams) where
  -- The input with which a result of the engine is saved.
  abbrev pub saved_input : MandateRow → EngineResult → SaveAuthorizationInput
  saved_input m result =
      decision_input env p m result
        (step_up_deadline result.decision m.current_version.policy p.now)
        (reservation_for env p m result.decision)

  -- What the engine makes of the request under the mandate, on the store as it stands.
  abbrev pub verdict : AuthorizeRepos → MandateRow → EngineResult
  verdict repos m = evaluate env.intl (engine_input env p repos m)

  -- The grounds of a decision: the gate and the agent's key, the mandate's own authority, the engine's
  -- verdict, and the row with the store that has it.
  pub record Granted (repos : AuthorizeRepos) (after : Repository) (a : AuthorizationRow)
      : Type 0 where
    pub mandate : MandateRow
    pub gate : resolve_mandate_gate (gate_input env p) repos.authorization ≡ open_for mandate
    pub key :
        HoldsKey env.node.sha256 repos.agent_keys p.organization_id p.request.agent_id p.api_key
    pub authority :
        authorized_mandate_gate (get mandate.id repos.authorization.mandates) p.now ≡ none
    pub row : a ≡ stored_row (saved_input mandate (verdict repos mandate))
    pub index : Map Text
    pub stored :
        after
        ≡ save env.intl
            (WithIndex repos.authorization index)
            (saved_input mandate (verdict repos mandate))

  pub decided-ne-replay :
      (s : Repository) (o : Text) (k : Option Text) (h : Text) (a : AuthorizationRow)
      → replay s o k h ≢ some (decided a false)
  unfolding replay answer
  decided-ne-replay s o none h a q = cc
  decided-ne-replay s o (some k) h a q = go (find_by_idempotency_key s o k) q
    where
      go : (f : Option AuthorizationRow) → answer_found f h ≢ some (decided a false)
      go none r = cc
      go (some e) r = ground arith

  refused-decision :
      (repos : AuthorizeRepos) (m : MandateRow) (rs : List Reason) (a : AuthorizationRow)
      → (refuse env p repos m rs).1 ≡ Result.ok (decided a false)
      → a.decision ≡ Decision.deny
  unfolding refuse decision_input
  refused-decision repos m rs a h =
      let i = decision_input env p m (record { decision = Decision.deny; reasons = rs }) none [] in
      ap (λ (r : AuthorizationRow). r.decision) (finished env p repos i a h).1

  decided-Granted :
      (repos : AuthorizeRepos) (m : MandateRow) (a : AuthorizationRow)
      → (decide env p repos m).1 ≡ Result.ok (decided a false)
      → a.decision ≢ Decision.deny
      → (authorized_mandate_gate (get m.id repos.authorization.mandates) p.now ≡ none)
        × (a ≡ stored_row (saved_input m (verdict repos m)))
        × ((index : Map Text) × ((decide env p repos m).0.authorization
              ≡ save env.intl
                  (WithIndex repos.authorization index)
                  (saved_input m (verdict repos m))))
  unfolding decide decide_result decision_input
  decided-Granted repos m a h ne =
      elim (Option-cases (authorized_mandate_gate (get m.id repos.authorization.mandates) p.now)) [
        | inr (code, q) ↦
            let result = gated_result env p repos m (some code) in
            let f =
              finished env p repos (saved_input m result) a (rw (q, decide, decide_result) at h) in
            absurd (ne (ap (λ (r : AuthorizationRow). r.decision) f.1))
        | inl q ↦
            let (index, r, s) =
              finished env p repos (saved_input m (verdict repos m)) a
                (rw (q, decide, decide_result) at h) in
            rw (q, decide, decide_result) (refl, r, (index, s))
      ]

  pub locked-Granted :
      (repos : AuthorizeRepos) (m : MandateRow) (a : AuthorizationRow)
      → (under_lock env p repos m).1 ≡ Result.ok (decided a false)
      → (decide env p repos m).1 ≡ Result.ok (decided a false)
        × ((under_lock env p repos m).0 ≡ (decide env p repos m).0)
  unfolding under_lock
  locked-Granted repos m a h = elim (Option-cases (replay_now env p repos)) [
    | inl q ↦ rw (q, under_lock) (rw (q, under_lock) at h, refl)
    | inr (r, q) ↦
        let t = rw (q, under_lock) at h in
        let same : r ≡ decided a false = cc in
        absurd (
          decided-ne-replay repos.authorization p.organization_id (truthy p.request.idempotency_key)
            (request_hash env p) a (q ∙ ap some same))
  ]

  checks-Granted :
      (repos : AuthorizeRepos) (gate : MandateGateResult) (check : AgentKeyCheck)
      (a : AuthorizationRow)
      → (after_checks env p repos gate check).1 ≡ Result.ok (decided a false)
      → a.decision ≢ Decision.deny
      → (m : MandateRow) × (gate ≡ open_for m)
        × (check ≡ credential_ok)
        × ((after_checks env p repos gate check).1 ≡ (under_lock env p repos m).1)
        × ((after_checks env p repos gate check).0 ≡ (under_lock env p repos m).0)
  unfolding after_checks
  checks-Granted repos (closed none code) check a h ne = cc
  checks-Granted repos (closed (some m) code) check a h ne =
      absurd (ne (refused-decision repos m (shown env p check code) a h))
  checks-Granted repos (open_for m) (credential_refused rs) a h ne =
      absurd (ne (refused-decision repos m rs a h))
  checks-Granted repos (open_for m) credential_ok a h ne = (m, refl, refl, refl, refl)

  -- A decision that `authorize` makes now and that is not a DENY is granted: the agent may act under the
  -- mandate, the key presented is the agent's own and not revoked, the mandate is active and not expired, the
  -- decision and its reasons are the engine's on the spend of the mandate as it stands, and the row with the
  -- reservation that goes with it is what is stored.
  pub authorize-Granted :
      (repos : AuthorizeRepos) (a : AuthorizationRow)
      → (authorize env p repos).1 ≡ Result.ok (decided a false)
      → a.decision ≢ Decision.deny
      → Granted repos (authorize env p repos).0.authorization a
  unfolding authorize verify_agent_key with_event engine_input
  authorize-Granted repos a h ne = elim (Option-cases (replay_now env p repos)) [
    | inr (r, q) ↦
        let t = rw (q, authorize) at h in
        let same : r ≡ decided a false = cc in
        absurd (
          decided-ne-replay repos.authorization p.organization_id (truthy p.request.idempotency_key)
            (request_hash env p) a (q ∙ ap some same))
    | inl q ↦
        let after = (checked env p repos).0 in
        let gate = resolve_mandate_gate (gate_input env p) repos.authorization in
        let (m, g, c, u, v) =
          checks-Granted after gate (checked env p repos).1 a (rw (q, authorize) at h) ne in
        let (d, w) = locked-Granted after m a (sym u ∙ rw (q, authorize) at h) in
        let (t, r, (index, s)) = decided-Granted after m a d ne in
        record {
          mandate = m;
          gate = g;
          key =
              verify_agent_key-HoldsKey env repos p.organization_id p.request.agent_id p.api_key
                p.now c;
          authority = t;
          row = r;
          index = index;
          stored = rw (q, authorize) (ap (λ (x : AuthorizeRepos). x.authorization) (v ∙ w) ∙ s);
        }
  ]
