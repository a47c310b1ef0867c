-- ===== src/Service/Approval.antt =====
-- apps/api/src/authorization/service.ts: everything that the approval of a step-up rests on.
use waysafe.Prelude.{
  ◌≡◌, ◌≢◌, refl, ap, ◌∙◌, sym, inl, inr, true, false, Option, none, some, List, Text, text_eq,
  includes, is_empty, Bool-cases, Option-cases,
}
use waysafe.Reason.{Decision, ReasonCode, Reason}
use waysafe.Engine.Types.{EngineResult}
use waysafe.Ledger.{AuthorizationStatus, AuthorizationRow, MandateRow, Repository, Result}
use waysafe.Ledger.Maps.{get}
use waysafe.Ledger.Operations.{StepUpOutcome, is_pending, resolve_step_up, settle_step_up}
use waysafe.Ledger.StepUp.{outcome_status, settle_step_up-get}
use waysafe.Ledger.Gate.{MandateGateResult, open_for, closed, authorized_mandate_gate}
use waysafe.Service.{
  Environment, AuthorizeRepos, AgentKeyCheck, credential_ok, credential_refused, verify_agent_key,
  with_event,
}
use waysafe.Service.Sound.{HoldsKey, verify_agent_key-HoldsKey, thrown-ne-ok}
use waysafe.Service.Settling.{locked-settles}
use waysafe.Service.StepUp.{
  ResolveStepUpParams, resolved, LockResult, replayed, settled, has_lapsed, view_of,
  cumulative_denial, settle, judge, check_cap, check_original, resolve_locked, approvers_of,
  after_lock, check_approver, by_gate, by_key, approver_gate, approver_checked, reject,
  resolve_step_up_as_approver, by_verdict,
}

declined-ne-approved : AuthorizationStatus.step_up_declined ≢ AuthorizationStatus.step_up_approved
declined-ne-approved h = cc

expired-ne-approved : AuthorizationStatus.expired ≢ AuthorizationStatus.step_up_approved
expired-ne-approved h = cc

module _ (env : Environment) (p : ResolveStepUpParams) where
  -- A step-up that is settled has the status of the outcome.
  settle-status :
      (s : Repository) (outcome o : StepUpOutcome) (rs qs : List Reason) (row : AuthorizationRow)
      → (settle env p s outcome rs).1 ≡ Result.ok (settled o row qs)
      → (o ≡ outcome) × (row.status ≡ outcome_status outcome)
  unfolding settle resolve_step_up
  settle-status s outcome o rs qs row h = elim (Option-cases (get p.step_up.id s.authorizations)) [
    | inl q ↦ absurd (thrown-ne-ok (rw (q, settle, resolve_step_up) at h))
    | inr (auth, q) ↦ elim (Bool-cases (is_pending auth.status)) [
      | inr e ↦ absurd (thrown-ne-ok (rw (q, e, settle, resolve_step_up) at h))
      | inl e ↦
          let k = rw (q, e, settle, resolve_step_up) at h in
          let g =
            settle_step_up-get env.intl s p.step_up.mandate_id p.step_up.id p.now auth outcome in
          let t = rw (g, settle_step_up) at k in
          let same : row ≡ record auth { status = outcome_status outcome } = cc in
          (cc, ap (λ (x : AuthorizationRow). x.status) same)
    ]
  ]

  -- An approval passes the last checks only by an ALLOW of the approver's own policy.
  verdict-allow :
      (s : Repository) (approver : MandateRow) (result : EngineResult) (d : Decision)
      (o : StepUpOutcome) (row : AuthorizationRow) (qs : List Reason)
      → (by_verdict env p s approver result d).1 ≡ Result.ok (settled o row qs)
      → row.status ≡ AuthorizationStatus.step_up_approved
      → d ≡ Decision.allow
  verdict-allow s approver result Decision.allow o row qs h t = refl
  verdict-allow s approver result Decision.deny o row qs h t = absurd (
      declined-ne-approved
        (sym (settle-status s StepUpOutcome.declined o result.reasons qs row h).1 ∙ t))
  verdict-allow s approver result Decision.step_up o row qs h t =
      absurd
        (declined-ne-approved (sym (settle-status s StepUpOutcome.declined o _ qs row h).1 ∙ t))

  cap-kept :
      (s : Repository) (approver original : MandateRow) (o : StepUpOutcome) (row : AuthorizationRow)
      (qs : List Reason)
      → (check_cap env p s approver original).1 ≡ Result.ok (settled o row qs)
      → row.status ≡ AuthorizationStatus.step_up_approved
      → (is_empty (cumulative_denial env p s original) ≡ true)
        × ((view_of env p s approver approver.id p.step_up.action.amount).decision ≡ Decision.allow)
  unfolding check_cap judge
  cap-kept s approver original o row qs h t =
      elim (Bool-cases (is_empty (cumulative_denial env p s original))) [
        | inr e ↦ absurd (
            declined-ne-approved (
              sym (settle-status s StepUpOutcome.declined o _ qs row (rw (e, check_cap) at h)).1
              ∙ t))
        | inl e ↦
            let result = view_of env p s approver approver.id p.step_up.action.amount in
            (e, verdict-allow s approver result result.decision o row qs (rw (e, check_cap) at h) t)
      ]

  -- What an approval of the pending row `fresh` on the store rests on.
  pub record Passed (s : Repository) (approver : MandateRow) (fresh : AuthorizationRow)
      : Type 0 where
    pub alive : has_lapsed fresh.step_up_expires_at p.now ≡ false
    pub original : MandateRow
    pub found : get p.step_up.mandate_id s.mandates ≡ some original
    pub authority : authorized_mandate_gate (some original) p.now ≡ none
    pub cap : is_empty (cumulative_denial env p s original) ≡ true
    pub allowed :
        (view_of env p s approver approver.id p.step_up.action.amount).decision ≡ Decision.allow

  original-Passed :
      (s : Repository) (approver : MandateRow) (fresh : AuthorizationRow) (o : StepUpOutcome)
      (row : AuthorizationRow) (qs : List Reason) (m : Option MandateRow) (r : Option ReasonCode)
      → has_lapsed fresh.step_up_expires_at p.now ≡ false
      → get p.step_up.mandate_id s.mandates ≡ m
      → authorized_mandate_gate m p.now ≡ r
      → (check_original env p s approver m r).1 ≡ Result.ok (settled o row qs)
      → row.status ≡ AuthorizationStatus.step_up_approved
      → Passed s approver fresh
  original-Passed s approver fresh o row qs m (some code) a f g h t =
      absurd
        (declined-ne-approved (sym (settle-status s StepUpOutcome.declined o _ qs row h).1 ∙ t))
  original-Passed s approver fresh o row qs none none a f g h t =
      absurd
        (declined-ne-approved (sym (settle-status s StepUpOutcome.declined o _ qs row h).1 ∙ t))
  original-Passed s approver fresh o row qs (some m) none a f g h t =
      let (cap, allowed) = cap-kept s approver m o row qs h t in
      record { alive = a; original = m; found = f; authority = g; cap = cap; allowed = allowed }

  locked-Passed :
      (s : Repository) (approver : MandateRow) (fresh row : AuthorizationRow) (o : StepUpOutcome)
      (qs : List Reason)
      → get p.step_up.id s.authorizations ≡ some fresh
      → (resolve_locked env p s approver).1 ≡ Result.ok (settled o row qs)
      → row.status ≡ AuthorizationStatus.step_up_approved
      → Passed s approver fresh
  unfolding resolve_locked
  locked-Passed s approver fresh row o qs f h t =
      let k = rw (f, resolve_locked) at h in
      elim (Bool-cases (is_pending fresh.status)) [
        | inr e ↦ let bad = rw e at k in cc
        | inl e ↦ elim (Bool-cases (has_lapsed fresh.step_up_expires_at p.now)) [
          | inl l ↦ absurd (
              expired-ne-approved
                (sym (settle-status s StepUpOutcome.expired o _ qs row (rw (e, l) at k)).1 ∙ t))
          | inr l ↦
              let m = get p.step_up.mandate_id s.mandates in
              original-Passed s approver fresh o row qs m (authorized_mandate_gate m p.now) l refl
                refl (rw (e, l) at k) t
        ]
      ]

  -- An approval and its approver.
  pub record Approved (repos : AuthorizeRepos) (fresh : AuthorizationRow) : Type 0 where
    pub approver : MandateRow
    pub key :
        HoldsKey env.node.sha256 repos.agent_keys p.organization_id p.approver_agent_id p.api_key
    pub gate : approver_gate env p repos.authorization ≡ open_for approver
    pub other : text_eq approver.id p.step_up.mandate_id ≡ false
    pub named :
        includes
          (approvers_of env p (get p.step_up.mandate_id repos.authorization.mandates))
          approver.id
        ≡ true
    pub passed : Passed repos.authorization approver fresh

  after_lock-settled :
      (repos : AuthorizeRepos) (approver : Text) (s : Repository) (m : MandateRow)
      (row fresh : AuthorizationRow) (o : Repository × Result LockResult)
      → resolve_locked env p s m ≡ o
      → get p.step_up.id s.authorizations ≡ some fresh
      → is_pending fresh.status ≡ true
      → (after_lock env p repos approver o).1 ≡ Result.ok (resolved row)
      → row.status ≡ AuthorizationStatus.step_up_approved
      → Passed s m fresh
  after_lock-settled repos approver s m row fresh (s', Result.thrown e) q f k h t =
      absurd (thrown-ne-ok h)
  after_lock-settled repos approver s m row fresh (s', Result.ok (replayed r)) q f k h t =
      absurd (locked-settles env p s m fresh r f k (ap (λ z. z.1) q))
  after_lock-settled repos approver s m row fresh (s', Result.ok (settled o r rs)) q f k h t =
      let same : r ≡ row = cc in
      locked-Passed s m fresh r o rs f (ap (λ z. z.1) q)
        (ap (λ (x : AuthorizationRow). x.status) same ∙ t)

  approver-Approved :
      (repos : AuthorizeRepos) (m : MandateRow) (row fresh : AuthorizationRow)
      → get p.step_up.id repos.authorization.authorizations ≡ some fresh
      → is_pending fresh.status ≡ true
      → (check_approver env p repos m).1 ≡ Result.ok (resolved row)
      → row.status ≡ AuthorizationStatus.step_up_approved
      → (text_eq m.id p.step_up.mandate_id ≡ false)
        × (includes
              (approvers_of env p (get p.step_up.mandate_id repos.authorization.mandates))
              m.id
            ≡ true)
        × Passed repos.authorization m fresh
  unfolding check_approver reject
  approver-Approved repos m row fresh f k h t =
      elim (Bool-cases (text_eq m.id p.step_up.mandate_id)) [
        | inl e ↦ let bad = rw (e, check_approver, reject) at h in cc
        | inr e ↦
            elim (Bool-cases (
              includes (approvers_of env p (get p.step_up.mandate_id repos.authorization.mandates))
                m.id)) [
                  | inr n ↦ let bad = rw (e, n, check_approver, reject) at h in cc
                  | inl n ↦ (
                    e,
                    n,
                    after_lock-settled repos m.id repos.authorization m row fresh
                        (resolve_locked env p repos.authorization m) refl f k
                        (rw (e, n, check_approver) at h) t,
                  )
                ]
      ]

  gate-Approved :
      (repos : AuthorizeRepos) (gate : MandateGateResult) (row fresh : AuthorizationRow)
      → get p.step_up.id repos.authorization.authorizations ≡ some fresh
      → is_pending fresh.status ≡ true
      → (by_gate env p repos gate).1 ≡ Result.ok (resolved row)
      → row.status ≡ AuthorizationStatus.step_up_approved
      → (m : MandateRow) × (gate ≡ open_for m)
        × (text_eq m.id p.step_up.mandate_id ≡ false)
        × (includes
              (approvers_of env p (get p.step_up.mandate_id repos.authorization.mandates))
              m.id
            ≡ true)
        × Passed repos.authorization m fresh
  unfolding reject
  gate-Approved repos (closed m code) row fresh f k h t = cc
  gate-Approved repos (open_for m) row fresh f k h t =
      let (o, n, q) = approver-Approved repos m row fresh f k h t in (m, refl, o, n, q)

  key-Approved :
      (repos : AuthorizeRepos) (check : AgentKeyCheck) (row fresh : AuthorizationRow)
      → get p.step_up.id repos.authorization.authorizations ≡ some fresh
      → is_pending fresh.status ≡ true
      → (by_key env p repos check).1 ≡ Result.ok (resolved row)
      → row.status ≡ AuthorizationStatus.step_up_approved
      → (check ≡ credential_ok)
        × ((by_gate env p repos (approver_gate env p repos.authorization)).1
            ≡ Result.ok (resolved row))
  unfolding reject
  key-Approved repos (credential_refused rs) row fresh f k h t = cc
  key-Approved repos credential_ok row fresh f k h t = (refl, h)

  -- A pending step-up comes out approved only where the approver's key is its own and not revoked, the
  -- approver may act under a mandate that is not the spending one and that the spending mandate names as an
  -- approver, the step-up has not lapsed, the spending mandate is active and not expired and has no cumulative
  -- limit against the increment, and the approver's own policy allows the action on its own spend.
  pub resolve_step_up_as_approver-Approved :
      (repos : AuthorizeRepos) (row fresh : AuthorizationRow)
      → get p.step_up.id repos.authorization.authorizations ≡ some fresh
      → is_pending fresh.status ≡ true
      → (resolve_step_up_as_approver env p repos).1 ≡ Result.ok (resolved row)
      → row.status ≡ AuthorizationStatus.step_up_approved
      → Approved repos fresh
  unfolding resolve_step_up_as_approver verify_agent_key with_event
  resolve_step_up_as_approver-Approved repos row fresh f k h t =
      let after = (approver_checked env p repos).0 in
      let (c, g) = key-Approved after (approver_checked env p repos).1 row fresh f k h t in
      let (m, opens, o, n, q) =
        gate-Approved after (approver_gate env p repos.authorization) row fresh f k g t in
      record {
        approver = m;
        key =
            verify_agent_key-HoldsKey env repos p.organization_id p.approver_agent_id p.api_key
              p.now c;
        gate = opens;
        other = o;
        named = n;
        passed = q;
      }
