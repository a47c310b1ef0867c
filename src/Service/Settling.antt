-- ===== src/Service/Settling.antt =====
-- apps/api/src/authorization/service.ts: a step-up that is still pending is settled, not replayed.
use waysafe.Prelude.{
  ◌≡◌, ◌≢◌, inl, inr, true, Option, none, some, List, [], is_empty, Bool-cases, Option-cases,
}
use waysafe.Reason.{Decision, ReasonCode, Reason}
use waysafe.Engine.Types.{EngineResult}
use waysafe.Ledger.{AuthorizationRow, MandateRow, Repository, Result}
use waysafe.Ledger.Maps.{get}
use waysafe.Ledger.Operations.{
  StepUpOutcome, is_pending, resolve_step_up, settle_step_up, record_step_up_approval_hold,
}
use waysafe.Ledger.StepUp.{settle_step_up-get}
use waysafe.Ledger.Gate.{authorized_mandate_gate}
use waysafe.Service.{Environment}
use waysafe.Service.Sound.{thrown-ne-ok}
use waysafe.Service.StepUp.{
  ResolveStepUpParams, replayed, has_lapsed, view_of, cumulative_denial, settle, approve, judge,
  check_cap, check_original, resolve_locked, by_verdict, after_hold, record_approver_ledger_entry,
}

module _ (env : Environment) (p : ResolveStepUpParams) where
  -- A step-up that is pending is settled, never replayed.
  settle-settles :
      (s : Repository) (outcome : StepUpOutcome) (rs : List Reason) (r : AuthorizationRow)
      → (settle env p s outcome rs).1 ≢ Result.ok (replayed r)
  unfolding settle resolve_step_up
  settle-settles s outcome rs r h = elim (Option-cases (get p.step_up.id s.authorizations)) [
    | inl q ↦ absurd (thrown-ne-ok (rw (q, settle, resolve_step_up) at h))
    | inr (auth, q) ↦ elim (Bool-cases (is_pending auth.status)) [
      | inr e ↦ absurd (thrown-ne-ok (rw (q, e, settle, resolve_step_up) at h))
      | inl e ↦
          let k = rw (q, e, settle, resolve_step_up) at h in
          let g =
            settle_step_up-get env.intl s p.step_up.mandate_id p.step_up.id p.now auth outcome in
          let t = rw (g, settle_step_up) at k in cc
    ]
  ]

  hold-settles :
      (s : Repository) (rs : List Reason) (x : Result Repository) (r : AuthorizationRow)
      → (after_hold env p s rs x).1 ≢ Result.ok (replayed r)
  hold-settles s rs (Result.thrown e) r h = thrown-ne-ok h
  hold-settles s rs (Result.ok t) r h = settle-settles t StepUpOutcome.approved rs r h

  verdict-settles :
      (s : Repository) (m : MandateRow) (result : EngineResult) (d : Decision)
      (r : AuthorizationRow)
      → (by_verdict env p s m result d).1 ≢ Result.ok (replayed r)
  unfolding approve
  verdict-settles s m result Decision.allow r h =
      let t =
        record_approver_ledger_entry env.intl s m.id p.step_up.id p.step_up.action.amount p.now in
      hold-settles t result.reasons
        (record_step_up_approval_hold env.intl t p.step_up.mandate_id p.step_up.id
          p.step_up.action.amount p.now)
        r h
  verdict-settles s m result Decision.deny r h =
      settle-settles s StepUpOutcome.declined result.reasons r h
  verdict-settles s m result Decision.step_up r h = settle-settles s StepUpOutcome.declined _ r h

  cap-settles :
      (s : Repository) (m original : MandateRow) (r : AuthorizationRow)
      → (check_cap env p s m original).1 ≢ Result.ok (replayed r)
  unfolding check_cap judge
  cap-settles s m original r h = elim (Bool-cases (is_empty (cumulative_denial env p s original))) [
    | inr e ↦ settle-settles s StepUpOutcome.declined _ r (rw (e, check_cap) at h)
    | inl e ↦
        let result = view_of env p s m m.id p.step_up.action.amount in
        verdict-settles s m result result.decision r (rw (e, check_cap) at h)
  ]

  original-settles :
      (s : Repository) (m : MandateRow) (o : Option MandateRow) (c : Option ReasonCode)
      (r : AuthorizationRow)
      → (check_original env p s m o c).1 ≢ Result.ok (replayed r)
  original-settles s m o (some code) r h = settle-settles s StepUpOutcome.declined _ r h
  original-settles s m none none r h = settle-settles s StepUpOutcome.declined [] r h
  original-settles s m (some original) none r h = cap-settles s m original r h

  pub locked-settles :
      (s : Repository) (m : MandateRow) (fresh r : AuthorizationRow)
      → get p.step_up.id s.authorizations ≡ some fresh
      → is_pending fresh.status ≡ true
      → (resolve_locked env p s m).1 ≢ Result.ok (replayed r)
  unfolding resolve_locked
  locked-settles s m fresh r f k h =
      let t = rw (f, resolve_locked) at h in
      elim (Bool-cases (has_lapsed fresh.step_up_expires_at p.now)) [
        | inl l ↦ settle-settles s StepUpOutcome.expired _ r (rw (k, l) at t)
        | inr l ↦
            let o = get p.step_up.mandate_id s.mandates in
            original-settles s m o (authorized_mandate_gate o p.now) r (rw (k, l) at t)
      ]
