-- ===== src/Service/Boundary.antt =====
-- apps/api/src/authorization/service.ts with in-memory-repository.ts: the spending mandate's cap under an
-- approval, whose hold is entered in the window of the step-up and checked in the window of the approval.
use waysafe.Prelude.{
  ◌≡◌, refl, ap, ◌∙◌, inl, inr, true, false, none, some, List, [], ◌∷◌, ◌++◌, text_eq, is_empty,
  find, Bool-cases, Option-cases, All-map,
}
use waysafe.Prelude.Int.{pos, ◌+ℤ◌, ltb_ℤ}
use waysafe.Reason.{Reason}
use waysafe.Policy.{CumulativeLimit, LimitWindow}
use waysafe.Engine.Types.{window_spend}
use waysafe.Time.Keys.{window_keys}
use waysafe.Engine.Cumulative.{evaluate-limits}
use waysafe.Engine.Rollup.{LedgerEntryType}
use waysafe.Ledger.{
  AuthorizationRow, LedgerEntryRow, MandateRow, Repository, Result, entries_of, ledger_or_empty,
}
use waysafe.Ledger.Maps.{get, get-set_other}
use waysafe.Ledger.Operations.{
  StepUpOutcome, new_entry, with_entries, is_reservation_of, is_pending, window_keys_for,
  resolve_step_up, settle_step_up, record_step_up_approval_hold, approval_hold,
}
use waysafe.Ledger.Sums.{entries_of-with_entries, text_eq_same}
use waysafe.Ledger.Snapshot.{get_spend_snapshot}
use waysafe.Ledger.Caps.{AmountsWithin, pushed-window}
use waysafe.Service.{Environment}
use waysafe.Service.StepUp.{
  ResolveStepUpParams, record_approver_ledger_entry, settle, approve, after_hold, view_of,
  incremental_hold, cumulative_denial,
}

module _ (env : Environment) (p : ResolveStepUpParams) where
  -- An approval leaves the ledgers to the two entries that it makes.
  settle-ledger :
      (s : Repository) (rs : List Reason)
      → (settle env p s StepUpOutcome.approved rs).0.ledger_by_mandate ≡ s.ledger_by_mandate
  unfolding settle resolve_step_up settle_step_up
  settle-ledger s rs = elim (Option-cases (get p.step_up.id s.authorizations)) [
    | inl q ↦ rw (q, settle, resolve_step_up) refl
    | inr (auth, q) ↦ elim (Bool-cases (is_pending auth.status)) [
      | inl e ↦ rw (q, e, settle, resolve_step_up) refl
      | inr e ↦ rw (q, e, settle, resolve_step_up) refl
    ]
  ]

  module _ (s : Repository) (approver original : MandateRow) (auth : AuthorizationRow)
      (found : get p.step_up.mandate_id s.mandates ≡ some original)
      (row : get p.step_up.id s.authorizations ≡ some auth)
      (own : auth.mandate_id ≡ p.step_up.mandate_id)
      (other : text_eq approver.id p.step_up.mandate_id ≡ false)
      (unheld : find (is_reservation_of p.step_up.id) (entries_of s p.step_up.mandate_id)
        ≡ none) where
    -- The store with the approver's own entry.
    abbrev charged : Repository
    charged =
        record_approver_ledger_entry env.intl s approver.id p.step_up.id p.step_up.action.amount
          p.now

    charged-entries : entries_of charged p.step_up.mandate_id ≡ entries_of s p.step_up.mandate_id
    unfolding record_approver_ledger_entry
    charged-entries =
        ap ledger_or_empty
          (get-set_other p.step_up.mandate_id approver.id _ s.ledger_by_mandate other)

    -- The hold of the approval.
    abbrev held : List Reason → Repository
    held rs = (approve env p s approver rs).0

    abbrev hold_entry : LedgerEntryRow
    hold_entry =
        new_entry p.step_up.mandate_id p.step_up.id LedgerEntryType.reservation
          (pos p.step_up.action.amount)
          (window_keys env.intl auth.created_at original.current_version.policy.accounting.timezone)
          p.now

    abbrev pushed : List LedgerEntryRow
    pushed = entries_of s p.step_up.mandate_id ++ (hold_entry ∷ [])

    hold_made :
        record_step_up_approval_hold env.intl charged p.step_up.mandate_id p.step_up.id
          p.step_up.action.amount p.now
        ≡ Result.ok (with_entries p.step_up.mandate_id pushed charged)
    unfolding record_step_up_approval_hold approval_hold window_keys_for
        record_approver_ledger_entry
    hold_made =
        let same = text_eq_same p.step_up.mandate_id in
        rw (row, record_step_up_approval_hold)
          (rw (own, same)
            (rw (charged-entries, unheld, approval_hold)
              (rw (found, record_approver_ledger_entry) refl)))

    approve-entries : (rs : List Reason) → entries_of (held rs) p.step_up.mandate_id ≡ pushed
    unfolding approve
    approve-entries rs =
        let t = with_entries p.step_up.mandate_id pushed charged in
        let q : held rs ≡ (settle env p t StepUpOutcome.approved rs).0 =
          ap (λ o. (after_hold env p charged rs o).0) hold_made in
        rw q (
          ap (λ m. ledger_or_empty (get p.step_up.mandate_id m)) (settle-ledger t rs)
          ∙ entries_of-with_entries p.step_up.mandate_id pushed charged)

    -- The approval keeps the amounts of the spending mandate's cumulative limits where the instants of the step-up and of
    -- its approval have the same window keys.
    approve-limits :
        (rs : List Reason)
        → incremental_hold env p s ≡ pos p.step_up.action.amount
        → ltb_ℤ (pos 0) (pos p.step_up.action.amount) ≡ true
        → is_empty (cumulative_denial env p s original) ≡ true
        → window_keys env.intl auth.created_at original.current_version.policy.accounting.timezone
          ≡ window_keys env.intl p.now original.current_version.policy.accounting.timezone
        → AmountsWithin
            (get_spend_snapshot env.intl
              (held rs)
              p.step_up.mandate_id
              original.current_version.policy.accounting
              p.now
              none)
            original.current_version.policy.cumulative_limits
    unfolding cumulative_denial view_of
    approve-limits rs all positive kept keys =
        let a = original.current_version.policy.accounting in
        let kept' = rw (all, positive, cumulative_denial) at kept in
        let fits = evaluate-limits env.intl _ kept' in
        All-map
          (λ (l : CumulativeLimit) k.
            rw
              (pushed-window env.intl s (held rs) p.step_up.mandate_id p.step_up.id a
                (pos p.step_up.action.amount) p.now p.now none l.window
                (rw keys at (approve-entries rs)))
              k)
          original.current_version.policy.cumulative_limits fits

-- The hold of an approval, where the step-up belongs to the spending mandate, which is found and is not the
-- approver's, and holds nothing yet: it adds the amount to every window of the spending mandate at the step-up's
-- own instant, whenever the approval comes.
pub approve-window :
    (env : Environment) (p : ResolveStepUpParams) (s : Repository) (approver original : MandateRow)
    (auth : AuthorizationRow) (rs : List Reason) (w : LimitWindow)
    → get p.step_up.mandate_id s.mandates ≡ some original
    → get p.step_up.id s.authorizations ≡ some auth
    → auth.mandate_id ≡ p.step_up.mandate_id
    → text_eq approver.id p.step_up.mandate_id ≡ false
    → find (is_reservation_of p.step_up.id) (entries_of s p.step_up.mandate_id) ≡ none
    → let accounting = original.current_version.policy.accounting in
      let after = (approve env p s approver rs).0 in
      (window_spend
        (get_spend_snapshot env.intl after p.step_up.mandate_id accounting auth.created_at none)
        w).amount
      ≡ (window_spend
          (get_spend_snapshot env.intl s p.step_up.mandate_id accounting auth.created_at none)
          w).amount
        +ℤ pos p.step_up.action.amount
approve-window env p s approver original auth rs w found row own other unheld =
    pushed-window env.intl s (approve env p s approver rs).0 p.step_up.mandate_id p.step_up.id
      original.current_version.policy.accounting (pos p.step_up.action.amount) auth.created_at p.now
      none w (approve-entries env p s approver original auth found row own other unheld rs)

-- An approval keeps the amount of every window with a cumulative limit of the spending mandate within the limit,
-- where the step-up belongs to the spending mandate, which is found and is not the approver's, and holds nothing
-- yet, its whole amount, a positive one, is still to hold, the check of the mandate's cap finds no cumulative
-- denial, and the instants of the step-up and of the approval have the same window keys in the mandate's time
-- zone. Of the windows' counts, which this check leaves out, it says nothing.
pub approve-AmountsWithin :
    (env : Environment) (p : ResolveStepUpParams) (s : Repository) (approver original : MandateRow)
    (auth : AuthorizationRow) (rs : List Reason)
    → get p.step_up.mandate_id s.mandates ≡ some original
    → get p.step_up.id s.authorizations ≡ some auth
    → auth.mandate_id ≡ p.step_up.mandate_id
    → text_eq approver.id p.step_up.mandate_id ≡ false
    → find (is_reservation_of p.step_up.id) (entries_of s p.step_up.mandate_id) ≡ none
    → incremental_hold env p s ≡ pos p.step_up.action.amount
    → ltb_ℤ (pos 0) (pos p.step_up.action.amount) ≡ true
    → is_empty (cumulative_denial env p s original) ≡ true
    → window_keys env.intl auth.created_at original.current_version.policy.accounting.timezone
      ≡ window_keys env.intl p.now original.current_version.policy.accounting.timezone
    → AmountsWithin
        (get_spend_snapshot env.intl
          (approve env p s approver rs).0
          p.step_up.mandate_id
          original.current_version.policy.accounting
          p.now
          none)
        original.current_version.policy.cumulative_limits
approve-AmountsWithin env p s approver original auth rs found row own other unheld all positive kept
      keys =
    approve-limits env p s approver original auth found row own other unheld rs all positive kept
      keys
