-- ===== src/Ledger/StepUp.antt =====
-- apps/api/src/authorization/in-memory-repository.ts: what a step-up's outcome does to its hold.
use waysafe.Prelude.{ℕ, ◌≡◌, refl, ◌∙◌, inl, inr, true, some, List, Text, find, Option-cases}
use waysafe.Prelude.Int.{neg, ◌-ℤ◌}
use waysafe.Time.{Formatter}
use waysafe.Ledger.{
  AuthorizationStatus, AuthorizationRow, LedgerEntryRow, Repository, Result, entries_of,
}
use waysafe.Ledger.Maps.{get, get-set}
use waysafe.Ledger.Operations.{
  StepUpOutcome, is_reservation_of, is_pending, window_keys_for, release_reservation,
  captured_amount, release_hold, settle_step_up, resolve_step_up,
}
use waysafe.Ledger.Sums.{entries_of-with_entries, hold_amount, captured-release, hold-release}
use waysafe.Ledger.Execution.{reserved_amount, add_neg, sub_zero}

abbrev pub outcome_status : StepUpOutcome → AuthorizationStatus
outcome_status StepUpOutcome.approved = AuthorizationStatus.step_up_approved
outcome_status StepUpOutcome.declined = AuthorizationStatus.step_up_declined
outcome_status StepUpOutcome.expired = AuthorizationStatus.expired

-- The first reservation is given back, and nothing is captured.
abbrev pub IsFreed : Text → List LedgerEntryRow → List LedgerEntryRow → Type 0
IsFreed id before after =
    (hold_amount id after
      ≡ hold_amount id before -ℤ reserved_amount (find (is_reservation_of id) before))
    × (captured_amount id after ≡ captured_amount id before)

-- The ledger after a step-up's outcome: an approval leaves it as it was.
abbrev pub IsResolved : Text → StepUpOutcome → List LedgerEntryRow → List LedgerEntryRow → Type 0
IsResolved id StepUpOutcome.approved before after = after ≡ before
IsResolved id StepUpOutcome.declined before after = IsFreed id before after
IsResolved id StepUpOutcome.expired before after = IsFreed id before after

module _ (intl : Formatter) (s : Repository) (m id : Text) (now : ℕ) (auth : AuthorizationRow) where
  release_hold-IsFreed :
      IsFreed id (entries_of s m) (entries_of (release_hold intl s m id now auth) m)
  unfolding release_hold
  release_hold-IsFreed =
      let es = entries_of s m in
      elim (Option-cases (find (is_reservation_of id) es)) [
        | inl e ↦ rw (e, release_hold) (sub_zero (hold_amount id es), refl)
        | inr (r, e) ↦
            let keys = window_keys_for intl s auth (some r) in
            let es' = release_reservation intl s m auth id now (some r) es in
            rw (e, release_hold)
              (rw (entries_of-with_entries m es' s) (
                hold-release m id (neg r.amount) keys now es ∙ add_neg (hold_amount id es) r.amount,
                captured-release m id (neg r.amount) keys now es,
              ))
      ]

  settle_step_up-IsResolved :
      (outcome : StepUpOutcome)
      → IsResolved id outcome
          (entries_of s m)
          (entries_of (settle_step_up intl s m id now auth outcome) m)
  unfolding settle_step_up
  settle_step_up-IsResolved StepUpOutcome.approved = refl
  settle_step_up-IsResolved StepUpOutcome.declined = release_hold-IsFreed
  settle_step_up-IsResolved StepUpOutcome.expired = release_hold-IsFreed

  pub settle_step_up-get :
      (outcome : StepUpOutcome)
      → get id (settle_step_up intl s m id now auth outcome).authorizations
        ≡ some (record auth { status = outcome_status outcome })
  unfolding settle_step_up
  settle_step_up-get StepUpOutcome.approved = get-set id _ s.authorizations
  settle_step_up-get StepUpOutcome.declined =
      get-set id _ (release_hold intl s m id now auth).authorizations
  settle_step_up-get StepUpOutcome.expired =
      get-set id _ (release_hold intl s m id now auth).authorizations

-- A pending step-up is resolved, whatever the outcome: the call succeeds, the row's status becomes the
-- outcome's and is otherwise as it was; an approval leaves the named mandate's ledger alone, and
-- otherwise the first reservation there is released in full and nothing is captured.
pub resolve_step_up-IsResolved :
    (intl : Formatter) (s : Repository) (m id : Text) (outcome : StepUpOutcome) (now : ℕ)
    (auth : AuthorizationRow)
    → get id s.authorizations ≡ some auth
    → is_pending auth.status ≡ true
    → (s' : Repository) × (resolve_step_up intl s m id outcome now ≡ Result.ok s')
      × (get id s'.authorizations ≡ some (record auth { status = outcome_status outcome }))
      × IsResolved id outcome (entries_of s m) (entries_of s' m)
unfolding resolve_step_up
resolve_step_up-IsResolved intl s m id outcome now auth h k = (
  settle_step_up intl s m id now auth outcome,
  rw (h, resolve_step_up) (rw k refl),
  settle_step_up-get intl s m id now auth outcome,
  settle_step_up-IsResolved intl s m id now auth outcome,
)
