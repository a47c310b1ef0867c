-- ===== src/Ledger/Lifecycle/Steps.antt =====
-- packages/core/src/domain.ts and apps/api/src/authorization/in-memory-repository.ts: each operation of the
-- repository makes only its own moves.
use waysafe.Prelude.{
  ℕ, ◌≡◌, refl, ap, ◌∙◌, inl, inr, false, List, [], ◌∷◌, Text, text_eq, Option-cases, Bool-cases,
  find, is_some, ◌&&◌, to_upper_case,
}
use waysafe.Time.{Formatter}
use waysafe.Wire.{currency_text}
use waysafe.Merchant.Resolve.{truthy}
use waysafe.Ledger.{
  AuthorizationStatus, AuthorizationRow, Repository, RepositoryError, Result, entries_of,
}
use waysafe.Ledger.Maps.{get, set, get-set_other}
use waysafe.Ledger.Operations.{
  is_reservation_of, StepUpOutcome, is_executable, is_pending, execute, record_execution,
  release_hold, settle_step_up, resolve_step_up, approval_hold, record_step_up_approval_hold,
  record_refund,
}
use waysafe.Ledger.Save.{
  SaveAuthorizationInput, is_valid_actor, has_conflict, values, index_key, stored_row, save_claimed,
  save_keyed, save_authorization, claim, is_ref,
}
use waysafe.Ledger.External.{
  SettleExternalInput, is_named, external_rows, by_revision, last_row, settle_rows,
  settle_external_authorization, release_named, release_external_authorization,
}
use waysafe.Ledger.Execution.{record_execution-cases}
use waysafe.Ledger.Refunds.{refund-authorizations}
use waysafe.Ledger.StepUp.{outcome_status}
use waysafe.Service.StepUp.{record_approver_ledger_entry}
use waysafe.Ledger.Lifecycle.{
  Operation, run, after, executes, resolves, settles, lapses, StatusMoves, Spares,
}
use waysafe.Ledger.Lifecycle.Rows.{
  rows_stay, same_rows, set-StatusMoves, restatus-StatusMoves, and_true, Result-cases,
}

module _ (intl : Formatter) (s : Repository) (k : Text) where
  execution-StatusMoves :
      (m id : Text) (now : ℕ)
      → StatusMoves
          (Operation.execution m id now)
          (get k s.authorizations)
          (get k (after s (record_execution intl s m id now)).authorizations)
  unfolding execute
  execution-StatusMoves m id now = elim (Result-cases (record_execution intl s m id now)) [
    | inr (e, q) ↦ rw q (rows_stay (Operation.execution m id now) (get k s.authorizations))
    | inl (s', q) ↦
        let (auth, g, e, done) = record_execution-cases intl s s' m id now q in
        rw q (elim done [
          | inl (x, same) ↦
              rw (← same) (rows_stay (Operation.execution m id now) (get k s.authorizations))
          | inr (x, same) ↦ rw (← same) (
              set-StatusMoves (Operation.execution m id now) k id auth AuthorizationStatus.executed
                s.authorizations g (executes x))
        ])
  ]

  release_hold-authorizations :
      (m id : Text) (now : ℕ) (auth : AuthorizationRow)
      → (release_hold intl s m id now auth).authorizations ≡ s.authorizations
  unfolding release_hold
  release_hold-authorizations m id now auth =
      elim (Option-cases (find (is_reservation_of id) (entries_of s m))) [
        | inl q ↦ rw (q, release_hold) refl
        | inr (r, q) ↦ rw (q, release_hold) refl
      ]

  settle_step_up-authorizations :
      (m id : Text) (now : ℕ) (auth : AuthorizationRow) (o : StepUpOutcome)
      → (settle_step_up intl s m id now auth o).authorizations
        ≡ set id (record auth { status = outcome_status o }) s.authorizations
  unfolding settle_step_up
  settle_step_up-authorizations m id now auth StepUpOutcome.approved = refl
  settle_step_up-authorizations m id now auth StepUpOutcome.declined =
      ap (set id _) (release_hold-authorizations m id now auth)
  settle_step_up-authorizations m id now auth StepUpOutcome.expired =
      ap (set id _) (release_hold-authorizations m id now auth)

  step_up-StatusMoves :
      (m id : Text) (o : StepUpOutcome) (now : ℕ)
      → StatusMoves
          (Operation.step_up m id o now)
          (get k s.authorizations)
          (get k (after s (resolve_step_up intl s m id o now)).authorizations)
  unfolding resolve_step_up
  step_up-StatusMoves m id o now = elim (Option-cases (get id s.authorizations)) [
    | inl q ↦
        rw (q, resolve_step_up) (rows_stay (Operation.step_up m id o now) (get k s.authorizations))
    | inr (auth, q) ↦ elim (Bool-cases (is_pending auth.status)) [
      | inr e ↦
          rw (q, resolve_step_up)
            (rw e (rows_stay (Operation.step_up m id o now) (get k s.authorizations)))
      | inl e ↦
          rw (q, resolve_step_up)
            (rw e (
              rw (settle_step_up-authorizations m id now auth o) (
                set-StatusMoves (Operation.step_up m id o now) k id auth (outcome_status o)
                  s.authorizations q (resolves e))))
    ]
  ]

  approval-StatusMoves :
      (m id : Text) (amount now : ℕ)
      → StatusMoves
          (Operation.approval m id amount now)
          (get k s.authorizations)
          (get k (after s (record_step_up_approval_hold intl s m id amount now)).authorizations)
  unfolding record_step_up_approval_hold approval_hold
  approval-StatusMoves m id amount now = elim (Option-cases (get id s.authorizations)) [
    | inl q ↦
        rw (q, record_step_up_approval_hold)
          (rows_stay (Operation.approval m id amount now) (get k s.authorizations))
    | inr (auth, q) ↦ elim (Bool-cases (text_eq auth.mandate_id m)) [
      | inr e ↦
          rw (q, record_step_up_approval_hold)
            (rw e (rows_stay (Operation.approval m id amount now) (get k s.authorizations)))
      | inl e ↦ elim (Bool-cases (is_some (find (is_reservation_of id) (entries_of s m)))) [
        | inl f ↦
            rw (q, record_step_up_approval_hold)
              (rw (e, f) (rows_stay (Operation.approval m id amount now) (get k s.authorizations)))
        | inr f ↦
            rw (q, record_step_up_approval_hold)
              (rw (e, f) (rows_stay (Operation.approval m id amount now) (get k s.authorizations)))
      ]
    ]
  ]

  refunding-StatusMoves :
      (id : Text) (amount now : ℕ)
      → StatusMoves
          (Operation.refunding id amount now)
          (get k s.authorizations)
          (get k (after s (record_refund intl s id amount now)).authorizations)
  unfolding record_refund
  refunding-StatusMoves id amount now = elim (Option-cases (get id s.authorizations)) [
    | inl q ↦
        rw (q, record_refund)
          (rows_stay (Operation.refunding id amount now) (get k s.authorizations))
    | inr (auth, q) ↦
        rw (q, record_refund)
          (rw (refund-authorizations intl s auth id amount now)
            (rows_stay (Operation.refunding id amount now) (get k s.authorizations)))
  ]

  -- A save of another authorization leaves the row, whatever comes of it.
  save_authorization-get :
      (i : SaveAuthorizationInput)
      → text_eq i.id k ≡ false
      → get k (save_authorization intl s i).0.authorizations ≡ get k s.authorizations
  unfolding save_authorization save_keyed save_claimed waysafe.Ledger.Save.save
  save_authorization-get i h = elim (Bool-cases (is_valid_actor i)) [
    | inr v ↦ rw (v, save_authorization) refl
    | inl v ↦ elim (Option-cases (truthy i.idempotency_key)) [
      | inl q ↦ rw (v, q, save_authorization, save_keyed) (claimed s refl)
      | inr (key, q) ↦
          elim (Bool-cases
            (is_some (truthy (get (index_key i.organization_id key) s.idempotency_index)))) [
              | inl t ↦ rw (v, q, t, save_authorization, save_keyed) refl
              | inr t ↦
                  rw (v, q, t, save_authorization, save_keyed) (claimed (claim intl s i key) refl)
            ]
    ]
  ]
    where
      claimed :
          (c : Repository)
          → c.authorizations ≡ s.authorizations
          → get k (save_claimed intl c i).0.authorizations ≡ get k s.authorizations
      claimed c same =
          elim (Bool-cases (has_conflict i (truthy i.external_ref) (values c.authorizations))) [
            | inl e ↦ rw (e, save_claimed) (ap (get k) same)
            | inr e ↦
                rw (e, save_claimed)
                  (get-set_other k i.id (stored_row i) c.authorizations h ∙ ap (get k) same)
          ]

  settlement-StatusMoves :
      (i : SettleExternalInput) (now : ℕ)
      → StatusMoves
          (Operation.settlement i now)
          (get k s.authorizations)
          (get k (run intl (Operation.settlement i now) s).authorizations)
  unfolding settle_rows settle_external_authorization
  settlement-StatusMoves i now =
      let op = Operation.settlement i now in
      let rows = by_revision (external_rows s i.mandate_id i.external_ref) in
      let here = rows_stay op (get k s.authorizations) in
      elim (Option-cases (last_row rows)) [
        | inl q ↦ rw (q, settle_external_authorization) here
        | inr (latest, q) ↦
            let same =
              text_eq (currency_text latest.action.currency) (to_upper_case i.settled_currency) in
            elim (Bool-cases same) [
              | inr c ↦ rw (q, settle_external_authorization) (rw c here)
              | inl c ↦
                  rw (q, settle_external_authorization)
                    (rw c (
                      restatus-StatusMoves op (is_named i.mandate_id i.external_ref)
                        AuthorizationStatus.executed k s.authorizations (λ a h. settles h)))
            ]
      ]

  external_release-StatusMoves :
      (m ref : Text) (now : ℕ)
      → StatusMoves
          (Operation.external_release m ref now)
          (get k s.authorizations)
          (get k (run intl (Operation.external_release m ref now) s).authorizations)
  unfolding release_external_authorization release_named
  external_release-StatusMoves m ref now = named (external_rows s m ref)
    where
      named :
          (rows : List AuthorizationRow)
          → StatusMoves
              (Operation.external_release m ref now)
              (get k s.authorizations)
              (get k (release_named intl s now m ref rows).0.authorizations)
      named [] = rows_stay (Operation.external_release m ref now) (get k s.authorizations)
      named (row ∷ rows) =
          restatus-StatusMoves (Operation.external_release m ref now)
            (λ a. is_named m ref a && is_executable a.status) AuthorizationStatus.expired k
            s.authorizations
            (λ a h.
              let (n, e) = and_true (is_named m ref a) (is_executable a.status) h in lapses n e)

  -- Whichever of the operations of `Operation` is called, and whether it throws or not, if it does not save an
  -- authorization of this id: a row stored under the id stays stored with all but its status, none appears, and
  -- the status stays or makes a move of the operation: an execution moves AUTHORIZED and STEP_UP_APPROVED to
  -- EXECUTED, a resolution moves PENDING_STEP_UP to its outcome, an external settlement moves the rows of its
  -- reference from any status to EXECUTED, and an external release moves those of its reference that are
  -- AUTHORIZED or STEP_UP_APPROVED to EXPIRED; an approval's hold, an approver's entry, a refund and a save move
  -- nothing.
  pub run-StatusMoves :
      (op : Operation)
      → Spares k op
      → StatusMoves op (get k s.authorizations) (get k (run intl op s).authorizations)
  unfolding record_approver_ledger_entry
  run-StatusMoves (Operation.execution m id now) h = execution-StatusMoves m id now
  run-StatusMoves (Operation.step_up m id o now) h = step_up-StatusMoves m id o now
  run-StatusMoves (Operation.approval m id amount now) h = approval-StatusMoves m id amount now
  run-StatusMoves (Operation.approver_entry m id amount now) h =
      rows_stay (Operation.approver_entry m id amount now) (get k s.authorizations)
  run-StatusMoves (Operation.refunding id amount now) h = refunding-StatusMoves id amount now
  run-StatusMoves (Operation.saving i) h =
      same_rows (Operation.saving i) (save_authorization-get i h)
  run-StatusMoves (Operation.settlement i now) h = settlement-StatusMoves i now
  run-StatusMoves (Operation.external_release m ref now) h = external_release-StatusMoves m ref now
