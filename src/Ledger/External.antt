-- ===== src/Ledger/External.antt =====
-- apps/api/src/authorization/in-memory-repository.ts: `settleExternalAuthorization` and
-- `releaseExternalAuthorization`, on every revision that one external reference names.
use waysafe.Prelude.{
  ℕ, Bool, true, not, ◌&&◌, Option, none, some, List, [], ◌∷◌, ◌++◌, Text, map, if◌then◌else◌, ltb,
  ◌==◌, text_eq, filter, find, length, to_upper_case,
}
use waysafe.Prelude.Int.{ℤ, pos, ◌+ℤ◌, neg}
use waysafe.Time.{Formatter}
use waysafe.Engine.Rollup.{LedgerEntryType}
use waysafe.Wire.{currency_text}
use waysafe.Ledger.{
  AuthorizationStatus, LedgerEntryRow, AuthorizationRow, Repository, RepositoryError, Result,
  entries_of,
}
use waysafe.Ledger.Maps.{Map}
use waysafe.Ledger.Save.{is_ref, values}
use waysafe.Ledger.Operations.{
  add_up, is_hold_of, is_reservation, is_executable, is_zero, push_entry, with_entries,
  window_keys_for,
}
pub mod Settled

pub record SettleExternalInput : Type 0 where
  pub mandate_id : Text
  pub external_ref : Text
  pub settled_amount : ℕ
  pub settled_currency : Text

pub record SettlementOutcome : Type 0 where
  pub released : ℤ
  pub captured : ℕ
  pub authorized : ℤ
  pub rows : ℕ

pub record ReleaseOutcome : Type 0 where
  pub released : ℤ
  pub rows : ℕ

-- The test of the filter over the authorizations.
abbrev pub is_named : Text → Text → AuthorizationRow → Bool
is_named m ref a = text_eq a.mandate_id m && is_ref ref a.external_ref

unfoldable pub external_rows : Repository → (mandate_id external_ref : Text) → List AuthorizationRow
external_rows s m ref = filter (is_named m ref) (values s.authorizations)

-- `external_revision ?? 0`
abbrev pub revision : AuthorizationRow → ℕ
revision a = elim a.external_revision [ none ↦ 0 | some n ↦ n ]

-- `rows.sort((a, b) => ...)`, which is stable.
unfoldable pub insert_row : AuthorizationRow → List AuthorizationRow → List AuthorizationRow
insert_row a [] = a ∷ []
insert_row a (b ∷ bs) = if ltb (revision b) (revision a) then b ∷ insert_row a bs else a ∷ b ∷ bs

unfoldable pub by_revision : List AuthorizationRow → List AuthorizationRow
unfolding insert_row
by_revision [] = []
by_revision (a ∷ rows) = insert_row a (by_revision rows)

-- `rows[rows.length - 1]`
unfoldable pub last_row : List AuthorizationRow → Option AuthorizationRow
last_row [] = none
last_row (a ∷ []) = some a
last_row (a ∷ b ∷ bs) = last_row (b ∷ bs)

-- `row.status = status` on the rows of the map that pass a test.
abbrev pub restatus :
    (AuthorizationRow → Bool) → AuthorizationStatus → Map AuthorizationRow → Map AuthorizationRow
restatus p status [] = []
restatus p status ((k, a) ∷ rows) =
    (k, if p a then record a { status = status } else a) ∷ restatus p status rows

abbrev pub with_statuses : (AuthorizationRow → Bool) → AuthorizationStatus → Repository → Repository
with_statuses p status s = record s { authorizations = restatus p status s.authorizations }

module _ (intl : Formatter) (s : Repository) (mandate_id : Text) (now : ℕ) where
  -- The loop's body: what is outstanding for a row is given back, in the window of its reservation.
  unfoldable pub release_outstanding : AuthorizationRow → List LedgerEntryRow → List LedgerEntryRow
  unfolding add_up window_keys_for
  release_outstanding row es =
      let mine = filter (is_hold_of row.id) es in
      let outstanding = add_up (pos 0) mine in
      if is_zero outstanding
      then es
      else push_entry mandate_id row.id LedgerEntryType.release (neg outstanding)
          (window_keys_for intl s row (find (λ e. is_reservation e.type) mine)) now es

  -- The loop over the rows, with what it has released so far.
  unfoldable pub release_rows :
      List AuthorizationRow → List LedgerEntryRow × ℤ → List LedgerEntryRow × ℤ
  unfolding release_outstanding
  release_rows [] done = done
  release_rows (row ∷ rows) (es, released) =
      release_rows rows
        (release_outstanding row es, released +ℤ add_up (pos 0) (filter (is_hold_of row.id) es))

  -- The settled figure is captured on the latest revision, where it is not 0.
  unfoldable pub capture_settled : AuthorizationRow → ℕ → List LedgerEntryRow → List LedgerEntryRow
  unfolding window_keys_for
  capture_settled latest amount es =
      if amount == 0
      then es
      else push_entry mandate_id latest.id LedgerEntryType.capture (pos amount)
          (window_keys_for intl s latest none) now es

module _ (intl : Formatter) (s : Repository) (now : ℕ) where
  -- The part of `settleExternalAuthorization` after its guards.
  unfoldable pub settle_rows :
      SettleExternalInput
      → AuthorizationRow
      → List AuthorizationRow
      → Repository × SettlementOutcome
  unfolding release_rows capture_settled
  settle_rows i latest rows =
      let done = release_rows intl s i.mandate_id now rows (entries_of s i.mandate_id, pos 0) in
      (
        with_statuses (is_named i.mandate_id i.external_ref) AuthorizationStatus.executed (
            with_entries i.mandate_id
              (capture_settled intl s i.mandate_id now latest i.settled_amount done.0) s),
        record {
          released = done.1;
          captured = i.settled_amount;
          authorized = done.1;
          rows = length rows;
        },
      )

  unfoldable pub settle_external_authorization :
      SettleExternalInput → Result (Repository × SettlementOutcome)
  unfolding settle_rows
  settle_external_authorization i =
      let rows = by_revision (external_rows s i.mandate_id i.external_ref) in
      elim (last_row rows) [
        | none ↦ Result.thrown RepositoryError.no_external_authorization
        | some latest ↦
            if text_eq (currency_text latest.action.currency) (to_upper_case i.settled_currency)
            then Result.ok (settle_rows i latest rows)
            else Result.thrown RepositoryError.currency_mismatch
      ]

  -- The part of `releaseExternalAuthorization` from its rows on. With no row the ledger is not written.
  unfoldable pub release_named :
      (mandate_id external_ref : Text) → List AuthorizationRow → Repository × ReleaseOutcome
  unfolding release_rows
  release_named m ref [] = (s, record { released = pos 0; rows = 0 })
  release_named m ref (row ∷ rows) =
      let done = release_rows intl s m now (row ∷ rows) (entries_of s m, pos 0) in
      (
        with_statuses (λ a. is_named m ref a && is_executable a.status) AuthorizationStatus.expired
            (with_entries m done.0 s),
        record { released = done.1; rows = length (row ∷ rows) },
      )

  unfoldable pub release_external_authorization :
      (mandate_id external_ref : Text) → Repository × ReleaseOutcome
  unfolding release_named
  release_external_authorization m ref = release_named m ref (external_rows s m ref)
