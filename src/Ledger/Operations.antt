-- ===== src/Ledger/Operations.antt =====
-- apps/api/src/authorization/in-memory-repository.ts: the operations on holds, executions and refunds.
use waysafe.Prelude.{
  ℕ, Bool, true, false, not, ◌&&◌, ◌||◌, Option, none, some, List, [], ◌∷◌, ◌++◌, Text,
  if◌then◌else◌, is_some, ◌==◌, text_eq, filter, find,
}
use waysafe.Prelude.Int.{ℤ, pos, negsuc, ◌+ℤ◌, ◌-ℤ◌, leb_ℤ, neg}
use waysafe.Time.{Formatter}
use waysafe.Time.Keys.{WindowKeys, window_keys}
use waysafe.Engine.Rollup.{LedgerEntryType}
use waysafe.Ledger.{
  AuthorizationStatus, LedgerEntryRow, AuthorizationRow, Repository, RepositoryError, Result,
  entries_of, timezone_of,
}
use waysafe.Ledger.Maps.{get, set}

abbrev pub is_reservation : LedgerEntryType → Bool
is_reservation LedgerEntryType.reservation = true
is_reservation _ = false

abbrev pub is_release : LedgerEntryType → Bool
is_release LedgerEntryType.release = true
is_release _ = false

abbrev pub is_capture : LedgerEntryType → Bool
is_capture LedgerEntryType.capture = true
is_capture _ = false

abbrev pub is_credit_type : LedgerEntryType → Bool
is_credit_type LedgerEntryType.credit = true
is_credit_type _ = false

-- `.reduce((sum, e) => sum + e.amount, 0)` from a running sum.
unfoldable pub add_up : ℤ → List LedgerEntryRow → ℤ
add_up sum [] = sum
add_up sum (e ∷ es) = add_up (sum +ℤ e.amount) es

-- `.reduce((sum, e) => sum - e.amount, 0)`
unfoldable pub take_down : ℤ → List LedgerEntryRow → ℤ
take_down sum [] = sum
take_down sum (e ∷ es) = take_down (sum -ℤ e.amount) es

-- `e.authorizationId === id`
abbrev pub is_for : Text → LedgerEntryRow → Bool
is_for id e = text_eq e.authorization_id id

abbrev pub is_hold_of : Text → LedgerEntryRow → Bool
is_hold_of id e = is_for id e && (is_reservation e.type || is_release e.type)

abbrev pub is_reservation_of : Text → LedgerEntryRow → Bool
is_reservation_of id e = is_for id e && is_reservation e.type

unfoldable pub get_authorization_hold : Repository → Text → Text → ℤ
unfolding add_up
get_authorization_hold s mandate_id authorization_id =
    add_up (pos 0) (filter (is_hold_of authorization_id) (entries_of s mandate_id))

-- A new entry of the ledger, and the entries with it.
abbrev pub new_entry : Text → Text → LedgerEntryType → ℤ → WindowKeys → ℕ → LedgerEntryRow
new_entry mandate_id authorization_id type amount keys now = record {
  mandate_id = mandate_id;
  authorization_id = authorization_id;
  type = type;
  amount = amount;
  day_key = keys.day;
  week_key = keys.week;
  month_key = keys.month;
  created_at = now;
}

abbrev pub push_entry :
    Text → Text → LedgerEntryType → ℤ → WindowKeys → ℕ → List LedgerEntryRow → List LedgerEntryRow
push_entry mandate_id authorization_id type amount keys now es =
    es ++ (new_entry mandate_id authorization_id type amount keys now ∷ [])

abbrev pub with_entries : Text → List LedgerEntryRow → Repository → Repository
with_entries mandate_id es s = record s {
  ledger_by_mandate = set mandate_id es s.ledger_by_mandate;
}

-- `auth.status = status` on the row that the map holds.
abbrev pub with_status : Text → AuthorizationRow → AuthorizationStatus → Repository → Repository
with_status id auth status s = record s {
  authorizations = set id (record auth { status = status }) s.authorizations;
}

abbrev pub is_executed : AuthorizationStatus → Bool
is_executed AuthorizationStatus.executed = true
is_executed _ = false

abbrev pub is_pending : AuthorizationStatus → Bool
is_pending AuthorizationStatus.pending_step_up = true
is_pending _ = false

-- `EXECUTABLE_STATUSES`
abbrev pub is_executable : AuthorizationStatus → Bool
is_executable AuthorizationStatus.authorized = true
is_executable AuthorizationStatus.step_up_approved = true
is_executable _ = false

-- The window keys of a row.
abbrev pub row_keys : LedgerEntryRow → WindowKeys
row_keys e = record { day = e.day_key; week = e.week_key; month = e.month_key }

pub data StepUpOutcome : Type 0 where
  approved declined expired : StepUpOutcome

-- What is already credited to an authorization, and what was captured for it.
unfoldable pub already_credited : Text → List LedgerEntryRow → ℤ
unfolding take_down
already_credited id es =
    take_down (pos 0) (filter (λ e. is_credit_type e.type) (filter (is_for id) es))

unfoldable pub captured_amount : Text → List LedgerEntryRow → ℤ
unfolding add_up
captured_amount id es = add_up (pos 0) (filter (λ e. is_capture e.type) (filter (is_for id) es))

-- `Math.min` and `Math.max`
abbrev pub min_ℤ : ℤ → ℤ → ℤ
min_ℤ a b = if leb_ℤ a b then a else b

abbrev pub max_ℤ : ℤ → ℤ → ℤ
max_ℤ a b = if leb_ℤ a b then b else a

abbrev pub is_zero : ℤ → Bool
is_zero (pos n) = n == 0
is_zero (negsuc n) = false

-- What a refund of a total amount still has to credit, at most what was captured.
unfoldable pub refund_delta : Text → ℕ → List LedgerEntryRow → ℤ
unfolding already_credited captured_amount
refund_delta id amount es =
    let already = already_credited id es in
    max_ℤ (pos 0) (min_ℤ (pos amount -ℤ already) (captured_amount id es -ℤ already))

module _ (intl : Formatter) (s : Repository) where
  unfoldable pub window_keys_for : AuthorizationRow → Option LedgerEntryRow → WindowKeys
  window_keys_for auth (some reservation) = row_keys reservation
  window_keys_for auth none = window_keys intl auth.created_at (timezone_of s auth.mandate_id)

  -- The release of a reservation, where there is one, in its own window.
  abbrev pub release_reservation :
      Text
      → AuthorizationRow
      → Text
      → ℕ
      → Option LedgerEntryRow
      → List LedgerEntryRow
      → List LedgerEntryRow
  release_reservation mandate_id auth id now none es = es
  release_reservation mandate_id auth id now (some r) es =
      push_entry mandate_id id LedgerEntryType.release (neg r.amount)
        (window_keys_for auth (some r)) now es

  -- The ledger of the mandate after an execution.
  unfoldable pub executed_entries :
      AuthorizationRow → Text → ℕ → List LedgerEntryRow → List LedgerEntryRow
  unfolding window_keys_for
  executed_entries auth id now es =
      let reservation = find (is_reservation_of id) es in
      push_entry auth.mandate_id id LedgerEntryType.capture (pos auth.action.amount)
        (window_keys_for auth reservation) now
        (release_reservation auth.mandate_id auth id now reservation es)

  -- The part of `recordExecution` after its guards.
  unfoldable pub execute : Text → AuthorizationRow → ℕ → Repository
  unfolding executed_entries
  execute id auth now =
      with_status id auth AuthorizationStatus.executed (
        with_entries auth.mandate_id (executed_entries auth id now (entries_of s auth.mandate_id))
          s)

  unfoldable pub record_execution : (mandate_id authorization_id : Text) → ℕ → Result Repository
  unfolding execute
  record_execution mandate_id id now = elim (get id s.authorizations) [
    | none ↦ Result.thrown RepositoryError.no_such_authorization
    | some auth ↦
        if not (text_eq auth.mandate_id mandate_id)
        then Result.thrown RepositoryError.wrong_mandate
        else if is_executed auth.status
        then Result.ok s
        else if not (is_executable auth.status)
        then Result.thrown RepositoryError.not_executable
        else Result.ok (execute id auth now)
  ]

  -- The store after the reservation of the authorization, if there is one, is given back.
  unfoldable pub release_hold : Text → Text → ℕ → AuthorizationRow → Repository
  unfolding window_keys_for
  release_hold mandate_id id now auth =
      elim (find (is_reservation_of id) (entries_of s mandate_id)) [
        | none ↦ s
        | some r ↦
            with_entries mandate_id
              (release_reservation mandate_id auth id now (some r) (entries_of s mandate_id)) s
      ]

  -- The part of `resolveStepUp` after its guards, by the outcome.
  unfoldable pub settle_step_up : Text → Text → ℕ → AuthorizationRow → StepUpOutcome → Repository
  unfolding release_hold
  settle_step_up mandate_id id now auth StepUpOutcome.approved =
      with_status id auth AuthorizationStatus.step_up_approved s
  settle_step_up mandate_id id now auth StepUpOutcome.declined =
      with_status id auth AuthorizationStatus.step_up_declined (release_hold mandate_id id now auth)
  settle_step_up mandate_id id now auth StepUpOutcome.expired =
      with_status id auth AuthorizationStatus.expired (release_hold mandate_id id now auth)

  -- The caller names the mandate whose ledger is searched.
  unfoldable pub resolve_step_up :
      (mandate_id authorization_id : Text) → StepUpOutcome → ℕ → Result Repository
  unfolding settle_step_up
  resolve_step_up mandate_id id outcome now = elim (get id s.authorizations) [
    | none ↦ Result.thrown RepositoryError.no_such_authorization
    | some auth ↦
        if not (is_pending auth.status)
        then Result.thrown RepositoryError.not_pending_step_up
        else Result.ok (settle_step_up mandate_id id now auth outcome)
  ]

  -- The hold of an approved step-up, where none was taken when it was raised.
  unfoldable pub approval_hold : Text → Text → ℕ → ℕ → AuthorizationRow → Repository
  unfolding window_keys_for
  approval_hold mandate_id id amount now auth =
      if is_some (find (is_reservation_of id) (entries_of s mandate_id))
      then s
      else with_entries mandate_id
          (push_entry mandate_id id LedgerEntryType.reservation (pos amount)
            (window_keys_for auth none) now (entries_of s mandate_id))
          s

  unfoldable pub record_step_up_approval_hold :
      (mandate_id authorization_id : Text) → (amount now : ℕ) → Result Repository
  unfolding approval_hold
  record_step_up_approval_hold mandate_id id amount now = elim (get id s.authorizations) [
    | none ↦ Result.thrown RepositoryError.no_such_authorization
    | some auth ↦
        if not (text_eq auth.mandate_id mandate_id)
        then Result.thrown RepositoryError.wrong_mandate
        else Result.ok (approval_hold mandate_id id amount now auth)
  ]

  -- The part of `recordRefund` after its guard.
  unfoldable pub refund : AuthorizationRow → Text → ℕ → ℕ → Repository
  unfolding window_keys_for refund_delta
  refund auth id amount now =
      let es = entries_of s auth.mandate_id in
      let delta = refund_delta id amount es in
      if is_zero delta
      then s
      else with_entries auth.mandate_id
          (push_entry auth.mandate_id id LedgerEntryType.credit (neg delta)
            (window_keys_for auth none) now es)
          s

  unfoldable pub record_refund : Text → (amount now : ℕ) → Result Repository
  unfolding refund
  record_refund id amount now = elim (get id s.authorizations) [
    | none ↦ Result.thrown RepositoryError.no_such_authorization
    | some auth ↦ Result.ok (refund auth id amount now)
  ]
