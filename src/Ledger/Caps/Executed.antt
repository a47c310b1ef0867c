-- ===== src/Ledger/Caps/Executed.antt =====
-- apps/api/src/authorization with packages/core/src/engine: the execution of an authorization, seen in the
-- windows of its mandate.
use waysafe.Prelude.{
  ℕ, ◌≡◌, refl, ap, ◌∙◌, inl, inr, Option, some, [], ◌∷◌, ◌++◌, Text, text_eq, Bool-cases, find,
  false, map,
}
use waysafe.Prelude.Int.{ℤ, pos, neg, ◌+ℤ◌, int_laws}
use waysafe.Policy.{Accounting, LimitWindow}
use waysafe.Time.{Formatter}
use waysafe.Time.Keys.{WindowKeys, window_keys}
use waysafe.Engine.Types.{window_spend, WindowSpend}
use waysafe.Engine.Rollup.Slots.{has}
use waysafe.Engine.Rollup.{LedgerEntryType}
use waysafe.Ledger.{AuthorizationStatus, LedgerEntryRow, AuthorizationRow, Repository, entries_of}
use waysafe.Ledger.Maps.{get}
use waysafe.Ledger.Counts.{sum_where-settled}
use waysafe.Ledger.Operations.{
  new_entry, row_keys, is_reservation_of, executed_entries, execute, window_keys_for,
}
use waysafe.Ledger.Sums.{entries_of-with_entries}
use waysafe.Ledger.Snapshot.{sum_where, get_spend_snapshot, rollup_entry, ref_or}
use waysafe.Ledger.Windows.{in_window, snapshot_window, sum_where-push}

entries_of-execute :
    (intl : Formatter) (s : Repository) (id : Text) (auth : AuthorizationRow) (now : ℕ)
    (r : LedgerEntryRow)
    → find (is_reservation_of id) (entries_of s auth.mandate_id) ≡ some r
    → entries_of (execute intl s id auth now) auth.mandate_id
      ≡ (entries_of s auth.mandate_id
          ++ (new_entry auth.mandate_id id LedgerEntryType.release (neg r.amount) (row_keys r) now
              ∷ []))
        ++ (new_entry auth.mandate_id id LedgerEntryType.capture
              (pos auth.action.amount)
              (row_keys r)
              now
            ∷ [])
unfolding execute executed_entries window_keys_for
entries_of-execute intl s id auth now r found =
    let es = entries_of s auth.mandate_id in
    rw (entries_of-with_entries auth.mandate_id (executed_entries intl s auth id now es) s)
      (rw found refl)

-- Entries with the same keys are in the same windows.
same_window :
    (keys : WindowKeys) (w : LimitWindow) (e f : LedgerEntryRow)
    → row_keys e ≡ row_keys f
    → in_window keys w e ≡ in_window keys w f
same_window keys LimitWindow.day e f h = ap (λ k. text_eq k.day keys.day) h
same_window keys LimitWindow.week e f h = ap (λ k. text_eq k.week keys.week) h
same_window keys LimitWindow.month e f h = ap (λ k. text_eq k.month keys.month) h
same_window keys LimitWindow.mandate e f h = refl

settled_same : (z a : ℤ) → z +ℤ neg a +ℤ a ≡ z
settled_same z a = grind int_laws

-- Executing an authorization that holds exactly its amount moves no window's amount, whenever the snapshot is
-- taken: the release and the capture stand in the reservation's own windows.
execute-amount :
    (intl : Formatter) (s : Repository) (id : Text) (auth : AuthorizationRow) (now at : ℕ)
    (a : Accounting) (x : Option Text) (w : LimitWindow) (r : LedgerEntryRow)
    → find (is_reservation_of id) (entries_of s auth.mandate_id) ≡ some r
    → r.amount ≡ pos auth.action.amount
    → (window_spend
        (get_spend_snapshot intl (execute intl s id auth now) auth.mandate_id a at x)
        w).amount
      ≡ (window_spend (get_spend_snapshot intl s auth.mandate_id a at x) w).amount
execute-amount intl s id auth now at a x w r found exact =
    let m = auth.mandate_id in
    let es = entries_of s m in
    let s' = execute intl s id auth now in
    let rows = s.authorizations in
    let rows' = s'.authorizations in
    let p = in_window (window_keys intl at a.timezone) w in
    let e = new_entry m id LedgerEntryType.release (neg r.amount) (row_keys r) now in
    let f = new_entry m id LedgerEntryType.capture (pos auth.action.amount) (row_keys r) now in
    let z = (sum_where rows es a x p).amount in
    let one = sum_where-push rows' rows es a x x p e refl in
    let two = sum_where-push rows' rows' (es ++ (e ∷ [])) a x x p f refl in
    let same = same_window (window_keys intl at a.timezone) w e f refl in
    rw (snapshot_window intl s' m a at x w, snapshot_window intl s m a at x w)
      (rw (entries_of-execute intl s id auth now r found) (elim (Bool-cases (p f)) [
        | inl q ↦
            rw q at two
            ∙ (ap (λ t. t +ℤ pos auth.action.amount) (rw (same ∙ q) at one)
                ∙ (rw (← exact) (settled_same z r.amount)))
        | inr q ↦ rw q at two ∙ rw (same ∙ q) at one
      ]))

-- Nor does it move a window's count, where no entry of its transaction is a release yet.
execute-count :
    (intl : Formatter) (s : Repository) (id : Text) (auth : AuthorizationRow) (now at : ℕ)
    (a : Accounting) (x : Option Text) (w : LimitWindow) (r : LedgerEntryRow)
    → get id s.authorizations ≡ some auth
    → find (is_reservation_of id) (entries_of s auth.mandate_id) ≡ some r
    → has LedgerEntryType.release
        (ref_or id (some auth))
        (map (rollup_entry s.authorizations) (entries_of s auth.mandate_id))
      ≡ false
    → (window_spend
        (get_spend_snapshot intl (execute intl s id auth now) auth.mandate_id a at x)
        w).count
      ≡ (window_spend (get_spend_snapshot intl s auth.mandate_id a at x) w).count
unfolding execute
execute-count intl s id auth now at a x w r stored found unreleased =
    let m = auth.mandate_id in
    let keys = window_keys intl at a.timezone in
    let e = new_entry m id LedgerEntryType.release (neg r.amount) (row_keys r) now in
    let f = new_entry m id LedgerEntryType.capture (pos auth.action.amount) (row_keys r) now in
    rw
      (
        snapshot_window intl (execute intl s id auth now) m a at x w,
        snapshot_window intl s m a at x w,
      )
      (rw (entries_of-execute intl s id auth now r found) (
        sum_where-settled s.authorizations id auth AuthorizationStatus.executed stored
          (entries_of s m) r found unreleased a x (in_window keys w) e f
          (same_window keys w e r refl, same_window keys w f r refl) (refl, refl) (refl, refl)))

WindowSpend-ext : {a b : WindowSpend} → a.amount ≡ b.amount → a.count ≡ b.count → a ≡ b
WindowSpend-ext h k = cc

-- Executing a stored authorization whose first reservation is exactly its amount, and of whose transaction no
-- entry of the mandate's ledger is a release yet, moves no window of its mandate, neither its amount nor its
-- count, whenever the snapshot is taken: the release and the capture stand in the reservation's own windows.
pub execute-window :
    (intl : Formatter) (s : Repository) (id : Text) (auth : AuthorizationRow) (now at : ℕ)
    (a : Accounting) (x : Option Text) (w : LimitWindow) (r : LedgerEntryRow)
    → get id s.authorizations ≡ some auth
    → find (is_reservation_of id) (entries_of s auth.mandate_id) ≡ some r
    → r.amount ≡ pos auth.action.amount
    → has LedgerEntryType.release
        (ref_or id (some auth))
        (map (rollup_entry s.authorizations) (entries_of s auth.mandate_id))
      ≡ false
    → window_spend (get_spend_snapshot intl (execute intl s id auth now) auth.mandate_id a at x) w
      ≡ window_spend (get_spend_snapshot intl s auth.mandate_id a at x) w
execute-window intl s id auth now at a x w r stored found exact unreleased =
    WindowSpend-ext (execute-amount intl s id auth now at a x w r found exact)
      (execute-count intl s id auth now at a x w r stored found unreleased)
