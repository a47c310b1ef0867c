-- ===== src/Ledger/Caps.antt =====
-- apps/api/src/authorization with packages/core/src/engine: the decision and the reservation it takes, seen in
-- the windows of the mandate.
use waysafe.Prelude.{
  ℕ, ◌≡◌, ◌≢◌, refl, true, Option, none, some, List, [], ◌∷◌, ◌++◌, Text, All, All-map, ◌≤◌, ◌+◌,
  arith,
}
use waysafe.Prelude.Int.{ℤ, pos, ◌+ℤ◌, ◌≤ℤ◌}
use waysafe.Policy.{Accounting, LimitWindow, CumulativeLimit}
use waysafe.Time.{Formatter}
use waysafe.Time.Keys.{WindowKeys, window_keys}
use waysafe.Engine.Types.{window_spend, EngineInput, SpendSnapshot}
use waysafe.Engine.Evaluate.{evaluate}
use waysafe.Engine.Verdict.{evaluate-not-deny_iff}
use waysafe.Engine.Spec.{UpTo}
use waysafe.Engine.Rollup.Slots.{has}
use waysafe.Reason.{Decision}
use waysafe.Engine.Rollup.{LedgerEntryType}
use waysafe.Ledger.{LedgerEntryRow, Repository, entries_of, timezone_of}
use waysafe.Ledger.Counts.{IsNewTo, sum_where-count_le}
use waysafe.Ledger.Operations.{new_entry}
use waysafe.Ledger.Sums.{text_eq_same, entries_of-with_entries}
use waysafe.Ledger.Save.{NewLedgerEntry, SaveAuthorizationInput, save, push_entries, stored_row}
use waysafe.Ledger.Snapshot.{get_spend_snapshot}
use waysafe.Ledger.Windows.{in_window, snapshot_window, sum_where-push}
pub mod Executed

-- A reservation of an amount.
abbrev pub reserving : ℤ → List NewLedgerEntry
reserving z = record { type = LedgerEntryType.reservation; amount = z } ∷ []

-- An entry with the keys of an instant is in the windows of that instant.
keys_in_window :
    (keys : WindowKeys) (e : LedgerEntryRow) (w : LimitWindow)
    → e.day_key ≡ keys.day
    → e.week_key ≡ keys.week
    → e.month_key ≡ keys.month
    → in_window keys w e ≡ true
keys_in_window keys e LimitWindow.day d k m = rw d (text_eq_same keys.day)
keys_in_window keys e LimitWindow.week d k m = rw k (text_eq_same keys.week)
keys_in_window keys e LimitWindow.month d k m = rw m (text_eq_same keys.month)
keys_in_window keys e LimitWindow.mandate d k m = refl

-- The reservation that an input asks for.
abbrev held_entry : Formatter → SaveAuthorizationInput → Accounting → ℤ → LedgerEntryRow
held_entry intl i a z =
    new_entry i.mandate_id i.id LedgerEntryType.reservation z (window_keys intl i.now a.timezone)
      i.now

entries_of-save :
    (intl : Formatter) (s : Repository) (i : SaveAuthorizationInput) (a : Accounting) (z : ℤ)
    → timezone_of s i.mandate_id ≡ a.timezone
    → i.ledger_entries ≡ reserving z
    → entries_of (save intl s i) i.mandate_id
      ≡ entries_of s i.mandate_id ++ (held_entry intl i a z ∷ [])
unfolding save push_entries
entries_of-save intl s i a z tz h =
    rw (h, tz)
      (entries_of-with_entries i.mandate_id
        (entries_of s i.mandate_id ++ (held_entry intl i a z ∷ [])) s)

-- A reservation that is entered with the keys of an instant adds to every window of its mandate then.
pub pushed-window :
    (intl : Formatter) (s s' : Repository) (m id : Text) (a : Accounting) (z : ℤ) (at now : ℕ)
    (x : Option Text) (w : LimitWindow)
    → entries_of s' m
      ≡ entries_of s m
        ++ (new_entry m id LedgerEntryType.reservation z (window_keys intl at a.timezone) now ∷ [])
    → (window_spend (get_spend_snapshot intl s' m a at x) w).amount
      ≡ (window_spend (get_spend_snapshot intl s m a at x) w).amount +ℤ z
pushed-window intl s s' m id a z at now x w pushed =
    let keys = window_keys intl at a.timezone in
    let e = new_entry m id LedgerEntryType.reservation z keys now in
    let p = in_window keys w in
    let here : p e ≡ true = keys_in_window keys e w refl refl refl in
    let new = sum_where-push s'.authorizations s.authorizations (entries_of s m) a x x p e refl in
    rw (snapshot_window intl s' m a at x w, snapshot_window intl s m a at x w)
      (rw pushed (rw here at new))

-- An authorization that is saved with a reservation adds it to every window of its mandate at its own
-- instant, where the snapshot is taken in the mandate's time zone.
pub save-window :
    (intl : Formatter) (s : Repository) (i : SaveAuthorizationInput) (a : Accounting) (z : ℤ)
    (x : Option Text) (w : LimitWindow)
    → timezone_of s i.mandate_id ≡ a.timezone
    → i.ledger_entries ≡ reserving z
    → (window_spend (get_spend_snapshot intl (save intl s i) i.mandate_id a i.now x) w).amount
      ≡ (window_spend (get_spend_snapshot intl s i.mandate_id a i.now x) w).amount +ℤ z
save-window intl s i a z x w tz h =
    pushed-window intl s (save intl s i) i.mandate_id i.id a z i.now i.now x w
      (entries_of-save intl s i a z tz h)

-- It takes one slot of every window at most, where its id is new to the mandate's ledger.
save-count :
    (intl : Formatter) (s : Repository) (i : SaveAuthorizationInput) (a : Accounting) (z : ℤ)
    (x : Option Text) (w : LimitWindow)
    → timezone_of s i.mandate_id ≡ a.timezone
    → i.ledger_entries ≡ reserving z
    → IsNewTo i.id (entries_of s i.mandate_id)
    → (window_spend (get_spend_snapshot intl (save intl s i) i.mandate_id a i.now x) w).count
      ≤ (window_spend (get_spend_snapshot intl s i.mandate_id a i.now x) w).count + 1
unfolding save
save-count intl s i a z x w tz h new =
    let p = in_window (window_keys intl i.now a.timezone) w in
    rw
      (
        snapshot_window intl (save intl s i) i.mandate_id a i.now x w,
        snapshot_window intl s i.mandate_id a i.now x w,
      )
      (rw (entries_of-save intl s i a z tz h) (
        sum_where-count_le i.id (stored_row i) s.authorizations a x p (entries_of s i.mandate_id)
          (held_entry intl i a z) new))

-- The amounts of a policy's cumulative limits' windows are within them.
abbrev pub AmountsWithin : SpendSnapshot → List CumulativeLimit → Type 0
AmountsWithin spend limits =
    All (λ l. (window_spend spend l.window).amount ≤ℤ pos l.max_amount) limits

-- Both the amounts and, where a limit has a maximum count, the counts are.
abbrev pub WithinLimits : SpendSnapshot → List CumulativeLimit → Type 0
WithinLimits spend limits =
    All
      (λ l.
        ((window_spend spend l.window).amount ≤ℤ pos l.max_amount)
        × UpTo l.max_count (window_spend spend l.window).count)
      limits

UpTo-le : (m : Option ℕ) (a b : ℕ) → a ≤ b → UpTo m b → UpTo m a
UpTo-le none a b h k = tt
UpTo-le (some m) a b h k = omega (arith, h, k)

-- What the engine decides without a DENY, on the snapshot of the mandate at the instant, still fits after
-- the reservation: once the authorization is saved with a reservation of the action's amount, every
-- window with a cumulative limit is within it, in its amount and in its count, where the authorization's id
-- is new to the mandate's ledger.
pub save-WithinLimits :
    (intl : Formatter) (s : Repository) (i : SaveAuthorizationInput) (input : EngineInput)
    → timezone_of s i.mandate_id ≡ input.policy.accounting.timezone
    → input.spend ≡ get_spend_snapshot intl s i.mandate_id input.policy.accounting i.now none
    → (evaluate intl input).decision ≢ Decision.deny
    → i.ledger_entries ≡ reserving (pos input.action.amount)
    → IsNewTo i.id (entries_of s i.mandate_id)
    → WithinLimits
        (get_spend_snapshot intl (save intl s i) i.mandate_id input.policy.accounting i.now none)
        input.policy.cumulative_limits
save-WithinLimits intl s i input tz sp d h new =
    let kept = ((evaluate-not-deny_iff intl input).0 d).limits in
    let a = input.policy.accounting in
    let z = pos input.action.amount in
    All-map
      (λ (l : CumulativeLimit) k. (
        rw (save-window intl s i a z none l.window tz h) (rw sp at k.0),
        UpTo-le l.max_count _ _ (save-count intl s i a z none l.window tz h new) (rw sp at k.1),
      ))
      input.policy.cumulative_limits kept
