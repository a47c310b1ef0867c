-- ===== src/Ledger/Windows.antt =====
-- apps/api/src/authorization/in-memory-repository.ts with window-rollup.ts: how operations move the
-- windows of a mandate.
use waysafe.Prelude.{
  ℕ, ◌≡◌, refl, ap, ◌∙◌, inl, inr, Bool, true, false, Option, List, [], ◌∷◌, ◌++◌, Text,
  if◌then◌else◌, filter, map, map-append, append-nil, Bool-cases,
}
use waysafe.Prelude.Int.{ℤ, pos, ◌+ℤ◌}
use waysafe.Policy.{Accounting, LimitWindow}
use waysafe.Time.{Formatter}
use waysafe.Time.Keys.{WindowKeys, window_keys}
use waysafe.Engine.Types.{window_spend}
use waysafe.Engine.Rollup.{Transactions, is_credit, roll_up_entry, roll_up_entries, roll_up_window}
use waysafe.Engine.Rollup.Counting.{amount-append}
use waysafe.Ledger.{LedgerEntryRow, AuthorizationRow, Repository, entries_of}
use waysafe.Ledger.Maps.{Map}
use waysafe.Ledger.Sums.{filter-append}
use waysafe.Ledger.Snapshot.{rollup_entry, sum_where, in_day, in_week, in_month, get_spend_snapshot}

-- The sum does not look at the transactions.
entry_amount_same :
    (r : Bool) (m m' : Map AuthorizationRow) (e : LedgerEntryRow) (a b : ℤ × Transactions)
    → a.0 ≡ b.0
    → (roll_up_entry r (rollup_entry m e) a).0 ≡ (roll_up_entry r (rollup_entry m' e) b).0
unfolding roll_up_entry
entry_amount_same r m m' e a b h = elim (Bool-cases (is_credit e.type)) [
  | inl c ↦ elim (Bool-cases r) [
    | inl q ↦ rw (c, q) (ap (λ z. z +ℤ e.amount) h)
    | inr q ↦ rw (c, q) h
  ]
  | inr c ↦ rw c (ap (λ z. z +ℤ e.amount) h)
]

entries_amount_same :
    (r : Bool) (m m' : Map AuthorizationRow) (es : List LedgerEntryRow) (a b : ℤ × Transactions)
    → a.0 ≡ b.0
    → (roll_up_entries r (map (rollup_entry m) es) a).0
      ≡ (roll_up_entries r (map (rollup_entry m') es) b).0
unfolding roll_up_entries
entries_amount_same r m m' [] a b h = h
entries_amount_same r m m' (e ∷ es) a b h =
    entries_amount_same r m m' es (roll_up_entry r (rollup_entry m e) a)
      (roll_up_entry r (rollup_entry m' e) b) (entry_amount_same r m m' e a b h)

module _ (m m' : Map AuthorizationRow) (es : List LedgerEntryRow) (a : Accounting)
    (x x' : Option Text) (p : LedgerEntryRow → Bool) where
  -- The sum of a window looks neither at the authorizations nor at the excluded transaction.
  pub sum_where_same : (sum_where m es a x p).amount ≡ (sum_where m' es a x' p).amount
  unfolding sum_where roll_up_window
  sum_where_same =
      entries_amount_same a.refunds_credit_budget m m' (filter p es) (pos 0, []) (pos 0, []) refl

  -- One more entry that is no credit counts where it is in the window.
  pub sum_where-push :
      (e : LedgerEntryRow)
      → is_credit e.type ≡ false
      → (sum_where m (es ++ (e ∷ [])) a x p).amount ≡ (
          if p e
          then (sum_where m' es a x' p).amount +ℤ e.amount
          else (sum_where m' es a x' p).amount)
  unfolding sum_where
  sum_where-push e h = elim (Bool-cases (p e)) [
    | inl q ↦
        rw (filter-append p es (e ∷ []), q)
          (rw (map-append (rollup_entry m) (filter p es) (e ∷ [])) (
            amount-append (map (rollup_entry m) (filter p es)) (rollup_entry m e) a x h
            ∙ ap (λ z. z +ℤ e.amount) sum_where_same))
    | inr q ↦ rw (filter-append p es (e ∷ []), q) (rw (append-nil (filter p es)) sum_where_same)
  ]

-- The window keys of an entry decide whether it is in a window.
abbrev pub in_window : WindowKeys → LimitWindow → LedgerEntryRow → Bool
in_window keys LimitWindow.day e = in_day keys e
in_window keys LimitWindow.week e = in_week keys e
in_window keys LimitWindow.month e = in_month keys e
in_window keys LimitWindow.mandate e = true

pub snapshot_window :
    (intl : Formatter) (s : Repository) (m : Text) (a : Accounting) (now : ℕ) (x : Option Text)
    (w : LimitWindow)
    → window_spend (get_spend_snapshot intl s m a now x) w
      ≡ sum_where s.authorizations
          (entries_of s m)
          a
          x
          (in_window (window_keys intl now a.timezone) w)
unfolding get_spend_snapshot
snapshot_window intl s m a now x LimitWindow.day = refl
snapshot_window intl s m a now x LimitWindow.week = refl
snapshot_window intl s m a now x LimitWindow.month = refl
snapshot_window intl s m a now x LimitWindow.mandate = refl
