-- ===== src/Engine/Rollup.antt =====
-- packages/core/src/engine/window-rollup.ts: what a window's ledger entries amount to.
use waysafe.Prelude.{
  ℕ, ◌+◌, Bool, true, false, Option, none, some, List, [], ◌∷◌, Text, if◌then◌else◌, text_eq, not,
  ◌&&◌, ◌||◌,
}
use waysafe.Prelude.Int.{ℤ, pos, ◌+ℤ◌}
use waysafe.Policy.{Accounting}
use waysafe.Engine.Types.{WindowSpend}
pub mod Counting
pub mod Slots

pub data LedgerEntryType : Type 0 where
  reservation : LedgerEntryType
  release : LedgerEntryType
  capture : LedgerEntryType
  credit : LedgerEntryType

pub record LedgerRollupEntry : Type 0 where
  pub transaction_key : Text
  pub type : LedgerEntryType
  pub amount : ℤ

-- The value type of the `transactions` map.
pub record Seen : Type 0 where
  pub reserved : Bool
  pub released : Bool
  pub captured : Bool

abbrev pub unseen : Seen
unseen = record { reserved = false; released = false; captured = false }

-- The map in its order of insertion.
abbrev pub Transactions : Type 0
Transactions = List (Text × Seen)

abbrev pub is_credit : LedgerEntryType → Bool
is_credit LedgerEntryType.credit = true
is_credit _ = false

-- The flag that an entry sets; the source's last branch takes every type but the first two.
abbrev pub mark : LedgerEntryType → Seen → Seen
mark LedgerEntryType.reservation s = record s { reserved = true }
mark LedgerEntryType.release s = record s { released = true }
mark _ s = record s { captured = true }

-- `transactions.get(key)`, set to an unseen transaction where it is missing, with the flag set.
unfoldable pub touch : Text → LedgerEntryType → Transactions → Transactions
touch k t [] = (k, mark t unseen) ∷ []
touch k t ((key, s) ∷ m) = if text_eq key k then (key, mark t s) ∷ m else (key, s) ∷ touch k t m

-- The body of the first loop.
unfoldable pub roll_up_entry : Bool → LedgerRollupEntry → ℤ × Transactions → ℤ × Transactions
unfolding touch
roll_up_entry refunds_credit_budget entry (amount, m) =
    if is_credit entry.type && not refunds_credit_budget
    then (amount, m)
    else if is_credit entry.type
    then (amount +ℤ entry.amount, m)
    else (amount +ℤ entry.amount, touch entry.transaction_key entry.type m)

unfoldable pub roll_up_entries : Bool → List LedgerRollupEntry → ℤ × Transactions → ℤ × Transactions
unfolding roll_up_entry
roll_up_entries r [] acc = acc
roll_up_entries r (e ∷ es) acc = roll_up_entries r es (roll_up_entry r e acc)

-- `key === options.excludeFromCount`
abbrev pub is_excluded : Option Text → Text → Bool
is_excluded none key = false
is_excluded (some k) key = text_eq key k

-- What one transaction adds to `count`.
abbrev pub slots : Option Text → Text → Seen → ℕ
slots exclude key seen =
    if is_excluded exclude key
    then 0
    else if seen.captured
    then 1
    else if seen.released
    then 0
    else if seen.reserved
    then 1
    else 0

-- The second loop.
unfoldable pub count_transactions : Option Text → Transactions → ℕ
count_transactions exclude [] = 0
count_transactions exclude ((key, seen) ∷ m) = slots exclude key seen + count_transactions exclude m

unfoldable pub roll_up_window : List LedgerRollupEntry → Accounting → Option Text → WindowSpend
unfolding roll_up_entries count_transactions
roll_up_window entries accounting exclude_from_count =
    let (amount, transactions) =
      roll_up_entries accounting.refunds_credit_budget entries (pos 0, []) in
    record { amount = amount; count = count_transactions exclude_from_count transactions }
