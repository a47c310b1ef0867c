-- ===== src/Ledger/Snapshot.antt =====
-- apps/api/src/authorization/in-memory-repository.ts: `getSpendSnapshot` and `seenMerchants`.
use waysafe.Prelude.{
  ℕ, Bool, true, false, Option, none, some, List, [], ◌∷◌, ◌++◌, Text, if◌then◌else◌, text_eq,
  filter, map, ◌&&◌,
}
use waysafe.Policy.{Accounting}
use waysafe.Time.{Formatter}
use waysafe.Time.Keys.{WindowKeys, window_keys}
use waysafe.Merchant.Matching.{verified_merchant_keys}
use waysafe.Engine.Types.{WindowSpend, SpendSnapshot}
use waysafe.Engine.Rollup.{LedgerRollupEntry, roll_up_window}
use waysafe.Ledger.{AuthorizationStatus, LedgerEntryRow, AuthorizationRow, Repository, entries_of}
use waysafe.Ledger.Maps.{Map, get}
use waysafe.Ledger.Save.{values}

abbrev pub ref_or : Text → Option AuthorizationRow → Text
ref_or id none = id
ref_or id (some a) = elim a.external_ref [ none ↦ id | some ref ↦ ref ]

-- `rollupEntry`
abbrev pub rollup_entry : Map AuthorizationRow → LedgerEntryRow → LedgerRollupEntry
rollup_entry authorizations e = record {
  transaction_key = ref_or e.authorization_id (get e.authorization_id authorizations);
  type = e.type;
  amount = e.amount;
}

-- `sumWhere`
unfoldable pub sum_where :
    Map AuthorizationRow
    → List LedgerEntryRow
    → Accounting
    → Option Text
    → (LedgerEntryRow → Bool)
    → WindowSpend
sum_where authorizations entries accounting exclude matches =
    roll_up_window (map (rollup_entry authorizations) (filter matches entries)) accounting exclude

-- `settled.includes(auth.status)`
abbrev pub is_settled : AuthorizationStatus → Bool
is_settled AuthorizationStatus.authorized = true
is_settled AuthorizationStatus.step_up_approved = true
is_settled AuthorizationStatus.executed = true
is_settled _ = false

-- The keys of the settled authorizations of the mandate; the set is a list, which the engine only asks
-- for membership.
unfoldable pub seen_merchants : Text → List AuthorizationRow → List Text
seen_merchants mandate_id [] = []
seen_merchants mandate_id (a ∷ rows) =
    (if text_eq a.mandate_id mandate_id && is_settled a.status
      then verified_merchant_keys a.merchant
      else [])
    ++ seen_merchants mandate_id rows

abbrev pub in_day : WindowKeys → LedgerEntryRow → Bool
in_day keys e = text_eq e.day_key keys.day

abbrev pub in_week : WindowKeys → LedgerEntryRow → Bool
in_week keys e = text_eq e.week_key keys.week

abbrev pub in_month : WindowKeys → LedgerEntryRow → Bool
in_month keys e = text_eq e.month_key keys.month

abbrev pub anywhere : LedgerEntryRow → Bool
anywhere e = true

unfoldable pub get_spend_snapshot :
    Formatter → Repository → Text → Accounting → ℕ → Option Text → SpendSnapshot
unfolding sum_where seen_merchants
get_spend_snapshot intl s mandate_id accounting now exclude =
    let keys = window_keys intl now accounting.timezone in
    let sum = sum_where s.authorizations (entries_of s mandate_id) accounting exclude in
    record {
      day = sum (in_day keys);
      week = sum (in_week keys);
      month = sum (in_month keys);
      mandate = sum anywhere;
      seen_merchants = seen_merchants mandate_id (values s.authorizations);
    }
