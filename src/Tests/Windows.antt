-- ===== src/Tests/Windows.antt =====
-- packages/core/src/engine/window-rollup.ts and time.ts on sample values.
use waysafe.Prelude.{ℕ, ◌≡◌, refl, none, [], ◌∷◌, txt}
use waysafe.Prelude.Int.{pos, negsuc, ◌+ℤ◌}
use waysafe.Time.Keys.{
  window_keys, day_key, week_key, month_key, iso_week, iso_year, iso_day_number, week_thursday, pad,
  to_string, digits,
}
use waysafe.Time.{zoned_parts, Formatter, days_from_civil, weekday_of}
use waysafe.Engine.Rollup.{
  LedgerEntryType, touch, roll_up_entry, roll_up_entries, count_transactions, roll_up_window,
}
use waysafe.Engine.Rollup.Counting.{release_entry, capture_entry}
use waysafe.Tests.Samples.{accounting}

epoch_test : weekday_of 1970 1 1 ≡ 4
unfolding weekday_of days_from_civil
epoch_test = refl

leap_day_test : weekday_of 2024 2 29 ≡ 4
unfolding weekday_of days_from_civil
leap_day_test = refl

-- A settled payment and a force capture hold a slot each.
settled_test :
    roll_up_window
      (record { transaction_key = txt "a"; type = LedgerEntryType.reservation; amount = pos 500 }
        ∷ release_entry (txt "a") (negsuc 499)
        ∷ capture_entry (txt "a") (pos 450)
        ∷ capture_entry (txt "b") (pos 20)
        ∷ record { transaction_key = txt "a"; type = LedgerEntryType.credit; amount = negsuc 99 }
        ∷ [])
      accounting
      none
    ≡ record { amount = pos 470; count = 2 }
unfolding roll_up_window roll_up_entries roll_up_entry touch count_transactions ◌+ℤ◌
settled_test = refl

-- Noon of a civil date.
abbrev on : (year month day : ℕ) → Formatter
on y m d zone now = record { year = y; month = m; day = d; hour = 12; minute = 0 }

keys_test :
    window_keys (on 2026 9 8) 0 (txt "UTC")
    ≡ record { day = txt "2026-09-08"; week = txt "2026-W37"; month = txt "2026-09" }
unfolding window_keys day_key week_key month_key iso_week iso_year iso_day_number week_thursday pad
    to_string digits zoned_parts days_from_civil
keys_test = refl

-- The last days of December may belong to the next ISO year, the first of January to the last one.
year_end_test :
    (week_key (on 2024 12 30) 0 (txt "UTC") ≡ txt "2025-W01")
    × (week_key (on 2027 1 1) 0 (txt "UTC") ≡ txt "2026-W53")
unfolding week_key iso_week iso_year iso_day_number week_thursday pad to_string digits zoned_parts
    days_from_civil
year_end_test = (refl, refl)
