-- ===== src/Time.antt =====
-- packages/core/src/time.ts: `zonedParts`; the child has the window keys. `Intl.DateTimeFormat` with its time-zone data is outside
-- the repository, so the formatted parts are a parameter; the weekday is computed as
-- `new Date(Date.UTC(y, m - 1, d)).getUTCDay()` does, by counting days.
use waysafe.Prelude.{ℕ, ◌+◌, ◌-◌, ◌*◌, ◌/◌, ◌%◌, leb, if◌then◌else◌, Text}
pub mod Keys

-- The numbers that `formatToParts` gives.
pub record FormattedParts : Type 0 where
  pub year : ℕ
  pub month : ℕ
  pub day : ℕ
  pub hour : ℕ
  pub minute : ℕ

-- `partsFormatter(timeZone).formatToParts(date)`: a time zone and an instant in milliseconds.
abbrev pub Formatter : Type 0
Formatter = Text → ℕ → FormattedParts

pub record ZonedParts : Type 0 where
  pub year : ℕ
  pub month : ℕ
  pub day : ℕ
  pub hour : ℕ
  pub minute : ℕ
  pub weekday : ℕ

-- Days from 0000-03-01 to a civil date of the proleptic Gregorian calendar, for a year from 1 on.
unfoldable pub days_from_civil : ℕ → ℕ → ℕ → ℕ
days_from_civil year month day =
    let y = if leb month 2 then year - 1 else year in
    let m = if leb month 2 then month + 9 else month - 3 in
    365 * y + y / 4 - y / 100 + y / 400 + (153 * m + 2) / 5 + (day - 1)

-- `getUTCDay()` of a civil date: 0000-03-01 was a Wednesday.
unfoldable pub weekday_of : ℕ → ℕ → ℕ → ℕ
unfolding days_from_civil
weekday_of year month day = (days_from_civil year month day + 3) % 7

unfoldable pub zoned_parts : Formatter → Text → ℕ → ZonedParts
unfolding weekday_of
zoned_parts intl zone now =
    let p = intl zone now in
    record {
      year = p.year;
      month = p.month;
      day = p.day;
      hour = p.hour % 24;
      minute = p.minute;
      weekday = weekday_of p.year p.month p.day;
    }
