-- ===== src/Time/Keys.antt =====
-- packages/core/src/time.ts: `dayKey`, `monthKey`, `weekKey`, `windowKeys`. A date is its number of days
-- (`days_from_civil`), so `setUTCDate` adds days.
use waysafe.Prelude.{
  ℕ, zero, suc, ◌+◌, ◌-◌, ◌/◌, ◌%◌, ◌<◌, ◌≡◌, refl, inl, inr, true, false, [], ◌∷◌, ◌++◌, Text, txt,
  ltb, leb, Bool-cases, if◌then◌else◌, arith,
}
use waysafe.Time.{Formatter, days_from_civil, zoned_parts}

-- The decimal digits of a number, on fuel.
unfoldable pub digits : ℕ → ℕ → Text
digits zero n = []
digits (suc fuel) n = elim (ltb n 10) [
  | true ↦ (b'0' + n) ∷ []
  | false ↦ digits fuel (n / 10) ++ ((b'0' + n % 10) ∷ [])
]

-- `String(n)`
unfoldable pub to_string : ℕ → Text
unfolding digits
to_string n = digits (suc n) n

-- Any fuel above the number gives the same digits, so the fuel of `to_string` is enough.
pub digits_enough : (f g n : ℕ) → n < f → n < g → digits f n ≡ digits g n
unfolding digits
digits_enough zero g n h k = absurd (omega arith)
digits_enough (suc f) zero n h k = absurd (omega arith)
digits_enough (suc f) (suc g) n h k = elim (Bool-cases (ltb n 10)) [
  | inl e ↦ rw (e, digits) refl
  | inr e ↦
      let ih = digits_enough f g (n / 10) (ground arith) (ground arith) in
      rw (e, digits) (rw ih refl)
]

-- `String(n).padStart(2, "0")`
unfoldable pub pad : ℕ → Text
unfolding to_string
pad n = if ltb n 10 then b'0' ∷ to_string n else to_string n

-- `(date.getUTCDay() + 6) % 7`, from Monday = 0.
unfoldable pub iso_day_number : ℕ → ℕ
iso_day_number n = (n + 3 + 6) % 7

-- The Thursday of the date's week.
unfoldable pub week_thursday : ℕ → ℕ
unfolding iso_day_number
week_thursday n = n + 3 - iso_day_number n

-- `anchor.getUTCFullYear()`, for a day at most a year away from the date's own year.
unfoldable pub iso_year : ℕ → ℕ → ℕ
unfolding days_from_civil
iso_year year thursday =
    if ltb thursday (days_from_civil year 1 1)
    then year - 1
    else if leb (days_from_civil (year + 1) 1 1) thursday
    then year + 1
    else year

-- The quotient is exact, so nothing is rounded.
unfoldable pub iso_week : ℕ → ℕ → ℕ
unfolding week_thursday
iso_week year thursday = 1 + (thursday - week_thursday (days_from_civil year 1 4)) / 7

pub record WindowKeys : Type 0 where
  pub day : Text
  pub week : Text
  pub month : Text

unfoldable pub day_key : Formatter → ℕ → Text → Text
unfolding zoned_parts pad to_string
day_key intl date zone =
    let p = zoned_parts intl zone date in
    to_string p.year ++ (txt "-" ++ (pad p.month ++ (txt "-" ++ pad p.day)))

unfoldable pub month_key : Formatter → ℕ → Text → Text
unfolding zoned_parts pad to_string
month_key intl date zone =
    let p = zoned_parts intl zone date in to_string p.year ++ (txt "-" ++ pad p.month)

unfoldable pub week_key : Formatter → ℕ → Text → Text
unfolding zoned_parts pad to_string iso_week iso_year week_thursday
week_key intl date zone =
    let p = zoned_parts intl zone date in
    let thursday = week_thursday (days_from_civil p.year p.month p.day) in
    let year = iso_year p.year thursday in
    to_string year ++ (txt "-W" ++ pad (iso_week year thursday))

unfoldable pub window_keys : Formatter → ℕ → Text → WindowKeys
unfolding day_key week_key month_key
window_keys intl date zone = record {
  day = day_key intl date zone;
  week = week_key intl date zone;
  month = month_key intl date zone;
}
