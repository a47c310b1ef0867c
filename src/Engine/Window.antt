-- ===== src/Engine/Window.antt =====
-- packages/core/src/engine/evaluate.ts: mandate expiry, currency and the time window.
use waysafe.Prelude.{
  ℕ, ◌+◌, ◌-◌, ◌*◌, Bool, true, false, ◌&&◌, ◌||◌, Option, none, some, List, [], ◌∷◌, Text, ltb,
  leb, ◌==◌, if◌then◌else◌, text_eq, any, is_empty,
}
use waysafe.Reason.{ReasonCode, PolicyPath, Reason}
use waysafe.Policy.{Policy, Currency, usd, other, ProposedAction, TimeWindow}
use waysafe.Time.{Formatter, ZonedParts, zoned_parts}

-- A list with one reason, from its code and its policy path.
abbrev pub denied : ReasonCode → PolicyPath → List Reason
denied code path = record { code = code; policy_path = some path } ∷ []

-- `now < expires_at`, false where the latter is NaN.
abbrev pub before_expiry : ℕ → Option ℕ → Bool
before_expiry now none = false
before_expiry now (some t) = ltb now t

unfoldable pub evaluate_expiry : Policy → ℕ → List Reason
evaluate_expiry policy now =
    if before_expiry now policy.expires_at
    then []
    else denied ReasonCode.deny_mandate_expired PolicyPath.expires_at

-- `===` on currencies.
abbrev pub currency_eq : Currency → Currency → Bool
currency_eq usd usd = true
currency_eq usd (other b) = false
currency_eq (other a) usd = false
currency_eq (other a) (other b) = text_eq a b

unfoldable pub evaluate_currency : Policy → ProposedAction → List Reason
evaluate_currency policy action =
    if currency_eq action.currency policy.currency
    then []
    else denied ReasonCode.deny_currency_not_permitted PolicyPath.currency

-- A digit's value.
digit : ℕ → ℕ
digit c = c - b'0'

-- "HH:MM" to minutes since midnight; the schema admits no text of another form.
unfoldable pub parse_clock_time : Text → ℕ
unfolding digit
parse_clock_time (h ∷ k ∷ colon ∷ m ∷ n ∷ []) =
    (digit h * 10 + digit k) * 60 + (digit m * 10 + digit n)
parse_clock_time _ = 0

-- A permitted day: the list is missing, empty, or has the weekday.
unfoldable pub day_permitted : Option (List ℕ) → ℕ → Bool
day_permitted none d = true
day_permitted (some days) d = is_empty days || any (λ x. x == d) days

-- Both ends are given; `start > end` wraps past midnight.
unfoldable pub within_clock : ℕ → ℕ → ℕ → Bool
within_clock start end minutes =
    if ltb end start
    then leb start minutes || leb minutes end
    else leb start minutes && leb minutes end

outside : PolicyPath → List Reason
outside path = denied ReasonCode.deny_outside_time_window path

-- The time-of-day part, on the optional ends.
unfoldable pub evaluate_clock : Option Text → Option Text → ℕ → List Reason
unfolding outside
evaluate_clock (some s) (some e) minutes =
    if within_clock (parse_clock_time s) (parse_clock_time e) minutes
    then []
    else outside PolicyPath.time_window
evaluate_clock (some s) none minutes =
    if ltb minutes (parse_clock_time s) then outside PolicyPath.start_time else []
evaluate_clock none (some e) minutes =
    if ltb (parse_clock_time e) minutes then outside PolicyPath.end_time else []
evaluate_clock none none minutes = []

unfoldable pub evaluate_window_at : TimeWindow → ZonedParts → List Reason
unfolding outside
evaluate_window_at w parts =
    if day_permitted w.days_of_week parts.weekday
    then evaluate_clock w.start_time w.end_time (parts.hour * 60 + parts.minute)
    else outside PolicyPath.days_of_week

unfoldable pub evaluate_time_window : Formatter → Option TimeWindow → Text → ℕ → List Reason
evaluate_time_window intl none zone now = []
evaluate_time_window intl (some w) zone now = evaluate_window_at w (zoned_parts intl zone now)
