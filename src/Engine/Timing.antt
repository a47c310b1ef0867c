-- ===== src/Engine/Timing.antt =====
-- packages/core/src/engine/evaluate.ts: expiry, currency and time window against the specification.
use waysafe.Prelude.{
  ℕ, ◌≡◌, refl, ◌↔◌, ◌++◌, All-append, inl, inr, Bool, true, false, Option, none, some, List, [],
  ◌∷◌, Text, arith, All, Any, Bool-cases, text_eq_iff, any, ◌==◌, if◌then◌else◌,
}
use waysafe.Reason.{Decision, ReasonCode, PolicyPath, Reason, decision_for_reason_code}
use waysafe.Policy.{Policy, Currency, usd, other, ProposedAction, TimeWindow}
use waysafe.Time.{Formatter, ZonedParts, zoned_parts}
use waysafe.Engine.Window.{
  denied, before_expiry, evaluate_expiry, currency_eq, evaluate_currency, day_permitted,
  within_clock, evaluate_clock, evaluate_window_at, evaluate_time_window, parse_clock_time,
}
use waysafe.Engine.Combine.{tier}
use waysafe.Engine.Spec.{IsLive, DayPermitted, InRange, InClock, InWindowAt, InTimeWindow}

-- A list of reasons that are all of the DENY tier.
abbrev pub IsDeny : Reason → Type 0
IsDeny r = tier r ≡ Decision.deny

abbrev pub IsStepUp : Reason → Type 0
IsStepUp r = tier r ≡ Decision.step_up

abbrev pub OnlyDenies : List Reason → Type 0
OnlyDenies rs = All IsDeny rs

pub OnlyDenies-append :
    (xs ys : List Reason) → OnlyDenies xs → OnlyDenies ys → OnlyDenies (xs ++ ys)
OnlyDenies-append xs ys h k = All-append IsDeny xs ys h k

module _ (b : Bool) (c : ReasonCode) (p : PolicyPath) where
  pub unless-nil_iff : ((if b then [] else denied c p) ≡ []) ↔ (b ≡ true)
  unless-nil_iff = elim (Bool-cases b) [
    | inl e ↦ rw e ((λ h. refl), λ h. refl)
    | inr e ↦ rw e ((λ h. cc), λ h. cc)
  ]

  pub when-nil_iff : ((if b then denied c p else []) ≡ []) ↔ (b ≡ false)
  when-nil_iff = elim (Bool-cases b) [
    | inl e ↦ rw e ((λ h. cc), λ h. cc)
    | inr e ↦ rw e ((λ h. refl), λ h. refl)
  ]

  pub unless-All :
      (P : Reason → Type 0)
      → P (record { code = c; policy_path = some p })
      → All P (if b then [] else denied c p)
  unless-All P h = elim (Bool-cases b) [ inl e ↦ rw e tt | inr e ↦ rw e (h, tt) ]

  pub when-All :
      (P : Reason → Type 0)
      → P (record { code = c; policy_path = some p })
      → All P (if b then denied c p else [])
  when-All P h = elim (Bool-cases b) [ inl e ↦ rw e (h, tt) | inr e ↦ rw e tt ]

pub iff_trans {ℓ κ μ} : {A : Type ℓ} {B : Type κ} {C : Type μ} → A ↔ B → B ↔ C → A ↔ C
iff_trans p q = (λ a. q.0 (p.0 a), λ c. p.1 (q.1 c))

before_expiry_iff : (now : ℕ) (e : Option ℕ) → (before_expiry now e ≡ true) ↔ IsLive now e
before_expiry_iff now none = ((λ h. cc), λ h. absurd h)
before_expiry_iff now (some t) = ((λ h. ground arith), λ h. ground arith)

-- No expiry reason exactly while the policy is live.
pub evaluate_expiry-nil_iff :
    (policy : Policy) (now : ℕ) → (evaluate_expiry policy now ≡ []) ↔ IsLive now policy.expires_at
unfolding evaluate_expiry
evaluate_expiry-nil_iff policy now =
    iff_trans (unless-nil_iff _ _ _) (before_expiry_iff now policy.expires_at)

pub evaluate_expiry-OnlyDenies :
    (policy : Policy) (now : ℕ) → OnlyDenies (evaluate_expiry policy now)
unfolding evaluate_expiry decision_for_reason_code
evaluate_expiry-OnlyDenies policy now = unless-All _ _ _ _ refl

currency_eq_iff : (a b : Currency) → (currency_eq a b ≡ true) ↔ (a ≡ b)
currency_eq_iff usd usd = ground arith
currency_eq_iff usd (other b) = ((λ h. cc), λ h. cc)
currency_eq_iff (other a) usd = ((λ h. cc), λ h. cc)
currency_eq_iff (other a) (other b) =
    ((λ h. let e = (text_eq_iff a b).0 h in cc), λ h. (text_eq_iff a b).1 (cc))

pub evaluate_currency-nil_iff :
    (policy : Policy) (action : ProposedAction)
    → (evaluate_currency policy action ≡ []) ↔ (action.currency ≡ policy.currency)
unfolding evaluate_currency
evaluate_currency-nil_iff policy action =
    iff_trans (unless-nil_iff _ _ _) (currency_eq_iff action.currency policy.currency)

pub evaluate_currency-OnlyDenies :
    (policy : Policy) (action : ProposedAction) → OnlyDenies (evaluate_currency policy action)
unfolding evaluate_currency decision_for_reason_code
evaluate_currency-OnlyDenies policy action = unless-All _ _ _ _ refl

days_iff : (days : List ℕ) (d : ℕ) → (any (λ x. x == d) days ≡ true) ↔ Any (λ y. y ≡ d) days
days_iff [] d = ((λ h. cc), λ h. absurd h)
days_iff (x ∷ xs) d = grind (arith, days_iff xs d)

day_permitted_iff :
    (days : Option (List ℕ)) (d : ℕ) → (day_permitted days d ≡ true) ↔ DayPermitted days d
unfolding day_permitted
day_permitted_iff none d = ((λ h. tt), λ h. refl)
day_permitted_iff (some []) d = ((λ h. tt), λ h. refl)
day_permitted_iff (some (x ∷ xs)) d = days_iff (x ∷ xs) d

within_clock_iff : (s e m : ℕ) → (within_clock s e m ≡ true) ↔ InRange s e m
unfolding within_clock
within_clock_iff s e m = grind arith

evaluate_clock-nil_iff : (s e : Option Text) (m : ℕ) → (evaluate_clock s e m ≡ []) ↔ InClock s e m
unfolding evaluate_clock
evaluate_clock-nil_iff none none m = ((λ h. tt), λ h. refl)
evaluate_clock-nil_iff (some s) none m = iff_trans (when-nil_iff _ _ _) (ground arith)
evaluate_clock-nil_iff none (some e) m = iff_trans (when-nil_iff _ _ _) (ground arith)
evaluate_clock-nil_iff (some s) (some e) m =
    iff_trans (unless-nil_iff _ _ _) (within_clock_iff (parse_clock_time s) (parse_clock_time e) m)

evaluate_clock-OnlyDenies : (s e : Option Text) (m : ℕ) → OnlyDenies (evaluate_clock s e m)
unfolding evaluate_clock decision_for_reason_code
evaluate_clock-OnlyDenies none none m = tt
evaluate_clock-OnlyDenies (some s) none m = when-All _ _ _ _ refl
evaluate_clock-OnlyDenies none (some e) m = when-All _ _ _ _ refl
evaluate_clock-OnlyDenies (some s) (some e) m = unless-All _ _ _ _ refl

evaluate_window_at-nil_iff :
    (w : TimeWindow) (p : ZonedParts) → (evaluate_window_at w p ≡ []) ↔ InWindowAt w p
unfolding evaluate_window_at
evaluate_window_at-nil_iff w p = elim (Bool-cases (day_permitted w.days_of_week p.weekday)) [
  | inl e ↦ rw e (
    λ h. ((day_permitted_iff _ _).0 e, (evaluate_clock-nil_iff _ _ _).0 h),
    λ h. (evaluate_clock-nil_iff _ _ _).1 h.1,
  )
  | inr e ↦ rw e ((λ h. cc), λ h. let k = (day_permitted_iff _ _).1 h.0 in cc)
]

-- No time-window reason exactly when the day and the time of day are permitted.
pub evaluate_time_window-nil_iff :
    (intl : Formatter) (w : Option TimeWindow) (zone : Text) (now : ℕ)
    → (evaluate_time_window intl w zone now ≡ []) ↔ InTimeWindow intl w zone now
unfolding evaluate_time_window
evaluate_time_window-nil_iff intl none zone now = ((λ h. tt), λ h. refl)
evaluate_time_window-nil_iff intl (some w) zone now =
    evaluate_window_at-nil_iff w (zoned_parts intl zone now)

pub evaluate_time_window-OnlyDenies :
    (intl : Formatter) (w : Option TimeWindow) (zone : Text) (now : ℕ)
    → OnlyDenies (evaluate_time_window intl w zone now)
unfolding evaluate_time_window evaluate_window_at decision_for_reason_code
evaluate_time_window-OnlyDenies intl none zone now = tt
evaluate_time_window-OnlyDenies intl (some w) zone now =
    let p = zoned_parts intl zone now in
    elim (Bool-cases (day_permitted w.days_of_week p.weekday)) [
      | inl e ↦ rw e (evaluate_clock-OnlyDenies w.start_time w.end_time _)
      | inr e ↦ rw e (refl, tt)
    ]
