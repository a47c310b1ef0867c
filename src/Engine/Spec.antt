-- ===== src/Engine/Spec.antt =====
-- What a policy promises, stated without the engine's code: when an action is permitted outright,
-- and when it is tolerated (nothing denies it, though a human may have to approve).
use waysafe.Prelude.{
  ℕ, ◌+◌, ◌*◌, ◌≤◌, ◌<◌, ◌≡◌, ◌≢◌, ◌⊎◌, true, Option, none, some, List, [], ◌∷◌, Text, All, Any,
}
use waysafe.Prelude.Int.{pos, ◌+ℤ◌, ◌≤ℤ◌}
use waysafe.Policy.{
  TimeWindow, MerchantRules, CategoryRules, UnlistedDisposition, Constraint, ConstraintValue,
  Scalar, string, number, boolean, scalar, array, Operator, CumulativeLimit, CumulativeThreshold,
}
use waysafe.Time.{Formatter, ZonedParts, zoned_parts}
use waysafe.Merchant.Types.{MerchantTrust, ResolvedMerchant, is_identity_scheme}
use waysafe.Merchant.Matching.{resolved_key}
use waysafe.Merchant.Matches.{Names, IsVouched, FirstIsIdentity}
use waysafe.Merchant.Resolve.{truthy}
use waysafe.Engine.Types.{SpendSnapshot, window_spend, EngineInput}
use waysafe.Engine.Window.{parse_clock_time}
use waysafe.Engine.Checks.{attestation}

-- The instant lies before the expiry, which is a valid instant.
abbrev pub IsLive : ℕ → Option ℕ → Type 0
IsLive now none = ⊥
IsLive now (some t) = now < t

-- No list of days, an empty one, or one with the day.
abbrev pub DayPermitted : Option (List ℕ) → ℕ → Type 0
DayPermitted none d = Unit
DayPermitted (some []) d = Unit
DayPermitted (some (x ∷ xs)) d = Any (λ y. y ≡ d) (x ∷ xs)

-- A minute of the day in a range that may wrap past midnight, both ends included.
abbrev pub InRange : ℕ → ℕ → ℕ → Type 0
InRange start end m =
    ((start ≤ end) × (start ≤ m) × (m ≤ end)) ⊎ ((end < start) × ((start ≤ m) ⊎ (m ≤ end)))

abbrev pub InClock : Option Text → Option Text → ℕ → Type 0
InClock none none m = Unit
InClock (some s) none m = parse_clock_time s ≤ m
InClock none (some e) m = m ≤ parse_clock_time e
InClock (some s) (some e) m = InRange (parse_clock_time s) (parse_clock_time e) m

abbrev pub InWindowAt : TimeWindow → ZonedParts → Type 0
InWindowAt w p =
    DayPermitted w.days_of_week p.weekday × InClock w.start_time w.end_time (p.hour * 60 + p.minute)

abbrev pub InTimeWindow : Formatter → Option TimeWindow → Text → ℕ → Type 0
InTimeWindow intl none zone now = Unit
InTimeWindow intl (some w) zone now = InWindowAt w (zoned_parts intl zone now)

-- The merchant is on the allowlist and nothing about it is in doubt, or the allowlist does not
-- speak of it, unlisted merchants are allowed, and it is verified.
abbrev pub AllowlistPermits : MerchantRules → ResolvedMerchant → Type 0
AllowlistPermits rules m =
    (FirstIsIdentity m rules.allow × All IsVouched m.refs)
    ⊎ ((¬ Any (Names m) rules.allow)
        × (rules.unlisted ≡ UnlistedDisposition.allow)
        × (m.trust ≡ MerchantTrust.verified))

-- Seen before under one of its verified identifiers.
abbrev pub SeenBefore : ResolvedMerchant → SpendSnapshot → Type 0
SeenBefore m spend =
    Any
      (λ r.
        (is_identity_scheme r.scheme ≡ true)
        × (r.trust ≡ MerchantTrust.verified)
        × Any (λ k. k ≡ resolved_key r) spend.seen_merchants)
      m.refs

-- The first use of a merchant wants a human, where the rules say so.
abbrev pub FirstUsePermits : MerchantRules → ResolvedMerchant → SpendSnapshot → Type 0
FirstUsePermits rules m spend =
    rules.step_up_on_first_use ≡ true → m.trust ≡ MerchantTrust.verified → SeenBefore m spend

-- The category code is not among those that are always denied.
abbrev pub MccPermitted : CategoryRules → ResolvedMerchant → Type 0
MccPermitted rules m = (t : Text) → truthy m.mcc ≡ some t → ¬ Any (λ x. x ≡ t) rules.deny_mcc

abbrev pub NotBlockedSlug : CategoryRules → Option Text → Type 0
NotBlockedSlug rules c = (t : Text) → truthy c ≡ some t → ¬ Any (λ x. x ≡ t) rules.deny

-- The slug is asserted and on the list.
abbrev pub Listed : List Text → Option Text → Type 0
Listed list none = ⊥
Listed list (some t) = Any (λ x. x ≡ t) list

abbrev pub SlugPermitted : CategoryRules → Option Text → Type 0
SlugPermitted rules c =
    NotBlockedSlug rules c × (Listed rules.allow c ⊎ (rules.unlisted ≡ UnlistedDisposition.allow))

abbrev pub SlugTolerated : CategoryRules → Option Text → Type 0
SlugTolerated rules c =
    NotBlockedSlug rules c × (Listed rules.allow c ⊎ (rules.unlisted ≢ UnlistedDisposition.deny))

abbrev pub IsListable : Scalar → Type 0
IsListable (string s) = Unit
IsListable (number n) = Unit
IsListable (boolean b) = ⊥

abbrev pub NumberLe : Scalar → ConstraintValue → Type 0
NumberLe (number a) (scalar (number b)) = a ≤ℤ b
NumberLe _ _ = ⊥

abbrev pub NumberGe : Scalar → ConstraintValue → Type 0
NumberGe (number a) (scalar (number b)) = b ≤ℤ a
NumberGe _ _ = ⊥

abbrev pub Within : Scalar → ConstraintValue → Type 0
Within a (scalar b) = ⊥
Within a (array bs) = IsListable a × Any (λ b. b ≡ a) bs

abbrev pub Outside : Scalar → ConstraintValue → Type 0
Outside a (scalar b) = ⊥
Outside a (array bs) = IsListable a × (¬ Any (λ b. b ≡ a) bs)

-- An attested value meets a constraint; what is not attested does not.
abbrev pub Meets : Operator → ConstraintValue → Option Scalar → Type 0
Meets op v none = ⊥
Meets Operator.equals v (some a) = v ≡ scalar a
Meets Operator.not_equals v (some a) = v ≢ scalar a
Meets Operator.lte v (some a) = NumberLe a v
Meets Operator.gte v (some a) = NumberGe a v
Meets Operator.is_in v (some a) = Within a v
Meets Operator.not_in v (some a) = Outside a v

abbrev pub ConstraintMet : List (Text × Scalar) → Constraint → Type 0
ConstraintMet given c = c.required ≡ true → Meets c.operator c.value (attestation c.key given)

-- An optional ceiling, and an optional threshold.
abbrev pub UpTo : Option ℕ → ℕ → Type 0
UpTo none n = Unit
UpTo (some m) n = n ≤ m

abbrev pub Below : Option ℕ → ℕ → Type 0
Below none n = Unit
Below (some t) n = n < t

-- The window's spend with this action stays within the limit, in amount and in number.
abbrev pub LimitKept : SpendSnapshot → ℕ → CumulativeLimit → Type 0
LimitKept spend amount l =
    ((window_spend spend l.window).amount +ℤ pos amount ≤ℤ pos l.max_amount)
    × UpTo l.max_count ((window_spend spend l.window).count + 1)

abbrev pub BelowCumulative : Option CumulativeThreshold → SpendSnapshot → ℕ → Type 0
BelowCumulative none spend amount = Unit
BelowCumulative (some t) spend amount =
    ¬ (pos t.amount ≤ℤ (window_spend spend t.window).amount +ℤ pos amount)

-- Nothing in the policy denies the action.
pub record Tolerates (intl : Formatter) (input : EngineInput) : Type 0 where
  pub live : IsLive input.now input.policy.expires_at
  pub currency : input.action.currency ≡ input.policy.currency
  pub in_time :
      InTimeWindow intl input.policy.time_window input.policy.accounting.timezone input.now
  pub known : input.merchant.trust ≢ MerchantTrust.unknown
  pub not_blocked : ¬ Any (Names input.merchant) input.policy.merchants.deny
  pub listed :
      Any (Names input.merchant) input.policy.merchants.allow
      ⊎ (input.policy.merchants.unlisted ≢ UnlistedDisposition.deny)
  pub mcc : MccPermitted input.policy.categories input.merchant
  pub category : SlugTolerated input.policy.categories input.action.category
  pub constraints : All (ConstraintMet input.action.attestations) input.policy.constraints
  pub amount : UpTo input.policy.per_transaction_max input.action.amount
  pub limits : All (LimitKept input.spend input.action.amount) input.policy.cumulative_limits

-- Nothing denies the action and nothing asks for a human.
pub record Permits (intl : Formatter) (input : EngineInput) : Type 0 where
  pub live : IsLive input.now input.policy.expires_at
  pub currency : input.action.currency ≡ input.policy.currency
  pub in_time :
      InTimeWindow intl input.policy.time_window input.policy.accounting.timezone input.now
  pub known : input.merchant.trust ≢ MerchantTrust.unknown
  pub not_blocked : ¬ Any (Names input.merchant) input.policy.merchants.deny
  pub listed : AllowlistPermits input.policy.merchants input.merchant
  pub first_use : FirstUsePermits input.policy.merchants input.merchant input.spend
  pub mcc : MccPermitted input.policy.categories input.merchant
  pub category : SlugPermitted input.policy.categories input.action.category
  pub constraints : All (ConstraintMet input.action.attestations) input.policy.constraints
  pub amount : UpTo input.policy.per_transaction_max input.action.amount
  pub limits : All (LimitKept input.spend input.action.amount) input.policy.cumulative_limits
  pub below_amount : Below input.policy.step_up.above_amount input.action.amount
  pub below_cumulative :
      BelowCumulative input.policy.step_up.above_cumulative input.spend input.action.amount
