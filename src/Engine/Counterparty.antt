-- ===== src/Engine/Counterparty.antt =====
-- packages/core/src/engine/evaluate.ts: merchant identity against the specification.
use waysafe.Prelude.{
  ◌≡◌, refl, ◌≢◌, ◌↔◌, ◌⊎◌, inl, inr, Bool, true, false, not, ◌&&◌, List, [], ◌∷◌, ◌++◌, Text,
  arith, map, All, Any, Bool-cases, All-append, All-append_iff, All-map, any, includes, filter,
  is_some, append-eq-nil, if◌then◌else◌,
}
use waysafe.Reason.{Reason, decision_for_reason_code}
use waysafe.Policy.{MerchantRules, UnlistedDisposition}
use waysafe.Merchant.Types.{
  MerchantTrust, MerchantRef, ResolvedMerchantRef, ResolvedMerchant, is_identity_scheme,
  is_verified, is_unknown,
}
use waysafe.Merchant.Matching.{
  is_verified_identity, resolved_key, verified_merchant_keys, satisfies_allowlist, matches_denylist,
}
use waysafe.Merchant.Matches.{
  Names, FirstIsIdentity, is_verified_iff, matches_denylist_iff, satisfies_allowlist_iff,
}
use waysafe.Engine.Types.{SpendSnapshot}
use waysafe.Engine.Checks.{
  merchant_unlisted, unverified_merchant, allowlist_reasons, first_use_reasons, evaluate_merchant,
}
use waysafe.Engine.Combine.{Blocks, NotDeny}
use waysafe.Engine.Spec.{AllowlistPermits, FirstUsePermits}
use waysafe.Engine.Timing.{IsStepUp, when-nil_iff, when-All}
use waysafe.Engine.Claims.{includes_iff}

-- Looking the verified keys up, one identifier at a time.
seen_iff :
    (seen : List Text) (refs : List ResolvedMerchantRef)
    → (any (includes seen) (map resolved_key (filter is_verified_identity refs)) ≡ true)
      ↔ Any
          (λ r.
            (is_identity_scheme r.scheme ≡ true)
            × (r.trust ≡ MerchantTrust.verified)
            × Any (λ k. k ≡ resolved_key r) seen)
          refs
seen_iff seen [] = ((λ h. cc), λ h. absurd h)
seen_iff seen (r ∷ rs) = elim (Bool-cases (is_verified_identity r)) [
  | inl e ↦ rw e (
    λ h. elim (Bool-cases (includes seen (resolved_key r))) [
      | inl k ↦
          inl (ground arith, (is_verified_iff r.trust).0 (ground arith), (includes_iff seen _).0 k)
      | inr k ↦ inr ((seen_iff seen rs).0 (rw k at h))
    ],
    λ h. elim h [
      | inl k ↦ rw ((includes_iff seen (resolved_key r)).1 k.2) refl
      | inr k ↦ let tail = (seen_iff seen rs).1 k in ground arith
    ],
  )
  | inr e ↦ rw e (
    λ h. inr ((seen_iff seen rs).0 h),
    λ h. elim h [
      | inl k ↦ let v = (is_verified_iff r.trust).1 k.1 in absurd (ground arith)
      | inr k ↦ (seen_iff seen rs).1 k
    ],
  )
]

ask_iff :
    (on sure seen : Bool)
    → ((on && (sure && not seen)) ≡ false) ↔ (on ≡ true → sure ≡ true → seen ≡ true)
ask_iff true true true = ground arith
ask_iff true true false = ((λ h. cc), λ h. let k = h refl refl in cc)
ask_iff true false seen = ((λ h a b. cc), λ h. refl)
ask_iff false sure seen = ((λ h a b. cc), λ h. refl)

unlisted-NotDeny_iff :
    (u : UnlistedDisposition) → All NotDeny (merchant_unlisted u) ↔ (u ≢ UnlistedDisposition.deny)
unfolding decision_for_reason_code
unlisted-NotDeny_iff UnlistedDisposition.allow = ((λ h. (λ e. cc)), λ h. tt)
unlisted-NotDeny_iff UnlistedDisposition.deny = ((λ h e. h.0 refl), λ h. absurd (h refl))
unlisted-NotDeny_iff UnlistedDisposition.step_up = ((λ h. (λ e. cc)), λ h. ((λ e. cc), tt))

unlisted-nil_iff :
    (u : UnlistedDisposition) → (merchant_unlisted u ≡ []) ↔ (u ≡ UnlistedDisposition.allow)
unlisted-nil_iff UnlistedDisposition.allow = ((λ h. refl), λ h. refl)
unlisted-nil_iff UnlistedDisposition.deny = ((λ h. cc), λ h. cc)
unlisted-nil_iff UnlistedDisposition.step_up = ((λ h. cc), λ h. cc)

unlisted-Blocks : (u : UnlistedDisposition) → All Blocks (merchant_unlisted u)
unfolding decision_for_reason_code
unlisted-Blocks UnlistedDisposition.allow = tt
unlisted-Blocks UnlistedDisposition.deny = ((λ e. cc), tt)
unlisted-Blocks UnlistedDisposition.step_up = ((λ e. cc), tt)

pub Blocks-of_IsStepUp : (r : Reason) → IsStepUp r → Blocks r
Blocks-of_IsStepUp r h e = cc

pub NotDeny-of_IsStepUp : (r : Reason) → IsStepUp r → NotDeny r
NotDeny-of_IsStepUp r h e = cc

-- `[]` for a verified merchant, the unverified reason for any other.
abbrev unless_verified : MerchantTrust → List Reason
unless_verified t = if is_verified t then [] else unverified_merchant

unless_verified-nil_iff :
    (t : MerchantTrust) → (unless_verified t ≡ []) ↔ (t ≡ MerchantTrust.verified)
unless_verified-nil_iff MerchantTrust.verified = ((λ h. refl), λ h. refl)
unless_verified-nil_iff MerchantTrust.asserted = ((λ h. cc), λ h. cc)
unless_verified-nil_iff MerchantTrust.unknown = ((λ h. cc), λ h. cc)

unverified-IsStepUp : All IsStepUp unverified_merchant
unfolding decision_for_reason_code
unverified-IsStepUp = (refl, tt)

unless_verified-IsStepUp : (t : MerchantTrust) → All IsStepUp (unless_verified t)
unless_verified-IsStepUp MerchantTrust.verified = tt
unless_verified-IsStepUp MerchantTrust.asserted = unverified-IsStepUp
unless_verified-IsStepUp MerchantTrust.unknown = unverified-IsStepUp

module _ (rules : MerchantRules) (m : ResolvedMerchant) (spend : SpendSnapshot) where
  -- No first-use reason exactly when the merchant was seen, or the rule does not ask.
  first_use-nil_iff : (first_use_reasons rules m spend ≡ []) ↔ FirstUsePermits rules m spend
  unfolding first_use_reasons verified_merchant_keys
  first_use-nil_iff =
      let seen = seen_iff spend.seen_merchants m.refs in
      let sure = is_verified_iff m.trust in
      let ask = ask_iff rules.step_up_on_first_use (is_verified m.trust) _ in
      let w = when-nil_iff _ _ _ in
      (
        λ h on v. seen.0 (ask.0 (w.0 h) on (sure.1 v)),
        λ h. w.1 (ask.1 (λ on v. seen.1 (h on (sure.0 v)))),
      )

  first_use-IsStepUp : All IsStepUp (first_use_reasons rules m spend)
  unfolding first_use_reasons decision_for_reason_code
  first_use-IsStepUp = when-All _ _ _ IsStepUp refl

-- An allowlist whose first entry for the merchant is of some kind has an entry for it.
named :
    (m : ResolvedMerchant) (allow : List MerchantRef)
    → FirstIsIdentity m allow
    → Any (Names m) allow
named m [] h = absurd h
named m (r ∷ rs) (inl h) = inl h.0
named m (r ∷ rs) (inr h) = inr (named m rs h.1)

module _ (rules : MerchantRules) (m : ResolvedMerchant) where
  allowlist-nil_iff : (allowlist_reasons rules m ≡ []) ↔ AllowlistPermits rules m
  unfolding allowlist_reasons
  allowlist-nil_iff =
      let (matched, verified) = satisfies_allowlist_iff m rules.allow in
      elim (Bool-cases (satisfies_allowlist rules.allow m).matched) [
        | inl e ↦ elim (Bool-cases (satisfies_allowlist rules.allow m).verified) [
          | inl v ↦ rw (e, v) ((λ h. inl (verified.0 v)), λ h. refl)
          | inr v ↦
              rw (e, v)
                (
                  (λ h. cc),
                  λ h. elim h [
                    | inl k ↦ let w = verified.1 k in cc
                    | inr k ↦ absurd (k.0 (matched.0 e))
                  ],
                )
        ]
        | inr e ↦ rw e (
          λ h.
              let (u, t) = append-eq-nil _ _ h in
              inr (
                (λ k. let w = matched.1 k in cc),
                (unlisted-nil_iff rules.unlisted).0 u,
                (unless_verified-nil_iff m.trust).0 t,
              ),
          λ h. elim h [
            | inl k ↦
                let w = (satisfies_allowlist_iff m rules.allow).0.1 (named m rules.allow k.0) in cc
            | inr k ↦
                rw
                  ((unlisted-nil_iff rules.unlisted).1 k.1, (unless_verified-nil_iff m.trust).1 k.2)
                  refl
          ],
        )
      ]

  allowlist-NotDeny_iff :
      All NotDeny (allowlist_reasons rules m)
      ↔ (Any (Names m) rules.allow ⊎ (rules.unlisted ≢ UnlistedDisposition.deny))
  unfolding allowlist_reasons
  allowlist-NotDeny_iff =
      let matched = (satisfies_allowlist_iff m rules.allow).0 in
      elim (Bool-cases (satisfies_allowlist rules.allow m).matched) [
        | inl e ↦ elim (Bool-cases (satisfies_allowlist rules.allow m).verified) [
          | inl v ↦ rw (e, v) ((λ h. inl (matched.0 e)), λ h. tt)
          | inr v ↦
              rw (e, v)
                (
                  (λ h. inl (matched.0 e)),
                  λ h. All-map NotDeny-of_IsStepUp unverified_merchant unverified-IsStepUp,
                )
        ]
        | inr e ↦
            let split =
              All-append_iff NotDeny (merchant_unlisted rules.unlisted) (unless_verified m.trust) in
            rw e (
              λ h. inr ((unlisted-NotDeny_iff rules.unlisted).0 (split.0 h).0),
              λ h. elim h [
                | inl k ↦ let w = matched.1 k in cc
                | inr k ↦ split.1 (
                  (unlisted-NotDeny_iff rules.unlisted).1 k,
                  All-map NotDeny-of_IsStepUp (unless_verified m.trust)
                      (unless_verified-IsStepUp m.trust),
                )
              ],
            )
      ]

  allowlist-Blocks : All Blocks (allowlist_reasons rules m)
  unfolding allowlist_reasons
  allowlist-Blocks = elim (Bool-cases (satisfies_allowlist rules.allow m).matched) [
    | inl e ↦ elim (Bool-cases (satisfies_allowlist rules.allow m).verified) [
      | inl v ↦ rw (e, v) tt
      | inr v ↦ rw (e, v) (All-map Blocks-of_IsStepUp unverified_merchant unverified-IsStepUp)
    ]
    | inr e ↦ rw e (
        All-append Blocks (merchant_unlisted rules.unlisted) (unless_verified m.trust)
          (unlisted-Blocks rules.unlisted)
          (All-map Blocks-of_IsStepUp (unless_verified m.trust) (unless_verified-IsStepUp m.trust)))
  ]

is_unknown_iff : (t : MerchantTrust) → (is_unknown t ≡ false) ↔ (t ≢ MerchantTrust.unknown)
is_unknown_iff MerchantTrust.verified = ((λ h e. cc), λ h. refl)
is_unknown_iff MerchantTrust.asserted = ((λ h e. cc), λ h. refl)
is_unknown_iff MerchantTrust.unknown = ((λ h e. cc), λ h. absurd (h refl))

-- The two early returns of `evaluateMerchant` do not apply.
abbrev pub PassesScreen : MerchantRules → ResolvedMerchant → Type 0
PassesScreen rules m = (m.trust ≢ MerchantTrust.unknown) × (¬ Any (Names m) rules.deny)

module _ (rules : MerchantRules) (m : ResolvedMerchant) where
  screen_iff :
      ((is_unknown m.trust ≡ false) × (is_some (matches_denylist rules.deny m) ≡ false))
      ↔ PassesScreen rules m
  screen_iff =
      let e = matches_denylist_iff rules.deny m in
      (
        λ h. ((is_unknown_iff m.trust).0 h.0, λ k. let t = e.1 k in let f = h.1 in cc),
        λ h. (
          (is_unknown_iff m.trust).1 h.0,
          elim (Bool-cases (is_some (matches_denylist rules.deny m))) [
            | inl t ↦ absurd (h.1 (e.0 t))
            | inr f ↦ f
          ],
        ),
      )

module _ (rules : MerchantRules) (m : ResolvedMerchant) (spend : SpendSnapshot) where
  -- The shape of the result: a DENY by an early return, or the reasons of the lists.
  merchant-cases :
      ((¬ PassesScreen rules m)
        × (¬ All NotDeny (evaluate_merchant rules m spend))
        × All Blocks (evaluate_merchant rules m spend))
      ⊎ (PassesScreen rules m
          × (evaluate_merchant rules m spend
              ≡ allowlist_reasons rules m ++ first_use_reasons rules m spend))
  unfolding evaluate_merchant decision_for_reason_code
  merchant-cases = elim (Bool-cases (is_unknown m.trust)) [
    | inl u ↦
        inl (
          (λ p. let q = (screen_iff rules m).1 p in cc),
          rw u (λ h. h.0 refl),
          rw u ((λ e. cc), tt),
        )
    | inr u ↦ elim (Bool-cases (is_some (matches_denylist rules.deny m))) [
      | inl d ↦ inl (
        (λ p. let q = (screen_iff rules m).1 p in cc),
        rw (u, d) (λ h. h.0 refl),
        rw (u, d) ((λ e. cc), tt),
      )
      | inr d ↦ inr ((screen_iff rules m).0 (u, d), rw (u, d) refl)
    ]
  ]

  -- No merchant reason exactly when the merchant passes the screen and the allowlist, and the
  -- first-use rule does not ask for a human.
  pub evaluate_merchant-nil_iff :
      (evaluate_merchant rules m spend ≡ [])
      ↔ (PassesScreen rules m × AllowlistPermits rules m × FirstUsePermits rules m spend)
  evaluate_merchant-nil_iff = elim merchant-cases [
    | inl (no', deny, b) ↦ ((λ h. absurd (deny (rw h tt))), λ h. absurd (no' h.0))
    | inr (pass, e) ↦ rw e (
      λ h.
          let (a, f) = append-eq-nil _ _ h in
          (pass, (allowlist-nil_iff rules m).0 a, (first_use-nil_iff rules m spend).0 f),
      λ h. rw ((allowlist-nil_iff rules m).1 h.1, (first_use-nil_iff rules m spend).1 h.2) refl,
    )
  ]

  -- No reason to deny exactly when the merchant passes the screen and is listed, or unlisted
  -- merchants are not denied.
  pub evaluate_merchant-NotDeny_iff : All NotDeny (evaluate_merchant rules m spend) ↔ (
      PassesScreen rules m
      × (Any (Names m) rules.allow ⊎ (rules.unlisted ≢ UnlistedDisposition.deny)))
  evaluate_merchant-NotDeny_iff = elim merchant-cases [
    | inl (no', deny, b) ↦ ((λ h. absurd (deny h)), λ h. absurd (no' h.0))
    | inr (pass, e) ↦
        let split =
          All-append_iff NotDeny (allowlist_reasons rules m) (first_use_reasons rules m spend) in
        rw e (
          λ h. (pass, (allowlist-NotDeny_iff rules m).0 (split.0 h).0),
          λ h. split.1 (
            (allowlist-NotDeny_iff rules m).1 h.1,
            All-map NotDeny-of_IsStepUp (first_use_reasons rules m spend)
                (first_use-IsStepUp rules m spend),
          ),
        )
  ]

  pub evaluate_merchant-Blocks : All Blocks (evaluate_merchant rules m spend)
  evaluate_merchant-Blocks = elim merchant-cases [
    | inl (no', deny, b) ↦ b
    | inr (pass, e) ↦ rw e (
        All-append Blocks (allowlist_reasons rules m) (first_use_reasons rules m spend)
          (allowlist-Blocks rules m)
          (All-map Blocks-of_IsStepUp (first_use_reasons rules m spend)
            (first_use-IsStepUp rules m spend)))
  ]
