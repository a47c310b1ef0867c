-- ===== src/Merchant/Trust.antt =====
-- packages/core/src/merchant.ts: what `resolveMerchant` and `summarizeTrust` vouch for.
use waysafe.Prelude.{
  ℕ, ◌≡◌, refl, ◌↔◌, inl, inr, Bool, true, false, ◌||◌, Option, none, some, List, [], ◌∷◌, Text,
  arith, All, Any, All-append, Bool-cases, filter, all, is_some, is_empty, if◌then◌else◌,
}
use waysafe.Merchant.Types.{
  MerchantScheme, MerchantTrust, MerchantAttestationSource, ResolvedMerchantRef, MerchantAssertion,
  MerchantDirectory, is_identity_scheme, is_verified,
}
use waysafe.Merchant.Matches.{IsVouched, is_verified_iff}
use waysafe.Merchant.Resolve.{
  not_mcc, summarize_trust, new_ref, push_if, truthy, asserted_domain, and_then, directory_hit,
  final_mcc, resolved_refs, resolve_merchant,
}

-- An identifier that says where money goes.
abbrev pub IsIdentity : ResolvedMerchantRef → Type 0
IsIdentity r = is_identity_scheme r.scheme ≡ true

abbrev identifying : ResolvedMerchantRef → Bool
identifying r = not_mcc r.scheme

abbrev identity : ResolvedMerchantRef → Bool
identity r = is_identity_scheme r.scheme

-- An identity scheme is not the category scheme.
not_mcc_of_identity : (s : MerchantScheme) → is_identity_scheme s ≡ true → not_mcc s ≡ true
unfolding is_identity_scheme
not_mcc_of_identity s h = ground arith

filter_twice :
    (refs : List ResolvedMerchantRef)
    → filter identity (filter identifying refs) ≡ filter identity refs
filter_twice [] = refl
filter_twice (r ∷ rs) = elim (Bool-cases (identity r)) [
  | inl e ↦ rw (not_mcc_of_identity r.scheme e) (rw e (rw (filter_twice rs)))
  | inr e ↦ elim (Bool-cases (identifying r)) [
    | inl k ↦ rw k (rw e (filter_twice rs))
    | inr k ↦ rw k (rw e (filter_twice rs))
  ]
]

all_verified_iff :
    (refs : List ResolvedMerchantRef)
    → (all (λ r. is_verified r.trust) (filter identity refs) ≡ true) ↔ All IsVouched refs
all_verified_iff [] = ((λ h. tt), λ h. refl)
all_verified_iff (r ∷ rs) =
    let ih = all_verified_iff rs in
    let sure = is_verified_iff r.trust in
    elim (Bool-cases (identity r)) [
      | inl e ↦ rw e (
        λ h. ((λ k. sure.0 (ground arith)), ih.0 (ground arith)),
        λ h. let v = sure.1 (h.0 refl) in let t = ih.1 h.1 in ground arith,
      )
      | inr e ↦ rw e ((λ h. ((λ k. cc), ih.0 h)), λ h. ih.1 h.1)
    ]

has_identity_iff :
    (refs : List ResolvedMerchantRef)
    → (is_empty (filter identity refs) ≡ false) ↔ Any IsIdentity refs
has_identity_iff [] = ((λ h. cc), λ h. absurd h)
has_identity_iff (r ∷ rs) = elim (Bool-cases (identity r)) [
  | inl e ↦ rw e ((λ h. inl refl), λ h. refl)
  | inr e ↦ rw e (
    λ h. inr ((has_identity_iff rs).0 h),
    λ h. elim h [ inl k ↦ cc | inr k ↦ (has_identity_iff rs).1 k ],
  )
]

-- The ladder of `summarizeTrust` on its three tests.
ladder : Bool → Bool → Bool → MerchantTrust
ladder nothing no_identity sure =
    if nothing
    then MerchantTrust.unknown
    else if no_identity
    then MerchantTrust.asserted
    else if sure
    then MerchantTrust.verified
    else MerchantTrust.asserted

ladder-verified_iff :
    (a b c : Bool)
    → (b ≡ false → a ≡ false)
    → (ladder a b c ≡ MerchantTrust.verified) ↔ ((b ≡ false) × (c ≡ true))
unfolding ladder
ladder-verified_iff true true c h = ((λ e. cc), λ e. cc)
ladder-verified_iff true false c h = let k = h refl in cc
ladder-verified_iff false true c h = ((λ e. cc), λ e. cc)
ladder-verified_iff false false true h = ((λ e. (refl, refl)), λ e. refl)
ladder-verified_iff false false false h = ((λ e. cc), λ e. cc)

summary-eq-ladder :
    (refs : List ResolvedMerchantRef)
    → summarize_trust refs
      ≡ ladder
          (is_empty (filter identifying refs))
          (is_empty (filter identity refs))
          (all (λ r. is_verified r.trust) (filter identity refs))
unfolding summarize_trust ladder
summary-eq-ladder refs = rw (filter_twice refs) refl

nothing_of_empty :
    (refs : List ResolvedMerchantRef)
    → is_empty (filter identity refs) ≡ false
    → is_empty (filter identifying refs) ≡ false
nothing_of_empty [] h = h
nothing_of_empty (r ∷ rs) h = elim (Bool-cases (identity r)) [
  | inl e ↦ rw (not_mcc_of_identity r.scheme e) refl
  | inr e ↦
      let ih = nothing_of_empty rs (rw e at h) in
      elim (Bool-cases (identifying r)) [ inl k ↦ rw k refl | inr k ↦ rw k ih ]
]

-- The low-water mark: a merchant is VERIFIED exactly when it has an identity reference and every
-- one of them is verified by itself.
pub summarize_trust-verified_iff :
    (refs : List ResolvedMerchantRef)
    → (summarize_trust refs ≡ MerchantTrust.verified) ↔ (Any IsIdentity refs × All IsVouched refs)
summarize_trust-verified_iff refs =
    let l =
      ladder-verified_iff (is_empty (filter identifying refs)) (is_empty (filter identity refs))
        (all (λ r. is_verified r.trust) (filter identity refs)) (nothing_of_empty refs) in
    let some' = has_identity_iff refs in
    let sure = all_verified_iff refs in
    rw (summary-eq-ladder refs)
      (λ h. (some'.0 (l.0 h).0, sure.0 (l.0 h).1), λ h. l.1 (some'.1 h.0, sure.1 h.1))

module _ (P : ResolvedMerchantRef → Type 0) (source : MerchantAttestationSource) (now : ℕ)
    (scheme : MerchantScheme) (verified : Bool) where
  push_if-All :
      (o : Option Text)
      → ((v : Text) → o ≡ some v → P (new_ref source now scheme v verified))
      → All P (push_if source now scheme o verified)
  push_if-All none h = tt
  push_if-All (some v) h = (h v refl, tt)

or_true :
    (b : Bool)
    → (if b || true then MerchantTrust.verified else MerchantTrust.asserted)
      ≡ MerchantTrust.verified
or_true true = refl
or_true false = refl

-- What an agent's own assertion can have verified: a domain that the directory knows.
abbrev pub FromDirectory : MerchantDirectory → ResolvedMerchantRef → Type 0
FromDirectory directory r =
    r.trust ≡ MerchantTrust.verified
    → (r.scheme ≡ MerchantScheme.domain) × (is_some (directory r.value) ≡ true)

domain_known :
    (d : Option Text) (directory : MerchantDirectory) (v : Text)
    → d ≡ some v
    → (if is_some (and_then d directory) || false
        then MerchantTrust.verified
        else MerchantTrust.asserted)
      ≡ MerchantTrust.verified
    → is_some (directory v) ≡ true
domain_known none directory v e t = cc
domain_known (some w) directory v e t =
    let same : w ≡ v = cc in
    elim (Bool-cases (is_some (directory w))) [
      | inl k ↦ rw same at k
      | inr k ↦ let bad = rw k at t in cc
    ]

-- Whatever an agent types, an identifier of its assertion is VERIFIED only if it is a domain that
-- the directory has under its normalised form.
pub agent_refs-FromDirectory :
    (a : MerchantAssertion) (directory : MerchantDirectory) (now : ℕ)
    → All
        (FromDirectory directory)
        (resolve_merchant a directory MerchantAttestationSource.agent now).refs
unfolding resolve_merchant resolved_refs directory_hit
agent_refs-FromDirectory a directory now =
    let P = FromDirectory directory in
    let unsure = λ (s : MerchantScheme) (o : Option Text).
      push_if-All P MerchantAttestationSource.agent now s false o (λ v e t. cc) in
    All-append P _ _ (unsure MerchantScheme.psp_account (truthy a.psp_account)) (
      All-append P _ _ (unsure MerchantScheme.network_mid (truthy a.network_mid)) (
        All-append P _ _ (unsure MerchantScheme.onchain_address (truthy a.onchain_address)) (
          All-append P _ _
            (push_if-All P MerchantAttestationSource.agent now MerchantScheme.domain _
              (asserted_domain a)
              (λ v e t. (refl, domain_known (asserted_domain a) directory v e t)))
            (All-append P _ _ (unsure MerchantScheme.name (truthy a.name)) (
              unsure MerchantScheme.mcc
                (truthy (final_mcc a directory MerchantAttestationSource.agent now)))))))

-- A rail's own callback verifies every identity reference that it carries.
pub rail_refs-IsVouched :
    (a : MerchantAssertion) (directory : MerchantDirectory) (now : ℕ)
    → All IsVouched (resolve_merchant a directory MerchantAttestationSource.rail now).refs
unfolding resolve_merchant resolved_refs directory_hit is_identity_scheme
rail_refs-IsVouched a directory now =
    let P = IsVouched in
    let rail = MerchantAttestationSource.rail in
    let sure =
      λ (s : MerchantScheme) (o : Option Text). push_if-All P rail now s true o (λ v e t. refl) in
    All-append P _ _ (sure MerchantScheme.psp_account (truthy a.psp_account)) (
      All-append P _ _ (sure MerchantScheme.network_mid (truthy a.network_mid)) (
        All-append P _ _ (sure MerchantScheme.onchain_address (truthy a.onchain_address)) (
          All-append P _ _
            (push_if-All P rail now MerchantScheme.domain _ (asserted_domain a)
              (λ v e t. or_true _))
            (All-append P _ _
              (push_if-All P rail now MerchantScheme.name false (truthy a.name) (λ v e t. cc))
              (push_if-All P rail now MerchantScheme.mcc false
                (truthy (final_mcc a directory rail now)) (λ v e t. cc))))))
