-- ===== src/Merchant/Matches.antt =====
-- packages/core/src/merchant.ts: what `satisfiesAllowlist`, `matchesDenylist` and
-- `verifiedMerchantKeys` decide, stated without their loops.
use waysafe.Prelude.{
  ◌≡◌, refl, ◌↔◌, ◌⊎◌, inl, inr, Bool, true, none, some, List, [], ◌∷◌, arith, All, Any, Bool-cases,
  Option-cases, find, find-some, is_some, is_empty, filter, and_true, ◌==◌,
}
use waysafe.Merchant.Types.{
  MerchantScheme, MerchantTrust, MerchantRef, ResolvedMerchantRef, ResolvedMerchant,
  is_identity_scheme, scheme_code, is_verified,
}
use waysafe.Merchant.Matching.{
  candidate_matches, find_matching_ref, merchant_ref_matches, is_unverified_identity,
  unverified_identity_refs, match_result, allowlist_loop, satisfies_allowlist, matches_denylist,
}

-- A policy reference names one of the identifiers.
abbrev pub Names : ResolvedMerchant → MerchantRef → Type 0
Names m ref = Any (λ c. candidate_matches ref c ≡ true) m.refs

-- Every identifier that says where money goes is verified.
abbrev pub IsVouched : ResolvedMerchantRef → Type 0
IsVouched r = is_identity_scheme r.scheme ≡ true → r.trust ≡ MerchantTrust.verified

-- The first entry that names the merchant is by an identity scheme.
abbrev pub FirstIsIdentity : ResolvedMerchant → List MerchantRef → Type 0
FirstIsIdentity m [] = ⊥
FirstIsIdentity m (ref ∷ allow) =
    (Names m ref × (is_identity_scheme ref.scheme ≡ true))
    ⊎ ((¬ Names m ref) × FirstIsIdentity m allow)

find_iff :
    {A : Type 0} (p : A → Bool) (xs : List A)
    → (is_some (find p xs) ≡ true) ↔ Any (λ x. p x ≡ true) xs
find_iff p [] = ((λ h. cc), λ h. absurd h)
find_iff p (x ∷ xs) = elim (Bool-cases (p x)) [
  | inl e ↦ rw e ((λ h. inl refl), λ h. refl)
  | inr e ↦
      rw e
        ((λ h. inr ((find_iff p xs).0 h)), λ h. elim h [ inl q ↦ cc | inr q ↦ (find_iff p xs).1 q ])
]

pub merchant_ref_matches_iff :
    (ref : MerchantRef) (m : ResolvedMerchant) → (merchant_ref_matches ref m ≡ true) ↔ Names m ref
unfolding merchant_ref_matches
merchant_ref_matches_iff ref m = find_iff (candidate_matches ref) m.refs

Any-Names_iff :
    (m : ResolvedMerchant) (refs : List MerchantRef)
    → Any (λ ref. merchant_ref_matches ref m ≡ true) refs ↔ Any (Names m) refs
Any-Names_iff m [] = ((λ h. h), λ h. h)
Any-Names_iff m (r ∷ rs) =
    let e = merchant_ref_matches_iff r m in
    let ih = Any-Names_iff m rs in
    (
      λ h. elim h [ inl a ↦ inl (e.0 a) | inr b ↦ inr (ih.0 b) ],
      λ h. elim h [ inl a ↦ inl (e.1 a) | inr b ↦ inr (ih.1 b) ],
    )

-- A denylist entry is reported exactly when some entry names an identifier, verified or not.
pub matches_denylist_iff :
    (deny : List MerchantRef) (m : ResolvedMerchant)
    → (is_some (matches_denylist deny m) ≡ true) ↔ Any (Names m) deny
unfolding matches_denylist
matches_denylist_iff deny m =
    let e = find_iff (λ ref. merchant_ref_matches ref m) deny in
    let k = Any-Names_iff m deny in ((λ h. k.0 (e.0 h)), λ h. e.1 (k.1 h))

pub is_verified_iff : (t : MerchantTrust) → (is_verified t ≡ true) ↔ (t ≡ MerchantTrust.verified)
is_verified_iff MerchantTrust.verified = ground arith
is_verified_iff MerchantTrust.asserted = ((λ h. cc), λ h. cc)
is_verified_iff MerchantTrust.unknown = ((λ h. cc), λ h. cc)

-- No unverified identity reference is left exactly when all of them are vouched for.
IsVouched-iff :
    (refs : List ResolvedMerchantRef)
    → (is_empty (filter is_unverified_identity refs) ≡ true) ↔ All IsVouched refs
IsVouched-iff [] = ((λ h. tt), λ h. refl)
IsVouched-iff (r ∷ rs) = elim (Bool-cases (is_unverified_identity r)) [
  | inl e ↦ rw e (
    (λ h. cc),
    λ h.
        let ident : is_identity_scheme r.scheme ≡ true = ground arith in
        let known = (is_verified_iff r.trust).1 (h.0 ident) in ground arith,
  )
  | inr e ↦ rw e (
    λ h. ((λ ident. (is_verified_iff r.trust).0 (ground arith)), (IsVouched-iff rs).0 h),
    λ h. (IsVouched-iff rs).1 h.1,
  )
]

Names-of_find :
    {c : ResolvedMerchantRef} (ref : MerchantRef) (m : ResolvedMerchant)
    → find_matching_ref ref m ≡ some c
    → Names m ref
unfolding find_matching_ref
Names-of_find ref m e = (find_iff (candidate_matches ref) m.refs).0 (rw e)

not-Names_of_find :
    (ref : MerchantRef) (m : ResolvedMerchant) → find_matching_ref ref m ≡ none → ¬ Names m ref
unfolding find_matching_ref
not-Names_of_find ref m e h = let found = (find_iff (candidate_matches ref) m.refs).1 h in cc

module _ (unverified : List ResolvedMerchantRef) (m : ResolvedMerchant) where
  loop_hit :
      (ref : MerchantRef) (c : ResolvedMerchantRef) (allow : List MerchantRef)
      → find_matching_ref ref m ≡ some c
      → allowlist_loop unverified m (ref ∷ allow) ≡ match_result ref c unverified
  unfolding allowlist_loop
  loop_hit ref c allow e = rw (e, allowlist_loop)

  loop_miss :
      (ref : MerchantRef) (allow : List MerchantRef)
      → find_matching_ref ref m ≡ none
      → allowlist_loop unverified m (ref ∷ allow) ≡ allowlist_loop unverified m allow
  unfolding allowlist_loop
  loop_miss ref allow e = rw (e, allowlist_loop)

  allowlist_loop-matched_iff :
      (allow : List MerchantRef)
      → ((allowlist_loop unverified m allow).matched ≡ true) ↔ Any (Names m) allow
  unfolding allowlist_loop
  allowlist_loop-matched_iff [] = ((λ h. cc), λ h. absurd h)
  allowlist_loop-matched_iff (ref ∷ allow) = elim (Option-cases (find_matching_ref ref m)) [
    | inl e ↦
        let ih = allowlist_loop-matched_iff allow in
        rw (loop_miss ref allow e) (
          λ h. inr (ih.0 h),
          λ h. elim h [ inl n ↦ absurd (not-Names_of_find ref m e n) | inr k ↦ ih.1 k ],
        )
    | inr (c, e) ↦ rw (loop_hit ref c allow e) ((λ h. inl (Names-of_find ref m e)), λ h. refl)
  ]

pub scheme_code-injective : (a b : MerchantScheme) → (scheme_code a == scheme_code b) ≡ true → a ≡ b
scheme_code-injective a b h = ground arith

IsVouched-of_find :
    (p : ResolvedMerchantRef → Bool) (refs : List ResolvedMerchantRef) {c : ResolvedMerchantRef}
    → All IsVouched refs
    → find p refs ≡ some c
    → IsVouched c
IsVouched-of_find p [] h e = cc
IsVouched-of_find p (r ∷ rs) {c} h e = elim (Bool-cases (p r)) [
  | inl t ↦ let same : r ≡ c = ground arith in rw same at h.0
  | inr t ↦ IsVouched-of_find p rs h.1 (rw t at e)
]

module _ (ref : MerchantRef) (m : ResolvedMerchant) {c : ResolvedMerchantRef} where
  scheme_of_find : find_matching_ref ref m ≡ some c → c.scheme ≡ ref.scheme
  unfolding find_matching_ref candidate_matches
  scheme_of_find e =
      let (t, member) = find-some (candidate_matches ref) m.refs c e in
      scheme_code-injective c.scheme ref.scheme (and_true t).0

  -- The verdict on an entry that names the merchant.
  hit-verified_iff :
      find_matching_ref ref m ≡ some c
      → ((match_result ref c (unverified_identity_refs m)).verified ≡ true)
        ↔ ((is_identity_scheme ref.scheme ≡ true) × All IsVouched m.refs)
  unfolding unverified_identity_refs find_matching_ref
  hit-verified_iff e = (
    λ h. (ground arith, (IsVouched-iff m.refs).0 (ground arith)),
    λ h.
        let same = scheme_of_find e in
        let sure = IsVouched-of_find (candidate_matches ref) m.refs h.1 e (rw same h.0) in
        let safe = (is_verified_iff c.trust).1 sure in
        let clean = (IsVouched-iff m.refs).1 h.1 in ground arith,
  )

module _ (m : ResolvedMerchant) where
  allowlist_loop-verified_iff :
      (allow : List MerchantRef)
      → ((allowlist_loop (unverified_identity_refs m) m allow).verified ≡ true)
        ↔ (FirstIsIdentity m allow × All IsVouched m.refs)
  unfolding allowlist_loop
  allowlist_loop-verified_iff [] = ((λ h. cc), λ h. absurd h.0)
  allowlist_loop-verified_iff (ref ∷ allow) = elim (Option-cases (find_matching_ref ref m)) [
    | inl e ↦
        let ih = allowlist_loop-verified_iff allow in
        rw (loop_miss (unverified_identity_refs m) m ref allow e) (
          λ h. (inr (not-Names_of_find ref m e, (ih.0 h).0), (ih.0 h).1),
          λ h. elim h.0 [
            | inl n ↦ absurd (not-Names_of_find ref m e n.0)
            | inr k ↦ ih.1 (k.1, h.1)
          ],
        )
    | inr (c, e) ↦
        let verdict = hit-verified_iff ref m e in
        rw (loop_hit (unverified_identity_refs m) m ref c allow e) (
          λ h. (inl (Names-of_find ref m e, (verdict.0 h).0), (verdict.0 h).1),
          λ h. elim h.0 [
            | inl n ↦ verdict.1 (n.1, h.1)
            | inr k ↦ absurd (k.0 (Names-of_find ref m e))
          ],
        )
  ]

  -- A match is reported exactly when some entry names an identifier, and it is a verified one
  -- exactly when the first such entry is by an identity scheme and no identity reference of the
  -- request is unverified.
  pub satisfies_allowlist_iff :
      (allow : List MerchantRef)
      → (((satisfies_allowlist allow m).matched ≡ true) ↔ Any (Names m) allow)
        × (((satisfies_allowlist allow m).verified ≡ true)
            ↔ (FirstIsIdentity m allow × All IsVouched m.refs))
  unfolding satisfies_allowlist
  satisfies_allowlist_iff allow = (
    allowlist_loop-matched_iff (unverified_identity_refs m) m allow,
    allowlist_loop-verified_iff allow,
  )
