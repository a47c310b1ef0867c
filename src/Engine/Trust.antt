-- ===== src/Engine/Trust.antt =====
-- packages/core/src/engine/evaluate.ts with merchant.ts: what an ALLOW says of the merchant.
use waysafe.Prelude.{
  ℕ, ◌≡◌, refl, inl, inr, Bool, true, false, ◌||◌, Option, none, some, List, [], ◌∷◌, ◌++◌, Text,
  arith, All, Any, All-append_iff, Any-map, Any-append_cases, and_true, is_some,
}
use waysafe.Reason.{Decision}
use waysafe.Time.{Formatter}
use waysafe.Merchant.Types.{
  MerchantScheme, MerchantAttestationSource, MerchantRef, ResolvedMerchantRef, ResolvedMerchant,
  MerchantAssertion, MerchantDirectory, is_identity_scheme,
}
use waysafe.Merchant.Matching.{candidate_matches}
use waysafe.Merchant.Matches.{IsVouched, FirstIsIdentity, scheme_code-injective}
use waysafe.Merchant.Resolve.{
  summarize_trust, push_if, truthy, asserted_domain, and_then, directory_hit, final_mcc,
  resolved_refs, resolve_merchant,
}
use waysafe.Merchant.Trust.{IsIdentity, summarize_trust-verified_iff}
use waysafe.Policy.{Policy, ProposedAction}
use waysafe.Engine.Types.{EngineInput, SpendSnapshot}
use waysafe.Engine.Evaluate.{evaluate}
use waysafe.Engine.Verdict.{evaluate-allow_iff}

trust_is_summary :
    (a : MerchantAssertion) (directory : MerchantDirectory) (source : MerchantAttestationSource)
    (at : ℕ)
    → (resolve_merchant a directory source at).trust
      ≡ summarize_trust (resolve_merchant a directory source at).refs
unfolding resolve_merchant
trust_is_summary a directory source at = refl

-- What an identity entry names is an identity reference.
IsIdentity-of_names :
    (ref : MerchantRef) (refs : List ResolvedMerchantRef)
    → is_identity_scheme ref.scheme ≡ true
    → Any (λ c. candidate_matches ref c ≡ true) refs
    → Any IsIdentity refs
unfolding candidate_matches
IsIdentity-of_names ref refs h k =
    Any-map {A = ResolvedMerchantRef} {P = λ c. candidate_matches ref c ≡ true} {Q = IsIdentity}
      (λ (c : ResolvedMerchantRef) t.
        rw (scheme_code-injective c.scheme ref.scheme (and_true t).0) h)
      refs k

IsIdentity-of_first :
    (m : ResolvedMerchant) (allow : List MerchantRef)
    → FirstIsIdentity m allow
    → Any IsIdentity m.refs
IsIdentity-of_first m [] h = absurd h
IsIdentity-of_first m (r ∷ rs) (inl h) = IsIdentity-of_names r m.refs h.1 h.0
IsIdentity-of_first m (r ∷ rs) (inr h) = IsIdentity-of_first m rs h.1

-- For a merchant whose trust is the summary of its references, as that of every resolved merchant is, ALLOW
-- wants an identity reference, and all identity references verified.
pub allow-verified :
    (intl : Formatter) (input : EngineInput)
    → input.merchant.trust ≡ summarize_trust input.merchant.refs
    → (evaluate intl input).decision ≡ Decision.allow
    → Any IsIdentity input.merchant.refs × All IsVouched input.merchant.refs
allow-verified intl input s e = elim ((evaluate-allow_iff intl input).0 e).listed [
  | inl h ↦ (IsIdentity-of_first input.merchant input.policy.merchants.allow h.0, h.1)
  | inr h ↦ (summarize_trust-verified_iff input.merchant.refs).0 (rw (← s) h.2)
]

-- The engine's input for an action that an agent asks for: the merchant is what the agent's own
-- assertion resolves to. `at` is the clock reading that `resolveMerchant` takes by itself.
abbrev pub agent_input :
    Policy → ProposedAction → SpendSnapshot → MerchantDirectory → (at now : ℕ) → EngineInput
agent_input policy action spend directory at now = record {
  policy = policy;
  action = action;
  merchant = resolve_merchant action.merchant directory MerchantAttestationSource.agent at;
  spend = spend;
  now = now;
}

-- An unverified reference of an identity scheme cannot be vouched for.
no_unvouched :
    (scheme : MerchantScheme) (at : ℕ) (o : Option Text)
    → is_identity_scheme scheme ≡ true
    → All IsVouched (push_if MerchantAttestationSource.agent at scheme o false)
    → o ≡ none
no_unvouched scheme at none i h = refl
no_unvouched scheme at (some v) i h = let k = h.0 i in cc

not-IsIdentity :
    (scheme : MerchantScheme) (at : ℕ) (o : Option Text) (b : Bool)
    → is_identity_scheme scheme ≡ false
    → ¬ Any IsIdentity (push_if MerchantAttestationSource.agent at scheme o b)
not-IsIdentity scheme at none b i h = h
not-IsIdentity scheme at (some v) b i (inl h) = cc
not-IsIdentity scheme at (some v) b i (inr h) = h

domain_vouched :
    (directory : MerchantDirectory) (at : ℕ) (o : Option Text)
    → Any IsIdentity (
        push_if MerchantAttestationSource.agent at MerchantScheme.domain o
          (is_some (and_then o directory) || false))
    → All IsVouched (
        push_if MerchantAttestationSource.agent at MerchantScheme.domain o
          (is_some (and_then o directory) || false))
    → (d : Text) × (o ≡ some d) × (is_some (directory d) ≡ true)
unfolding is_identity_scheme
domain_vouched directory at none h k = absurd h
domain_vouched directory at (some v) h k = (v, refl, ground (arith, k.0 refl))

-- A list with no identity reference can be skipped in looking for one.
skip :
    (xs ys : List ResolvedMerchantRef)
    → ¬ Any IsIdentity xs
    → Any IsIdentity (xs ++ ys)
    → Any IsIdentity ys
skip xs ys n h = elim (Any-append_cases IsIdentity xs ys h) [ inl k ↦ absurd (n k) | inr k ↦ k ]

skip_last :
    (xs ys : List ResolvedMerchantRef)
    → ¬ Any IsIdentity ys
    → Any IsIdentity (xs ++ ys)
    → Any IsIdentity xs
skip_last xs ys n h = elim (Any-append_cases IsIdentity xs ys h) [
  | inl k ↦ k
  | inr k ↦ absurd (n k)
]

absent :
    (scheme : MerchantScheme) (at : ℕ) (o : Option Text)
    → All IsVouched (push_if MerchantAttestationSource.agent at scheme o false)
    → ¬ Any IsIdentity (push_if MerchantAttestationSource.agent at scheme o false)
absent scheme at none h k = k
absent scheme at (some v) h (inl k) = let e = h.0 k in cc
absent scheme at (some v) h (inr k) = k

-- A name and a category code are no identity.
labels :
    (a : MerchantAssertion) (directory : MerchantDirectory) (at : ℕ)
    → ¬ Any IsIdentity (
        push_if MerchantAttestationSource.agent at MerchantScheme.name (truthy a.name) false
        ++ push_if MerchantAttestationSource.agent at MerchantScheme.mcc
            (truthy (final_mcc a directory MerchantAttestationSource.agent at))
            false)
unfolding is_identity_scheme
labels a directory at h =
    not-IsIdentity MerchantScheme.mcc at
      (truthy (final_mcc a directory MerchantAttestationSource.agent at)) false refl
      (skip _ _ (not-IsIdentity MerchantScheme.name at (truthy a.name) false refl) h)

module _ (a : MerchantAssertion) (directory : MerchantDirectory) (at : ℕ) where
  -- Only a domain that the directory knows makes an agent's assertion an identity in good standing.
  vouched_agent :
      Any IsIdentity (resolve_merchant a directory MerchantAttestationSource.agent at).refs
      → All IsVouched (resolve_merchant a directory MerchantAttestationSource.agent at).refs
      → (truthy a.psp_account ≡ none)
        × (truthy a.network_mid ≡ none)
        × (truthy a.onchain_address ≡ none)
        × ((d : Text) × (asserted_domain a ≡ some d) × (is_some (directory d) ≡ true))
  unfolding resolve_merchant resolved_refs directory_hit is_identity_scheme
  vouched_agent some' all' =
      let agent = MerchantAttestationSource.agent in
      let psp = push_if agent at MerchantScheme.psp_account (truthy a.psp_account) false in
      let mid = push_if agent at MerchantScheme.network_mid (truthy a.network_mid) false in
      let chain =
        push_if agent at MerchantScheme.onchain_address (truthy a.onchain_address) false in
      let (v1, w1) = (All-append_iff IsVouched psp _).0 all' in
      let (v2, w2) = (All-append_iff IsVouched mid _).0 w1 in
      let (v3, w3) = (All-append_iff IsVouched chain _).0 w2 in
      let (v4, w4) = (All-append_iff IsVouched _ _).0 w3 in
      let u1 = skip psp _ (absent MerchantScheme.psp_account at (truthy a.psp_account) v1) some' in
      let u2 = skip mid _ (absent MerchantScheme.network_mid at (truthy a.network_mid) v2) u1 in
      let u3 =
        skip chain _ (absent MerchantScheme.onchain_address at (truthy a.onchain_address) v3) u2 in
      let here = skip_last _ _ (labels a directory at) u3 in
      (
        no_unvouched MerchantScheme.psp_account at (truthy a.psp_account) refl v1,
        no_unvouched MerchantScheme.network_mid at (truthy a.network_mid) refl v2,
        no_unvouched MerchantScheme.onchain_address at (truthy a.onchain_address) refl v3,
        domain_vouched directory at (asserted_domain a) here v4,
      )

-- An action that an agent asks for gets ALLOW only if its merchant assertion names no PSP account,
-- no network merchant id and no on-chain address, and has a domain whose normalised form the
-- directory knows: whatever the policy says, and whatever the agent types.
pub agent_allow_needs_directory :
    (intl : Formatter) (policy : Policy) (action : ProposedAction) (spend : SpendSnapshot)
    (directory : MerchantDirectory) (at now : ℕ)
    → (evaluate intl (agent_input policy action spend directory at now)).decision ≡ Decision.allow
    → (truthy action.merchant.psp_account ≡ none)
      × (truthy action.merchant.network_mid ≡ none)
      × (truthy action.merchant.onchain_address ≡ none)
      × ((d : Text) × (asserted_domain action.merchant ≡ some d) × (is_some (directory d) ≡ true))
agent_allow_needs_directory intl policy action spend directory at now e =
    let (some', all') =
      allow-verified intl (agent_input policy action spend directory at now)
        (trust_is_summary action.merchant directory MerchantAttestationSource.agent at) e in
    vouched_agent action.merchant directory at some' all'
