-- ===== src/Merchant/Resolve.antt =====
-- packages/core/src/merchant.ts: `resolveMerchant` and `summarizeTrust`.
use waysafe.Prelude.{
  ℕ, Bool, true, false, ◌&&◌, ◌||◌, Option, none, some, List, [], ◌∷◌, ◌++◌, Text, if◌then◌else◌,
  filter, all, is_some, is_empty, or_else,
}
use waysafe.Merchant.Types.{
  MerchantScheme, MerchantTrust, MerchantAttestationSource, ResolvedMerchantRef, ResolvedMerchant,
  MerchantAssertion, MerchantDirectory, MerchantDirectoryEntry, MccSource, ResolutionSource,
  is_identity_scheme, is_verified,
}
use waysafe.Merchant.Domain.{normalize_domain}

-- `if (value)` on an optional string: the empty one is falsy.
abbrev pub truthy : Option Text → Option Text
truthy none = none
truthy (some []) = none
truthy (some (c ∷ s)) = some (c ∷ s)

abbrev pub not_mcc : MerchantScheme → Bool
not_mcc MerchantScheme.mcc = false
not_mcc _ = true

unfoldable pub summarize_trust : List ResolvedMerchantRef → MerchantTrust
summarize_trust refs =
    let identifying = filter (λ (r : ResolvedMerchantRef). not_mcc r.scheme) refs in
    let identity = filter (λ (r : ResolvedMerchantRef). is_identity_scheme r.scheme) identifying in
    if is_empty identifying
    then MerchantTrust.unknown
    else if is_empty identity
    then MerchantTrust.asserted
    else if all (λ (r : ResolvedMerchantRef). is_verified r.trust) identity
    then MerchantTrust.verified
    else MerchantTrust.asserted

-- `source === MerchantAttestationSource.RAIL`
abbrev pub attested_by_rail : MerchantAttestationSource → Bool
attested_by_rail MerchantAttestationSource.rail = true
attested_by_rail MerchantAttestationSource.agent = false

-- What `push` appends: a new identifier is unverified unless there is a reason.
abbrev pub new_ref :
    MerchantAttestationSource → ℕ → MerchantScheme → Text → Bool → ResolvedMerchantRef
new_ref source now scheme value verified = record {
  scheme = scheme;
  value = value;
  trust = if verified then MerchantTrust.verified else MerchantTrust.asserted;
  source = source;
  verified_at = if verified then some now else none;
}

-- One optional identifier of the assertion.
abbrev pub push_if :
    MerchantAttestationSource → ℕ → MerchantScheme → Option Text → Bool → List ResolvedMerchantRef
push_if source now scheme none verified = []
push_if source now scheme (some value) verified = new_ref source now scheme value verified ∷ []

abbrev pub and_then {ℓ} : {A : Type ℓ} → Option Text → (Text → Option A) → Option A
and_then none f = none
and_then (some t) f = f t

-- The comparable form of the asserted domain.
unfoldable pub asserted_domain : MerchantAssertion → Option Text
asserted_domain a = and_then (truthy a.domain) normalize_domain

abbrev pub entry_mcc : Option MerchantDirectoryEntry → Option Text
entry_mcc none = none
entry_mcc (some e) = truthy e.mcc

-- `verifiedSource ??= s`, where the condition holds.
abbrev pub first_source : Bool → ResolutionSource → Option ResolutionSource
first_source true s = some s
first_source false s = none

module _ (a : MerchantAssertion) (directory : MerchantDirectory)
    (source : MerchantAttestationSource) (now : ℕ) where
  -- `directory.lookupDomain(domain)`, where there is a domain.
  unfoldable pub directory_hit : Option MerchantDirectoryEntry
  directory_hit = and_then (asserted_domain a) directory

  -- `mcc` after the assignments.
  unfoldable pub final_mcc : Option Text
  unfolding directory_hit
  final_mcc = or_else (truthy a.mcc) (or_else (entry_mcc directory_hit) a.mcc)

  -- `mccSource` after the assignments.
  unfoldable pub final_mcc_source : Option MccSource
  unfolding directory_hit
  final_mcc_source =
      if is_some (truthy a.mcc)
      then (if is_some (truthy a.network_mid) && attested_by_rail source
          then some MccSource.network
          else some MccSource.assertion)
      else if is_some (entry_mcc directory_hit)
      then some MccSource.directory
      else none

  -- `refs` after the calls of `push`, in their order.
  unfoldable pub resolved_refs : List ResolvedMerchantRef
  unfolding directory_hit final_mcc
  resolved_refs =
      push_if source now MerchantScheme.psp_account (truthy a.psp_account) (attested_by_rail source)
      ++ (push_if source now MerchantScheme.network_mid (truthy a.network_mid)
            (attested_by_rail source)
          ++ (push_if source now MerchantScheme.onchain_address (truthy a.onchain_address)
                (attested_by_rail source)
              ++ (push_if source now MerchantScheme.domain (asserted_domain a)
                    (is_some directory_hit || attested_by_rail source)
                  ++ (push_if source now MerchantScheme.name (truthy a.name) false
                      ++ push_if source now MerchantScheme.mcc (truthy final_mcc) false))))

  -- `verifiedSource` after the assignments.
  unfoldable pub verified_source : Option ResolutionSource
  unfolding directory_hit
  verified_source =
      or_else
        (first_source (is_some (truthy a.psp_account) && attested_by_rail source)
          ResolutionSource.psp)
        (or_else
          (first_source (is_some (truthy a.network_mid) && attested_by_rail source)
            ResolutionSource.network)
          (or_else
            (first_source (is_some (truthy a.onchain_address) && attested_by_rail source)
              ResolutionSource.onchain)
            (first_source (is_some directory_hit) ResolutionSource.directory)))

  abbrev source_or_default : Option ResolutionSource → List ResolvedMerchantRef → ResolutionSource
  source_or_default (some s) refs = s
  source_or_default none [] = ResolutionSource.none_at_all
  source_or_default none (r ∷ refs) = ResolutionSource.assertion

  unfoldable pub resolve_merchant : ResolvedMerchant
  unfolding resolved_refs final_mcc final_mcc_source verified_source summarize_trust
  resolve_merchant = record {
    trust = summarize_trust resolved_refs;
    refs = resolved_refs;
    mcc = final_mcc;
    mcc_source = final_mcc_source;
    display_name = or_else a.name (asserted_domain a);
    resolution_source = source_or_default verified_source resolved_refs;
  }
