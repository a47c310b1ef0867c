-- ===== src/Merchant/Matching.antt =====
-- packages/core/src/merchant.ts: matching policy references against a resolved merchant.
use waysafe.Prelude.{
  Bool, true, false, ◌&&◌, not, Option, none, some, List, [], ◌∷◌, ◌++◌, map, Text, txt, ◌==◌,
  text_eq, to_lower_case, filter, find, is_some, is_empty,
}
use waysafe.Merchant.Types.{
  MerchantScheme, MerchantRef, ResolvedMerchantRef, ResolvedMerchant, is_identity_scheme,
  scheme_code, is_verified,
}
use waysafe.Merchant.Domain.{normalize_domain, domain_matches}

-- The strings of `MerchantScheme`.
abbrev pub scheme_name : MerchantScheme → Text
scheme_name MerchantScheme.domain = txt "domain"
scheme_name MerchantScheme.psp_account = txt "psp_account"
scheme_name MerchantScheme.network_mid = txt "network_mid"
scheme_name MerchantScheme.mcc = txt "mcc"
scheme_name MerchantScheme.name = txt "name"
scheme_name MerchantScheme.onchain_address = txt "onchain_address"

normalized_or_lower : Text → Option Text → Text
normalized_or_lower value none = to_lower_case value
normalized_or_lower value (some d) = d

key_value : MerchantScheme → Text → Text
unfolding normalized_or_lower
key_value MerchantScheme.domain v = normalized_or_lower v (normalize_domain v)
key_value _ v = to_lower_case v

-- `merchantRefKey`, on the scheme and the value that it reads.
unfoldable pub merchant_ref_key : MerchantScheme → Text → Text
unfolding key_value
merchant_ref_key scheme value = scheme_name scheme ++ (b':' ∷ key_value scheme value)

-- The predicate of `findMatchingRef`.
value_matches : MerchantScheme → Text → Text → Bool
value_matches MerchantScheme.domain a b = domain_matches a b
value_matches _ a b = text_eq (to_lower_case b) (to_lower_case a)

unfoldable pub candidate_matches : MerchantRef → ResolvedMerchantRef → Bool
unfolding value_matches
candidate_matches ref candidate =
    scheme_code candidate.scheme == scheme_code ref.scheme
    && value_matches ref.scheme ref.value candidate.value

unfoldable pub find_matching_ref : MerchantRef → ResolvedMerchant → Option ResolvedMerchantRef
find_matching_ref ref resolved = find (candidate_matches ref) resolved.refs

unfoldable pub merchant_ref_matches : MerchantRef → ResolvedMerchant → Bool
unfolding find_matching_ref
merchant_ref_matches ref resolved = is_some (find_matching_ref ref resolved)

abbrev pub is_unverified_identity : ResolvedMerchantRef → Bool
is_unverified_identity ref = is_identity_scheme ref.scheme && not (is_verified ref.trust)

unfoldable pub unverified_identity_refs : ResolvedMerchant → List ResolvedMerchantRef
unverified_identity_refs resolved = filter is_unverified_identity resolved.refs

abbrev pub is_verified_identity : ResolvedMerchantRef → Bool
is_verified_identity ref = is_identity_scheme ref.scheme && is_verified ref.trust

-- `merchantRefKey(ref)` at a resolved reference.
abbrev pub resolved_key : ResolvedMerchantRef → Text
resolved_key ref = merchant_ref_key ref.scheme ref.value

unfoldable pub verified_merchant_keys : ResolvedMerchant → List Text
verified_merchant_keys resolved = map resolved_key (filter is_verified_identity resolved.refs)

-- What `satisfiesAllowlist` returns.
pub record AllowlistMatch : Type 0 where
  pub matched : Bool
  pub verified : Bool
  pub via : Option MerchantRef
  pub matched_ref : Option ResolvedMerchantRef
  pub unverified_refs : List ResolvedMerchantRef

-- The result for the entry `ref` that `matched` an identifier.
abbrev pub match_result :
    MerchantRef → ResolvedMerchantRef → List ResolvedMerchantRef → AllowlistMatch
match_result ref found unverified = record {
  matched = true;
  verified = is_identity_scheme ref.scheme && (is_verified found.trust && is_empty unverified);
  via = some ref;
  matched_ref = some found;
  unverified_refs = unverified;
}

abbrev pub no_match : List ResolvedMerchantRef → AllowlistMatch
no_match unverified = record {
  matched = false;
  verified = false;
  via = none;
  matched_ref = none;
  unverified_refs = unverified;
}

-- The loop over the allowlist: the first entry that matches decides.
unfoldable pub allowlist_loop :
    List ResolvedMerchantRef → ResolvedMerchant → List MerchantRef → AllowlistMatch
allowlist_loop unverified resolved [] = no_match unverified
allowlist_loop unverified resolved (ref ∷ allow) = elim (find_matching_ref ref resolved) [
  | none ↦ allowlist_loop unverified resolved allow
  | some found ↦ match_result ref found unverified
]

unfoldable pub satisfies_allowlist : List MerchantRef → ResolvedMerchant → AllowlistMatch
unfolding allowlist_loop
satisfies_allowlist allow resolved =
    allowlist_loop (unverified_identity_refs resolved) resolved allow

-- `matchesDenylist`, by its result's `via`: `none` where nothing matched.
unfoldable pub matches_denylist : List MerchantRef → ResolvedMerchant → Option MerchantRef
matches_denylist deny resolved = find (λ ref. merchant_ref_matches ref resolved) deny
