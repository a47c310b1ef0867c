-- ===== src/Merchant/Types.antt =====
-- packages/core/src/merchant.ts: schemes, trust, attestation sources, references, assertions.
-- Texts are ASCII, instants are milliseconds since the epoch.
use waysafe.Prelude.{ℕ, Bool, true, false, Option, List, Text}

pub data MerchantScheme : Type 0 where
  domain psp_account network_mid mcc name onchain_address : MerchantScheme

pub data MerchantTrust : Type 0 where
  verified asserted unknown : MerchantTrust

pub data MerchantAttestationSource : Type 0 where
  agent rail : MerchantAttestationSource

-- A reference in a policy; the display label takes no part.
pub record MerchantRef : Type 0 where
  pub scheme : MerchantScheme
  pub value : Text

pub record MerchantAssertion : Type 0 where
  pub name : Option Text
  pub domain : Option Text
  pub psp_account : Option Text
  pub network_mid : Option Text
  pub mcc : Option Text
  pub onchain_address : Option Text

-- The interface extends `MerchantRef`.
pub record ResolvedMerchantRef : Type 0 where
  pub scheme : MerchantScheme
  pub value : Text
  pub trust : MerchantTrust
  pub source : MerchantAttestationSource
  pub verified_at : Option ℕ

pub data MccSource : Type 0 where
  psp directory assertion network : MccSource

pub data ResolutionSource : Type 0 where
  psp directory assertion network onchain none_at_all : ResolutionSource

pub record ResolvedMerchant : Type 0 where
  pub trust : MerchantTrust
  pub refs : List ResolvedMerchantRef
  pub mcc : Option Text
  pub mcc_source : Option MccSource
  pub display_name : Option Text
  pub resolution_source : ResolutionSource

pub record MerchantDirectoryEntry : Type 0 where
  pub domain : Text
  pub display_name : Text
  pub mcc : Option Text
  pub hosts : Option (List Text)
  pub include_subdomains : Option Bool

-- `MerchantDirectory`, by its one method `lookupDomain`.
abbrev pub MerchantDirectory : Type 0
MerchantDirectory = Text → Option MerchantDirectoryEntry

-- Membership in `IDENTITY_SCHEMES`.
unfoldable pub is_identity_scheme : MerchantScheme → Bool
is_identity_scheme MerchantScheme.psp_account = true
is_identity_scheme MerchantScheme.network_mid = true
is_identity_scheme MerchantScheme.domain = true
is_identity_scheme MerchantScheme.onchain_address = true
is_identity_scheme MerchantScheme.mcc = false
is_identity_scheme MerchantScheme.name = false

-- `===` on schemes.
abbrev pub scheme_code : MerchantScheme → ℕ
scheme_code MerchantScheme.domain = 0
scheme_code MerchantScheme.psp_account = 1
scheme_code MerchantScheme.network_mid = 2
scheme_code MerchantScheme.mcc = 3
scheme_code MerchantScheme.name = 4
scheme_code MerchantScheme.onchain_address = 5

-- `trust === MerchantTrust.VERIFIED`
abbrev pub is_verified : MerchantTrust → Bool
is_verified verified = true
is_verified asserted = false
is_verified unknown = false

-- `trust === MerchantTrust.UNKNOWN`
abbrev pub is_unknown : MerchantTrust → Bool
is_unknown verified = false
is_unknown asserted = false
is_unknown unknown = true
