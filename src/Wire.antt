-- ===== src/Wire.antt =====
-- packages/core/src: the texts and the JSON objects of decisions, reasons, merchants and actions.
use waysafe.Prelude.{ℕ, Option, none, some, List, [], ◌∷◌, Text, txt}
use waysafe.Prelude.Int.{pos}
use waysafe.Reason.{Decision, ReasonCode, Reason}
use waysafe.Policy.{Currency, Scalar, ProposedAction}
use waysafe.Merchant.Types.{
  MerchantScheme, MerchantTrust, MerchantAttestationSource, MerchantAssertion, ResolvedMerchantRef,
  ResolvedMerchant, MccSource, ResolutionSource,
}
use waysafe.Json.{
  Json, Items, Fields, json_null, json_boolean, json_number, json_string, json_array, json_object,
  no_items, item, no_fields, field,
}

unfoldable pub decision_text : Decision → Text
decision_text Decision.allow = txt "ALLOW"
decision_text Decision.deny = txt "DENY"
decision_text Decision.step_up = txt "STEP_UP"

unfoldable pub reason_code_text : ReasonCode → Text
reason_code_text ReasonCode.allow_within_mandate = txt "ALLOW_WITHIN_MANDATE"
reason_code_text ReasonCode.deny_no_active_mandate = txt "DENY_NO_ACTIVE_MANDATE"
reason_code_text ReasonCode.deny_mandate_expired = txt "DENY_MANDATE_EXPIRED"
reason_code_text ReasonCode.deny_mandate_revoked = txt "DENY_MANDATE_REVOKED"
reason_code_text ReasonCode.deny_step_up_expired = txt "DENY_STEP_UP_EXPIRED"
reason_code_text ReasonCode.deny_resource_url_not_permitted = txt "DENY_RESOURCE_URL_NOT_PERMITTED"
reason_code_text ReasonCode.deny_decision_not_recorded = txt "DENY_DECISION_NOT_RECORDED"
reason_code_text ReasonCode.deny_settled_without_authorization =
    txt "DENY_SETTLED_WITHOUT_AUTHORIZATION"
reason_code_text ReasonCode.deny_settled_above_authorization =
    txt "DENY_SETTLED_ABOVE_AUTHORIZATION"
reason_code_text ReasonCode.deny_mandate_superseded = txt "DENY_MANDATE_SUPERSEDED"
reason_code_text ReasonCode.deny_mandate_not_authenticated = txt "DENY_MANDATE_NOT_AUTHENTICATED"
reason_code_text ReasonCode.deny_agent_not_bound = txt "DENY_AGENT_NOT_BOUND"
reason_code_text ReasonCode.deny_agent_suspended = txt "DENY_AGENT_SUSPENDED"
reason_code_text ReasonCode.deny_principal_mismatch = txt "DENY_PRINCIPAL_MISMATCH"
reason_code_text ReasonCode.deny_currency_not_permitted = txt "DENY_CURRENCY_NOT_PERMITTED"
reason_code_text ReasonCode.deny_transaction_limit_exceeded = txt "DENY_TRANSACTION_LIMIT_EXCEEDED"
reason_code_text ReasonCode.deny_cumulative_limit_exceeded = txt "DENY_CUMULATIVE_LIMIT_EXCEEDED"
reason_code_text ReasonCode.deny_velocity_limit_exceeded = txt "DENY_VELOCITY_LIMIT_EXCEEDED"
reason_code_text ReasonCode.deny_merchant_blocked = txt "DENY_MERCHANT_BLOCKED"
reason_code_text ReasonCode.deny_merchant_not_allowlisted = txt "DENY_MERCHANT_NOT_ALLOWLISTED"
reason_code_text ReasonCode.deny_category_blocked = txt "DENY_CATEGORY_BLOCKED"
reason_code_text ReasonCode.deny_category_not_allowlisted = txt "DENY_CATEGORY_NOT_ALLOWLISTED"
reason_code_text ReasonCode.deny_outside_time_window = txt "DENY_OUTSIDE_TIME_WINDOW"
reason_code_text ReasonCode.deny_constraint_not_satisfied = txt "DENY_CONSTRAINT_NOT_SATISFIED"
reason_code_text ReasonCode.deny_merchant_unresolved = txt "DENY_MERCHANT_UNRESOLVED"
reason_code_text ReasonCode.deny_asset_not_in_registry = txt "DENY_ASSET_NOT_IN_REGISTRY"
reason_code_text ReasonCode.deny_asset_decimals_mismatch = txt "DENY_ASSET_DECIMALS_MISMATCH"
reason_code_text ReasonCode.deny_asset_unspecified = txt "DENY_ASSET_UNSPECIFIED"
reason_code_text ReasonCode.deny_step_up_self_approval = txt "DENY_STEP_UP_SELF_APPROVAL"
reason_code_text ReasonCode.deny_mandate_not_an_approver = txt "DENY_MANDATE_NOT_AN_APPROVER"
reason_code_text ReasonCode.deny_approver_would_escalate = txt "DENY_APPROVER_WOULD_ESCALATE"
reason_code_text ReasonCode.deny_approver_cycle = txt "DENY_APPROVER_CYCLE"
reason_code_text ReasonCode.step_up_amount_threshold = txt "STEP_UP_AMOUNT_THRESHOLD"
reason_code_text ReasonCode.step_up_cumulative_threshold = txt "STEP_UP_CUMULATIVE_THRESHOLD"
reason_code_text ReasonCode.step_up_merchant_not_allowlisted =
    txt "STEP_UP_MERCHANT_NOT_ALLOWLISTED"
reason_code_text ReasonCode.step_up_category_not_allowlisted =
    txt "STEP_UP_CATEGORY_NOT_ALLOWLISTED"
reason_code_text ReasonCode.step_up_merchant_unverified = txt "STEP_UP_MERCHANT_UNVERIFIED"
reason_code_text ReasonCode.step_up_first_time_merchant = txt "STEP_UP_FIRST_TIME_MERCHANT"
reason_code_text ReasonCode.step_up_mandate_requires_reauth = txt "STEP_UP_MANDATE_REQUIRES_REAUTH"

abbrev pub scheme_text : MerchantScheme → Text
scheme_text MerchantScheme.domain = txt "domain"
scheme_text MerchantScheme.psp_account = txt "psp_account"
scheme_text MerchantScheme.network_mid = txt "network_mid"
scheme_text MerchantScheme.mcc = txt "mcc"
scheme_text MerchantScheme.name = txt "name"
scheme_text MerchantScheme.onchain_address = txt "onchain_address"

abbrev pub trust_text : MerchantTrust → Text
trust_text MerchantTrust.verified = txt "VERIFIED"
trust_text MerchantTrust.asserted = txt "ASSERTED"
trust_text MerchantTrust.unknown = txt "UNKNOWN"

abbrev pub attestation_text : MerchantAttestationSource → Text
attestation_text MerchantAttestationSource.agent = txt "agent"
attestation_text MerchantAttestationSource.rail = txt "rail"

abbrev pub mcc_source_text : MccSource → Text
mcc_source_text MccSource.psp = txt "psp"
mcc_source_text MccSource.directory = txt "directory"
mcc_source_text MccSource.assertion = txt "assertion"
mcc_source_text MccSource.network = txt "network"

abbrev pub resolution_text : ResolutionSource → Text
resolution_text ResolutionSource.psp = txt "psp"
resolution_text ResolutionSource.directory = txt "directory"
resolution_text ResolutionSource.assertion = txt "assertion"
resolution_text ResolutionSource.network = txt "network"
resolution_text ResolutionSource.onchain = txt "onchain"
resolution_text ResolutionSource.none_at_all = txt "none"

abbrev pub currency_text : Currency → Text
currency_text Currency.usd = txt "USD"
currency_text (Currency.other t) = t

-- A field whose value may be undefined, before other fields.
abbrev pub field_if : Text → Option Text → Fields → Fields
field_if k none fs = fs
field_if k (some t) fs = field k (json_string t) fs

abbrev pub text_or_null : Option Text → Json
text_or_null none = json_null
text_or_null (some t) = json_string t

abbrev pub scalar_json : Scalar → Json
scalar_json (Scalar.string t) = json_string t
scalar_json (Scalar.number z) = json_number z
scalar_json (Scalar.boolean b) = json_boolean b

abbrev pub attestation_fields : List (Text × Scalar) → Fields
attestation_fields [] = no_fields
attestation_fields ((k, v) ∷ rest) = field k (scalar_json v) (attestation_fields rest)

abbrev pub assertion_json : MerchantAssertion → Json
assertion_json a = json_object (
    field_if (txt "name") a.name (
      field_if (txt "domain") a.domain (
        field_if (txt "psp_account") a.psp_account (
          field_if (txt "network_mid") a.network_mid (
            field_if (txt "mcc") a.mcc
              (field_if (txt "onchain_address") a.onchain_address no_fields))))))

-- A parsed `ProposedAction`.
unfoldable pub action_json : ProposedAction → Json
action_json a = json_object (
    field (txt "amount") (json_number (pos a.amount)) (
      field (txt "currency") (json_string (currency_text a.currency)) (
        field (txt "merchant") (assertion_json a.merchant) (
          field_if (txt "category") a.category (
            field_if (txt "description") a.description (
              field (txt "attestations") (json_object (attestation_fields a.attestations))
                (field_if (txt "payment_method_ref") a.payment_method_ref no_fields)))))))

abbrev pub map_option : {A B : Type 0} → (A → B) → Option A → Option B
map_option f none = none
map_option f (some a) = some (f a)

-- `to_iso` is `Date.prototype.toISOString`.
abbrev pub resolved_ref_json : (ℕ → Text) → ResolvedMerchantRef → Json
resolved_ref_json to_iso r = json_object (
    field (txt "scheme") (json_string (scheme_text r.scheme)) (
      field (txt "value") (json_string r.value) (
        field (txt "trust") (json_string (trust_text r.trust)) (
          field (txt "source") (json_string (attestation_text r.source)) (
            field (txt "verified_at") (text_or_null (map_option to_iso r.verified_at))
              no_fields)))))

abbrev pub resolved_ref_items : (ℕ → Text) → List ResolvedMerchantRef → Items
resolved_ref_items to_iso [] = no_items
resolved_ref_items to_iso (r ∷ rs) =
    item (resolved_ref_json to_iso r) (resolved_ref_items to_iso rs)

unfoldable pub resolved_merchant_json : (ℕ → Text) → ResolvedMerchant → Json
resolved_merchant_json to_iso m = json_object (
    field (txt "trust") (json_string (trust_text m.trust)) (
      field (txt "refs") (json_array (resolved_ref_items to_iso m.refs)) (
        field_if (txt "mcc") m.mcc (
          field_if (txt "mcc_source") (map_option mcc_source_text m.mcc_source) (
            field_if (txt "display_name") m.display_name (
              field (txt "resolution_source") (json_string (resolution_text m.resolution_source))
                no_fields))))))

abbrev pub reason_code_items : List Reason → Items
reason_code_items [] = no_items
reason_code_items (r ∷ rs) = item (json_string (reason_code_text r.code)) (reason_code_items rs)
