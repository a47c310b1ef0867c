-- ===== src/Tests/Decisions.antt =====
-- packages/core/src/engine/evaluate.ts on a sample policy: one run end to end for each decision.
use waysafe.Prelude.{◌≡◌, refl, [], ◌∷◌, txt}
use waysafe.Engine.Checks.{
  allowlist_reasons, first_use_reasons, evaluate_merchant, mcc_reasons, slug_reasons,
  evaluate_category, attestation, operator_holds, constraint_satisfied, constraint_ok,
  constraint_reasons, evaluate_constraints,
}
use waysafe.Engine.Evaluate.{has_decision, all_reasons, combine, evaluate, allow_reason}
use waysafe.Engine.Limits.{
  amount_reasons, count_reasons, limit_reasons, transaction_reasons, evaluate_limits,
  above_amount_reasons, above_cumulative_reasons, evaluate_step_up_thresholds,
}
use waysafe.Engine.Window.{
  evaluate_expiry, evaluate_currency, parse_clock_time, day_permitted, within_clock, evaluate_clock,
  evaluate_window_at, evaluate_time_window,
}
use waysafe.Merchant.Directory.{
  lookup_host, host_bindings, entry_bindings, set_all, by_host, suffix_roots, find_suffix,
  create_static_directory,
}
use waysafe.Merchant.Domain.{strip_prefix, is_domain, cleaned, normalize_domain, domain_matches}
use waysafe.Merchant.Matching.{
  merchant_ref_key, candidate_matches, find_matching_ref, merchant_ref_matches,
  unverified_identity_refs, verified_merchant_keys, allowlist_loop, satisfies_allowlist,
  matches_denylist,
}
use waysafe.Merchant.Resolve.{
  summarize_trust, asserted_domain, directory_hit, final_mcc, final_mcc_source, resolved_refs,
  verified_source, resolve_merchant,
}
use waysafe.Merchant.Types.{is_identity_scheme}
use waysafe.Prelude.Int.{◌+ℤ◌}
use waysafe.Reason.{Decision, decision_for_reason_code}
use waysafe.Time.{days_from_civil, weekday_of, zoned_parts}
use waysafe.Tests.Samples.{policy, tuesday, input, with_blocked, with_large}

pub allow_test : (evaluate tuesday input).decision ≡ Decision.allow
unfolding allowlist_reasons first_use_reasons evaluate_merchant mcc_reasons slug_reasons
    evaluate_category attestation operator_holds constraint_satisfied constraint_ok
    constraint_reasons evaluate_constraints has_decision all_reasons combine evaluate amount_reasons
    count_reasons limit_reasons transaction_reasons evaluate_limits above_amount_reasons
    above_cumulative_reasons evaluate_step_up_thresholds evaluate_expiry evaluate_currency
    parse_clock_time day_permitted within_clock evaluate_clock evaluate_window_at
    evaluate_time_window lookup_host host_bindings entry_bindings set_all by_host suffix_roots
    find_suffix create_static_directory strip_prefix is_domain cleaned normalize_domain
    domain_matches merchant_ref_key candidate_matches find_matching_ref merchant_ref_matches
    unverified_identity_refs verified_merchant_keys allowlist_loop satisfies_allowlist
    matches_denylist summarize_trust asserted_domain directory_hit final_mcc final_mcc_source
    resolved_refs verified_source resolve_merchant is_identity_scheme ◌+ℤ◌ decision_for_reason_code
    days_from_civil weekday_of zoned_parts
allow_test = refl

blocked_test : (evaluate tuesday with_blocked).decision ≡ Decision.deny
unfolding allowlist_reasons first_use_reasons evaluate_merchant mcc_reasons slug_reasons
    evaluate_category attestation operator_holds constraint_satisfied constraint_ok
    constraint_reasons evaluate_constraints has_decision all_reasons combine evaluate amount_reasons
    count_reasons limit_reasons transaction_reasons evaluate_limits above_amount_reasons
    above_cumulative_reasons evaluate_step_up_thresholds evaluate_expiry evaluate_currency
    parse_clock_time day_permitted within_clock evaluate_clock evaluate_window_at
    evaluate_time_window lookup_host host_bindings entry_bindings set_all by_host suffix_roots
    find_suffix create_static_directory strip_prefix is_domain cleaned normalize_domain
    domain_matches merchant_ref_key candidate_matches find_matching_ref merchant_ref_matches
    unverified_identity_refs verified_merchant_keys allowlist_loop satisfies_allowlist
    matches_denylist summarize_trust asserted_domain directory_hit final_mcc final_mcc_source
    resolved_refs verified_source resolve_merchant is_identity_scheme ◌+ℤ◌ decision_for_reason_code
    days_from_civil weekday_of zoned_parts
blocked_test = refl

large_test : (evaluate tuesday with_large).decision ≡ Decision.step_up
unfolding allowlist_reasons first_use_reasons evaluate_merchant mcc_reasons slug_reasons
    evaluate_category attestation operator_holds constraint_satisfied constraint_ok
    constraint_reasons evaluate_constraints has_decision all_reasons combine evaluate amount_reasons
    count_reasons limit_reasons transaction_reasons evaluate_limits above_amount_reasons
    above_cumulative_reasons evaluate_step_up_thresholds evaluate_expiry evaluate_currency
    parse_clock_time day_permitted within_clock evaluate_clock evaluate_window_at
    evaluate_time_window lookup_host host_bindings entry_bindings set_all by_host suffix_roots
    find_suffix create_static_directory strip_prefix is_domain cleaned normalize_domain
    domain_matches merchant_ref_key candidate_matches find_matching_ref merchant_ref_matches
    unverified_identity_refs verified_merchant_keys allowlist_loop satisfies_allowlist
    matches_denylist summarize_trust asserted_domain directory_hit final_mcc final_mcc_source
    resolved_refs verified_source resolve_merchant is_identity_scheme ◌+ℤ◌ decision_for_reason_code
    days_from_civil weekday_of zoned_parts
large_test = refl

-- The approvers of a policy take no part.
pub escalating_test :
    (evaluate tuesday (record input {
      policy = record policy { escalation = record { approvers = txt "m2" ∷ [] } };
    })).reasons
    ≡ allow_reason ∷ []
unfolding allowlist_reasons first_use_reasons evaluate_merchant mcc_reasons slug_reasons
    evaluate_category attestation operator_holds constraint_satisfied constraint_ok
    constraint_reasons evaluate_constraints has_decision all_reasons combine evaluate amount_reasons
    count_reasons limit_reasons transaction_reasons evaluate_limits above_amount_reasons
    above_cumulative_reasons evaluate_step_up_thresholds evaluate_expiry evaluate_currency
    parse_clock_time day_permitted within_clock evaluate_clock evaluate_window_at
    evaluate_time_window lookup_host host_bindings entry_bindings set_all by_host suffix_roots
    find_suffix create_static_directory strip_prefix is_domain cleaned normalize_domain
    domain_matches merchant_ref_key candidate_matches find_matching_ref merchant_ref_matches
    unverified_identity_refs verified_merchant_keys allowlist_loop satisfies_allowlist
    matches_denylist summarize_trust asserted_domain directory_hit final_mcc final_mcc_source
    resolved_refs verified_source resolve_merchant is_identity_scheme ◌+ℤ◌ decision_for_reason_code
    days_from_civil weekday_of zoned_parts
escalating_test = refl
