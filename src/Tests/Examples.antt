-- ===== src/Tests/Examples.antt =====
-- packages/core/src/engine and merchant.ts: the theorems at sample policies, merchants and ledgers.
use waysafe.Prelude.{
  ◌≤◌, ◌+◌, ◌≡◌, refl, ◌≢◌, ◌↔◌, true, false, none, some, List, [], ◌∷◌, ◌++◌, Text, txt, All, Any,
  is_some, is_empty, arith, filter, length,
}
use waysafe.Prelude.Int.{pos, negsuc, ◌+ℤ◌}
use waysafe.Reason.{Decision}
use waysafe.Merchant.Types.{MerchantTrust, MerchantAttestationSource, ResolvedMerchant}
use waysafe.Merchant.Domain.{normalize_domain, is_domain, cleaned, strip_prefix}
use waysafe.Merchant.Domain.Laws.{normalize-www_twice}
use waysafe.Merchant.Matching.{satisfies_allowlist}
use waysafe.Merchant.Matches.{Names, IsVouched, FirstIsIdentity, satisfies_allowlist_iff}
use waysafe.Merchant.Directory.{
  create_static_directory, lookup_host, host_bindings, entry_bindings, set_all, by_host,
  suffix_roots, find_suffix,
}
use waysafe.Merchant.Hosts.{ListsHost, directory_exact}
use waysafe.Merchant.Resolve.{summarize_trust, resolve_merchant, asserted_domain, truthy}
use waysafe.Merchant.Trust.{
  IsIdentity, FromDirectory, summarize_trust-verified_iff, agent_refs-FromDirectory,
  rail_refs-IsVouched,
}
use waysafe.Engine.Types.{empty_spend_snapshot}
use waysafe.Engine.Evaluate.{evaluate}
use waysafe.Engine.Combine.{tier}
use waysafe.Engine.Spec.{Permits, Tolerates}
use waysafe.Engine.Verdict.{evaluate-allow_iff, evaluate-not-deny_iff, evaluate_consistent}
use waysafe.Engine.Monotone.{with_amount, severity, evaluate_mono_amount}
use waysafe.Engine.Trust.{allow-verified, agent_allow_needs_directory}
use waysafe.Engine.Rollup.{LedgerEntryType, LedgerRollupEntry, roll_up_window}
use waysafe.Engine.Rollup.Counting.{release_entry, capture_entry, roll_up_window-settle}
use waysafe.Engine.Rollup.Slots.{Distinct, Concerns, holds_slot, roll_up_window-count}
use waysafe.Tests.Samples.{
  tuesday, input, with_blocked, policy, action, accounting, directory, entries, staples_entry,
  staples_ref, staples_assertion, ten,
}
use waysafe.Tests.Decisions.{allow_test}

evaluate-allow_iff_example :
    ((evaluate tuesday input).decision ≡ Decision.allow) ↔ Permits tuesday input
evaluate-allow_iff_example = evaluate-allow_iff tuesday input

evaluate-not-deny_iff_example :
    ((evaluate tuesday with_blocked).decision ≢ Decision.deny) ↔ Tolerates tuesday with_blocked
evaluate-not-deny_iff_example = evaluate-not-deny_iff tuesday with_blocked

evaluate_consistent_example :
    All
      (λ r. tier r ≡ (evaluate tuesday with_blocked).decision)
      (evaluate tuesday with_blocked).reasons
    × (is_empty (evaluate tuesday with_blocked).reasons ≡ false)
evaluate_consistent_example = evaluate_consistent tuesday with_blocked

evaluate_mono_amount_example :
    severity (evaluate tuesday (with_amount input 4000)).decision
    ≤ severity (evaluate tuesday (with_amount input 6000)).decision
evaluate_mono_amount_example = evaluate_mono_amount tuesday input 4000 6000 (omega arith)

agent_allow_needs_directory_example :
    (truthy action.merchant.psp_account ≡ none)
    × (truthy action.merchant.network_mid ≡ none)
    × (truthy action.merchant.onchain_address ≡ none)
    × ((d : Text) × (asserted_domain action.merchant ≡ some d) × (is_some (directory d) ≡ true))
agent_allow_needs_directory_example =
    agent_allow_needs_directory tuesday policy action empty_spend_snapshot directory 0 ten
      allow_test

allow-verified_example : Any IsIdentity input.merchant.refs × All IsVouched input.merchant.refs
unfolding resolve_merchant
allow-verified_example = allow-verified tuesday input refl allow_test

-- The sample merchant as the agent's assertion resolves.
abbrev staples : ResolvedMerchant
staples = resolve_merchant staples_assertion directory MerchantAttestationSource.agent 0

satisfies_allowlist_iff_example :
    (((satisfies_allowlist (staples_ref ∷ []) staples).matched ≡ true)
      ↔ Any (Names staples) (staples_ref ∷ []))
    × (((satisfies_allowlist (staples_ref ∷ []) staples).verified ≡ true)
        ↔ (FirstIsIdentity staples (staples_ref ∷ []) × All IsVouched staples.refs))
satisfies_allowlist_iff_example = satisfies_allowlist_iff staples (staples_ref ∷ [])

summarize_trust-verified_iff_example :
    (summarize_trust staples.refs ≡ MerchantTrust.verified)
    ↔ (Any IsIdentity staples.refs × All IsVouched staples.refs)
summarize_trust-verified_iff_example = summarize_trust-verified_iff staples.refs

agent_refs-FromDirectory_example :
    All
      (FromDirectory directory)
      (resolve_merchant staples_assertion directory MerchantAttestationSource.agent 0).refs
agent_refs-FromDirectory_example = agent_refs-FromDirectory staples_assertion directory 0

rail_refs-IsVouched_example :
    All IsVouched
      (resolve_merchant staples_assertion directory MerchantAttestationSource.rail 0).refs
rail_refs-IsVouched_example = rail_refs-IsVouched staples_assertion directory 0

normalize-www_twice_example :
    (normalize_domain (txt "www." ++ (txt "www." ++ txt "staples.com"))
      ≡ some (txt "www." ++ txt "staples.com"))
    × (normalize_domain (txt "www." ++ txt "staples.com") ≡ some (txt "staples.com"))
unfolding is_domain
normalize-www_twice_example = normalize-www_twice (txt "staples.com") refl

directory_exact_example :
    (n : Text) × (normalize_domain (txt "shop.staples.com") ≡ some n) × Any (ListsHost n) entries
unfolding create_static_directory normalize_domain is_domain cleaned strip_prefix lookup_host
    host_bindings entry_bindings set_all by_host suffix_roots find_suffix
directory_exact_example =
    directory_exact entries (txt "shop.staples.com") staples_entry (refl, tt) refl

-- One payment of 40 dollars, held.
abbrev ledger : List LedgerRollupEntry
ledger =
    record { transaction_key = txt "a1"; type = LedgerEntryType.reservation; amount = pos 4000 }
    ∷ []

roll_up_window-count_example :
    (ks : List Text) × Distinct ks
    × ((k : Text) → Any (λ z. z ≡ k) ks ↔ Any (Concerns k) ledger)
    × ((roll_up_window ledger accounting none).count ≡ length (filter (holds_slot none ledger) ks))
roll_up_window-count_example = roll_up_window-count ledger accounting none

abbrev released : List LedgerRollupEntry
released = ledger ++ (release_entry (txt "a1") (negsuc 3999) ∷ [])

abbrev captured : List LedgerRollupEntry
captured = released ++ (capture_entry (txt "a1") (pos 3500) ∷ [])

roll_up_window-settle_example :
    ((roll_up_window released accounting none).count + 1
      ≡ (roll_up_window ledger accounting none).count)
    × ((roll_up_window captured accounting none).count
        ≡ (roll_up_window ledger accounting none).count)
    × ((roll_up_window captured accounting none).amount
        ≡ (roll_up_window ledger accounting none).amount +ℤ negsuc 3999 +ℤ pos 3500)
roll_up_window-settle_example =
    roll_up_window-settle ledger (txt "a1") (negsuc 3999) (pos 3500) accounting refl
