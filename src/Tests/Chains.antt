-- ===== src/Tests/Chains.antt =====
-- packages/core/src/evidence.ts, policy.ts and apps/api/src/agent-keys: the theorems on sample events and keys.
use waysafe.Prelude.{◌≡◌, ◌↔◌, refl, true, false, none, some, List, [], ◌∷◌, txt}
use waysafe.Prelude.Int.{pos}
use waysafe.Json.{Fields, json_number, json_string, no_fields, field}
use waysafe.Evidence.{
  NewEvidenceEvent, verify_evidence_chain, intact, list_for_organization, EvidenceEvent,
}
use waysafe.Evidence.Chain.{IsChain, verify_evidence_chain_iff}
use waysafe.Evidence.Append.{
  append_all, public_key_of, key_directory_of, append_all-verify_evidence_chain,
}
use waysafe.AgentKeys.{verify_key, revoke_key, create_key, key_ok, key_failed, revoked}
use waysafe.AgentKeys.Credentials.{created_row, create_key-verify_key}
use waysafe.Tests.Services.{node, signer, signer_IsHonest}

abbrev new_events : List NewEvidenceEvent
new_events =
    record {
      organization_id = txt "o1";
      type = txt "test.event";
      subject_type = txt "test";
      subject_id = txt "a";
      payload = field (txt "i") (json_number (pos 0)) no_fields;
      now = 5;
    }
    ∷ record {
      organization_id = txt "o2";
      type = txt "test.event";
      subject_type = txt "test";
      subject_id = txt "b";
      payload = no_fields;
      now = 6;
    }
    ∷ []

append_all-verify_evidence_chain_example :
    let events = list_for_organization (append_all node signer [] new_events) (txt "o1") in
    (verify_evidence_chain node (public_key_of signer) none events ≡ intact true)
    × (verify_evidence_chain node (public_key_of signer) (some (key_directory_of signer)) events
        ≡ intact true)
append_all-verify_evidence_chain_example =
    append_all-verify_evidence_chain node signer signer_IsHonest refl new_events (txt "o1")

-- A genesis event whose stored hash is wrong.
abbrev forged : EvidenceEvent
forged = record {
  organization_id = txt "o1";
  sequence = 1;
  type = txt "test.event";
  subject_type = txt "test";
  subject_id = txt "a";
  payload = no_fields;
  previous_hash = none;
  hash = txt "00";
  signature = txt "00";
  key_id = none;
  created_at = 5;
}

verify_evidence_chain_iff_example :
    (verify_evidence_chain node none none (forged ∷ []) ≡ intact true)
    ↔ ((true ≡ false) × IsChain node none none 1 none (forged ∷ []))
verify_evidence_chain_iff_example = verify_evidence_chain_iff node none none true (forged ∷ [])

abbrev ab : Fields
ab = field (txt "a") (json_number (pos 1)) (field (txt "b") (json_string (txt "x")) no_fields)

abbrev ba : Fields
ba = field (txt "b") (json_string (txt "x")) (field (txt "a") (json_number (pos 1)) no_fields)

create_key-verify_key_example :
    let (created, full_key) =
      create_key node.sha256
        (record { by_id = []; by_prefix = [] })
        (txt "o1")
        (some (txt "g1"))
        (txt "key1")
        (txt "12345678")
        (txt "secret")
        1 in
    ((verify_key node.sha256 created full_key 2).1
      ≡ key_ok (
          created_row node.sha256
            (txt "o1")
            (some (txt "g1"))
            (txt "key1")
            (txt "12345678")
            (txt "secret")
            1))
    × ((verify_key node.sha256 (revoke_key created (txt "key1") (txt "o1") 2).0 full_key 2).1
        ≡ key_failed revoked)
    × (revoke_key created (txt "key1") (txt "o2") 2 ≡ (created, false))
create_key-verify_key_example =
    create_key-verify_key node.sha256 (record { by_id = []; by_prefix = [] }) (txt "o1")
      (some (txt "g1")) (txt "key1") (txt "12345678") (txt "ecret") b's' 1 2 (txt "o2") refl refl
