-- ===== src/Evidence.antt =====
-- packages/core/src/evidence.ts, and apps/api/src/evidence/in-memory-repository.ts: the chain of events
-- of an organization. Keys stand for their base64 texts; the random id of an event, which nothing reads,
-- is left out.
use waysafe.Prelude.{
  ℕ, suc, Bool, true, false, not, ◌&&◌, ◌||◌, Option, none, some, List, [], ◌∷◌, ◌++◌, Text, txt,
  if◌then◌else◌, is_some, text_eq, ◌==◌,
}
use waysafe.Prelude.Int.{pos}
use waysafe.Merchant.Resolve.{truthy}
use waysafe.Json.{
  Json, Fields, json_null, json_number, json_string, json_object, no_fields, field, canonical,
}
use waysafe.Wire.{text_or_null}
use waysafe.Ledger.Maps.{Map, get, set}
pub mod Chain
pub mod Append

-- What Node supplies: the digest in hex, `Date.prototype.toISOString`, and the check of a signature of a
-- hash under a public key.
pub record Platform : Type 0 where
  pub sha256 : Text → Text
  pub to_iso_string : ℕ → Text
  pub verify : (public_key hash signature : Text) → Bool

-- `EvidenceEventContent`
pub record EvidenceEventContent : Type 0 where
  pub organization_id : Text
  pub sequence : ℕ
  pub type : Text
  pub subject_type : Text
  pub subject_id : Text
  pub payload : Fields
  pub previous_hash : Option Text
  pub created_at : Text

pub record EvidenceEvent : Type 0 where
  pub organization_id : Text
  pub sequence : ℕ
  pub type : Text
  pub subject_type : Text
  pub subject_id : Text
  pub payload : Fields
  pub previous_hash : Option Text
  pub hash : Text
  pub signature : Text
  pub key_id : Option Text
  pub created_at : ℕ

-- The content as the object that is hashed.
unfoldable pub content_json : EvidenceEventContent → Json
content_json c = json_object (
    field (txt "organization_id") (json_string c.organization_id) (
      field (txt "sequence") (json_number (pos c.sequence)) (
        field (txt "type") (json_string c.type) (
          field (txt "subject_type") (json_string c.subject_type) (
            field (txt "subject_id") (json_string c.subject_id) (
              field (txt "payload") (json_object c.payload) (
                field (txt "previous_hash") (text_or_null c.previous_hash)
                  (field (txt "created_at") (json_string c.created_at) no_fields))))))))

unfoldable pub compute_event_hash : Platform → EvidenceEventContent → Text
unfolding content_json
compute_event_hash node c = node.sha256 (canonical (content_json c))

-- `===` on optional texts.
abbrev pub option_text_eq : Option Text → Option Text → Bool
option_text_eq none none = true
option_text_eq (some a) (some b) = text_eq a b
option_text_eq _ _ = false

pub data BreakReason : Type 0 where
  hash_mismatch previous_hash_mismatch sequence_gap signature_invalid : BreakReason

-- `ok` with whether signatures were checked, or the sequence number and the reason of the first failure.
pub data ChainVerificationResult : Type 0 where
  intact : (signed : Bool) → ChainVerificationResult
  broken : (at_sequence : ℕ) → BreakReason → ChainVerificationResult

module _ (node : Platform) (public_key : Option Text) (key_directory : Option (Map Text)) where
  unfoldable pub checking_signatures : Bool
  checking_signatures = is_some public_key || is_some key_directory

  abbrev pub key_by_id : Map Text → Option Text → Option Text
  key_by_id directory none = public_key
  key_by_id directory (some id) = get id directory

  unfoldable pub signing_key : EvidenceEvent → Option Text
  signing_key event = elim key_directory [
    | none ↦ public_key
    | some directory ↦ key_by_id directory (truthy event.key_id)
  ]

  abbrev pub verify_signature : Option Text → EvidenceEvent → Bool
  verify_signature none event = false
  verify_signature (some key) event = node.verify key event.hash event.signature

  -- What an event of the store hashes to.
  unfoldable pub expected_hash : EvidenceEvent → Text
  expected_hash e = compute_event_hash node (record {
    organization_id = e.organization_id;
    sequence = e.sequence;
    type = e.type;
    subject_type = e.subject_type;
    subject_id = e.subject_id;
    payload = e.payload;
    previous_hash = e.previous_hash;
    created_at = node.to_iso_string e.created_at;
  })

  -- One round of the loop: the reason that stops it.
  unfoldable pub event_break : ℕ → Option Text → EvidenceEvent → Option BreakReason
  unfolding checking_signatures signing_key expected_hash
  event_break expected_sequence previous_hash event =
      if not (event.sequence == expected_sequence)
      then some sequence_gap
      else if not (option_text_eq event.previous_hash previous_hash)
      then some previous_hash_mismatch
      else if not (text_eq (expected_hash event) event.hash)
      then some hash_mismatch
      else if checking_signatures && not (verify_signature (signing_key event) event)
      then some signature_invalid
      else none

  unfoldable pub verify_events : ℕ → Option Text → List EvidenceEvent → ChainVerificationResult
  unfolding event_break
  verify_events expected_sequence previous_hash [] = intact checking_signatures
  verify_events expected_sequence previous_hash (e ∷ es) =
      elim (event_break expected_sequence previous_hash e) [
        | none ↦ verify_events (suc expected_sequence) (some e.hash) es
        | some reason ↦ broken e.sequence reason
      ]

  unfoldable pub verify_evidence_chain : List EvidenceEvent → ChainVerificationResult
  unfolding verify_events
  verify_evidence_chain [] = verify_events 0 none []
  verify_evidence_chain (e ∷ es) = verify_events e.sequence e.previous_hash (e ∷ es)

pub record NewEvidenceEvent : Type 0 where
  pub organization_id : Text
  pub type : Text
  pub subject_type : Text
  pub subject_id : Text
  pub payload : Fields
  pub now : ℕ

-- `EvidenceSigner`: `sign` takes the hash and gives the base64 text of the signature.
pub record EvidenceSigner : Type 0 where
  pub key_id : Text
  pub public_key : Text
  pub sign : Text → Text

-- `eventsByOrg`
abbrev pub EvidenceStore : Type 0
EvidenceStore = Map (List EvidenceEvent)

abbrev or_no_events : Option (List EvidenceEvent) → List EvidenceEvent
or_no_events none = []
or_no_events (some es) = es

-- `listForOrganization`
unfoldable pub list_for_organization : EvidenceStore → Text → List EvidenceEvent
list_for_organization store organization_id = or_no_events (get organization_id store)

-- `events[events.length - 1]`
unfoldable pub last_event : List EvidenceEvent → Option EvidenceEvent
last_event [] = none
last_event (e ∷ []) = some e
last_event (e ∷ (f ∷ es)) = last_event (f ∷ es)

abbrev pub next_sequence : Option EvidenceEvent → ℕ
next_sequence none = 1
next_sequence (some e) = suc e.sequence

abbrev pub tip_hash : Option EvidenceEvent → Option Text
tip_hash none = none
tip_hash (some e) = some e.hash

module _ (node : Platform) (signer : EvidenceSigner) where
  unfoldable pub new_event : Option EvidenceEvent → NewEvidenceEvent → EvidenceEvent
  new_event previous input =
      let hash = compute_event_hash node (record {
        organization_id = input.organization_id;
        sequence = next_sequence previous;
        type = input.type;
        subject_type = input.subject_type;
        subject_id = input.subject_id;
        payload = input.payload;
        previous_hash = tip_hash previous;
        created_at = node.to_iso_string input.now;
      }) in
      record {
        organization_id = input.organization_id;
        sequence = next_sequence previous;
        type = input.type;
        subject_type = input.subject_type;
        subject_id = input.subject_id;
        payload = input.payload;
        previous_hash = tip_hash previous;
        hash = hash;
        signature = signer.sign hash;
        key_id = some signer.key_id;
        created_at = input.now;
      }

  unfoldable pub append_event : EvidenceStore → NewEvidenceEvent → EvidenceStore
  unfolding list_for_organization last_event new_event
  append_event store input =
      let events = list_for_organization store input.organization_id in
      set input.organization_id (events ++ (new_event (last_event events) input ∷ [])) store
