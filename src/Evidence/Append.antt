-- ===== src/Evidence/Append.antt =====
-- apps/api/src/evidence/in-memory-repository.ts: the chains that `appendEvent` makes, under the keys that
-- the repository publishes.
use waysafe.Prelude.{
  ℕ, ◌≡◌, refl, inl, inr, true, Option, none, some, List, [], ◌∷◌, ◌++◌, Text, text_eq, text_eq_iff,
  Bool-cases,
}
use waysafe.Merchant.Resolve.{truthy}
use waysafe.Ledger.Maps.{Map, get, get-set, get-set_other}
use waysafe.Evidence.{
  Platform, EvidenceEvent, EvidenceSigner, EvidenceStore, NewEvidenceEvent, intact, signing_key,
  expected_hash, verify_evidence_chain, verify_events, list_for_organization, last_event,
  next_sequence, tip_hash, new_event, append_event,
}
use waysafe.Evidence.Chain.{
  Follows, IsChain, no_events, event, ends-start, IsChain-snoc, verify_of_IsChain,
}

pub last_event-snoc :
    (es : List EvidenceEvent) (e : EvidenceEvent) → last_event (es ++ (e ∷ [])) ≡ some e
unfolding last_event
last_event-snoc [] e = refl
last_event-snoc (x ∷ []) e = refl
last_event-snoc (x ∷ (y ∷ es)) e = last_event-snoc (y ∷ es) e

-- What was appended is the last event of its organization.
pub last-append_event :
    (node : Platform) (signer : EvidenceSigner) (store : EvidenceStore) (i : NewEvidenceEvent)
    → last_event (list_for_organization (append_event node signer store i) i.organization_id)
      ≡ some (new_event node signer (last_event (list_for_organization store i.organization_id)) i)
unfolding append_event list_for_organization
last-append_event node signer store i =
    let es = list_for_organization store i.organization_id in
    let e = new_event node signer (last_event es) i in
    rw (get-set i.organization_id (es ++ (e ∷ [])) store) (last_event-snoc es e)

-- Appends, from a store on.
unfoldable pub append_all :
    Platform → EvidenceSigner → EvidenceStore → List NewEvidenceEvent → EvidenceStore
append_all node signer store [] = store
append_all node signer store (i ∷ is) = append_all node signer (append_event node signer store i) is

-- What the signer signs verifies under its public key.
abbrev pub IsHonest : Platform → EvidenceSigner → Type 0
IsHonest node signer = (h : Text) → node.verify signer.public_key h (signer.sign h) ≡ true

-- `getPublicKey`, and `getKeyDirectory` as `loadEvidenceKeyDirectory` reads it.
abbrev pub public_key_of : EvidenceSigner → Option Text
public_key_of signer = some signer.public_key

abbrev pub key_directory_of : EvidenceSigner → Map Text
key_directory_of signer = (signer.key_id, signer.public_key) ∷ []

module _ (node : Platform) (signer : EvidenceSigner) (directory : Option (Map Text)) where
  -- The keys given name the signer's public key for the signer's events.
  abbrev pub NamesSigner : Type 0
  NamesSigner =
      (e : EvidenceEvent)
      → e.key_id ≡ some signer.key_id
      → signing_key node (public_key_of signer) directory e ≡ some signer.public_key

  module _ (honest : IsHonest node signer) (names : NamesSigner) where
    new_event-Follows :
        (previous : Option EvidenceEvent) (i : NewEvidenceEvent)
        → Follows node
            (public_key_of signer)
            directory
            (next_sequence previous)
            (tip_hash previous)
            (new_event node signer previous i)
    unfolding new_event expected_hash
    new_event-Follows previous i =
        let e = new_event node signer previous i in
        (refl, refl, refl, λ h. rw (names e refl) (honest e.hash))

    abbrev pub EveryChain : EvidenceStore → Type 0
    EveryChain store =
        (o : Text)
        → IsChain node (public_key_of signer) directory 1 none (list_for_organization store o)

    pub append_event-EveryChain :
        (store : EvidenceStore) (i : NewEvidenceEvent)
        → EveryChain store
        → EveryChain (append_event node signer store i)
    unfolding append_event list_for_organization
    append_event-EveryChain store i c o = elim (Bool-cases (text_eq i.organization_id o)) [
      | inl q ↦
          let same = (text_eq_iff i.organization_id o).0 q in
          let es = list_for_organization store i.organization_id in
          let e = new_event node signer (last_event es) i in
          let here = get-set i.organization_id (es ++ (e ∷ [])) store in
          let at_end = ends-start node (public_key_of signer) directory es (c i.organization_id) in
          rw (← same) (
            rw here (
              IsChain-snoc node (public_key_of signer) directory 1 none es e (c i.organization_id)
                (rw at_end (new_event-Follows (last_event es) i))))
      | inr q ↦
          let es = list_for_organization store i.organization_id in
          let e = new_event node signer (last_event es) i in
          rw (get-set_other o i.organization_id (es ++ (e ∷ [])) store q) (c o)
    ]

    append_all-EveryChain :
        (store : EvidenceStore) (is : List NewEvidenceEvent)
        → EveryChain store
        → EveryChain (append_all node signer store is)
    unfolding append_all
    append_all-EveryChain store [] c = c
    append_all-EveryChain store (i ∷ is) c =
        append_all-EveryChain (append_event node signer store i) is
          (append_event-EveryChain store i c)

    verify_from_start :
        (n : ℕ) (previous : Option Text) (e : EvidenceEvent) (es : List EvidenceEvent)
        → e.sequence ≡ n
        → e.previous_hash ≡ previous
        → IsChain node (public_key_of signer) directory n previous (e ∷ es)
        → verify_evidence_chain node (public_key_of signer) directory (e ∷ es) ≡ intact true
    unfolding verify_evidence_chain
    verify_from_start n previous e es a b c =
        let h = verify_of_IsChain node (public_key_of signer) directory n previous (e ∷ es) c in
        rw (← a, ← b) at h

    pub verify-EveryChain :
        (es : List EvidenceEvent)
        → IsChain node (public_key_of signer) directory 1 none es
        → verify_evidence_chain node (public_key_of signer) directory es ≡ intact true
    unfolding verify_evidence_chain verify_events
    verify-EveryChain [] c = refl
    verify-EveryChain (e ∷ es) (event f c) = verify_from_start 1 none e es f.0 f.1 (event f c)

    appended-verify :
        (is : List NewEvidenceEvent) (o : Text)
        → verify_evidence_chain node
            (public_key_of signer)
            directory
            (list_for_organization (append_all node signer [] is) o)
          ≡ intact true
    unfolding list_for_organization get
    appended-verify is o =
        verify-EveryChain (list_for_organization (append_all node signer [] is) o)
          (append_all-EveryChain [] is (λ p. no_events) o)

-- Whatever events are appended, for whatever organizations and in whatever order, from the empty store
-- on, the events of every organization verify as signed, both under the public key alone and with the key
-- directory that the repository publishes, where the signer's signatures are good under its public key and
-- its key id is not the empty text.
pub append_all-verify_evidence_chain :
    (node : Platform) (signer : EvidenceSigner)
    → IsHonest node signer
    → truthy (some signer.key_id) ≡ some signer.key_id
    → (is : List NewEvidenceEvent) (o : Text)
    → let events = list_for_organization (append_all node signer [] is) o in
      (verify_evidence_chain node (public_key_of signer) none events ≡ intact true)
      × (verify_evidence_chain node (public_key_of signer) (some (key_directory_of signer)) events
          ≡ intact true)
unfolding signing_key get
append_all-verify_evidence_chain node signer honest full is o =
    let directory = key_directory_of signer in
    let same = (text_eq_iff signer.key_id signer.key_id).1 refl in
    (
      appended-verify node signer none honest (λ e h. refl) is o,
      appended-verify node signer (some directory) honest (λ e h. rw (h, full, same) refl) is o,
    )
