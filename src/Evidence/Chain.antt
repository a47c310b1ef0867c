-- ===== src/Evidence/Chain.antt =====
-- packages/core/src/evidence.ts with apps/api/src/evidence/in-memory-repository.ts: chains that verify, and
-- the chains that `appendEvent` makes.
use waysafe.Prelude.{
  ℕ, suc, ◌≡◌, refl, ap, sym, ◌∙◌, ◌||◌, is_some, ◌↔◌, ◌≢◌, inl, inr, Bool, true, Option, none,
  some, List, [], ◌∷◌, ◌++◌, Text, text_eq_iff, arith, Option-cases,
}
use waysafe.Ledger.Maps.{Map}
use waysafe.Evidence.{
  Platform, EvidenceEvent, BreakReason, intact, broken, option_text_eq, checking_signatures,
  signing_key, verify_signature, expected_hash, event_break, verify_events, verify_evidence_chain,
  last_event, next_sequence, tip_hash,
}

option_text_eq_iff : (a b : Option Text) → (option_text_eq a b ≡ true) ↔ (a ≡ b)
option_text_eq_iff none none = ground arith
option_text_eq_iff none (some b) = ((λ h. cc), λ h. cc)
option_text_eq_iff (some a) none = ((λ h. cc), λ h. cc)
option_text_eq_iff (some a) (some b) = ground (arith, text_eq_iff a b)

broken-ne-intact : {b : Bool} {n : ℕ} {r : BreakReason} → broken n r ≢ intact b
broken-ne-intact h = cc

module _ (node : Platform) (public_key : Option Text) (key_directory : Option (Map Text)) where
  -- Where keys are given, the event's signature is good under the one that they name for it.
  abbrev pub IsVouchedFor : EvidenceEvent → Type 0
  IsVouchedFor e =
      checking_signatures node public_key key_directory ≡ true
      → verify_signature node public_key key_directory (signing_key node public_key key_directory e)
          e
        ≡ true

  -- The event stands at this place, after this hash, as it was hashed and signed.
  abbrev pub Follows : ℕ → Option Text → EvidenceEvent → Type 0
  Follows n previous e =
      (e.sequence ≡ n)
      × (e.previous_hash ≡ previous)
      × (expected_hash node public_key key_directory e ≡ e.hash)
      × IsVouchedFor e

  -- Events that follow one another without a gap.
  pub data IsChain : ℕ → Option Text → List EvidenceEvent → Type 0 where
    no_events : {n : ℕ} {previous : Option Text} → IsChain n previous []
    event :
        {n : ℕ} {previous : Option Text} {e : EvidenceEvent} {es : List EvidenceEvent}
        → Follows n previous e
        → IsChain (suc n) (some e.hash) es
        → IsChain n previous (e ∷ es)

  -- A round of the loop goes on exactly when the event follows.
  event_break_iff :
      (n : ℕ) (previous : Option Text) (e : EvidenceEvent)
      → (event_break node public_key key_directory n previous e ≡ none) ↔ Follows n previous e
  unfolding event_break
  event_break_iff n previous e =
      let p = option_text_eq_iff e.previous_hash previous in
      let q = text_eq_iff (expected_hash node public_key key_directory e) e.hash in
      (λ h. ground (arith, p, q), λ h. ground (arith, p, q))

  IsChain-of_verify :
      (signed : Bool) (n : ℕ) (previous : Option Text) (es : List EvidenceEvent)
      → verify_events node public_key key_directory n previous es ≡ intact signed
      → (signed ≡ checking_signatures node public_key key_directory) × IsChain n previous es
  unfolding verify_events
  IsChain-of_verify signed n previous [] h = (cc, no_events)
  IsChain-of_verify signed n previous (e ∷ es) h =
      elim (Option-cases (event_break node public_key key_directory n previous e)) [
        | inl q ↦
            let (b, c) =
              IsChain-of_verify signed (suc n) (some e.hash) es (rw (q, verify_events) at h) in
            (b, event ((event_break_iff n previous e).0 q) c)
        | inr (r, q) ↦ absurd (broken-ne-intact (rw (q, verify_events) at h))
      ]

  pub verify_of_IsChain :
      (n : ℕ) (previous : Option Text) (es : List EvidenceEvent)
      → IsChain n previous es
      → verify_events node public_key key_directory n previous es
        ≡ intact (checking_signatures node public_key key_directory)
  unfolding verify_events
  verify_of_IsChain n previous [] c = refl
  verify_of_IsChain n previous (e ∷ es) (event f c) =
      rw ((event_break_iff n previous e).1 f, verify_events)
        (verify_of_IsChain (suc n) (some e.hash) es c)

  abbrev pub start_sequence : List EvidenceEvent → ℕ
  start_sequence [] = 0
  start_sequence (e ∷ es) = e.sequence

  abbrev pub start_hash : List EvidenceEvent → Option Text
  start_hash [] = none
  start_hash (e ∷ es) = e.previous_hash

  -- `verifyEvidenceChain` accepts exactly the chains, from wherever the first event stands, and says of those
  -- that it accepts that they are signed exactly where it was given a public key or a directory of keys, where
  -- every event's signature is good under its key; a directory alone is enough.
  pub verify_evidence_chain_iff :
      (signed : Bool) (es : List EvidenceEvent)
      → (verify_evidence_chain node public_key key_directory es ≡ intact signed) ↔ (
          (signed ≡ is_some public_key || is_some key_directory)
          × IsChain (start_sequence es) (start_hash es) es)
  unfolding verify_evidence_chain checking_signatures
  verify_evidence_chain_iff signed [] = (
    IsChain-of_verify signed 0 none [],
    λ h. verify_of_IsChain 0 none [] h.1 ∙ ap intact (sym h.0),
  )
  verify_evidence_chain_iff signed (e ∷ es) = (
    IsChain-of_verify signed e.sequence e.previous_hash (e ∷ es),
    λ h. verify_of_IsChain e.sequence e.previous_hash (e ∷ es) h.1 ∙ ap intact (sym h.0),
  )

  -- The place and the hash after some events.
  abbrev pub ends : ℕ → Option Text → List EvidenceEvent → ℕ × Option Text
  ends n previous [] = (n, previous)
  ends n previous (e ∷ es) = ends (suc n) (some e.hash) es

  -- An event that follows the last one makes the chain longer.
  pub IsChain-snoc :
      (n : ℕ) (previous : Option Text) (es : List EvidenceEvent) (e : EvidenceEvent)
      → IsChain n previous es
      → Follows (ends n previous es).0 (ends n previous es).1 e
      → IsChain n previous (es ++ (e ∷ []))
  IsChain-snoc n previous [] e c f = event f no_events
  IsChain-snoc n previous (x ∷ es) e (event g c) f =
      event g (IsChain-snoc (suc n) (some x.hash) es e c f)

  ends-last :
      (n : ℕ) (previous : Option Text) (x : EvidenceEvent) (es : List EvidenceEvent)
      → IsChain n previous (x ∷ es)
      → ends n previous (x ∷ es)
        ≡ (next_sequence (last_event (x ∷ es)), tip_hash (last_event (x ∷ es)))
  unfolding last_event
  ends-last n previous x [] (event f c) = rw f.0 refl
  ends-last n previous x (y ∷ es) (event f c) = ends-last (suc n) (some x.hash) y es c

  pub ends-start :
      (es : List EvidenceEvent)
      → IsChain 1 none es
      → ends 1 none es ≡ (next_sequence (last_event es), tip_hash (last_event es))
  unfolding last_event
  ends-start [] c = refl
  ends-start (x ∷ es) c = ends-last 1 none x es c
