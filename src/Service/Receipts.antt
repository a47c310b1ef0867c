-- ===== src/Service/Receipts.antt =====
-- apps/api/src/authorization/service.ts with packages/core/src/evidence.ts: the events that `authorize` leaves.
use waysafe.Prelude.{
  ◌≡◌, refl, ap, ◌∙◌, inl, inr, false, Option, none, some, List, [], Text, txt, Option-cases,
}
use waysafe.Reason.{Decision, Reason}
use waysafe.Ledger.Maps.{Map}
use waysafe.Evidence.{
  EvidenceStore, EvidenceEvent, NewEvidenceEvent, append_event, new_event, last_event,
  list_for_organization,
}
use waysafe.Evidence.Append.{
  IsHonest, NamesSigner, EveryChain, append_event-EveryChain, last-append_event,
}
use waysafe.Ledger.{AuthorizationRow, MandateRow, Repository, Result}
use waysafe.Ledger.Gate.{MandateGateResult, open_for, closed, resolve_mandate_gate}
use waysafe.Ledger.Save.{SaveAuthorizationInput, stored_row, save, save_authorization}
use waysafe.Service.{
  Environment, AuthorizeRepos, AuthorizeParams, decided, AgentKeyCheck, credential_ok,
  credential_refused, with_event, after_save, record_decision, verify_agent_key, decision_payload,
}
use waysafe.Service.Authorize.{
  decision_input, refuse, decide, replay_now, under_lock, after_checks, gate_input, checked,
  authorize, shown, finish,
}
use waysafe.Service.Sound.{WithIndex, finished, thrown-ne-ok}
use waysafe.Service.Record.{authorize-Recorded}

-- A property of the events that an append keeps, `authorize` keeps.
module _ (env : Environment) (p : AuthorizeParams) (Q : EvidenceStore → Type 0)
    (step : (store : EvidenceStore) (i : NewEvidenceEvent)
      → Q store
      → Q (append_event env.node env.signer store i)) where
  record_decision-keeps :
      (repos : AuthorizeRepos) (i : SaveAuthorizationInput)
      → Q repos.evidence
      → Q (record_decision env repos i).0.evidence
  unfolding record_decision after_save with_event
  record_decision-keeps repos i h = go (save_authorization env.intl repos.authorization i)
    where
      go : (o : Repository × Result AuthorizationRow) → Q (after_save env repos i o).0.evidence
      go (s, Result.thrown e) = h
      go (s, Result.ok a) =
          step repos.evidence
            (record {
              organization_id = i.organization_id;
              type = txt "authorization.decided";
              subject_type = txt "authorization";
              subject_id = a.id;
              payload = decision_payload env.node i a;
              now = i.now;
            })
            h

  refuse-keeps :
      (repos : AuthorizeRepos) (m : MandateRow) (rs : List Reason)
      → Q repos.evidence
      → Q (refuse env p repos m rs).0.evidence
  unfolding refuse
  refuse-keeps repos m rs h =
      record_decision-keeps repos
        (decision_input env p m (record { decision = Decision.deny; reasons = rs }) none []) h

  under_lock-keeps :
      (repos : AuthorizeRepos) (m : MandateRow)
      → Q repos.evidence
      → Q (under_lock env p repos m).0.evidence
  unfolding under_lock decide
  under_lock-keeps repos m h = elim (Option-cases (replay_now env p repos)) [
    | inl q ↦ rw (q, under_lock) (record_decision-keeps repos _ h)
    | inr (r, q) ↦ rw (q, under_lock) h
  ]

  after_checks-keeps :
      (repos : AuthorizeRepos) (gate : MandateGateResult) (check : AgentKeyCheck)
      → Q repos.evidence
      → Q (after_checks env p repos gate check).0.evidence
  unfolding after_checks
  after_checks-keeps repos (closed none code) check h = h
  after_checks-keeps repos (closed (some m) code) check h =
      refuse-keeps repos m (shown env p check code) h
  after_checks-keeps repos (open_for m) (credential_refused rs) h = refuse-keeps repos m rs h
  after_checks-keeps repos (open_for m) credential_ok h = under_lock-keeps repos m h

  authorize-keeps :
      (repos : AuthorizeRepos) → Q repos.evidence → Q (authorize env p repos).0.evidence
  unfolding authorize verify_agent_key with_event
  authorize-keeps repos h = elim (Option-cases (replay_now env p repos)) [
    | inl q ↦
        rw (q, authorize)
          (after_checks-keeps (checked env p repos).0
            (resolve_mandate_gate (gate_input env p) repos.authorization) (checked env p repos).1
            (step repos.evidence _ h))
    | inr (r, q) ↦ rw (q, authorize) h
  ]

-- However `authorize` ends, what verifies before it verifies after it: every organization's events still
-- form one signed chain from their first event on, under the published public key and with any key
-- directory that names the signer for its own events.
pub authorize-EveryChain :
    (env : Environment) (p : AuthorizeParams) (directory : Option (Map Text))
    → (honest : IsHonest env.node env.signer) → (names : NamesSigner env.node env.signer directory)
    → (repos : AuthorizeRepos)
    → EveryChain env.node env.signer directory honest names repos.evidence
    → EveryChain env.node env.signer directory honest names (authorize env p repos).0.evidence
authorize-EveryChain env p directory honest names repos h =
    authorize-keeps env p (EveryChain env.node env.signer directory honest names)
      (append_event-EveryChain env.node env.signer directory honest names) repos h

-- The last event of the organization tells of the authorization with the very input that was saved: the
-- authorizations and the ledger after the call are those before it with this input saved.
abbrev pub HasReceipt :
    Environment → Text → AuthorizeRepos → AuthorizeRepos → AuthorizationRow → Type 0
HasReceipt env organization_id before after a =
    (i : SaveAuthorizationInput) × (a ≡ stored_row i)
    × ((index : Map Text) × (after.authorization
          ≡ save env.intl (WithIndex before.authorization index) i))
    × ((e : EvidenceEvent) × (last_event (list_for_organization after.evidence organization_id)
          ≡ some e)
        × (e.type ≡ txt "authorization.decided")
        × (e.subject_id ≡ a.id)
        × (e.payload ≡ decision_payload env.node i a))

module _ (env : Environment) (p : AuthorizeParams) where
  record_decision-event :
      (repos : AuthorizeRepos) (i : SaveAuthorizationInput) (a : AuthorizationRow)
      → (finish env p (record_decision env repos i)).1 ≡ Result.ok (decided a false)
      → (e : EvidenceEvent) × (last_event
            (list_for_organization (record_decision env repos i).0.evidence i.organization_id)
          ≡ some e)
        × (e.type ≡ txt "authorization.decided")
        × (e.subject_id ≡ a.id)
        × (e.payload ≡ decision_payload env.node i a)
  unfolding record_decision after_save with_event new_event
  record_decision-event repos i a h =
      go (save_authorization env.intl repos.authorization i) (finished env p repos i a h).1 h
    where
      go :
          (o : Repository × Result AuthorizationRow)
          → a ≡ stored_row i
          → (finish env p (after_save env repos i o)).1 ≡ Result.ok (decided a false)
          → (e : EvidenceEvent) × (last_event
                (list_for_organization (after_save env repos i o).0.evidence i.organization_id)
              ≡ some e)
            × (e.type ≡ txt "authorization.decided")
            × (e.subject_id ≡ a.id)
            × (e.payload ≡ decision_payload env.node i a)
      go (s, Result.thrown e) r k = absurd (thrown-ne-ok k)
      go (s, Result.ok b) r k =
          let same : b ≡ a = cc in
          let made =
            new_event env.node env.signer
              (last_event (list_for_organization repos.evidence i.organization_id))
              (record {
                organization_id = i.organization_id;
                type = txt "authorization.decided";
                subject_type = txt "authorization";
                subject_id = b.id;
                payload = decision_payload env.node i b;
                now = i.now;
              }) in
          (
            made,
            last-append_event env.node env.signer repos.evidence _,
            refl,
            ap (λ (x : AuthorizationRow). x.id) same,
            ap (decision_payload env.node i) same,
          )

  -- Every decision that `authorize` makes now, a DENY or not, has its receipt: the last event of the
  -- organization is an `authorization.decided` for the authorization, whose payload, the reservation
  -- included, is that of the input that was saved: the authorizations and the ledger after the call are those
  -- before it with exactly this input saved.
  pub authorize-HasReceipt :
      (repos : AuthorizeRepos) (a : AuthorizationRow)
      → (authorize env p repos).1 ≡ Result.ok (decided a false)
      → HasReceipt env p.organization_id repos (authorize env p repos).0 a
  unfolding decision_input
  authorize-HasReceipt repos a h =
      let r = authorize-Recorded env p repos a h in
      let i = decision_input env p r.mandate r.result r.deadline r.entries in
      let (index, row, stored) = finished env p r.before i a r.made in
      (
        i,
        row,
        (
          index,
          ap (λ (t : AuthorizeRepos). t.authorization) r.left
              ∙ stored
              ∙ ap (λ s. save env.intl (WithIndex s index) i) r.same_store,
        ),
        rw r.left (record_decision-event r.before i a r.made),
      )
