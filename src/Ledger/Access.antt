-- ===== src/Ledger/Access.antt =====
-- apps/api/src/authorization/in-memory-repository.ts: whom `resolveMandateGate` lets through.
use waysafe.Prelude.{
  ℕ, lt→ltb, ltb→lt, ◌≡◌, refl, ap, ◌↔◌, inl, inr, true, Option, none, some, text_eq, text_eq_iff,
  includes, Bool-cases, Option-cases, is_some,
}
use waysafe.Merchant.Resolve.{truthy}
use waysafe.Ledger.{AgentRow, MandateRow, Repository}
use waysafe.Ledger.Maps.{get}
use waysafe.Engine.Spec.{IsLive}
use waysafe.Ledger.Gate.{
  authorized_mandate_gate, gate_mandate_status, gate_mandate_expiry, lives_at, ResolveMandateInput,
  open_for, is_active, is_active_agent, named_or_active, gate_agent, gate_mandate,
  resolve_mandate_gate,
}

-- What lets an agent act under a mandate.
pub record MayAct (input : ResolveMandateInput) (s : Repository) (m : MandateRow) : Type 0 where
  pub organization : m.organization_id ≡ input.organization_id
  pub principal : m.principal_id ≡ input.principal_id
  pub status : is_active m.status ≡ true
  pub authenticated : is_some m.current_version.authenticated_at ≡ true
  pub bound : includes m.current_version.agent_ids input.agent_id ≡ true
  pub agent :
      (a : AgentRow) × (get input.agent_id s.agents ≡ some a)
      × (a.organization_id ≡ input.organization_id)
      × (is_active_agent a.status ≡ true)

gate_agent-open_iff :
    (input : ResolveMandateInput) (m m' : MandateRow) (a : AgentRow)
    → (gate_agent input m (some a) ≡ open_for m') ↔ (
        (m ≡ m')
        × (text_eq a.organization_id input.organization_id ≡ true)
        × (includes m.current_version.agent_ids input.agent_id ≡ true)
        × (is_active_agent a.status ≡ true))
unfolding gate_agent
gate_agent-open_iff input m m' a =
    elim (Bool-cases (text_eq a.organization_id input.organization_id)) [
      | inr e ↦ rw e ((λ h. cc), λ h. cc)
      | inl e ↦ elim (Bool-cases (includes m.current_version.agent_ids input.agent_id)) [
        | inr f ↦ rw (e, f) ((λ h. cc), λ h. cc)
        | inl f ↦ elim (Bool-cases (is_active_agent a.status)) [
          | inr g ↦ rw (e, f, g) ((λ h. cc), λ h. cc)
          | inl g ↦ rw (e, f, g) ((λ h. (cc, refl, refl, refl)), λ h. cc)
        ]
      ]
    ]

gate_rest :
    (input : ResolveMandateInput) (s : Repository) (m m' : MandateRow)
    → m.organization_id ≡ input.organization_id
    → m.principal_id ≡ input.principal_id
    → is_active m.status ≡ true
    → is_some m.current_version.authenticated_at ≡ true
    → (gate_agent input m (get input.agent_id s.agents) ≡ open_for m')
      ↔ ((m ≡ m') × MayAct input s m)
unfolding gate_agent
gate_rest input s m m' o p t k = elim (Option-cases (get input.agent_id s.agents)) [
  | inl q ↦ rw q ((λ h. cc), λ h. let (a, e, r, l) = h.1.agent in let bad = e in cc)
  | inr (a, q) ↦
      let g = gate_agent-open_iff input m m' a in
      let org = text_eq_iff a.organization_id input.organization_id in
      rw q (
        λ h.
            let (same, e, b, l) = g.0 h in
            (
              same,
              record {
                organization = o;
                principal = p;
                status = t;
                authenticated = k;
                bound = b;
                agent = (a, q, org.0 e, l);
              },
            ),
        λ h.
            let (a', e, r, l) = h.1.agent in
            let same : a' ≡ a = cc in g.1 (h.0, org.1 (rw same at r), h.1.bound, rw same at l),
      )
]

gate_mandate-open_iff :
    (input : ResolveMandateInput) (s : Repository) (m m' : MandateRow)
    → (gate_mandate input s m ≡ open_for m') ↔ ((m ≡ m') × MayAct input s m)
unfolding gate_mandate
gate_mandate-open_iff input s m m' =
    let org = text_eq_iff m.organization_id input.organization_id in
    let principal = text_eq_iff m.principal_id input.principal_id in
    elim (Bool-cases (text_eq m.organization_id input.organization_id)) [
      | inr e ↦ rw e ((λ h. cc), λ h. let t = org.1 h.1.organization in cc)
      | inl e ↦ elim (Bool-cases (text_eq m.principal_id input.principal_id)) [
        | inr f ↦ rw (e, f) ((λ h. cc), λ h. let t = principal.1 h.1.principal in cc)
        | inl f ↦ elim (Bool-cases (is_active m.status)) [
          | inr g ↦ rw (e, f, g) ((λ h. cc), λ h. let t = h.1.status in cc)
          | inl g ↦ elim (Bool-cases (is_some m.current_version.authenticated_at)) [
            | inr k ↦ rw (e, f, g, k) ((λ h. cc), λ h. let t = h.1.authenticated in cc)
            | inl k ↦ rw (e, f, g, k) (gate_rest input s m m' (org.0 e) (principal.0 f) g k)
          ]
        ]
      ]
    ]

-- `resolveMandateGate` lets an agent act under a mandate exactly when it is the named mandate, or the
-- first active one that serves the agent where none is named, it belongs to the organization and the
-- principal of the request, is active and authenticated, and the agent is known, in the organization,
-- active and bound to the mandate's current version.
pub resolve_mandate_gate-open_iff :
    (input : ResolveMandateInput) (s : Repository) (m : MandateRow)
    → (resolve_mandate_gate input s ≡ open_for m)
      ↔ ((named_or_active (truthy input.mandate_id) input s ≡ some m) × MayAct input s m)
unfolding resolve_mandate_gate
resolve_mandate_gate-open_iff input s m =
    elim (Option-cases (named_or_active (truthy input.mandate_id) input s)) [
      | inl q ↦ rw (q, resolve_mandate_gate) ((λ h. cc), λ h. cc)
      | inr (m', q) ↦
          let g = gate_mandate-open_iff input s m' m in
          rw (q, resolve_mandate_gate)
            (
              λ h. let (same, may) = g.0 h in (ap some same, rw same at may),
              λ h. let same : m' ≡ m = cc in g.1 (same, rw (← same) at h.1),
            )
    ]

lives_at_iff : (now : ℕ) (t : Option ℕ) → (lives_at now t ≡ true) ↔ IsLive now t
lives_at_iff now none = ((λ h. cc), λ h. absurd h)
lives_at_iff now (some t) = ((λ h. ltb→lt now t h), λ h. lt→ltb now t h)

-- `withAuthorizedMandate` has no reason to refuse exactly when there is a mandate, it is active, and the
-- instant lies before its policy's expiry: the expiry that `evaluate` asks for.
pub authorized_mandate_gate-none_iff :
    (o : Option MandateRow) (now : ℕ)
    → (authorized_mandate_gate o now ≡ none) ↔ (
        (m : MandateRow) × (o ≡ some m)
        × (is_active m.status ≡ true)
        × IsLive now m.current_version.policy.expires_at)
unfolding authorized_mandate_gate gate_mandate_status gate_mandate_expiry
authorized_mandate_gate-none_iff none now =
    ((λ h. cc), λ h. let (m, e, a, l) = h in let bad = e in cc)
authorized_mandate_gate-none_iff (some m) now =
    let t = m.current_version.policy.expires_at in
    let lives = lives_at_iff now t in
    elim (Bool-cases (is_active m.status)) [
      | inr e ↦ rw e (
        (λ h. cc),
        λ h. let (m', q, a, l) = h in let same : m' ≡ m = cc in let bad = rw same at a in cc,
      )
      | inl e ↦ elim (Bool-cases (lives_at now t)) [
        | inl f ↦ rw (e, f) ((λ h. (m, refl, e, lives.0 f)), λ h. refl)
        | inr f ↦
            rw (e, f)
              (
                (λ h. cc),
                λ h.
                    let (m', q, a, l) = h in
                    let same : m' ≡ m = cc in let good = lives.1 (rw same at l) in cc,
              )
      ]
    ]
