-- ===== src/Service/Limits.antt =====
-- apps/api/src/authorization/service.ts with packages/core/src/engine: what `authorize` commits a mandate to.
use waysafe.Prelude.{
  ◌≡◌, ◌≢◌, refl, ap, ◌∙◌, sym, inl, inr, true, false, none, some, [], ◌∷◌, Text, text_eq,
  Bool-cases, Option-cases, All,
}
use waysafe.Prelude.Int.{pos}
use waysafe.Reason.{Decision}
use waysafe.Merchant.Resolve.{truthy}
use waysafe.Ledger.{AuthorizationRow, MandateRow, Repository, Result, entries_of, zone_or_utc}
use waysafe.Ledger.Counts.{IsNewTo}
use waysafe.Ledger.Maps.{Map, get}
use waysafe.Ledger.Gate.{
  ResolveMandateInput, resolve_mandate_gate, open_for, find_active_mandate, serves,
}
use waysafe.Ledger.Access.{resolve_mandate_gate-open_iff}
use waysafe.Ledger.Snapshot.{get_spend_snapshot}
use waysafe.Ledger.Caps.{reserving, WithinLimits, save-WithinLimits}
use waysafe.Service.{Environment, AuthorizeRepos, AuthorizeParams, decided, should_reserve}
use waysafe.Service.Authorize.{authorize, engine_input, decision_input, reservation_for, gate_input}
use waysafe.Service.Sound.{WithIndex}
use waysafe.Service.Grant.{Granted, authorize-Granted, saved_input, verdict}

none-ne-some : {A : Type 0} → {a : A} → none ≢ some a
none-ne-some h = cc

some-inj : {A : Type 0} → {a b : A} → some a ≡ some b → a ≡ b
some-inj h = cc

-- Every mandate of the map is found under its own id.
abbrev pub IsKeyed : Map MandateRow → Type 0
IsKeyed ms = All (λ (q : Text × MandateRow). get q.1.id ms ≡ some q.1) ms

module _ (P : MandateRow → Type 0) where
  get-All :
      (ms : Map MandateRow) (k : Text) (m : MandateRow)
      → All (λ (q : Text × MandateRow). P q.1) ms
      → get k ms ≡ some m
      → P m
  unfolding get
  get-All [] k m h q = absurd (none-ne-some q)
  get-All ((key, x) ∷ ms) k m h q = elim (Bool-cases (text_eq key k)) [
    | inl e ↦ let same : x ≡ m = some-inj (rw (e, get) at q) in rw (← same) h.0
    | inr e ↦ get-All ms k m h.1 (rw (e, get) at q)
  ]

  find_active_mandate-All :
      (i : ResolveMandateInput) (ms : Map MandateRow) (m : MandateRow)
      → All (λ (q : Text × MandateRow). P q.1) ms
      → find_active_mandate i ms ≡ some m
      → P m
  unfolding find_active_mandate
  find_active_mandate-All i [] m h q = absurd (none-ne-some q)
  find_active_mandate-All i ((key, x) ∷ ms) m h q = elim (Bool-cases (serves i x)) [
    | inl e ↦ let same : x ≡ m = some-inj (rw (e, find_active_mandate) at q) in rw (← same) h.0
    | inr e ↦ find_active_mandate-All i ms m h.1 (rw (e, find_active_mandate) at q)
  ]

-- The mandate that the gate opens for is found under its own id.
gate-IsKeyed :
    (i : ResolveMandateInput) (s : Repository) (m : MandateRow)
    → IsKeyed s.mandates
    → resolve_mandate_gate i s ≡ open_for m
    → get m.id s.mandates ≡ some m
gate-IsKeyed i s m keyed opens =
    let P = λ (x : MandateRow). get x.id s.mandates ≡ some x in
    let named = ((resolve_mandate_gate-open_iff i s m).0 opens).0 in
    elim (Option-cases (truthy i.mandate_id)) [
      | inl q ↦ find_active_mandate-All P i s.mandates m keyed (rw q at named)
      | inr (id, q) ↦ get-All P s.mandates id m keyed (rw q at named)
    ]

module _ (env : Environment) (p : AuthorizeParams) (repos : AuthorizeRepos) (after : Repository)
    (a : AuthorizationRow) (g : Granted env p repos after a) where
  granted_decision : a.decision ≡ (verdict env p repos g.mandate).decision
  unfolding decision_input
  granted_decision = ap (λ (r : AuthorizationRow). r.decision) g.row

  granted_entries :
      should_reserve a.decision g.mandate.current_version.policy.accounting.reserve_on_step_up
        ≡ true
      → (saved_input env p g.mandate (verdict env p repos g.mandate)).ledger_entries
        ≡ reserving (pos p.request.action.amount)
  unfolding decision_input reservation_for
  granted_entries h = rw (rw granted_decision at h) refl

  granted-WithinLimits :
      get g.mandate.id repos.authorization.mandates ≡ some g.mandate
      → a.decision ≢ Decision.deny
      → should_reserve a.decision g.mandate.current_version.policy.accounting.reserve_on_step_up
        ≡ true
      → IsNewTo a.id (entries_of repos.authorization g.mandate.id)
      → WithinLimits
          (get_spend_snapshot env.intl after g.mandate.id
            g.mandate.current_version.policy.accounting p.now none)
          g.mandate.current_version.policy.cumulative_limits
  unfolding decision_input engine_input get_spend_snapshot
  granted-WithinLimits own ne h new =
      let s = WithIndex repos.authorization g.index in
      let i = saved_input env p g.mandate (verdict env p repos g.mandate) in
      rw g.stored (
        save-WithinLimits env.intl s i (engine_input env p repos g.mandate) (ap zone_or_utc own)
          refl (λ e. ne (granted_decision ∙ e)) (granted_entries h)
          (rw (ap (λ (r : AuthorizationRow). r.id) g.row) at new))

-- Where a decision reserves, what `authorize` stores keeps every window with a cumulative limit of the
-- mandate within it, in its amount and, where the limit has a maximum count, in its count: this is so for every
-- ALLOW, and for a STEP_UP under a mandate that reserves on step-up. The mandates of the store stand under their
-- own ids, and the id of the authorization is new to the mandate's ledger.
pub authorize-WithinLimits :
    (env : Environment) (p : AuthorizeParams) (repos : AuthorizeRepos) (a : AuthorizationRow)
    (m : MandateRow)
    → IsKeyed repos.authorization.mandates
    → (authorize env p repos).1 ≡ Result.ok (decided a false)
    → get a.mandate_id repos.authorization.mandates ≡ some m
    → should_reserve a.decision m.current_version.policy.accounting.reserve_on_step_up ≡ true
    → IsNewTo a.id (entries_of repos.authorization a.mandate_id)
    → WithinLimits
        (get_spend_snapshot env.intl
          (authorize env p repos).0.authorization
          a.mandate_id
          m.current_version.policy.accounting
          p.now
          none)
        m.current_version.policy.cumulative_limits
unfolding engine_input decision_input reservation_for get_spend_snapshot should_reserve
authorize-WithinLimits env p repos a m keyed h found reserve new =
    let ne : a.decision ≢ Decision.deny = λ e. cc in
    let g = authorize-Granted env p repos a h ne in
    let own = gate-IsKeyed (gate_input env p) repos.authorization g.mandate keyed g.gate in
    let id : a.mandate_id ≡ g.mandate.id = ap (λ (r : AuthorizationRow). r.mandate_id) g.row in
    let same : g.mandate ≡ m =
      some-inj (sym own ∙ ap (λ k. get k repos.authorization.mandates) (sym id) ∙ found) in
    let b = rw (← same) at reserve in
    rw (id, ← same)
      (granted-WithinLimits env p repos (authorize env p repos).0.authorization a g own ne b
        (rw id at new))
