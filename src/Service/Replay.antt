-- ===== src/Service/Replay.antt =====
-- apps/api/src/authorization/service.ts and idempotency.ts: a request that comes again with its key.
use waysafe.Prelude.{
  ◌≡◌, refl, ap, inl, inr, true, false, some, Text, if◌then◌else◌, text_eq, Bool-cases,
  Option-cases,
}
use waysafe.Time.{Formatter}
use waysafe.Merchant.Resolve.{truthy}
use waysafe.Ledger.{AuthorizationRow, Repository, Result}
use waysafe.Ledger.Maps.{get}
use waysafe.Ledger.Save.{
  SaveAuthorizationInput, is_valid_actor, has_conflict, index_key, stored_row, values,
  save_authorization, save_claimed, save_keyed, find_by_idempotency_key,
}
use waysafe.Ledger.Idempotency.{save_authorization-found}
use waysafe.Service.{
  Environment, AuthorizeRepos, AuthorizeParams, decided, idempotency_conflict, record_decision,
  after_save, with_event,
}
use waysafe.Service.Authorize.{decision_input, replay, answer, authorize, finish, request_hash}
use waysafe.Service.Sound.{finished, thrown-ne-ok}
use waysafe.Service.Record.{authorize-Recorded}

-- What was saved with a key is found under it.
saved-found :
    (intl : Formatter) (s : Repository) (i : SaveAuthorizationInput) (a : AuthorizationRow)
    (key : Text)
    → (save_authorization intl s i).1 ≡ Result.ok a
    → truthy i.idempotency_key ≡ some key
    → truthy (some i.id) ≡ some i.id
    → find_by_idempotency_key (save_authorization intl s i).0 i.organization_id key
      ≡ some (stored_row i)
unfolding save_authorization save_keyed save_claimed
saved-found intl s i a key h k full = elim (Bool-cases (is_valid_actor i)) [
  | inr v ↦ absurd (thrown-ne-ok (rw (v, save_authorization) at h))
  | inl v ↦
      elim (Option-cases (truthy (get (index_key i.organization_id key) s.idempotency_index))) [
        | inr (id, t) ↦ absurd (thrown-ne-ok (rw (v, k, t, save_authorization, save_keyed) at h))
        | inl t ↦
            elim (Bool-cases (has_conflict i (truthy i.external_ref) (values s.authorizations))) [
              | inl c ↦ absurd (
                  thrown-ne-ok (rw (v, k, t, c, save_authorization, save_keyed, save_claimed) at h))
              | inr c ↦ (save_authorization-found intl s i key v k t c full).1
            ]
      ]
]

recorded-found :
    (env : Environment) (p : AuthorizeParams) (repos : AuthorizeRepos) (i : SaveAuthorizationInput)
    (a : AuthorizationRow) (key : Text)
    → (finish env p (record_decision env repos i)).1 ≡ Result.ok (decided a false)
    → truthy i.idempotency_key ≡ some key
    → truthy (some i.id) ≡ some i.id
    → find_by_idempotency_key (record_decision env repos i).0.authorization i.organization_id key
      ≡ some (stored_row i)
unfolding record_decision after_save with_event
recorded-found env p repos i a key h k full =
    go (save_authorization env.intl repos.authorization i) refl h
  where
    go :
        (o : Repository × Result AuthorizationRow)
        → save_authorization env.intl repos.authorization i ≡ o
        → (finish env p (after_save env repos i o)).1 ≡ Result.ok (decided a false)
        → find_by_idempotency_key (after_save env repos i o).0.authorization i.organization_id key
          ≡ some (stored_row i)
    go (s, Result.thrown e) q r = absurd (thrown-ne-ok r)
    go (s, Result.ok b) q r =
        let f = saved-found env.intl repos.authorization i b key (ap (λ z. z.1) q) k full in
        rw q at f

answered :
    (env : Environment) (q : AuthorizeParams) (repos : AuthorizeRepos) (a : AuthorizationRow)
    (key hash : Text)
    → find_by_idempotency_key repos.authorization q.organization_id key ≡ some a
    → a.request_hash ≡ some hash
    → truthy q.request.idempotency_key ≡ some key
    → authorize env q repos ≡ (
      repos,
      Result.ok
          (if text_eq hash (request_hash env q) then decided a true else idempotency_conflict a),
    )
unfolding authorize replay answer
answered env q repos a key hash found same kq =
    elim (Bool-cases (text_eq hash (request_hash env q))) [
      | inl e ↦ rw (kq, found, same, e, authorize, replay) refl
      | inr e ↦ rw (kq, found, same, e, authorize, replay) refl
    ]

-- A decision is made once for a key. After `authorize` has decided a request with an idempotency key, and
-- the decision's id is not the empty text, any later call of the organization with the key, whenever it comes
-- and whatever API key it presents, changes nothing: it answers with the stored authorization where its
-- request has the same hash, and with a conflict that names it where the hash is another.
pub authorize_twice :
    (env : Environment) (p q : AuthorizeParams) (repos : AuthorizeRepos) (a : AuthorizationRow)
    (key : Text)
    → (authorize env p repos).1 ≡ Result.ok (decided a false)
    → truthy p.request.idempotency_key ≡ some key
    → truthy (some p.id) ≡ some p.id
    → q.organization_id ≡ p.organization_id
    → truthy q.request.idempotency_key ≡ some key
    → let after = (authorize env p repos).0 in
      authorize env q after ≡ (
        after,
        Result.ok (
            if text_eq (request_hash env p) (request_hash env q)
            then decided a true
            else idempotency_conflict a),
      )
unfolding decision_input
authorize_twice env p q repos a key h k full org kq =
    let r = authorize-Recorded env p repos a h in
    let i = decision_input env p r.mandate r.result r.deadline r.entries in
    let row = (finished env p r.before i a r.made).1 in
    let after = (authorize env p repos).0 in
    let stored = recorded-found env p r.before i a key r.made k full in
    let found : find_by_idempotency_key after.authorization q.organization_id key ≡ some a =
      rw (org, r.left, row) stored in
    let hash : a.request_hash ≡ some (request_hash env p) =
      ap (λ (x : AuthorizationRow). x.request_hash) row in
    answered env q after a key (request_hash env p) found hash kq
