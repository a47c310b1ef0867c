-- ===== src/Service/Sound.antt =====
-- apps/api/src/authorization/service.ts: what stands behind a decision of `authorize` that is not a DENY.
use waysafe.Prelude.{
  ℕ, ◌≡◌, ◌≢◌, refl, ap, ◌∙◌, sym, inl, inr, true, false, Option, none, some, List, Text, is_some,
  text_eq, text_eq_iff, Bool-cases, Option-cases,
}
use waysafe.Reason.{Reason}
use waysafe.Merchant.Resolve.{truthy}
use waysafe.Time.{Formatter}
use waysafe.Evidence.{option_text_eq}
use waysafe.AgentKeys.{
  KeyRow, AgentKeys, AgentKeyVerification, key_ok, key_failed, find_key, verify_key, KeyFailure,
}
use waysafe.AgentKeys.Credentials.{verify_key-ok_iff}
use waysafe.Ledger.{AuthorizationRow, Repository, Result, RepositoryError}
use waysafe.Ledger.Maps.{Map, get}
use waysafe.Ledger.Save.{
  SaveAuthorizationInput, is_valid_actor, has_conflict, stored_row, values, save, save_claimed,
  save_keyed, save_authorization, claim, index_key,
}
use waysafe.Service.{
  Environment, AuthorizeRepos, AuthorizeParams, decided, credential_ok, credential_refused,
  key_outcome, key_check, verify_agent_key, after_save, record_decision, failure_outcome,
}
use waysafe.Service.Authorize.{finish}

-- What `saveAuthorization` leaves when it returns: the row that it was asked for, in a store that otherwise
-- differs at most in the index of idempotency keys.
abbrev pub WithIndex : Repository → Map Text → Repository
WithIndex s index = record s { idempotency_index = index }

pub thrown-ne-ok : {A : Type 0} → {e : RepositoryError} → {a : A} → Result.thrown e ≢ Result.ok a
thrown-ne-ok h = cc

ok-inj : {A : Type 0} → {a b : A} → Result.ok b ≡ Result.ok a → a ≡ b
ok-inj h = cc

save_claimed-ok :
    (intl : Formatter) (s : Repository) (i : SaveAuthorizationInput) (a : AuthorizationRow)
    → (save_claimed intl s i).1 ≡ Result.ok a
    → (a ≡ stored_row i) × ((save_claimed intl s i).0 ≡ save intl s i)
unfolding save_claimed
save_claimed-ok intl s i a h =
    elim (Bool-cases (has_conflict i (truthy i.external_ref) (values s.authorizations))) [
      | inl e ↦ absurd (thrown-ne-ok (rw (e, save_claimed) at h))
      | inr e ↦ rw (e, save_claimed) (ok-inj (rw (e, save_claimed) at h), refl)
    ]

pub save_authorization-ok :
    (intl : Formatter) (s : Repository) (i : SaveAuthorizationInput) (a : AuthorizationRow)
    → (save_authorization intl s i).1 ≡ Result.ok a
    → (index : Map Text) × (a ≡ stored_row i)
      × ((save_authorization intl s i).0 ≡ save intl (WithIndex s index) i)
unfolding save_authorization save_keyed
save_authorization-ok intl s i a h = elim (Bool-cases (is_valid_actor i)) [
  | inr v ↦ absurd (thrown-ne-ok (rw (v, save_authorization) at h))
  | inl v ↦ elim (Option-cases (truthy i.idempotency_key)) [
    | inl k ↦
        let (q, r) = save_claimed-ok intl s i a (rw (v, k, save_authorization, save_keyed) at h) in
        rw (v, k, save_authorization, save_keyed) (s.idempotency_index, q, r)
    | inr (key, k) ↦
        elim (Bool-cases
          (is_some (truthy (get (index_key i.organization_id key) s.idempotency_index)))) [
            | inl t ↦ absurd (thrown-ne-ok (rw (v, k, t, save_authorization, save_keyed) at h))
            | inr t ↦
                let c = claim intl s i key in
                let (q, r) =
                  save_claimed-ok intl c i a (rw (v, k, t, save_authorization, save_keyed) at h) in
                rw (v, k, t, save_authorization, save_keyed) (c.idempotency_index, q, r)
          ]
  ]
]

-- The agent key that lets a request speak for the agent.
pub record HoldsKey (sha256 : Text → Text) (keys : AgentKeys)
    (organization_id agent_id api_key : Text) : Type 0 where
  pub row : KeyRow
  pub found : find_key sha256 keys api_key ≡ some row
  pub digest : row.secret_hash ≡ sha256 api_key
  pub unrevoked : is_some row.revoked_at ≡ false
  pub organization : row.organization_id ≡ organization_id
  pub agent : row.agent_id ≡ some agent_id

refused-ne-ok : {rs : List Reason} → credential_refused rs ≢ credential_ok
refused-ne-ok h = cc

option_text_eq-some : (o : Option Text) (t : Text) → option_text_eq o (some t) ≡ true → o ≡ some t
option_text_eq-some none t h = cc
option_text_eq-some (some s) t h = ap some ((text_eq_iff s t).0 h)

failed_check : (f : KeyFailure) → key_check (failure_outcome f) ≢ credential_ok
failed_check KeyFailure.not_found h = refused-ne-ok h
failed_check KeyFailure.revoked h = refused-ne-ok h

module _ (sha256 : Text → Text) (keys : AgentKeys) (organization_id agent_id api_key : Text)
    (now : ℕ) where
  key_outcome-ok :
      (v : AgentKeyVerification)
      → (verify_key sha256 keys api_key now).1 ≡ v
      → key_check (key_outcome v organization_id agent_id) ≡ credential_ok
      → HoldsKey sha256 keys organization_id agent_id api_key
  unfolding key_outcome
  key_outcome-ok (key_failed f) q h = absurd (failed_check f h)
  key_outcome-ok (key_ok row) q h =
      let (found, digest, unrevoked) = (verify_key-ok_iff sha256 keys api_key now row).0 q in
      elim (Bool-cases (text_eq row.organization_id organization_id)) [
        | inr e ↦ absurd (refused-ne-ok (rw (e, key_outcome) at h))
        | inl e ↦ elim (Bool-cases (option_text_eq row.agent_id (some agent_id))) [
          | inr f ↦ absurd (refused-ne-ok (rw (e, f, key_outcome) at h))
          | inl f ↦ record {
            row = row;
            found = found;
            digest = digest;
            unrevoked = unrevoked;
            organization = (text_eq_iff row.organization_id organization_id).0 e;
            agent = option_text_eq-some row.agent_id agent_id f;
          }
        ]
      ]

pub verify_agent_key-HoldsKey :
    (env : Environment) (repos : AuthorizeRepos) (organization_id agent_id api_key : Text) (now : ℕ)
    → (verify_agent_key env repos organization_id agent_id api_key now).1 ≡ credential_ok
    → HoldsKey env.node.sha256 repos.agent_keys organization_id agent_id api_key
unfolding verify_agent_key
verify_agent_key-HoldsKey env repos organization_id agent_id api_key now h =
    key_outcome-ok env.node.sha256 repos.agent_keys organization_id agent_id api_key now
      (verify_key env.node.sha256 repos.agent_keys api_key now).1 refl h

-- A fresh decision comes from a row that was saved.
pub finished :
    (env : Environment) (p : AuthorizeParams) (repos : AuthorizeRepos) (i : SaveAuthorizationInput)
    (a : AuthorizationRow)
    → (finish env p (record_decision env repos i)).1 ≡ Result.ok (decided a false)
    → (index : Map Text) × (a ≡ stored_row i)
      × ((record_decision env repos i).0.authorization
          ≡ save env.intl (WithIndex repos.authorization index) i)
unfolding record_decision after_save
finished env p repos i a h = go (save_authorization env.intl repos.authorization i) refl h
  where
    go :
        (o : Repository × Result AuthorizationRow)
        → save_authorization env.intl repos.authorization i ≡ o
        → (finish env p (after_save env repos i o)).1 ≡ Result.ok (decided a false)
        → (index : Map Text) × (a ≡ stored_row i)
          × ((after_save env repos i
                (save_authorization env.intl repos.authorization i)).0.authorization
              ≡ save env.intl (WithIndex repos.authorization index) i)
    go (s, Result.thrown e) q k = absurd (thrown-ne-ok k)
    go (s, Result.ok b) q k =
        let same : a ≡ b = cc in
        let (index, r, t) =
          save_authorization-ok env.intl repos.authorization i b (ap (λ z. z.1) q) in
        (index, same ∙ r, rw q (sym (ap (λ z. z.0) q) ∙ t))
