-- ===== src/Ledger/Idempotency.antt =====
-- apps/api/src/authorization/in-memory-repository.ts: idempotency keys in `saveAuthorization`.
use waysafe.Prelude.{◌≡◌, refl, ap, ◌∙◌, true, false, none, some, Text, is_some}
use waysafe.Time.{Formatter}
use waysafe.Merchant.Resolve.{truthy}
use waysafe.Ledger.{Repository, RepositoryError, Result}
use waysafe.Ledger.Maps.{get, get-set}
use waysafe.Ledger.Save.{
  SaveAuthorizationInput, is_valid_actor, has_conflict, index_key, stored_row, values, save,
  save_claimed, claim, save_keyed, save_authorization, find_by_idempotency_key,
}

-- The key is not yet claimed in the organization.
abbrev pub IsFree : Repository → Text → Text → Type 0
IsFree s organization_id key =
    truthy (get (index_key organization_id key) s.idempotency_index) ≡ none

module _ (intl : Formatter) (s : Repository) (i : SaveAuthorizationInput) (key : Text) where
  keyed :
      is_valid_actor i ≡ true
      → truthy i.idempotency_key ≡ some key
      → IsFree s i.organization_id key
      → save_authorization intl s i ≡ save_claimed intl (claim intl s i key) i
  unfolding save_authorization save_keyed
  keyed v k f = rw (v, k, f) refl

  -- A key that is claimed is refused.
  keyed_taken :
      is_valid_actor i ≡ true
      → truthy i.idempotency_key ≡ some key
      → is_some (truthy (get (index_key i.organization_id key) s.idempotency_index)) ≡ true
      → save_authorization intl s i ≡ (s, Result.thrown RepositoryError.idempotency_key_claimed)
  unfolding save_authorization save_keyed
  keyed_taken v k f = rw (v, k, f) refl

saved_rows :
    (intl : Formatter) (s : Repository) (i : SaveAuthorizationInput)
    → get i.id (save intl s i).authorizations ≡ some (stored_row i)
unfolding save
saved_rows intl s i = get-set i.id (stored_row i) s.authorizations

saved_index :
    (intl : Formatter) (s : Repository) (i : SaveAuthorizationInput)
    → (save intl s i).idempotency_index ≡ s.idempotency_index
unfolding save
saved_index intl s i = refl

-- An authorization with a free idempotency key and an id that is not the empty text, by a valid actor and
-- without a conflict on its external reference, is stored; the key then finds it.
pub save_authorization-found :
    (intl : Formatter) (s : Repository) (i : SaveAuthorizationInput) (key : Text)
    → is_valid_actor i ≡ true
    → truthy i.idempotency_key ≡ some key
    → IsFree s i.organization_id key
    → has_conflict i (truthy i.external_ref) (values s.authorizations) ≡ false
    → truthy (some i.id) ≡ some i.id
    → ((save_authorization intl s i).1 ≡ Result.ok (stored_row i))
      × (find_by_idempotency_key (save_authorization intl s i).0 i.organization_id key
          ≡ some (stored_row i))
unfolding save_claimed find_by_idempotency_key
save_authorization-found intl s i key v k f c full =
    let t = claim intl s i key in
    let index = get-set (index_key i.organization_id key) i.id s.idempotency_index in
    rw (keyed intl s i key v k f)
      (rw c (refl, rw (saved_index intl t i, index, full) (saved_rows intl t i)))

-- An authorization whose external reference is already recorded for its mandate and revision is refused
-- and nothing is stored, but its idempotency key stays claimed: the key finds what the id finds in the
-- old store, and an authorization of the organization that comes with the key is refused by the store that is left.
pub save_authorization_conflict :
    (intl : Formatter) (s : Repository) (i j : SaveAuthorizationInput) (key : Text)
    → is_valid_actor i ≡ true
    → truthy i.idempotency_key ≡ some key
    → IsFree s i.organization_id key
    → has_conflict i (truthy i.external_ref) (values s.authorizations) ≡ true
    → truthy (some i.id) ≡ some i.id
    → is_valid_actor j ≡ true
    → truthy j.idempotency_key ≡ some key
    → j.organization_id ≡ i.organization_id
    → let s' = (save_authorization intl s i).0 in
      ((save_authorization intl s i).1 ≡ Result.thrown RepositoryError.external_ref_conflict)
      × (s'.authorizations ≡ s.authorizations)
      × (s'.ledger_by_mandate ≡ s.ledger_by_mandate)
      × (find_by_idempotency_key s' i.organization_id key ≡ get i.id s.authorizations)
      × ((save_authorization intl s' j).1 ≡ Result.thrown RepositoryError.idempotency_key_claimed)
unfolding save_claimed find_by_idempotency_key
save_authorization_conflict intl s i j key v k f c full vj kj org =
    let t = claim intl s i key in
    let index = get-set (index_key i.organization_id key) i.id s.idempotency_index in
    let done : save_authorization intl s i
        ≡ (t, Result.thrown RepositoryError.external_ref_conflict) =
      keyed intl s i key v k f ∙ rw c refl in
    let taken : is_some (truthy (get (index_key j.organization_id key) t.idempotency_index))
        ≡ true =
      rw org (rw (index, full) refl) in
    rw done (
      refl,
      refl,
      refl,
      rw (index, full) refl,
      ap (λ q. q.1) (keyed_taken intl t j key vj kj taken),
    )
