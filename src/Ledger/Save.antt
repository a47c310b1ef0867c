-- ===== src/Ledger/Save.antt =====
-- apps/api/src/authorization: `saveAuthorization` with `assertValidActor` (actor.ts), and the lookups.
use waysafe.Prelude.{
  ℕ, Bool, true, false, not, ◌&&◌, ◌||◌, Option, none, some, List, [], ◌∷◌, ◌++◌, Text, txt,
  if◌then◌else◌, is_some, text_eq, any, ◌==◌,
}
use waysafe.Prelude.Int.{ℤ}
use waysafe.Reason.{Decision, Reason}
use waysafe.Policy.{ProposedAction}
use waysafe.Merchant.Types.{ResolvedMerchant}
use waysafe.Merchant.Resolve.{truthy}
use waysafe.Engine.Rollup.{LedgerEntryType}
use waysafe.Time.{Formatter}
use waysafe.Time.Keys.{WindowKeys, window_keys}
use waysafe.Ledger.{
  AuthorizationStatus, ActorKind, LedgerEntryRow, AuthorizationRow, Repository, RepositoryError,
  Result, entries_of, timezone_of,
}
use waysafe.Ledger.Maps.{Map, get, set}
use waysafe.Ledger.Operations.{push_entry, with_entries}

pub record NewLedgerEntry : Type 0 where
  pub type : LedgerEntryType
  pub amount : ℤ

pub record SaveAuthorizationInput : Type 0 where
  pub id : Text
  pub organization_id : Text
  pub actor_kind : ActorKind
  pub agent_id : Option Text
  pub instrument_id : Option Text
  pub principal_id : Text
  pub mandate_id : Text
  pub mandate_version_id : Text
  pub policy_hash : Text
  pub decision : Decision
  pub status : AuthorizationStatus
  pub reasons : List Reason
  pub action : ProposedAction
  pub merchant : ResolvedMerchant
  pub idempotency_key : Option Text
  pub request_hash : Option Text
  pub external_ref : Option Text
  pub external_revision : Option ℕ
  pub step_up_expires_at : Option ℕ
  pub now : ℕ
  pub ledger_entries : List NewLedgerEntry

abbrev pub is_agent_kind : ActorKind → Bool
is_agent_kind ActorKind.agent = true
is_agent_kind ActorKind.instrument = false

-- `assertValidActor` does not throw.
unfoldable pub is_valid_actor : SaveAuthorizationInput → Bool
is_valid_actor input =
    (is_agent_kind input.actor_kind
      && (is_some input.agent_id && not (is_some input.instrument_id)))
    || (not (is_agent_kind input.actor_kind)
        && (is_some input.instrument_id && not (is_some input.agent_id)))

-- `(a ?? null) === b` on optional revisions.
abbrev pub revision_eq : Option ℕ → Option ℕ → Bool
revision_eq none none = true
revision_eq (some a) (some b) = a == b
revision_eq _ _ = false

abbrev pub is_ref : Text → Option Text → Bool
is_ref ref none = false
is_ref ref (some r) = text_eq r ref

abbrev pub values : {A : Type 0} → Map A → List A
values [] = []
values ((k, a) ∷ m) = a ∷ values m

-- The test of the loop over the authorizations.
abbrev pub conflicts_with : Text → SaveAuthorizationInput → AuthorizationRow → Bool
conflicts_with ref input existing =
    is_ref ref existing.external_ref
    && (text_eq existing.mandate_id input.mandate_id
        && revision_eq existing.external_revision input.external_revision)

unfoldable pub has_conflict : SaveAuthorizationInput → Option Text → List AuthorizationRow → Bool
has_conflict input none rows = false
has_conflict input (some ref) rows = any (conflicts_with ref input) rows

-- `${organizationId}:${key}`
abbrev pub index_key : Text → Text → Text
index_key organization_id key = organization_id ++ (txt ":" ++ key)

-- The row that is stored.
abbrev pub stored_row : SaveAuthorizationInput → AuthorizationRow
stored_row i = record {
  id = i.id;
  organization_id = i.organization_id;
  actor_kind = i.actor_kind;
  agent_id = i.agent_id;
  instrument_id = i.instrument_id;
  principal_id = i.principal_id;
  mandate_id = i.mandate_id;
  mandate_version_id = i.mandate_version_id;
  policy_hash = i.policy_hash;
  decision = i.decision;
  status = i.status;
  reasons = i.reasons;
  action = i.action;
  merchant = i.merchant;
  idempotency_key = i.idempotency_key;
  request_hash = i.request_hash;
  external_ref = i.external_ref;
  external_revision = i.external_revision;
  step_up_expires_at = i.step_up_expires_at;
  created_at = i.now;
  decided_at = i.now;
}

-- The loop over `input.ledgerEntries`.
unfoldable pub push_entries :
    Text → Text → WindowKeys → ℕ → List NewLedgerEntry → List LedgerEntryRow → List LedgerEntryRow
push_entries mandate_id id keys now [] rows = rows
push_entries mandate_id id keys now (e ∷ es) rows =
    push_entries mandate_id id keys now es (push_entry mandate_id id e.type e.amount keys now rows)

module _ (intl : Formatter) where
  -- The part of `saveAuthorization` after its guards.
  unfoldable pub save : Repository → SaveAuthorizationInput → Repository
  unfolding push_entries
  save s input =
      let keys = window_keys intl input.now (timezone_of s input.mandate_id) in
      let rows =
        push_entries input.mandate_id input.id keys input.now input.ledger_entries
          (entries_of s input.mandate_id) in
      let stored = with_entries input.mandate_id rows s in
      record stored { authorizations = set input.id (stored_row input) stored.authorizations }

  -- From the check of the external reference on.
  unfoldable pub save_claimed :
      Repository → SaveAuthorizationInput → Repository × Result AuthorizationRow
  unfolding save has_conflict
  save_claimed s input =
      if has_conflict input (truthy input.external_ref) (values s.authorizations)
      then (s, Result.thrown RepositoryError.external_ref_conflict)
      else (save s input, Result.ok (stored_row input))

  -- The claim of the idempotency key.
  abbrev pub claim : Repository → SaveAuthorizationInput → Text → Repository
  claim s input key = record s {
    idempotency_index = set (index_key input.organization_id key) input.id s.idempotency_index;
  }

  unfoldable pub save_keyed :
      Repository → SaveAuthorizationInput → Option Text → Repository × Result AuthorizationRow
  unfolding save_claimed
  save_keyed s input none = save_claimed s input
  save_keyed s input (some key) =
      if is_some (truthy (get (index_key input.organization_id key) s.idempotency_index))
      then (s, Result.thrown RepositoryError.idempotency_key_claimed)
      else save_claimed (claim s input key) input

  -- A claim that was made stands when the external reference is refused after it.
  unfoldable pub save_authorization :
      Repository → SaveAuthorizationInput → Repository × Result AuthorizationRow
  unfolding save_keyed is_valid_actor
  save_authorization s input =
      if not (is_valid_actor input)
      then (s, Result.thrown RepositoryError.invalid_actor)
      else save_keyed s input (truthy input.idempotency_key)

abbrev pub find_stored : Repository → Option Text → Option AuthorizationRow
find_stored s none = none
find_stored s (some id) = get id s.authorizations

unfoldable pub find_by_idempotency_key : Repository → Text → Text → Option AuthorizationRow
find_by_idempotency_key s organization_id key =
    find_stored s (truthy (get (index_key organization_id key) s.idempotency_index))
