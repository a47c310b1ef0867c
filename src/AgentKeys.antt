-- ===== src/AgentKeys.antt =====
-- apps/api/src/agent-keys: the keys of agents and organizations (in-memory-repository.ts, keys.ts). The
-- display name of a key, which no operation reads, is left out.
use waysafe.Prelude.{
  ℕ, ◌+◌, ◌-◌, zero, suc, Bool, true, false, not, ◌&&◌, Option, none, some, List, [], ◌∷◌, ◌++◌,
  Text, txt, if◌then◌else◌, is_some, text_eq, leb, length, ◌==◌,
}
use waysafe.Merchant.Resolve.{truthy}
use waysafe.Ledger.Maps.{Map, get, set}
pub mod Credentials

-- `s.startsWith(t)`
abbrev pub starts_with : Text → Text → Bool
starts_with s [] = true
starts_with [] (t ∷ ts) = false
starts_with (c ∷ s) (t ∷ ts) = c == t && starts_with s ts

-- `s.slice(0, n)`
abbrev pub take : ℕ → Text → Text
take zero s = []
take (suc n) [] = []
take (suc n) (c ∷ s) = c ∷ take n s

abbrev pub api_key_marker : Text
api_key_marker = txt "wsf_live_"

abbrev pub prefix_length : ℕ
prefix_length = 17

unfoldable pub extract_key_prefix : Text → Option Text
extract_key_prefix candidate =
    if not (starts_with candidate api_key_marker)
    then none
    else if leb (length candidate) prefix_length
    then none
    else some (take prefix_length candidate)

pub record KeyRow : Type 0 where
  pub id : Text
  pub organization_id : Text
  pub agent_id : Option Text
  pub prefix : Text
  pub secret_hash : Text
  pub last_used_at : Option ℕ
  pub revoked_at : Option ℕ
  pub created_at : ℕ

-- The two maps share their rows: `by_prefix` gives the id under which `by_id` has the row.
pub record AgentKeys : Type 0 where
  pub by_id : Map KeyRow
  pub by_prefix : Map Text

pub data KeyFailure : Type 0 where
  not_found revoked : KeyFailure

-- `ok: true` with its key, or the reason.
pub data AgentKeyVerification : Type 0 where
  key_ok : KeyRow → AgentKeyVerification
  key_failed : KeyFailure → AgentKeyVerification

abbrev pub row_by_prefix : AgentKeys → Option Text → Option KeyRow
row_by_prefix keys none = none
row_by_prefix keys (some prefix) = elim (get prefix keys.by_prefix) [
  | none ↦ none
  | some id ↦ get id keys.by_id
]

-- `sha256` is `hashApiKey`'s digest.
module _ (sha256 : Text → Text) where
  -- A new key from what the generator gives: an id, eight hexadecimal digits and a secret.
  unfoldable pub create_key :
      AgentKeys
      → (organization_id : Text) → Option Text
      → (id prefix_hex secret_tail : Text) → ℕ
      → AgentKeys × Text
  create_key keys organization_id agent_id id prefix_hex secret_tail now =
      let prefix = api_key_marker ++ prefix_hex in
      let full_key = prefix ++ secret_tail in
      (
        record {
          by_id =
              set id
                (record {
                  id = id;
                  organization_id = organization_id;
                  agent_id = agent_id;
                  prefix = prefix;
                  secret_hash = sha256 full_key;
                  last_used_at = none;
                  revoked_at = none;
                  created_at = now;
                })
                keys.by_id;
          by_prefix = set prefix id keys.by_prefix;
        },
        full_key,
      )

  -- The row that `verifyKey` finds.
  unfoldable pub find_key : AgentKeys → Text → Option KeyRow
  unfolding extract_key_prefix
  find_key keys full_key = row_by_prefix keys (truthy (extract_key_prefix full_key))

  abbrev pub check_row : Text → Option KeyRow → AgentKeyVerification
  check_row full_key none = key_failed not_found
  check_row full_key (some row) =
      if not (text_eq row.secret_hash (sha256 full_key))
      then key_failed not_found
      else if is_some row.revoked_at
      then key_failed revoked
      else key_ok row

  abbrev pub used : AgentKeys → ℕ → AgentKeyVerification → AgentKeys
  used keys now (key_failed reason) = keys
  used keys now (key_ok row) = record keys {
    by_id = set row.id (record row { last_used_at = some now }) keys.by_id;
  }

  unfoldable pub verify_key : AgentKeys → Text → ℕ → AgentKeys × AgentKeyVerification
  unfolding find_key
  verify_key keys full_key now =
      let verification = check_row full_key (find_key keys full_key) in
      (used keys now verification, verification)

-- The keys after the call, and whether a key was revoked.
unfoldable pub revoke_key : AgentKeys → (key_id organization_id : Text) → ℕ → AgentKeys × Bool
revoke_key keys key_id organization_id now = elim (get key_id keys.by_id) [
  | none ↦ (keys, false)
  | some row ↦
      if not (text_eq row.organization_id organization_id)
      then (keys, false)
      else if is_some row.revoked_at
      then (keys, false)
      else (
        record keys { by_id = set key_id (record row { revoked_at = some now }) keys.by_id },
        true,
      )
]
