-- ===== src/AgentKeys/Credentials.antt =====
-- apps/api/src/agent-keys: what a created key is good for, and until when.
use waysafe.Prelude.{
  ℕ, ◌≡◌, refl, ap, ◌↔◌, inl, inr, true, false, Option, none, some, [], ◌∷◌, ◌++◌, Text, is_some,
  text_eq, text_eq_iff, leb, length, arith, Bool-cases, Option-cases,
}
use waysafe.Ledger.Maps.{get, set, get-set}
use waysafe.AgentKeys.{
  KeyRow, AgentKeys, key_ok, key_failed, revoked, take, api_key_marker, prefix_length,
  extract_key_prefix, row_by_prefix, create_key, find_key, verify_key, revoke_key,
}

take_append : (p s : Text) → take (length p) (p ++ s) ≡ p
take_append [] s = refl
take_append (c ∷ p) s = ap (λ t. c ∷ t) (take_append p s)

length_longer : (p s : Text) (c : ℕ) → leb (length (p ++ (c ∷ s))) (length p) ≡ false
length_longer [] s c = ground arith
length_longer (x ∷ p) s c = let ih = length_longer p s c in ground arith

take_append_at : (n : ℕ) (p s : Text) → length p ≡ n → take n (p ++ s) ≡ p
take_append_at n p s h = rw (← h) (take_append p s)

length_longer_at :
    (n : ℕ) (p s : Text) (c : ℕ) → length p ≡ n → leb (length (p ++ (c ∷ s))) n ≡ false
length_longer_at n p s c h = rw (← h) (length_longer p s c)

-- A generated key has its own prefix.
extract-generated :
    (prefix_hex secret : Text) (c : ℕ)
    → length prefix_hex ≡ 8
    → extract_key_prefix ((api_key_marker ++ prefix_hex) ++ (c ∷ secret))
      ≡ some (api_key_marker ++ prefix_hex)
unfolding extract_key_prefix
extract-generated prefix_hex secret c h =
    let p = api_key_marker ++ prefix_hex in
    let n : length p ≡ prefix_length = rw h refl in
    rw (length_longer_at prefix_length p secret c n)
      (ap some (take_append_at prefix_length p (c ∷ secret) n))

module _ (sha256 : Text → Text) where
  -- `verifyKey` accepts a key exactly when it finds a row for its prefix, the row has the key's digest, and
  -- the row is not revoked.
  pub verify_key-ok_iff :
      (keys : AgentKeys) (full_key : Text) (now : ℕ) (row : KeyRow)
      → ((verify_key sha256 keys full_key now).1 ≡ key_ok row) ↔ (
          (find_key sha256 keys full_key ≡ some row)
          × (row.secret_hash ≡ sha256 full_key)
          × (is_some row.revoked_at ≡ false))
  unfolding verify_key
  verify_key-ok_iff keys full_key now row = elim (Option-cases (find_key sha256 keys full_key)) [
    | inl q ↦ rw q ((λ h. cc), λ h. cc)
    | inr (r, q) ↦
        let e = text_eq_iff r.secret_hash (sha256 full_key) in
        elim (Bool-cases (text_eq r.secret_hash (sha256 full_key))) [
          | inr f ↦
              rw (q, f) ((λ h. cc), λ h. let same : r ≡ row = cc in let t = e.1 (rw same h.1) in cc)
          | inl f ↦ elim (Bool-cases (is_some r.revoked_at)) [
            | inl g ↦
                rw (q, f, g)
                  ((λ h. cc), λ h. let same : r ≡ row = cc in let t = rw (← same) at h.2 in cc)
            | inr g ↦
                rw (q, f, g)
                  (
                    λ h.
                        let same : r ≡ row = cc in (ap some same, rw same at (e.0 f), rw same at g),
                    λ h. let same : r ≡ row = cc in ap key_ok same,
                  )
          ]
        ]
  ]

  -- A row that is revoked is refused as revoked, where its digest is right.
  verify_key-revoked :
      (keys : AgentKeys) (full_key : Text) (now : ℕ) (row : KeyRow)
      → find_key sha256 keys full_key ≡ some row
      → row.secret_hash ≡ sha256 full_key
      → is_some row.revoked_at ≡ true
      → verify_key sha256 keys full_key now ≡ (keys, key_failed revoked)
  unfolding verify_key
  verify_key-revoked keys full_key now row q d r =
      rw (q, (text_eq_iff row.secret_hash (sha256 full_key)).1 d, r) refl

  abbrev pub created_row :
      (organization_id : Text) → Option Text → (id prefix_hex : Text) → Text → ℕ → KeyRow
  created_row organization_id agent_id id prefix_hex secret now = record {
    id = id;
    organization_id = organization_id;
    agent_id = agent_id;
    prefix = api_key_marker ++ prefix_hex;
    secret_hash = sha256 ((api_key_marker ++ prefix_hex) ++ secret);
    last_used_at = none;
    revoked_at = none;
    created_at = now;
  }

  find_generated :
      (keys : AgentKeys) (id prefix_hex secret : Text) (c : ℕ) (row : KeyRow)
      → length prefix_hex ≡ 8
      → get (api_key_marker ++ prefix_hex) keys.by_prefix ≡ some id
      → get id keys.by_id ≡ some row
      → find_key sha256 keys ((api_key_marker ++ prefix_hex) ++ (c ∷ secret)) ≡ some row
  unfolding find_key
  find_generated keys id prefix_hex secret c row h p q =
      rw (extract-generated prefix_hex secret c h) (rw (p, row_by_prefix) q)

  -- A key that was created, of a prefix with eight digits and a secret that is not empty, is accepted with
  -- the organization and the agent that it was created for. Once its organization has revoked it, it is
  -- refused as revoked; another organization revokes nothing.
  pub create_key-verify_key :
      (keys : AgentKeys) (organization_id : Text) (agent_id : Option Text)
      (id prefix_hex secret : Text) (c now later : ℕ) (other : Text)
      → length prefix_hex ≡ 8
      → text_eq organization_id other ≡ false
      → let (created, full_key) =
          create_key sha256 keys organization_id agent_id id prefix_hex (c ∷ secret) now in
        ((verify_key sha256 created full_key later).1
          ≡ key_ok (created_row organization_id agent_id id prefix_hex (c ∷ secret) now))
        × ((verify_key sha256 (revoke_key created id organization_id later).0 full_key later).1
            ≡ key_failed revoked)
        × (revoke_key created id other later ≡ (created, false))
  unfolding create_key revoke_key
  create_key-verify_key keys organization_id agent_id id prefix_hex secret c now later other h ne =
      let row = created_row organization_id agent_id id prefix_hex (c ∷ secret) now in
      let prefix = api_key_marker ++ prefix_hex in
      let created =
        (create_key sha256 keys organization_id agent_id id prefix_hex (c ∷ secret) now).0 in
      let full_key = prefix ++ (c ∷ secret) in
      let stored = get-set id row keys.by_id in
      let indexed = get-set prefix id keys.by_prefix in
      let dead = record row { revoked_at = some later } in
      let own = (text_eq_iff organization_id organization_id).1 refl in
      let found = find_generated created id prefix_hex secret c row h indexed stored in
      let gone = record created { by_id = set id dead created.by_id } in
      let buried =
        find_generated gone id prefix_hex secret c dead h indexed (get-set id dead created.by_id) in
      (
        (verify_key-ok_iff created full_key later row).1 (found, refl, refl),
        rw (stored, own, revoke_key)
            (ap (λ p. p.1) (verify_key-revoked gone full_key later dead buried refl refl)),
        rw (stored, ne, revoke_key) refl,
      )
