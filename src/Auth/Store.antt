-- ===== src/Auth/Store.antt =====
-- apps/api/internal/auth/store.go: `InMemoryAPIKeyStore` and `InMemoryAuthAuditRecorder`. The
-- children prove what the operations do.
pub mod Validate
pub mod Rotation
use prompt_pack.Base.{
  ℕ, ◌+◌, String, ◌&◌, inl, inr, Bool, true, false, not, Option, none, some, List, [], ◌∷◌, ◌==◌,
}
use prompt_pack.Base.Tests.{if◌then◌else◌, ltb, is_some}
use prompt_pack.Base.Dict.{Dict, find, put}
use prompt_pack.Base.Int.{add_duration, pos}
use prompt_pack.Auth.Domain.{Time, Tenant, ApiKey, Config}
use prompt_pack.Auth.Hash.{Crypto, generate_api_key, hash_key, verify_key}

-- `keyHash` maps hashes to key ids.
pub record KeyStore : Type 0 where
  pub cfg : Config
  pub keys : Dict ApiKey
  pub key_hash : Dict String
  pub tenants : Dict Tenant

pub data StoreError : Type 0 where
  invalid_key invalid_api_key tenant_missing key_missing key_revoked tenant_exists hash_failed :
      StoreError

pub data Result {ℓ} (A : Type ℓ) : Type ℓ where
  ok : A → Result A
  err : StoreError → Result A

-- What the random source gives to one creation of a key: 32 bytes, a salt, and the key's id.
pub record Fresh : Type 0 where
  pub key_bytes : List ℕ
  pub salt : List ℕ
  pub id : String

unfoldable pub new_key_store : Config → KeyStore
new_key_store cfg = record { cfg = cfg; keys = []; key_hash = []; tenants = [] }

-- `t != nil && time.Now().After(*t)`
unfoldable pub is_past : Time → Option Time → Bool
is_past now none = false
is_past now (some t) = ltb t now

unfoldable pub insert_key : KeyStore → ApiKey → KeyStore
insert_key s key = record s {
  keys = put s.keys key.id key;
  key_hash = put s.key_hash key.key_hash key.id;
}

unfoldable pub created_key :
    Fresh → Time → String → String → List String → Option Time → String → String → ApiKey
created_key fresh now tenant_id name scopes expires_at prefix hash = record {
  id = fresh.id;
  tenant_id = tenant_id;
  name = name;
  key_prefix = prefix;
  key_hash = hash;
  scopes = scopes;
  rate_limit = pos 0;
  expires_at = expires_at;
  last_used_at = none;
  created_at = now;
  revoked_at = none;
  rotated = false;
  rotated_from = none;
}

unfoldable pub retired_key : Config → Time → ApiKey → ApiKey
retired_key cfg now old = record old {
  rotated = true;
  expires_at = some (add_duration now cfg.key_rotation_window);
}

unfoldable pub rotated_key : Fresh → Time → String → ApiKey → String → String → ApiKey
rotated_key fresh now old_id old prefix hash = record {
  id = fresh.id;
  tenant_id = old.tenant_id;
  name = old.name & " (rotated)";
  key_prefix = prefix;
  key_hash = hash;
  scopes = old.scopes;
  rate_limit = old.rate_limit;
  expires_at = none;
  last_used_at = none;
  created_at = now;
  revoked_at = none;
  rotated = false;
  rotated_from = some old_id;
}

module _ (c : Crypto) where
  -- What stops the loop of `ValidateKey` at a key: it verifies, and is neither revoked nor expired.
  unfoldable pub is_candidate : Time → String → ApiKey → Bool
  unfolding is_past
  is_candidate now raw_key key =
      if verify_key c raw_key key.key_hash
      then (if is_some key.revoked_at then false else not (is_past now key.expires_at))
      else false

  -- The loop of `ValidateKey`, over the entries in the order that the map is iterated in.
  unfoldable pub validate_loop :
      Dict Tenant → Time → String → List (String × ApiKey) → Result (Tenant × ApiKey)
  unfolding is_candidate
  validate_loop tenants now raw_key [] = err invalid_api_key
  validate_loop tenants now raw_key ((_, key) ∷ rest) =
      let further = validate_loop tenants now raw_key rest in
      if is_candidate now raw_key key
      then (elim (find tenants key.tenant_id) [
        | none ↦ err invalid_api_key
        | some tenant ↦ ok (tenant, key)
      ])
      else further

  unfoldable pub validate_key :
      KeyStore → List (String × ApiKey) → Time → String → Result (Tenant × ApiKey)
  unfolding validate_loop
  validate_key s order now raw_key = validate_loop s.tenants now raw_key order

  -- The new store, the new key and the raw key.
  unfoldable pub create_key :
      KeyStore
      → Fresh
      → Time
      → String
      → String
      → List String
      → Option Time
      → Result (KeyStore × ApiKey × String)
  unfolding insert_key created_key
  create_key s fresh now tenant_id name scopes expires_at = elim (find s.tenants tenant_id) [
    | none ↦ err tenant_missing
    | some _ ↦
        let (raw_key, prefix) = generate_api_key c fresh.key_bytes in
        elim (hash_key c s.cfg fresh.salt raw_key) [
          | inl _ ↦ err hash_failed
          | inr hash ↦
              let key = created_key fresh now tenant_id name scopes expires_at prefix hash in
              ok (insert_key s key, key, raw_key)
        ]
  ]

  unfoldable pub rotate_key : KeyStore → Fresh → Time → String → Result (KeyStore × ApiKey × String)
  unfolding insert_key retired_key rotated_key
  rotate_key s fresh now old_key_id = elim (find s.keys old_key_id) [
    | none ↦ err key_missing
    | some old ↦
        if is_some old.revoked_at
        then err key_revoked
        else let (raw_key, prefix) = generate_api_key c fresh.key_bytes in
          elim (hash_key c s.cfg fresh.salt raw_key) [
            | inl _ ↦ err hash_failed
            | inr hash ↦
                let key = rotated_key fresh now old_key_id old prefix hash in
                let s' = record s { keys = put s.keys old_key_id (retired_key s.cfg now old) } in
                ok (insert_key s' key, key, raw_key)
          ]
  ]

unfoldable pub revoke_key : KeyStore → Time → String → Result KeyStore
revoke_key s now key_id = elim (find s.keys key_id) [
  | none ↦ err key_missing
  | some key ↦ ok (record s { keys = put s.keys key_id (record key { revoked_at = some now }) })
]

-- `ListKeys`, over the entries in the order of the iteration: copies without the hash.
unfoldable pub list_keys : String → List (String × ApiKey) → List ApiKey
list_keys tenant_id [] = []
list_keys tenant_id ((_, key) ∷ rest) =
    let others = list_keys tenant_id rest in
    if key.tenant_id == tenant_id then record key { key_hash = "" } ∷ others else others

unfoldable pub update_last_used : KeyStore → Time → String → KeyStore
update_last_used s now key_id = elim (find s.keys key_id) [
  | none ↦ s
  | some key ↦ record s { keys = put s.keys key_id (record key { last_used_at = some now }) }
]

unfoldable pub create_tenant : KeyStore → Tenant → Result KeyStore
create_tenant s tenant = elim (find s.tenants tenant.id) [
  | some _ ↦ err tenant_exists
  | none ↦ ok (record s { tenants = put s.tenants tenant.id tenant })
]

unfoldable pub get_tenant : KeyStore → String → Result Tenant
get_tenant s tenant_id = elim (find s.tenants tenant_id) [
  | none ↦ err tenant_missing
  | some tenant ↦ ok tenant
]

unfoldable pub update_tenant_status : KeyStore → String → String → Result KeyStore
update_tenant_status s tenant_id status = elim (find s.tenants tenant_id) [
  | none ↦ err tenant_missing
  | some tenant ↦
      ok (record s { tenants = put s.tenants tenant_id (record tenant { status = status }) })
]
