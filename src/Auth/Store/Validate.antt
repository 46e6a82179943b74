-- ===== src/Auth/Store/Validate.antt =====
-- `ValidateKey`: which keys it accepts, in whatever order the map is iterated.
use prompt_pack.Base.{
  ℕ, suc, String, ◌≡◌, sym, ap, subst, ◌∙◌, ◌≢◌, inl, inr, true, false, none, some, List, [], ◌∷◌,
  arith, ◌==◌, eq_iff,
}
use prompt_pack.Base.Tests.{if◌then◌else◌, Bool-cases, Option-cases}
use prompt_pack.Base.Lists.{get_elem?, All, All-get_elem?}
use prompt_pack.Base.Dict.{Dict, find, put, find-put}
use prompt_pack.Auth.Domain.{Time, Tenant, ApiKey}
use prompt_pack.Auth.Hash.{Crypto, verify_key}
use prompt_pack.Auth.Store.{
  KeyStore, ok, is_past, is_candidate, validate_loop, validate_key, revoke_key,
}

-- An iteration gives entries of the map.
abbrev pub Reads : List (String × ApiKey) → Dict ApiKey → Type 0
Reads order keys = All (λ e. find keys e.0 ≡ some e.1) order

-- The key is accepted at a time: it verifies, is not revoked and has not expired.
pub record Accepts (c : Crypto) (now : Time) (raw_key : String) (key : ApiKey) : Type 0 where
  pub verifies : verify_key c raw_key key.key_hash ≡ true
  pub unrevoked : key.revoked_at ≡ none
  pub unexpired : is_past now key.expires_at ≡ false

module _ (c : Crypto) where
  candidate-Accepts :
      (now : Time) (raw_key : String) (key : ApiKey)
      → is_candidate c now raw_key key ≡ true
      → Accepts c now raw_key key
  unfolding is_candidate
  candidate-Accepts now raw_key key h = record {
    verifies = ground arith;
    unrevoked = ground arith;
    unexpired = ground arith;
  }

  -- What the loop returns stands in the iteration.
  abbrev pub Found : Dict Tenant → Time → String → List (String × ApiKey) → Tenant → ApiKey → Type 0
  Found tenants now raw_key order tenant key =
      (i : ℕ) × (id : String) × (get_elem? order i ≡ some (id, key))
      × Accepts c now raw_key key
      × (find tenants key.tenant_id ≡ some tenant)

  validate_loop-Found :
      (tenants : Dict Tenant) (now : Time) (raw_key : String) (order : List (String × ApiKey))
      (tenant : Tenant) (key : ApiKey)
      → validate_loop c tenants now raw_key order ≡ ok (tenant, key)
      → Found tenants now raw_key order tenant key
  unfolding validate_loop
  validate_loop-Found tenants now raw_key [] tenant key h = absurd (cc h)
  validate_loop-Found tenants now raw_key ((id, k) ∷ rest) tenant key h =
      elim (Bool-cases (is_candidate c now raw_key k)) [
        | inr passed ↦
            let (i, id', at, a, t) =
              validate_loop-Found tenants now raw_key rest tenant key (ground (arith, passed, h)) in
            (suc i, id', at, a, t)
        | inl candidate ↦ elim (Option-cases (find tenants k.tenant_id)) [
          | inl missing ↦ absurd (ground (arith, candidate, missing, h))
          | inr (t, at) ↦
              let same : k ≡ key = ground (arith, candidate, at, h) in
              let same' : t ≡ tenant = ground (arith, candidate, at, h) in
              (
                0,
                id,
                ap (λ (x : ApiKey). some (id, x)) same,
                subst (Accepts c now raw_key) same (candidate-Accepts now raw_key k candidate),
                ap (λ (x : ApiKey). find tenants x.tenant_id) (sym same) ∙ at ∙ ap some same',
              )
        ]
      ]

  -- In whatever order the map is iterated, a key that `ValidateKey` returns verifies the raw key,
  -- is neither revoked nor expired, and comes with its own tenant.
  pub validate_key_sound :
      (s : KeyStore) (order : List (String × ApiKey)) (now : Time) (raw_key : String)
      (tenant : Tenant) (key : ApiKey)
      → validate_key c s order now raw_key ≡ ok (tenant, key)
      → Found s.tenants now raw_key order tenant key
  unfolding validate_key
  validate_key_sound s order now raw_key tenant key h =
      validate_loop-Found s.tenants now raw_key order tenant key h

  -- After a successful `RevokeKey` the revoked key is never accepted again, at any time, for any raw
  -- key and in any order of iteration: what is accepted is another key, as it stood before.
  pub revoke_then_validate :
      (s s' : KeyStore) (now later : Time) (id raw_key : String) (order : List (String × ApiKey))
      (tenant : Tenant) (key : ApiKey)
      → revoke_key s now id ≡ ok s'
      → Reads order s'.keys
      → validate_key c s' order later raw_key ≡ ok (tenant, key)
      → (other : String) × (other ≢ id) × (find s.keys other ≡ some key)
  unfolding revoke_key
  revoke_then_validate s s' now later id raw_key order tenant key revoked reads h =
      let (i, other, at, a, t) = validate_key_sound s' order later raw_key tenant key h in
      let stored : find s'.keys other ≡ some key =
        All-get_elem? (λ (e : String × ApiKey). find s'.keys e.0 ≡ some e.1) order i (other, key)
          reads at in
      elim (Option-cases (find s.keys id)) [
        | inl missing ↦ absurd (ground (arith, missing, revoked))
        | inr (k, there) ↦
            let dead = record k { revoked_at = some now } in
            let keys : s'.keys ≡ put s.keys id dead = ground (arith, there, revoked) in
            let found : (if id == other then some dead else find s.keys other) ≡ some key =
              sym (find-put s.keys id other dead)
              ∙ ap (λ (m : Dict ApiKey). find m other) (sym keys)
              ∙ stored in
            elim (Bool-cases (id == other)) [
              | inl same ↦ absurd (ground (arith, same, found, a.unrevoked))
              | inr differs ↦ (
                other,
                λ e. ground (arith, eq_iff id other, differs, e),
                ground (arith, differs, found),
              )
            ]
      ]
