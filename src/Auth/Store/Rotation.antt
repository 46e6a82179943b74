-- ===== src/Auth/Store/Rotation.antt =====
-- `CreateKey` and `RotateKey`: the keys that they hand out and store.
use mathlib.Core.Path.{subst₂}
use prompt_pack.Base.{
  String, ◌≡◌, refl, sym, ap, ◌∙◌, ◌≢◌, ◌⊎◌, inl, inr, true, not, ◌&&◌, Option, some, List, arith,
  eq_iff,
}
use prompt_pack.Base.Tests.{leb, Bool-cases, Option-cases}
use prompt_pack.Base.Dict.{find, put, find-put, find-put_self}
use prompt_pack.Base.Int.{add_duration}
use prompt_pack.Auth.Domain.{Time, ApiKey}
use prompt_pack.Auth.Argon2.{IsSized}
use prompt_pack.Auth.Hash.{
  Crypto, CryptoLaws, HashError, hash_key, verify_key, generate_api_key, verify-hash_key,
}
use prompt_pack.Auth.Store.{
  KeyStore, Fresh, ok, is_past, is_candidate, create_key, rotate_key, insert_key, created_key,
  rotated_key, retired_key, is_some,
}

Hash-cases :
    (r : HashError ⊎ String) → ((e : HashError) × (r ≡ inl e)) ⊎ ((h : String) × (r ≡ inr h))
Hash-cases (inl e) = inl (e, refl)
Hash-cases (inr h) = inr (h, refl)

module _ (c : Crypto) (laws : CryptoLaws c) (s s' : KeyStore) (sized : IsSized s.cfg)
    (fresh : Fresh) (now : Time) (key : ApiKey) (raw_key : String) where
  -- Where the libraries behave as `CryptoLaws` says and the configuration holds numbers of Go's types,
  -- the raw key that `CreateKey` returns is good for the key that it stores, from the start and
  -- until the key expires; that key has the tenant, name and scopes that were asked for.
  pub create_key_usable :
      (tenant_id name : String) (scopes : List String) (expires_at : Option Time)
      → create_key c s fresh now tenant_id name scopes expires_at ≡ ok (s', key, raw_key)
      → (find s'.keys fresh.id ≡ some key)
        × ((t : Time) → is_candidate c t raw_key key ≡ not (is_past t expires_at))
        × (key.tenant_id ≡ tenant_id)
        × (key.name ≡ name)
        × (key.scopes ≡ scopes)
  unfolding create_key insert_key created_key is_candidate
  create_key_usable tenant_id name scopes expires_at h =
      elim (Option-cases (find s.tenants tenant_id)) [
        | inl missing ↦ absurd (ground (arith, missing, h))
        | inr (t, there) ↦
            let raw = (generate_api_key c fresh.key_bytes).0 in
            elim (Hash-cases (hash_key c s.cfg fresh.salt raw)) [
              | inl (e, bad) ↦ absurd (ground (arith, there, bad, h))
              | inr (hash, good) ↦
                  let verified = verify-hash_key c laws s.cfg sized fresh.salt raw hash good in
                  let made =
                    created_key fresh now tenant_id name scopes expires_at
                      (generate_api_key c fresh.key_bytes).1 hash in
                  let e : ◌≡◌ {A = KeyStore × ApiKey × String} (insert_key s made, made, raw)
                      (s', key, raw_key) =
                    ground (arith, there, good, h) in
                  let k : made ≡ key = ap (λ (x : KeyStore × ApiKey × String). x.1) e in
                  let r : raw ≡ raw_key = ap (λ (x : KeyStore × ApiKey × String). x.2) e in
                  let st : insert_key s made ≡ s' =
                    ap (λ (x : KeyStore × ApiKey × String). x.0) e in
                  (
                    ap (λ (x : KeyStore). find x.keys fresh.id) (sym st)
                        ∙ find-put_self s.keys fresh.id made
                        ∙ ap some k,
                    λ t.
                        subst₂
                          (λ (x : String) (y : ApiKey).
                            is_candidate c t x y ≡ not (is_past t expires_at))
                          r k (ground (arith, verified)),
                    ap (λ (x : ApiKey). x.tenant_id) (sym k),
                    ap (λ (x : ApiKey). x.name) (sym k),
                    ap (λ (x : ApiKey). x.scopes) (sym k),
                  )
            ]
      ]

  -- When `RotateKey` succeeds for a stored key of another id than the new one's, the libraries
  -- behave as `CryptoLaws` says and the configuration holds numbers of Go's types, the new key never
  -- expires, is good for the raw key that is returned, and has the old key's tenant, scopes and rate limit. The old
  -- key is good for its own raw key until the rotation window has passed, and no longer. This is so
  -- whatever its expiry was before: also for a key that had expired.
  pub rotate_key_window :
      (old_id : String) (old : ApiKey)
      → fresh.id ≢ old_id
      → find s.keys old_id ≡ some old
      → rotate_key c s fresh now old_id ≡ ok (s', key, raw_key)
      → (find s'.keys fresh.id ≡ some key)
        × ((t : Time) → is_candidate c t raw_key key ≡ true)
        × (key.tenant_id ≡ old.tenant_id)
        × (key.scopes ≡ old.scopes)
        × (key.rate_limit ≡ old.rate_limit)
        × (find s'.keys old_id ≡ some (retired_key s.cfg now old))
        × ((t : Time) (raw : String)
            → is_candidate c t raw (retired_key s.cfg now old) ≡ (
                verify_key c raw old.key_hash
                && leb t (add_duration now s.cfg.key_rotation_window)))
  unfolding rotate_key insert_key rotated_key retired_key is_candidate
  rotate_key_window old_id old ne there h = elim (Bool-cases (is_some old.revoked_at)) [
    | inl dead ↦ absurd (ground (arith, there, dead, h))
    | inr live ↦
        let raw = (generate_api_key c fresh.key_bytes).0 in
        elim (Hash-cases (hash_key c s.cfg fresh.salt raw)) [
          | inl (e, bad) ↦ absurd (ground (arith, there, live, bad, h))
          | inr (hash, good) ↦
              let verified = verify-hash_key c laws s.cfg sized fresh.salt raw hash good in
              let made =
                rotated_key fresh now old_id old (generate_api_key c fresh.key_bytes).1 hash in
              let kept = record s { keys = put s.keys old_id (retired_key s.cfg now old) } in
              let e : ◌≡◌ {A = KeyStore × ApiKey × String} (insert_key kept made, made, raw)
                  (s', key, raw_key) =
                ground (arith, there, live, good, h) in
              let k : made ≡ key = ap (λ (x : KeyStore × ApiKey × String). x.1) e in
              let r : raw ≡ raw_key = ap (λ (x : KeyStore × ApiKey × String). x.2) e in
              let st : insert_key kept made ≡ s' = ap (λ (x : KeyStore × ApiKey × String). x.0) e in
              (
                ap (λ (x : KeyStore). find x.keys fresh.id) (sym st)
                    ∙ find-put_self kept.keys fresh.id made
                    ∙ ap some k,
                λ t.
                    subst₂ (λ (x : String) (y : ApiKey). is_candidate c t x y ≡ true) r k
                      (ground (arith, verified)),
                ap (λ (x : ApiKey). x.tenant_id) (sym k),
                ap (λ (x : ApiKey). x.scopes) (sym k),
                ap (λ (x : ApiKey). x.rate_limit) (sym k),
                ap (λ (x : KeyStore). find x.keys old_id) (sym st)
                    ∙ old_found made
                    ∙ find-put_self s.keys old_id (retired_key s.cfg now old),
                λ t x. ground (arith, live),
              )
        ]
  ]
    where
      old_found :
          (made : ApiKey)
          → find (put (put s.keys old_id (retired_key s.cfg now old)) fresh.id made) old_id
            ≡ find (put s.keys old_id (retired_key s.cfg now old)) old_id
      old_found made = ground (
        arith,
        find-put (put s.keys old_id (retired_key s.cfg now old)) fresh.id old_id made,
        eq_iff fresh.id old_id,
        λ (e : fresh.id ≡ old_id). ne e,
      )
