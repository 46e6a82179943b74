-- ===== src/Auth/Handler/Access.antt =====
-- Who may do what through the handlers of apps/api/internal/auth/handler.go.
use prompt_pack.Base.{
  String, ◌≡◌, refl, sym, ap, subst, ◌∙◌, ◌↔◌, ◌⊎◌, inl, inr, true, false, Option, none, some, List,
  [], ◌∷◌, map, arith, ◌==◌, eq_iff,
}
use prompt_pack.Base.Tests.{Bool-cases, Option-cases}
use prompt_pack.Base.Lists.{All}
use prompt_pack.Base.Dict.{find, put, find-put_self}
use prompt_pack.Auth.Domain.{Time, Tenant, ApiKey, Actor, Has, has_scope_iff}
use prompt_pack.Auth.Hash.{Crypto}
use prompt_pack.Auth.Store.{
  KeyStore, Fresh, Result, ok, err, list_keys, create_tenant, create_key, StoreError,
}
use prompt_pack.Auth.Scopes.{all_scopes}
use prompt_pack.Auth.Handler.{
  ApiKeyInfo, CreateApiKeyRequest, CreateTenantRequest, Response, keys_body, to_api_key_info,
  may_read, may_write, list_api_keys, revoke_api_key, rotate_api_key, create_api_key,
  create_tenant_handler, tenant_of, guard, write_json, write_json_error, create_tenant_for,
}

module _ (tenant_id : String) where
  list_keys-own :
      (order : List (String × ApiKey))
      → All (λ i. i.tenant_id ≡ tenant_id) (map to_api_key_info (list_keys tenant_id order))
  unfolding list_keys to_api_key_info
  list_keys-own [] = tt
  list_keys-own ((id, k) ∷ rest) = elim (Bool-cases (k.tenant_id == tenant_id)) [
    | inl own ↦ rw own ((eq_iff k.tenant_id tenant_id).0 own, list_keys-own rest)
    | inr foreign ↦ rw foreign (list_keys-own rest)
  ]

module _ (s : KeyStore) (order : List (String × ApiKey)) (corr_id : String)
    (infos : List ApiKeyInfo) where
  keys_listed :
      (a : Actor)
      → (list_api_keys s order corr_id (some a)).1.body ≡ keys_body infos
      → (may_read a ≡ true) × (map to_api_key_info (list_keys a.tenant_id order) ≡ infos)
  unfolding list_api_keys guard write_json write_json_error
  keys_listed a h = elim (Bool-cases (may_read a)) [
    | inr bad ↦ absurd (ground (arith, bad, h))
    | inl may ↦ (may, ground (arith, may, h))
  ]

  -- The listing of keys answers with keys only to an actor who may read, and then only with keys of
  -- the actor's own tenant.
  pub list_api_keys_own :
      (actor : Option Actor)
      → (list_api_keys s order corr_id actor).1.body ≡ keys_body infos
      → (a : Actor) × (actor ≡ some a)
        × (may_read a ≡ true)
        × All (λ i. i.tenant_id ≡ a.tenant_id) infos
  list_api_keys_own none h =
      absurd (
        unfold list_api_keys in
        unfold guard in unfold write_json_error in unfold write_json in cc h)
  list_api_keys_own (some a) h =
      let (may, same) = keys_listed a h in
      (
        a,
        refl,
        may,
        subst (All (λ i. i.tenant_id ≡ a.tenant_id)) same (list_keys-own a.tenant_id order),
      )

-- An actor may write exactly when its key lists `admin:write` or the wildcard.
may_write_iff : (a : Actor) → (may_write a ≡ true) ↔ (Has "admin:write" a.scopes ⊎ Has "*" a.scopes)
unfolding may_write
may_write_iff a =
    let (to, from) = has_scope_iff a "admin:write" in
    let (to', from') = has_scope_iff a "*" in
    (λ h. ground (arith, to, to', h), λ h. ground (arith, from, from', h))

-- A request with no actor, or by one whose key lists neither `admin:write` nor the wildcard.
abbrev pub Barred : Option Actor → Type 0
Barred none = Unit
Barred (some a) = ¬ (Has "admin:write" a.scopes ⊎ Has "*" a.scopes)

Barred-may_write : (a : Actor) → Barred (some a) → may_write a ≡ false
Barred-may_write a h = elim (Bool-cases (may_write a)) [
  | inl may ↦ absurd (h ((may_write_iff a).0 may))
  | inr may_not ↦ may_not
]

module _ (c : Crypto) (parse : String → Option Time) (s : KeyStore) (fresh : Fresh) (now : Time)
    (corr_id key_id : String) (body : Option CreateApiKeyRequest) where
  -- Without an actor whose key lists `admin:write` or the wildcard, creating, rotating and revoking
  -- keys leave the store as it is, whatever the request, and all answer 401, where there is no actor,
  -- or 403.
  pub Barred-unchanged :
      (actor : Option Actor)
      → Barred actor
      → ((create_api_key c parse s fresh now corr_id actor body).0 ≡ s)
        × ((rotate_api_key c s fresh now corr_id actor key_id).0 ≡ s)
        × ((revoke_api_key s now corr_id actor key_id).0 ≡ s)
        × ((create_api_key c parse s fresh now corr_id actor body).1.status
            ≡ (elim actor [ none ↦ 401 | some _ ↦ 403 ]))
        × ((rotate_api_key c s fresh now corr_id actor key_id).1.status
            ≡ (elim actor [ none ↦ 401 | some _ ↦ 403 ]))
        × ((revoke_api_key s now corr_id actor key_id).1.status
            ≡ (elim actor [ none ↦ 401 | some _ ↦ 403 ]))
  unfolding create_api_key rotate_api_key revoke_api_key guard write_json_error write_json
  Barred-unchanged none h = (refl, refl, refl, refl, refl, refl)
  Barred-unchanged (some a) h =
      let barred = Barred-may_write a h in
      (
        ground (arith, barred),
        ground (arith, barred),
        ground (arith, barred),
        ground (arith, barred),
        ground (arith, barred),
        ground (arith, barred),
      )

Created-cases :
    (r : Result (KeyStore × ApiKey × String))
    → ((e : StoreError) × (r ≡ err e)) ⊎ ((x : KeyStore × ApiKey × String) × (r ≡ ok x))
Created-cases (err e) = inl (e, refl)
Created-cases (ok x) = inr (x, refl)

module _ (c : Crypto) (s : KeyStore) (fresh : Fresh) (now : Time) (corr_id : String)
    (req : CreateTenantRequest) where
  abbrev with_tenant : KeyStore
  with_tenant = record s { tenants = put s.tenants req.id (tenant_of now req) }

  known_tenant :
      (t : Tenant)
      → (req.id == "") ≡ false
      → (req.name == "") ≡ false
      → find s.tenants req.id ≡ some t
      → (create_tenant_handler c s fresh now corr_id (some req)).1.status ≡ 409
  unfolding create_tenant_handler create_tenant_for create_tenant write_json_error write_json
      tenant_of
  known_tenant t id name there = ground (arith, id, name, there)

  -- What a status of 500 says of the request and of the store that is left.
  server_error :
      (s' : KeyStore) (reply : Response)
      → create_tenant_handler c s fresh now corr_id (some req) ≡ (s', reply)
      → reply.status ≡ 500
      → ((req.id == "") ≡ false) × ((req.name == "") ≡ false) × (with_tenant ≡ s')
  unfolding create_tenant_handler create_tenant_for create_tenant write_json_error write_json
      tenant_of
  server_error s' reply h status = elim (Bool-cases (req.id == "")) [
    | inl e ↦ absurd (ground (arith, e, h, status))
    | inr id ↦ elim (Bool-cases (req.name == "")) [
      | inl e ↦ absurd (ground (arith, id, e, h, status))
      | inr name ↦ elim (Option-cases (find s.tenants req.id)) [
        | inr (t, there) ↦ absurd (ground (arith, id, name, there, h, status))
        | inl missing ↦
            elim (Created-cases
              (create_key c with_tenant fresh now req.id "Initial Admin Key" all_scopes none)) [
                | inr (x, made) ↦ absurd (ground (arith, id, name, missing, made, h, status))
                | inl (e, bad) ↦ (id, name, ground (arith, id, name, missing, bad, h))
              ]
      ]
    ]
  ]

-- When the creation of a tenant ends with status 500, the tenant is stored all the same and no key
-- is; from then on every creation of a tenant with that request answers 409.
pub create_tenant_stuck :
    (c : Crypto) (s s' : KeyStore) (reply : Response) (fresh : Fresh) (now : Time)
    (corr_id : String) (req : CreateTenantRequest)
    → create_tenant_handler c s fresh now corr_id (some req) ≡ (s', reply)
    → reply.status ≡ 500
    → (find s'.tenants req.id ≡ some (tenant_of now req))
      × (s'.keys ≡ s.keys)
      × ((fresh' : Fresh) (now' : Time) (corr_id' : String)
          → (create_tenant_handler c s' fresh' now' corr_id' (some req)).1.status ≡ 409)
create_tenant_stuck c s s' reply fresh now corr_id req h status =
    let (id, name, left) = server_error c s fresh now corr_id req s' reply h status in
    let there : find s'.tenants req.id ≡ some (tenant_of now req) =
      ap (λ (x : KeyStore). find x.tenants req.id) (sym left)
      ∙ find-put_self s.tenants req.id (tenant_of now req) in
    (
      there,
      ap (λ (x : KeyStore). x.keys) (sym left),
      λ fresh' now' corr_id'.
          known_tenant c s' fresh' now' corr_id' req (tenant_of now req) id name there,
    )
