-- ===== src/Auth/Handler.antt =====
-- apps/api/internal/auth/handler.go: the HTTP handlers for keys and tenants. A decoded body is
-- `none` where `encoding/json` refuses it; the logger's lines are left out.
pub mod Access
pub mod Tests
use prompt_pack.Base.{
  ℕ, zero, suc, ◌+◌, ◌-◌, ◌*◌, ◌/◌, ◌%◌, ◌^◌, ◌≤◌, ◌<◌, String, ◌&◌, ◌≡◌, refl, sym, ap, subst, ◌∙◌,
  ◌≢◌, ◌↔◌, ◌⊎◌, inl, inr, Bool, true, false, not, ◌&&◌, ◌||◌, Option, none, some, List, [], ◌∷◌,
  ◌++◌, map, arith, ◌==◌, eq_iff,
}
use prompt_pack.Base.Tests.{
  if◌then◌else◌, ltb, leb, eqb, Bool-cases, Option-cases, if_true, if_false,
}
use prompt_pack.Base.Int.{ℤ}
use prompt_pack.Auth.Domain.{Time, Tenant, ApiKey, Actor, has_scope}
use prompt_pack.Auth.Scopes.{admin_read, admin_write, all_scopes}
use prompt_pack.Auth.Hash.{Crypto}
use prompt_pack.Auth.Store.{
  KeyStore, Fresh, ok, err, create_key, list_keys, revoke_key, rotate_key, create_tenant,
}
use prompt_pack.Auth.Middleware.{AuthError, auth_error}

pub record CreateApiKeyRequest : Type 0 where
  pub name : String
  pub scopes : List String
  pub expires_at : Option String

pub record ApiKeyInfo : Type 0 where
  pub id : String
  pub tenant_id : String
  pub name : String
  pub key_prefix : String
  pub scopes : List String
  pub rate_limit : ℤ
  pub expires_at : Option Time
  pub last_used_at : Option Time
  pub created_at : Time
  pub revoked_at : Option Time
  pub rotated : Bool

pub record CreateApiKeyResponse : Type 0 where
  pub key : ApiKeyInfo
  pub raw_key : String

pub record CreateTenantRequest : Type 0 where
  pub id : String
  pub name : String
  pub plan : String

pub record TenantInfo : Type 0 where
  pub id : String
  pub name : String
  pub plan : String
  pub status : String
  pub created_at : Time

pub data Body : Type 0 where
  refusal : AuthError → Body
  key_body : CreateApiKeyResponse → Body
  keys_body : List ApiKeyInfo → Body
  tenant_body : TenantInfo → CreateApiKeyResponse → Body
  no_body : Body

pub record Response : Type 0 where
  pub status : ℕ
  pub corr_id : String
  pub body : Body

unfoldable pub to_api_key_info : ApiKey → ApiKeyInfo
to_api_key_info k = record {
  id = k.id;
  tenant_id = k.tenant_id;
  name = k.name;
  key_prefix = k.key_prefix;
  scopes = k.scopes;
  rate_limit = k.rate_limit;
  expires_at = k.expires_at;
  last_used_at = k.last_used_at;
  created_at = k.created_at;
  revoked_at = k.revoked_at;
  rotated = k.rotated;
}

unfoldable pub write_json : ℕ → String → Body → Response
write_json status corr_id body = record { status = status; corr_id = corr_id; body = body }

-- As everywhere in this model, the `AuthError` carries the status of its response.
unfoldable pub write_json_error : ℕ → String → String → String → Response
unfolding write_json auth_error
write_json_error status code message corr_id =
    write_json status corr_id (refusal (auth_error status code message corr_id))

-- `HasScope(Scopes.AdminWrite)` or `HasScope("*")`
unfoldable pub may_write : Actor → Bool
may_write actor = has_scope actor admin_write || has_scope actor "*"

unfoldable pub may_read : Actor → Bool
may_read actor = has_scope actor admin_read || has_scope actor admin_write || has_scope actor "*"

-- The two checks at the head of a handler: an actor in the context, and its scope.
unfoldable pub guard : (Actor → Bool) → String → String → Option Actor → Response ⊎ Actor
unfolding write_json_error
guard may message corr_id none =
    inl (write_json_error 401 "AUTH_REQUIRED" "Authentication required" corr_id)
guard may message corr_id (some actor) =
    if may actor then inr actor else inl (write_json_error 403 "INSUFFICIENT_SCOPE" message corr_id)

-- The optional `expiresAt`: `none` where `time.Parse` fails.
unfoldable pub parse_expiry : (String → Option Time) → Option String → Option (Option Time)
parse_expiry parse none = some none
parse_expiry parse (some text) = elim (parse text) [ none ↦ none | some t ↦ some (some t) ]

unfoldable pub tenant_of : Time → CreateTenantRequest → Tenant
tenant_of now req = record {
  id = req.id;
  name = req.name;
  plan = if req.plan == "" then "free" else req.plan;
  status = "active";
  created_at = now;
}

unfoldable pub tenant_info : Tenant → TenantInfo
tenant_info t = record {
  id = t.id;
  name = t.name;
  plan = t.plan;
  status = t.status;
  created_at = t.created_at;
}

module _ (c : Crypto) where
  unfoldable pub create_for :
      KeyStore
      → Fresh
      → Time
      → String
      → Actor
      → CreateApiKeyRequest
      → Option Time
      → KeyStore × Response
  unfolding write_json write_json_error
  create_for s fresh now corr_id actor req expires_at =
      elim (create_key c s fresh now actor.tenant_id req.name req.scopes expires_at) [
        | err _ ↦ (s, write_json_error 500 "INTERNAL_ERROR" "Failed to create API key" corr_id)
        | ok (s', key, raw_key) ↦ (
          s',
          write_json 201 corr_id
              (key_body (record { key = to_api_key_info key; raw_key = raw_key })),
        )
      ]

  unfoldable pub create_checked :
      (String → Option Time)
      → KeyStore
      → Fresh
      → Time
      → String
      → Actor
      → Option CreateApiKeyRequest
      → KeyStore × Response
  unfolding write_json_error create_for
  create_checked parse s fresh now corr_id actor none =
      (s, write_json_error 400 "BAD_JSON" "Invalid JSON body" corr_id)
  create_checked parse s fresh now corr_id actor (some req) =
      if req.name == ""
      then (s, write_json_error 400 "VALIDATION_ERROR" "name is required" corr_id)
      else elim req.scopes [
        | [] ↦ (s, write_json_error 400 "VALIDATION_ERROR" "at least one scope is required" corr_id)
        | _ ∷ _ ↦ elim (parse_expiry parse req.expires_at) [
          | none ↦ (s, write_json_error 400 "VALIDATION_ERROR" "invalid expiresAt format" corr_id)
          | some expires_at ↦ create_for s fresh now corr_id actor req expires_at
        ]
      ]

  unfoldable pub create_api_key :
      (String → Option Time)
      → KeyStore
      → Fresh
      → Time
      → String
      → Option Actor
      → Option CreateApiKeyRequest
      → KeyStore × Response
  unfolding guard create_checked
  create_api_key parse s fresh now corr_id actor body =
      elim (guard may_write "admin:write scope required" corr_id actor) [
        | inl refused ↦ (s, refused)
        | inr a ↦ create_checked parse s fresh now corr_id a body
      ]

  unfoldable pub rotate_api_key :
      KeyStore → Fresh → Time → String → Option Actor → String → KeyStore × Response
  unfolding guard write_json write_json_error
  rotate_api_key s fresh now corr_id actor key_id =
      elim (guard may_write "admin:write scope required" corr_id actor) [
        | inl refused ↦ (s, refused)
        | inr a ↦ elim (rotate_key c s fresh now key_id) [
          | err _ ↦
              (s, write_json_error 404 "NOT_FOUND" "API key not found or cannot be rotated" corr_id)
          | ok (s', key, raw_key) ↦ (
            s',
            write_json 200 corr_id
                (key_body (record { key = to_api_key_info key; raw_key = raw_key })),
          )
        ]
      ]

  unfoldable pub create_tenant_for : KeyStore → Fresh → Time → String → Tenant → KeyStore × Response
  unfolding write_json write_json_error tenant_info
  create_tenant_for s fresh now corr_id tenant = elim (create_tenant s tenant) [
    | err _ ↦ (s, write_json_error 409 "CONFLICT" "Tenant already exists" corr_id)
    | ok s₁ ↦ elim (create_key c s₁ fresh now tenant.id "Initial Admin Key" all_scopes none) [
      | err _ ↦
          (s₁, write_json_error 500 "INTERNAL_ERROR" "Failed to create initial API key" corr_id)
      | ok (s₂, key, raw_key) ↦ (
        s₂,
        write_json 201 corr_id (
            tenant_body (tenant_info tenant)
              (record { key = to_api_key_info key; raw_key = raw_key })),
      )
    ]
  ]

  -- `CreateTenant`, which asks for no actor.
  unfoldable pub create_tenant_handler :
      KeyStore → Fresh → Time → String → Option CreateTenantRequest → KeyStore × Response
  unfolding create_tenant_for write_json_error tenant_of
  create_tenant_handler s fresh now corr_id none =
      (s, write_json_error 400 "BAD_JSON" "Invalid JSON body" corr_id)
  create_tenant_handler s fresh now corr_id (some req) =
      if req.id == ""
      then (s, write_json_error 400 "VALIDATION_ERROR" "id is required" corr_id)
      else if req.name == ""
      then (s, write_json_error 400 "VALIDATION_ERROR" "name is required" corr_id)
      else create_tenant_for s fresh now corr_id (tenant_of now req)

-- `order` is the iteration of the store's map.
unfoldable pub list_api_keys :
    KeyStore → List (String × ApiKey) → String → Option Actor → KeyStore × Response
unfolding guard write_json
list_api_keys s order corr_id actor =
    elim (guard may_read "admin:read scope required" corr_id actor) [
      | inl refused ↦ (s, refused)
      | inr a ↦ (
        s,
        write_json 200 corr_id (keys_body (map to_api_key_info (list_keys a.tenant_id order))),
      )
    ]

unfoldable pub revoke_api_key :
    KeyStore → Time → String → Option Actor → String → KeyStore × Response
unfolding guard write_json write_json_error
revoke_api_key s now corr_id actor key_id =
    elim (guard may_write "admin:write scope required" corr_id actor) [
      | inl refused ↦ (s, refused)
      | inr a ↦ elim (revoke_key s now key_id) [
        | err _ ↦ (s, write_json_error 404 "NOT_FOUND" "API key not found" corr_id)
        | ok s' ↦ (s', write_json 204 corr_id no_body)
      ]
    ]
