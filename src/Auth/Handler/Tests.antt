-- ===== src/Auth/Handler/Tests.antt =====
-- Runs of the handlers of keys and tenants.
use prompt_pack.Base.{String, ◌≡◌, refl, true, none, some, [], ◌∷◌, arith, eq_iff}
use prompt_pack.Base.Lists.{All}
use prompt_pack.Base.Dict.{find, put}
use prompt_pack.Auth.Domain.{Time, Actor, has_scope}
use prompt_pack.Auth.Hash.{hash_key, trim_prefix, generate_api_key, hash_bcrypt}
use prompt_pack.Auth.Store.{KeyStore, Fresh, create_tenant, create_key, list_keys}
use prompt_pack.Auth.Handler.{
  CreateTenantRequest, Response, to_api_key_info, may_read, list_api_keys, revoke_api_key,
  rotate_api_key, create_api_key, create_tenant_handler, tenant_of,
}
use prompt_pack.Auth.Handler.Access.{list_api_keys_own, Barred-unchanged, create_tenant_stuck}
use prompt_pack.Auth.Tests.{plain, broken, key₁, store, fresh, actor}

list_api_keys_own_example :
    (a : Actor) × (some actor ≡ some a)
    × (may_read a ≡ true)
    × All (λ i. i.tenant_id ≡ a.tenant_id) (to_api_key_info key₁ ∷ [])
unfolding list_api_keys may_read has_scope list_keys to_api_key_info
list_api_keys_own_example =
    list_api_keys_own store store.keys "c1" (to_api_key_info key₁ ∷ []) (some actor) refl

-- An actor that may only read audits.
abbrev auditor : Actor
auditor = record actor { scopes = "audit:read" ∷ [] }

Barred-unchanged_example :
    ((create_api_key plain (λ s. none) store fresh 6 "c1" (some auditor) none).0 ≡ store)
    × ((rotate_api_key plain store fresh 6 "c1" (some auditor) "key1").0 ≡ store)
    × ((revoke_api_key store 6 "c1" (some auditor) "key1").0 ≡ store)
    × ((create_api_key plain (λ s. none) store fresh 6 "c1" (some auditor) none).1.status ≡ 403)
    × ((rotate_api_key plain store fresh 6 "c1" (some auditor) "key1").1.status ≡ 403)
    × ((revoke_api_key store 6 "c1" (some auditor) "key1").1.status ≡ 403)
Barred-unchanged_example =
    Barred-unchanged plain (λ s. none) store fresh 6 "c1" "key1" none (some auditor)
      (λ h. ground (arith, h, eq_iff "audit:read" "admin:write", eq_iff "audit:read" "*"))

abbrev tenant_request : CreateTenantRequest
tenant_request = record { id = "new"; name = "New"; plan = "" }

abbrev stuck : KeyStore × Response
stuck = create_tenant_handler broken store fresh 6 "c1" (some tenant_request)

create_tenant_stuck_example :
    (find stuck.0.tenants "new" ≡ some (tenant_of 6 tenant_request))
    × (stuck.0.keys ≡ store.keys)
    × ((fresh' : Fresh) (now' : Time) (corr_id' : String)
        → (create_tenant_handler broken stuck.0 fresh' now' corr_id' (some tenant_request)).1.status
          ≡ 409)
unfolding create_tenant_handler create_key generate_api_key hash_key hash_bcrypt trim_prefix find
    put create_tenant
create_tenant_stuck_example =
    create_tenant_stuck broken store stuck.0 stuck.1 fresh 6 "c1" tenant_request refl refl
