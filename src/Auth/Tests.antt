-- ===== src/Auth/Tests.antt =====
-- Runs of the key store, the middleware and the handlers, with hashes that are plain texts.
use prompt_pack.Auth.Middleware.{Later, raw_key_of}
use prompt_pack.Base.{
  ◌<◌, ℕ, String, ◌&◌, ◌≡◌, refl, subst, ◌≢◌, ◌⊎◌, inl, inr, true, false, not, ◌&&◌, none, some, [],
  ◌∷◌, arith, ◌==◌, eq_iff,
}
use prompt_pack.Base.Tests.{leb}
use mathlib.Core.Option.{some-injective}
use prompt_pack.Base.Dict.{find, put}
use prompt_pack.Base.Int.{pos}
use text.Mathlib.Text.{starts_with}
use text.Mathlib.TextPositions.{starts_with-append}
use prompt_pack.Auth.Domain.{Time, Tenant, ApiKey, Actor, Config, has_scope, Has}
use prompt_pack.Auth.Argon2.{IsSized, hash_argon2}
use prompt_pack.Auth.Argon2.Plain.{plain_argon2, plain_argon2-Argon2Laws}
use prompt_pack.Auth.Hash.{
  Crypto, CryptoLaws, verify_key, hash_key, verify-hash_key, trim_prefix, generate_api_key,
  hash_bcrypt,
}
use prompt_pack.Auth.Store.{
  KeyStore, Fresh, Result, ok, err, create_key, revoke_key, rotate_key, validate_key, is_candidate,
  is_past, retired_key, insert_key, created_key, rotated_key,
}
use prompt_pack.Auth.Store.Validate.{Found, validate_key_sound, revoke_then_validate}
use prompt_pack.Auth.Store.Rotation.{create_key_usable, rotate_key_window}
use prompt_pack.Auth.Middleware.Verdicts.{middleware_codes}
use prompt_pack.Auth.Context.{
  Context, protected, Accepted, protected_cases, tenant_from_context, actor_from_context,
  tenant_context_key, actor_context_key, tenant_value, actor_value,
}
use prompt_pack.Auth.Middleware.{Request, rejected, auth_error, AuthError, middleware, actor_of}

abbrev pub config : Config
config = record {
  api_key_hash_algorithm = "bcrypt";
  bcrypt_cost = pos 4;
  argon2_time = 1;
  argon2_memory = 65536;
  argon2_threads = 4;
  key_rotation_window = pos 100;
  key_cache_ttl = pos 300;
  rate_limit_per_minute = pos 10;
  enable_audit_log = true;
}

-- A "hash" that is the text behind the prefix of the format.
abbrev pub plain : Crypto
plain = record {
  raw_url_encode = λ bytes. "0123456789";
  bcrypt_generate = λ salt text cost. some ("$2" & text);
  bcrypt_compare = λ hash text. hash == ("$2" & text);
  argon2 = plain_argon2;
}

plain-CryptoLaws : CryptoLaws plain
plain-CryptoLaws = record {
  bcrypt_format = λ salt text cost hash e.
      subst (λ (h : String). starts_with h "$2" ≡ true) (some-injective ("$2" & text) hash e)
        (starts_with-append "$2" text);
  bcrypt_match = λ salt text cost hash e. ground (arith, eq_iff hash ("$2" & text), e);
  argon2_laws = plain_argon2-Argon2Laws;
}

config-IsSized : IsSized config
config-IsSized = record {
  memory_fits = omega arith;
  time_fits = omega arith;
  threads_fits = omega arith;
}

-- The configuration with argon2.
abbrev argon2_config : Config
argon2_config = record config { api_key_hash_algorithm = "argon2" }

argon2_config-IsSized : IsSized argon2_config
argon2_config-IsSized = record {
  memory_fits = omega arith;
  time_fits = omega arith;
  threads_fits = omega arith;
}

-- One that never makes a hash.
abbrev pub broken : Crypto
broken = record plain { bcrypt_generate = λ salt text cost. none }

abbrev pub acme : Tenant
acme = record { id = "acme"; name = "Acme"; plan = "free"; status = "active"; created_at = 1 }

abbrev pub key₁ : ApiKey
key₁ = record {
  id = "key1";
  tenant_id = "acme";
  name = "first";
  key_prefix = "01234567";
  key_hash = "$20123456789";
  scopes = "admin:write" ∷ [];
  rate_limit = pos 0;
  expires_at = none;
  last_used_at = none;
  created_at = 2;
  revoked_at = none;
  rotated = false;
  rotated_from = none;
}

abbrev pub key₂ : ApiKey
key₂ = record key₁ { id = "key2"; tenant_id = "other" }

-- A store with a key of each of two tenants.
abbrev pub store : KeyStore
store = record {
  cfg = config;
  keys = ("key1", key₁) ∷ ("key2", key₂) ∷ [];
  key_hash = ("$20123456789", "key1") ∷ [];
  tenants = ("acme", acme) ∷ ("other", record acme { id = "other" }) ∷ [];
}

abbrev pub fresh : Fresh
fresh = record { key_bytes = []; salt = []; id = "key3" }

abbrev pub actor : Actor
actor = record {
  tenant_id = "acme";
  key_id = "key1";
  key_name = "first";
  scopes = "admin:write" ∷ [];
  actor_type = "api_key";
}

abbrev pub good_request : Request
good_request = record {
  correlation_id = "c1";
  authorization = "Bearer ppk_0123456789";
  x_api_key = "";
  forwarded_for = "";
  real_ip = "";
  remote_addr = "";
  user_agent = "";
}

validate_test : validate_key plain store store.keys 5 "ppk_0123456789" ≡ ok (acme, key₁)
unfolding validate_key verify_key trim_prefix find
validate_test = refl

bare_key_test : verify_key plain "0123456789" "$20123456789" ≡ false
unfolding verify_key trim_prefix
bare_key_test = refl

verify-hash_key_example :
    verify_key plain "ppk_secret" (hash_argon2 plain_argon2 (1 ∷ 2 ∷ []) "secret" argon2_config)
    ≡ true
unfolding hash_key trim_prefix
verify-hash_key_example =
    verify-hash_key plain plain-CryptoLaws argon2_config argon2_config-IsSized (1 ∷ 2 ∷ [])
      "ppk_secret" (hash_argon2 plain_argon2 (1 ∷ 2 ∷ []) "secret" argon2_config) refl

validate_key_sound_example : Found plain store.tenants 5 "ppk_0123456789" store.keys acme key₁
validate_key_sound_example =
    validate_key_sound plain store store.keys 5 "ppk_0123456789" acme key₁ validate_test

-- The store without the other tenant's key.
abbrev pub revoked : KeyStore
revoked = record store {
  keys = ("key1", key₁) ∷ ("key2", record key₂ { revoked_at = some 4 }) ∷ [];
}

revoke_then_validate_example :
    (other : String) × (other ≢ "key2") × (find store.keys other ≡ some key₁)
unfolding revoke_key validate_key verify_key trim_prefix find put
revoke_then_validate_example =
    revoke_then_validate plain store revoked 4 9 "key2" "ppk_0123456789" revoked.keys acme key₁ refl
      (refl, (refl, tt)) refl

-- What a creation or a rotation that succeeded gives.
abbrev made : Result (KeyStore × ApiKey × String) → KeyStore × ApiKey × String
made (ok x) = x
made (err e) = (store, key₁, "")

abbrev created : KeyStore × ApiKey × String
created = made (create_key plain store fresh 6 "acme" "third" ("audit:read" ∷ []) (some 50))

create_key_usable_example :
    (find created.0.keys "key3" ≡ some created.1)
    × ((t : Time) → is_candidate plain t created.2 created.1 ≡ not (is_past t (some 50)))
    × (created.1.tenant_id ≡ "acme")
    × (created.1.name ≡ "third")
    × (created.1.scopes ≡ "audit:read" ∷ [])
unfolding create_key rotate_key generate_api_key hash_key hash_bcrypt insert_key created_key
    rotated_key retired_key trim_prefix find put
create_key_usable_example =
    create_key_usable plain plain-CryptoLaws store created.0 config-IsSized fresh 6 created.1
      created.2 "acme" "third" ("audit:read" ∷ []) (some 50) refl

abbrev rotated : KeyStore × ApiKey × String
rotated = made (rotate_key plain store fresh 6 "key1")

rotate_key_window_example :
    (find rotated.0.keys "key3" ≡ some rotated.1)
    × ((t : Time) → is_candidate plain t rotated.2 rotated.1 ≡ true)
    × (rotated.1.tenant_id ≡ "acme")
    × (rotated.1.scopes ≡ "admin:write" ∷ [])
    × (rotated.1.rate_limit ≡ pos 0)
    × (find rotated.0.keys "key1" ≡ some (retired_key config 6 key₁))
    × ((t : Time) (raw : String)
        → is_candidate plain t raw (retired_key config 6 key₁)
          ≡ (verify_key plain raw "$20123456789" && leb t 106))
unfolding create_key rotate_key generate_api_key hash_key hash_bcrypt insert_key created_key
    rotated_key retired_key trim_prefix find put
rotate_key_window_example =
    rotate_key_window plain plain-CryptoLaws store rotated.0 config-IsSized fresh 6 rotated.1
      rotated.2 "key1" key₁ (λ e. ground (arith, eq_iff "key3" "key1", e)) refl refl

-- What the middleware reads of a key that nobody changes.
abbrev pub quiet : ℕ → ApiKey → Later
quiet now key = record {
  at_expiry = now;
  at_window = now;
  expires_at = key.expires_at;
  rotated = key.rotated;
  revoked_at = key.revoked_at;
}

-- The request of a key that lists the scope of the handler, and of one that does not.
abbrev handler_context : Context
handler_context =
    (actor_context_key, actor_value actor) ∷ (tenant_context_key, tenant_value acme) ∷ []

protected_test :
    protected plain store store.keys config 5 (quiet 5) "c2" "admin:write" good_request []
    ≡ inr handler_context
unfolding protected middleware validate_key verify_key trim_prefix find has_scope
protected_test = refl

lacking_test :
    protected plain store store.keys config 5 (quiet 5) "c2" "invoices:read" good_request []
    ≡ inl (auth_error 403 "INSUFFICIENT_SCOPE" "Required scope: invoices:read" "c1")
unfolding protected middleware validate_key verify_key trim_prefix find has_scope
lacking_test = refl

protected_cases_example :
    ((e : AuthError) × (protected plain store store.keys config 5
          (quiet 5)
          "c2"
          "admin:write"
          good_request
          []
        ≡ inl e)
      × (((middleware plain store store.keys config 5 (quiet 5) "c2" good_request).0 ≡ rejected e)
          ⊎ ((tenant : Tenant) × (key : ApiKey) × Accepted plain store store.keys 5 good_request
                tenant key
              × (e.status ≡ 403)
              × (e.code ≡ "INSUFFICIENT_SCOPE")
              × ¬ (Has "admin:write" key.scopes ⊎ Has "*" key.scopes))))
    ⊎ ((ctx' : Context) × (protected plain store store.keys config 5
            (quiet 5)
            "c2"
            "admin:write"
            good_request
            []
          ≡ inr ctx')
        × ((tenant : Tenant) × (key : ApiKey) × Accepted plain store store.keys 5 good_request
              tenant key
            × (Has "admin:write" key.scopes ⊎ Has "*" key.scopes)
            × (tenant_from_context ctx' ≡ some tenant)
            × (actor_from_context ctx' ≡ some (actor_of tenant key))))
protected_cases_example =
    protected_cases plain store store.keys config 5 (quiet 5) "c2" "admin:write" good_request []

-- The key is given an expiry, which passes, between `ValidateKey` and the reading of the middleware.
abbrev expiring : ApiKey → Later
expiring key = record (quiet 9 key) { expires_at = some 6 }

abbrev expired : AuthError
expired = record {
  status = 401;
  code = "KEY_EXPIRED";
  message = "API key has expired";
  corr_id = "c1";
  retryable = false;
}

middleware_codes_example :
    (expired.code ≡ "AUTH_REQUIRED")
    ⊎ (expired.code ≡ "INVALID_KEY")
    ⊎ (expired.code ≡ "AUTH_FAILED")
    ⊎ (expired.code ≡ "TENANT_SUSPENDED")
    ⊎ ((tenant : Tenant) × (key : ApiKey) × Found plain store.tenants 5
          (raw_key_of good_request)
          store.keys
          tenant
          key
        × (((expired.code ≡ "KEY_EXPIRED")
              × (((expiring key).expires_at ≢ key.expires_at) ⊎ (5 < (expiring key).at_expiry)))
            ⊎ ((expired.code ≡ "KEY_REVOKED") × ((expiring key).revoked_at ≢ key.revoked_at))))
unfolding middleware validate_key verify_key trim_prefix find
middleware_codes_example =
    middleware_codes plain store store.keys config 5 expiring "c2" good_request expired refl
