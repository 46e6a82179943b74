-- ===== src/Auth/Middleware.antt =====
-- apps/api/internal/auth/middleware.go: the API key check in front of the handlers. Of an audit
-- entry its tenant, action and key are modelled; `UpdateLastUsed`, which the code starts in a
-- goroutine, is `update_last_used` of Auth/Store for the actor's key.
pub mod Verdicts
use prompt_pack.Auth.Store.{invalid_key}
use text.Mathlib.Text.{starts_with}
use prompt_pack.Base.{
  ℕ, ◌+◌, String, ◌&◌, ◌≡◌, refl, sym, ap, subst, ◌∙◌, ◌⊎◌, inl, inr, Bool, true, false, not, ◌&&◌,
  Option, none, some, List, arith, ◌==◌, eq_iff,
}
use prompt_pack.Base.Tests.{if◌then◌else◌, ltb, Bool-cases, is_some}
use prompt_pack.Base.Int.{pos_part, neg_part}
use prompt_pack.Auth.Domain.{Time, Tenant, ApiKey, Actor, Config, has_scope}
use prompt_pack.Auth.Hash.{Crypto, trim_prefix}
use prompt_pack.Auth.Store.{
  KeyStore, StoreError, Result, ok, err, invalid_api_key, is_past, validate_key,
}
use prompt_pack.Auth.Store.Validate.{validate_key_sound, Found, Accepts}

-- The headers and fields of a request that the code reads; an absent header is "".
pub record Request : Type 0 where
  pub correlation_id : String
  pub authorization : String
  pub x_api_key : String
  pub forwarded_for : String
  pub real_ip : String
  pub remote_addr : String
  pub user_agent : String

-- `AuthError`, with the status of the response that carries it.
pub record AuthError : Type 0 where
  pub status : ℕ
  pub code : String
  pub message : String
  pub corr_id : String
  pub retryable : Bool

-- A response by the middleware, or the call of the next handler with the context's values.
pub data Verdict : Type 0 where
  rejected : AuthError → Verdict
  forwarded : Tenant → Actor → Verdict

-- What becomes of a request: the verdict and the audit event, by tenant, action and key.
pub record Event : Type 0 where
  pub tenant_id : String
  pub action : String
  pub key_id : String

unfoldable pub extract_api_key : Request → String
extract_api_key r =
    if r.authorization == ""
    then ""
    else if starts_with r.authorization "Bearer "
    then trim_prefix r.authorization "Bearer "
    else if starts_with r.authorization "ApiKey "
    then trim_prefix r.authorization "ApiKey "
    else r.authorization

-- The key of the Authorization header, or else of X-API-Key.
unfoldable pub raw_key_of : Request → String
unfolding extract_api_key
raw_key_of r = if extract_api_key r == "" then r.x_api_key else extract_api_key r

unfoldable pub auth_error : ℕ → String → String → String → AuthError
auth_error status code message corr_id = record {
  status = status;
  code = code;
  message = message;
  corr_id = corr_id;
  retryable = false;
}

unfoldable pub event : String → String → String → Event
event tenant_id action key_id = record { tenant_id = tenant_id; action = action; key_id = key_id }

-- What the middleware reads behind `ValidateKey`: the clock at the test of the expiry and at that of the rotation
-- window, and the fields of the key that the store's operations change. The key is the store's own, so
-- other requests may have changed these since `ValidateKey` read them; no operation changes the id, the
-- name, the tenant or the scopes of a key that is there.
pub record Later : Type 0 where
  pub at_expiry : Time
  pub at_window : Time
  pub expires_at : Option Time
  pub rotated : Bool
  pub revoked_at : Option Time

-- `handleAuthError`, for the errors that a store returns. The store of `Auth/Store` returns
-- `ErrInvalidAPIKey` alone.
unfoldable pub handle_auth_error : String → StoreError → Verdict × Option Event
unfolding auth_error event
handle_auth_error corr_id invalid_key = (
  rejected (auth_error 401 "INVALID_KEY" "Invalid API key format" corr_id),
  some (event "" "auth.invalid_format" ""),
)
handle_auth_error corr_id invalid_api_key = (
  rejected (auth_error 401 "INVALID_KEY" "Invalid API key" corr_id),
  some (event "" "auth.invalid_key" ""),
)
handle_auth_error corr_id _ = (
  rejected (auth_error 401 "AUTH_FAILED" "Authentication failed" corr_id),
  some (event "" "auth.failed" ""),
)

-- A key past its expiry is refused; a rotated one only when a rotation window has passed since.
unfoldable pub past_grace : Config → Later → Bool
unfolding is_past
past_grace cfg later =
    is_past later.at_expiry later.expires_at
    && (if later.rotated
        then (elim later.expires_at [
          | none ↦ false
          | some t ↦
              ltb (t + pos_part cfg.key_rotation_window)
                (later.at_window + neg_part cfg.key_rotation_window)
        ])
        else true)

unfoldable pub actor_of : Tenant → ApiKey → Actor
actor_of tenant key = record {
  tenant_id = tenant.id;
  key_id = key.id;
  key_name = key.name;
  scopes = key.scopes;
  actor_type = "api_key";
}

-- A success is recorded only where the configuration asks for it.
unfoldable pub success_event : Config → Tenant → ApiKey → Option Event
unfolding event
success_event cfg tenant key =
    if cfg.enable_audit_log then some (event tenant.id "auth.success" key.id) else none

-- The checks of the middleware behind `ValidateKey`, in its order.
unfoldable pub admit : Config → Later → String → Tenant → ApiKey → Verdict × Option Event
unfolding auth_error event past_grace actor_of success_event
admit cfg later corr_id tenant key =
    if not (tenant.status == "active")
    then (
      rejected (auth_error 403 "TENANT_SUSPENDED" "Tenant account is suspended" corr_id),
      some (event tenant.id "auth.tenant_suspended" ""),
    )
    else if past_grace cfg later
    then (
      rejected (auth_error 401 "KEY_EXPIRED" "API key has expired" corr_id),
      some (event tenant.id "auth.key_expired" ""),
    )
    else if is_some later.revoked_at
    then (
      rejected (auth_error 401 "KEY_REVOKED" "API key has been revoked" corr_id),
      some (event tenant.id "auth.key_revoked" ""),
    )
    else (forwarded tenant (actor_of tenant key), success_event cfg tenant key)

-- `now` is the time at `ValidateKey`, `later` what is read of its key after it; `new_corr_id` is what
-- `generateCorrID` gives, `order` the iteration of the store's map.
unfoldable pub middleware :
    Crypto
    → KeyStore
    → List (String × ApiKey)
    → Config
    → Time
    → (ApiKey → Later)
    → String
    → Request
    → Verdict × Option Event
unfolding auth_error event handle_auth_error admit raw_key_of
middleware c s order cfg now later new_corr_id r =
    let corr_id = (if r.correlation_id == "" then new_corr_id else r.correlation_id) in
    let raw_key = raw_key_of r in
    if raw_key == ""
    then (
      rejected (auth_error 401 "AUTH_REQUIRED" "API key required" corr_id),
      some (event "" "auth.missing_key" ""),
    )
    else elim (validate_key c s order now raw_key) [
      | err e ↦ handle_auth_error corr_id e
      | ok (tenant, key) ↦ admit cfg (later key) corr_id tenant key
    ]

-- `RequireScope`, behind the middleware.
unfoldable pub require_scope : String → String → Option Actor → Option AuthError
unfolding auth_error
require_scope scope corr_id none =
    some (auth_error 401 "AUTH_REQUIRED" "Authentication required" "")
require_scope scope corr_id (some actor) =
    if has_scope actor scope
    then none
    else some (auth_error 403 "INSUFFICIENT_SCOPE" ("Required scope: " & scope) corr_id)
