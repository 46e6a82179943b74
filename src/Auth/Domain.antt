-- ===== src/Auth/Domain.antt =====
-- apps/api/internal/auth/domain.go and config.go: tenants, keys, actors and their scopes. An
-- instant is a number of nanoseconds on one clock.
use prompt_pack.Base.{
  ℕ, String, ◌≡◌, ◌↔◌, ◌⊎◌, Bool, true, false, ◌||◌, Option, List, [], ◌∷◌, arith, ◌==◌, eq_iff,
}
use prompt_pack.Base.Tests.{if◌then◌else◌}
use prompt_pack.Base.Int.{ℤ}

abbrev pub Time : Type 0
Time = ℕ

pub record Tenant : Type 0 where
  pub id : String
  pub name : String
  pub plan : String
  pub status : String
  pub created_at : Time

pub record ApiKey : Type 0 where
  pub id : String
  pub tenant_id : String
  pub name : String
  pub key_prefix : String
  pub key_hash : String
  pub scopes : List String
  pub rate_limit : ℤ
  pub expires_at : Option Time
  pub last_used_at : Option Time
  pub created_at : Time
  pub revoked_at : Option Time
  pub rotated : Bool
  pub rotated_from : Option String

pub record Actor : Type 0 where
  pub tenant_id : String
  pub key_id : String
  pub key_name : String
  pub scopes : List String
  pub actor_type : String

pub record AuditLogEntry : Type 0 where
  pub id : String
  pub tenant_id : String
  pub corr_id : String
  pub action : String
  pub key_id : String
  pub ip_address : String
  pub user_agent : String
  pub details : String
  pub timestamp : Time
  pub prev_hash : String
  pub hash : String

-- The Argon2 parameters are a `uint32`, a `uint32` and a `uint8`.
pub record Config : Type 0 where
  pub api_key_hash_algorithm : String
  pub bcrypt_cost : ℤ
  pub argon2_time : ℕ
  pub argon2_memory : ℕ
  pub argon2_threads : ℕ
  pub key_rotation_window : ℤ
  pub rate_limit_per_minute : ℤ
  pub key_cache_ttl : ℤ
  pub enable_audit_log : Bool

-- The loop of `HasScope`.
unfoldable pub scope_in : List String → String → Bool
scope_in [] scope = false
scope_in (s ∷ rest) scope = if s == scope || s == "*" then true else scope_in rest scope

unfoldable pub has_scope : Actor → String → Bool
unfolding scope_in
has_scope a scope = scope_in a.scopes scope

-- The elements of a list of texts.
abbrev pub Has : String → List String → Type 0
Has s [] = ⊥
Has s (x ∷ xs) = (x ≡ s) ⊎ Has s xs

scope_in-Has :
    (scopes : List String) (scope : String)
    → (scope_in scopes scope ≡ true) ↔ (Has scope scopes ⊎ Has "*" scopes)
unfolding scope_in
scope_in-Has [] scope = (λ h. cc h, λ h. ground arith)
scope_in-Has (s ∷ rest) scope =
    let (to, from) = scope_in-Has rest scope in
    (
      λ h. ground (arith, eq_iff s scope, eq_iff s "*", to, h),
      λ h. ground (arith, eq_iff s scope, eq_iff s "*", from, h),
    )

-- An actor has a scope exactly when its key lists that scope, or the wildcard.
pub has_scope_iff :
    (a : Actor) (scope : String)
    → (has_scope a scope ≡ true) ↔ (Has scope a.scopes ⊎ Has "*" a.scopes)
unfolding has_scope
has_scope_iff a scope = scope_in-Has a.scopes scope
