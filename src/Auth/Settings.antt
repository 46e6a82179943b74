-- ===== src/Auth/Settings.antt =====
-- apps/api/internal/auth/config.go: the configuration that an environment gives.
use prompt_pack.Base.{true}
use prompt_pack.Base.Int.{pos, wrap_uint}
use prompt_pack.Base.Env.{Env, getenv, get_duration, get_int, get_bool}
use prompt_pack.Auth.Domain.{Config}

-- The conversions to `uint32` and `uint8` keep the low bits alone.
unfoldable pub load_config : Env → Config
load_config env = record {
  api_key_hash_algorithm = getenv env "AUTH_HASH_ALGORITHM" "bcrypt";
  bcrypt_cost = get_int env "AUTH_BCRYPT_COST" (pos 12);
  argon2_time = wrap_uint 32 (get_int env "AUTH_ARGON2_TIME" (pos 1));
  argon2_memory = wrap_uint 32 (get_int env "AUTH_ARGON2_MEMORY" (pos 65536));
  argon2_threads = wrap_uint 8 (get_int env "AUTH_ARGON2_THREADS" (pos 4));
  key_rotation_window = get_duration env "AUTH_KEY_ROTATION_WINDOW" (pos 86400000000000);
  rate_limit_per_minute = get_int env "AUTH_RATE_PER_MIN" (pos 100);
  key_cache_ttl = get_duration env "AUTH_KEY_CACHE_TTL" (pos 300000000000);
  enable_audit_log = get_bool env "AUTH_ENABLE_AUDIT" true;
}
