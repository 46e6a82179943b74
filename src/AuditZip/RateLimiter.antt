-- ===== src/AuditZip/RateLimiter.antt =====
-- apps/api/internal/auditzip/rate_limiter.go: a fixed window for each tenant.
pub mod Window
use prompt_pack.Base.{
  ℕ, suc, ◌+◌, ◌-◌, ◌^◌, ◌≤◌, ◌<◌, String, ◌≡◌, refl, ap, ◌∙◌, inl, inr, Bool, true, false, ◌&&◌,
  Option, none, some, List, [], ◌∷◌, arith, ◌==◌, eq_iff,
}
use prompt_pack.Base.Tests.{if◌then◌else◌, ltb, leb, Bool-cases}
use prompt_pack.Base.Lists.{All}
use prompt_pack.Base.Dict.{Dict, find, put, find-put, find-put_self}
use prompt_pack.Base.Int.{ℤ, pos, negsuc, leb_ℤ}
use prompt_pack.AuditZip.Types.{Time}
use prompt_pack.AuditZip.Storage.{add_duration}

pub record TenantRate : Type 0 where
  pub count : ℕ
  pub window_start : Time

-- `limit` and `window` are Go's signed integers.
pub record RateLimiter : Type 0 where
  pub per_tenant : Dict TenantRate
  pub limit : ℤ
  pub window : ℤ

unfoldable pub new_rate_limiter : ℤ → ℤ → RateLimiter
new_rate_limiter limit window =
    if leb_ℤ limit (pos 0)
    then record { per_tenant = []; limit = pos 0; window = pos 0 }
    else record { per_tenant = []; limit = limit; window = window }

-- `a.Sub(b)`, which stops at the ends of an `int64`.
unfoldable pub sub_time : Time → Time → ℤ
sub_time a b =
    if leb b a
    then pos (if ltb (a - b) (2 ^ 63) then a - b else 2 ^ 63 - 1)
    else negsuc (if ltb (b - a - 1) (2 ^ 63) then b - a - 1 else 2 ^ 63 - 1)

-- The tenant's state, a new one at a first request, moved to a new window if its own is over.
unfoldable pub current_rate : RateLimiter → Time → Option TenantRate → TenantRate
unfolding sub_time
current_rate r now none = record { count = 0; window_start = now }
current_rate r now (some rate) =
    if leb_ℤ r.window (sub_time now rate.window_start)
    then record { count = 0; window_start = now }
    else rate

-- `Allow`, on a limiter that is not nil: whether the request passes, and how long to wait.
unfoldable pub allow : RateLimiter → Time → String → RateLimiter × Bool × ℤ
unfolding current_rate sub_time
allow r now tenant =
    if leb_ℤ r.limit (pos 0) && leb_ℤ (pos 0) r.limit
    then (r, true, pos 0)
    else let rate = current_rate r now (find r.per_tenant tenant) in
      if leb_ℤ r.limit (pos rate.count)
      then (
        record r { per_tenant = put r.per_tenant tenant rate },
        false,
        sub_time (add_duration rate.window_start r.window) now,
      )
      else (
        record r { per_tenant = put r.per_tenant tenant (record rate { count = suc rate.count }) },
        true,
        pos 0,
      )

-- How many of a sequence of requests, each a tenant and a time, are granted to one tenant.
unfoldable pub granted : RateLimiter → String → List (String × Time) → ℕ
unfolding allow
granted r tenant [] = 0
granted r tenant ((other, now) ∷ calls) =
    (if other == tenant then (if (allow r now other).1 then 1 else 0) else 0)
    + granted (allow r now other).0 tenant calls

-- How many of them the tenant makes.
abbrev pub asked : String → List (String × Time) → ℕ
asked tenant [] = 0
asked tenant ((other, now) ∷ calls) = (if other == tenant then 1 else 0) + asked tenant calls

-- The tenant's requests of a sequence fall into its window.
abbrev pub Within : Time → ℕ → String → List (String × Time) → Type 0
Within start w tenant calls = All (λ c. (c.0 ≡ tenant) → (start ≤ c.1) × (c.1 < start + w)) calls

abbrev pub min_ℕ : ℕ → ℕ → ℕ
min_ℕ a b = if ltb a b then a else b
