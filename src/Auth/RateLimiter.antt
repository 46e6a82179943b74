-- ===== src/Auth/RateLimiter.antt =====
-- apps/api/internal/auth/rate_limiter.go: a bucket of tokens for each key.
pub mod Calls
pub mod Burst
pub mod Tests
use prompt_pack.Base.{String, Bool, true, false, ◌&&◌, Option, none, some, []}
use prompt_pack.Base.Tests.{if◌then◌else◌}
use prompt_pack.Base.Dict.{Dict, find, put, delete}
use prompt_pack.Base.Int.{ℤ, pos, negsuc, ltb_ℤ, leb_ℤ, add_ℤ, quot_ℤ, wrap_int64}
use prompt_pack.Auth.Domain.{Time}

pub record TokenBucket : Type 0 where
  pub tokens : ℤ
  pub last_fill : Time

-- `rate` is an `int`, `window` a duration.
pub record RateLimiter : Type 0 where
  pub buckets : Dict TokenBucket
  pub rate : ℤ
  pub window : ℤ

unfoldable pub new_rate_limiter : ℤ → ℤ → RateLimiter
new_rate_limiter rate_per_window window = record {
  buckets = [];
  rate = rate_per_window;
  window = window;
}

unfoldable pub min_int : ℤ → ℤ → ℤ
min_int a b = if ltb_ℤ a b then a else b

-- The difference of two `int64`s.
unfoldable pub minus_one : ℤ → ℤ
minus_one a = wrap_int64 (add_ℤ a (negsuc 0))

-- The tokens that the time since the last fill gives, `int(float64(elapsed) / float64(rl.window) *
-- float64(rl.rate))`, of the two times, the window and the rate.
abbrev pub Refill : Type 0
Refill = Time → Time → ℤ → ℤ → ℤ

unfoldable pub refilled : Refill → RateLimiter → Time → TokenBucket → TokenBucket
unfolding min_int
refilled refill rl now bucket =
    let n = refill bucket.last_fill now rl.window rl.rate in
    if ltb_ℤ (pos 0) n
    then record { tokens = min_int rl.rate (wrap_int64 (add_ℤ bucket.tokens n)); last_fill = now }
    else bucket

-- `Allow` on a bucket that is there; `none` is the panic of the division by a rate of 0.
unfoldable pub allow_bucket :
    Refill → RateLimiter → Time → String → TokenBucket → Option (RateLimiter × Bool × ℤ)
unfolding refilled minus_one
allow_bucket refill rl now key bucket =
    let b = refilled refill rl now bucket in
    if ltb_ℤ (pos 0) b.tokens
    then some (
      record rl { buckets = put rl.buckets key (record b { tokens = minus_one b.tokens }) },
      true,
      pos 0,
    )
    else if leb_ℤ rl.rate (pos 0) && leb_ℤ (pos 0) rl.rate
    then none
    else some
        (record rl { buckets = put rl.buckets key b }, false, wrap_int64 (quot_ℤ rl.window rl.rate))

unfoldable pub allow : Refill → RateLimiter → Time → String → Option (RateLimiter × Bool × ℤ)
unfolding allow_bucket minus_one
allow refill rl now key = elim (find rl.buckets key) [
  | none ↦ some (
    record rl {
      buckets = put rl.buckets key (record { tokens = minus_one rl.rate; last_fill = now });
    },
    true,
    pos 0,
  )
  | some bucket ↦ allow_bucket refill rl now key bucket
]

unfoldable pub reset : RateLimiter → String → RateLimiter
reset rl key = record rl { buckets = delete rl.buckets key }
