-- ===== src/Auth/RateLimiter/Tests.antt =====
-- Runs of the rate limiter of the keys.
use prompt_pack.Base.{ℕ, String, ◌≡◌, refl, none, [], ◌∷◌, arith}
use prompt_pack.Base.Dict.{find, put}
use prompt_pack.Base.Int.{pos}
use prompt_pack.Base.{List}
use prompt_pack.Base.Int.{negsuc}
use prompt_pack.Auth.RateLimiter.{RateLimiter, new_rate_limiter, allow_bucket}
use prompt_pack.Auth.RateLimiter.Burst.{granted, asked, min_ℕ, granted_burst}

-- Two tokens in a window of 60, and a clock that fills in none.
abbrev limiter : RateLimiter
limiter = new_rate_limiter (pos 2) (pos 60)

abbrev calls : List (String × ℕ)
calls = ("key1", 11) ∷ ("key2", 12) ∷ ("key1", 13) ∷ []

granted_test : granted (λ a b w r. pos 0) limiter "key1" (("key1", 10) ∷ calls) ≡ 2
unfolding granted find new_rate_limiter put
granted_test = refl

-- A rate of 0 grants a first request and panics at the second.
zero_rate_test :
    (find (new_rate_limiter (pos 0) (pos 60)).buckets "key1" ≡ none)
    × (allow_bucket
          (λ a b w r. pos 0)
          (new_rate_limiter (pos 0) (pos 60))
          9
          "key1"
          (record { tokens = negsuc 0; last_fill = 8 })
        ≡ none)
unfolding find new_rate_limiter allow_bucket
zero_rate_test = (refl, refl)

granted_burst_example :
    granted (λ a b w r. pos 0) limiter "key1" (("key1", 10) ∷ calls)
    ≡ min_ℕ (asked "key1" (("key1", 10) ∷ calls)) 2
unfolding new_rate_limiter find
granted_burst_example =
    granted_burst (λ a b w r. pos 0) "key1" 1 (pos 60) 10 limiter calls refl refl (omega arith) refl
      (λ e. refl, (λ e. refl, (λ e. refl, tt)))
