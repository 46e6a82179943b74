-- ===== src/Auth/RateLimiter/Calls.antt =====
-- What one call of `Allow` of apps/api/internal/auth/rate_limiter.go does, at a positive rate.
use prompt_pack.Base.{
  ℕ, zero, suc, ◌-◌, ◌^◌, ◌<◌, String, ◌≡◌, refl, ap, ◌∙◌, ◌≢◌, inl, inr, Bool, true, false, ◌&&◌,
  Option, none, some, arith,
}
use prompt_pack.Base.Tests.{ltb, Bool-cases, Option-cases, if_true, if_false}
use prompt_pack.Base.Dict.{find, put, find-put_ne, find-put_self}
use prompt_pack.Base.Int.{ℤ, pos, negsuc, pos_part, ltb_ℤ, leb_ℤ, wrap_int64, quot_ℤ}
use prompt_pack.Auth.Domain.{Time}
use prompt_pack.Auth.RateLimiter.{
  TokenBucket, RateLimiter, Refill, refilled, minus_one, allow_bucket, allow,
}

pub minus_one-suc : (n : ℕ) → n < 2 ^ 63 → minus_one (pos (suc n)) ≡ pos n
unfolding minus_one
minus_one-suc n h = ground arith

-- The limiter after a call.
pub record Called (rl rl' : RateLimiter) (key : String) (b : Option TokenBucket) : Type 0 where
  pub rate : rl'.rate ≡ rl.rate
  pub window : rl'.window ≡ rl.window
  pub bucket : find rl'.buckets key ≡ b

-- The call returns.
abbrev pub Returns : Refill → RateLimiter → Time → String → (RateLimiter → Bool → Type 0) → Type 0
Returns refill rl now key P =
    (rl' : RateLimiter) × (passed : Bool) × (retry : ℤ) × (allow refill rl now key
      ≡ some (rl', passed, retry))
    × P rl' passed

not_gained : (z : ℤ) → pos_part z ≡ 0 → ltb_ℤ (pos 0) z ≡ false
not_gained (pos n) h = ground (arith, h)
not_gained (negsuc n) h = ground arith

module _ (refill : Refill) (rl : RateLimiter) (r : ℕ) (rated : rl.rate ≡ pos (suc r)) (now : Time)
    (other : String) where
  allow_found :
      (b : TokenBucket)
      → find rl.buckets other ≡ some b
      → allow refill rl now other ≡ allow_bucket refill rl now other b
  unfolding allow
  allow_found b there = rw (there, allow) refl

  not_zero : (leb_ℤ rl.rate (pos 0) && leb_ℤ (pos 0) rl.rate) ≡ false
  not_zero = ground (arith, rated)

  -- A call on a bucket with tokens left, after the fill, and on one without.
  allow_left :
      (b : TokenBucket)
      → find rl.buckets other ≡ some b
      → ltb_ℤ (pos 0) (refilled refill rl now b).tokens ≡ true
      → let b' = refilled refill rl now b in
        allow refill rl now other
        ≡ some (
          record rl { buckets = put rl.buckets other (record b' { tokens = minus_one b'.tokens }) },
          true,
          pos 0,
        )
  unfolding allow_bucket
  allow_left b there left = allow_found b there ∙ if_true _ _ left

  allow_dry :
      (b : TokenBucket)
      → find rl.buckets other ≡ some b
      → ltb_ℤ (pos 0) (refilled refill rl now b).tokens ≡ false
      → allow refill rl now other
        ≡ some (
          record rl { buckets = put rl.buckets other (refilled refill rl now b) },
          false,
          wrap_int64 (quot_ℤ rl.window rl.rate),
        )
  unfolding allow_bucket
  allow_dry b there dry = allow_found b there ∙ if_false _ _ dry ∙ if_false _ _ not_zero

  -- A call for another key returns, and leaves the bucket of this one.
  pub allow-other :
      (key : String)
      → other ≢ key
      → Returns refill rl now other (λ rl' passed. Called rl rl' key (find rl.buckets key))
  unfolding allow
  allow-other key ne = elim (Option-cases (find rl.buckets other)) [
    | inl gone ↦ (
      record rl {
        buckets = put rl.buckets other (record { tokens = minus_one rl.rate; last_fill = now });
      },
      true,
      pos 0,
      rw (gone, allow) refl,
      record { rate = refl; window = refl; bucket = find-put_ne rl.buckets other key _ ne },
    )
    | inr (b, there) ↦
        let b' = refilled refill rl now b in
        elim (Bool-cases (ltb_ℤ (pos 0) b'.tokens)) [
          | inl left ↦ (
            record rl {
              buckets = put rl.buckets other (record b' { tokens = minus_one b'.tokens });
            },
            true,
            pos 0,
            allow_left b there left,
            record { rate = refl; window = refl; bucket = find-put_ne rl.buckets other key _ ne },
          )
          | inr dry ↦ (
            record rl { buckets = put rl.buckets other b' },
            false,
            wrap_int64 (quot_ℤ rl.window rl.rate),
            allow_dry b there dry,
            record { rate = refl; window = refl; bucket = find-put_ne rl.buckets other key _ ne },
          )
        ]
  ]

  unfilled :
      (b : TokenBucket)
      → pos_part (refill b.last_fill now rl.window rl.rate) ≡ 0
      → refilled refill rl now b ≡ b
  unfolding refilled
  unfilled b dry = if_false _ _ (not_gained (refill b.last_fill now rl.window rl.rate) dry)

  -- A call for this key that finds `n` tokens and no fill.
  pub allow-same :
      (n last : ℕ)
      → n < 2 ^ 63
      → find rl.buckets other ≡ some (record { tokens = pos n; last_fill = last })
      → pos_part (refill last now rl.window rl.rate) ≡ 0
      → Returns refill rl now other (λ rl' passed.
        (passed ≡ ltb 0 n)
        × Called rl rl' other (some (record { tokens = pos (n - 1); last_fill = last })))
  allow-same zero last bound there dry =
      let b : TokenBucket = record { tokens = pos 0; last_fill = last } in
      let same = unfilled b dry in
      (
        record rl { buckets = put rl.buckets other b },
        false,
        wrap_int64 (quot_ℤ rl.window rl.rate),
        allow_dry b there (ap (λ (x : TokenBucket). ltb_ℤ (pos 0) x.tokens) same)
            ∙ ap
                (λ (x : TokenBucket). some (
                  record rl { buckets = put rl.buckets other x },
                  false,
                  wrap_int64 (quot_ℤ rl.window rl.rate),
                ))
                same,
        (refl, record { rate = refl; window = refl; bucket = find-put_self rl.buckets other b }),
      )
  allow-same (suc n) last bound there dry =
      let b : TokenBucket = record { tokens = pos (suc n); last_fill = last } in
      let b' : TokenBucket = record { tokens = pos (suc n - 1); last_fill = last } in
      let same = unfilled b dry in
      (
        record rl { buckets = put rl.buckets other b' },
        true,
        pos 0,
        allow_left b there (ap (λ (x : TokenBucket). ltb_ℤ (pos 0) x.tokens) same ∙ ground arith)
            ∙ ap
                (λ (x : TokenBucket). some (
                  record rl {
                    buckets = put rl.buckets other (record x { tokens = minus_one x.tokens });
                  },
                  true,
                  pos 0,
                ))
                same
            ∙ ap
                (λ (x : ℤ). some (
                  record rl {
                    buckets = put rl.buckets other (record { tokens = x; last_fill = last });
                  },
                  true,
                  pos 0,
                ))
                (minus_one-suc n (omega (arith, bound)) ∙ ap pos (omega arith)),
        (
          ground arith,
          record { rate = refl; window = refl; bucket = find-put_self rl.buckets other b' },
        ),
      )

pub allow_new :
    (refill : Refill) (rl : RateLimiter) (now : Time) (key : String)
    → find rl.buckets key ≡ none
    → allow refill rl now key
      ≡ some (
        record rl {
          buckets = put rl.buckets key (record { tokens = minus_one rl.rate; last_fill = now });
        },
        true,
        pos 0,
      )
unfolding allow
allow_new refill rl now key gone = rw (gone, allow) refl
