-- ===== src/Auth/RateLimiter/Burst.antt =====
-- How many requests of a key apps/api/internal/auth/rate_limiter.go grants between two fills.
use prompt_pack.Base.{
  ℕ, suc, ◌+◌, ◌-◌, ◌^◌, ◌<◌, String, ◌≡◌, sym, ap, ◌∙◌, inl, inr, Bool, true, none, some, List, [],
  ◌∷◌, arith, ◌==◌, eq_iff,
}
use prompt_pack.Base.Tests.{if◌then◌else◌, ltb, Bool-cases}
use mathlib.Core.Path.{ap₂}
use prompt_pack.Base.Lists.{All}
use prompt_pack.Base.Dict.{find, put, find-put_self}
use prompt_pack.Base.Int.{ℤ, pos, pos_part}
use prompt_pack.Auth.Domain.{Time}
use prompt_pack.Auth.RateLimiter.{TokenBucket, RateLimiter, Refill, minus_one, allow}
use prompt_pack.Auth.RateLimiter.Calls.{minus_one-suc, allow_new, allow-other, allow-same}

-- How many of a sequence of requests, each a key and a time, are granted to one key; a panic ends it.
unfoldable pub granted : Refill → RateLimiter → String → List (String × Time) → ℕ
unfolding allow
granted refill rl key [] = 0
granted refill rl key ((other, now) ∷ calls) = elim (allow refill rl now other) [
  | none ↦ 0
  | some (rl', passed, retry) ↦
      (if other == key then (if passed then 1 else 0) else 0) + granted refill rl' key calls
]

-- How many of them the key makes.
abbrev pub asked : String → List (String × Time) → ℕ
asked key [] = 0
asked key ((other, now) ∷ calls) = (if other == key then 1 else 0) + asked key calls

abbrev pub min_ℕ : ℕ → ℕ → ℕ
min_ℕ a b = if ltb a b then a else b

min_step :
    (passed : Bool) (n a g : ℕ)
    → passed ≡ ltb 0 n
    → g ≡ min_ℕ a (n - 1)
    → (if passed then 1 else 0) + g ≡ min_ℕ (1 + a) n
min_step passed n a g p h = ground (arith, p, h)

module _ (refill : Refill) (key : String) (r : ℕ) (w : ℤ) (last : Time) where
  -- The time since the last fill gives no token at the key's requests.
  abbrev pub NoFill : List (String × Time) → Type 0
  NoFill calls = All (λ c. (c.0 ≡ key) → pos_part (refill last c.1 w (pos (suc r))) ≡ 0) calls

  -- On a bucket with `n` tokens, and as long as the time since its last fill gives none, exactly the first `n`
  -- requests of the key are granted, however the requests of other keys fall between them.
  pub granted_tokens :
      (calls : List (String × Time)) (rl : RateLimiter) (n : ℕ)
      → rl.rate ≡ pos (suc r)
      → rl.window ≡ w
      → n < 2 ^ 63
      → find rl.buckets key ≡ some (record { tokens = pos n; last_fill = last })
      → NoFill calls
      → granted refill rl key calls ≡ min_ℕ (asked key calls) n
  unfolding granted
  granted_tokens [] rl n rated wide bound there dry = ground arith
  granted_tokens ((other, now) ∷ calls) rl n rated wide bound there dry =
      elim (Bool-cases (other == key)) [
        | inl same ↦
            let e = (eq_iff other key).0 same in
            let (rl', passed, retry, returned, (p, c)) =
              allow-same refill rl r rated now other n last bound (ap (find rl.buckets) e ∙ there)
                (ap₂ (λ (v : ℤ) (x : ℤ). pos_part (refill last now v x)) wide rated ∙ dry.0 e) in
            let rest =
              granted_tokens calls rl' (n - 1) (c.rate ∙ rated) (c.window ∙ wide)
                (omega (arith, bound)) (ap (find rl'.buckets) (sym e) ∙ c.bucket) dry.1 in
            rw (returned, granted, same) (min_step passed n (asked key calls) _ p rest)
        | inr apart ↦
            let (rl', passed, retry, returned, c) =
              allow-other refill rl r rated now other key
                (λ e. absurd (ground (arith, e, apart, eq_iff other key))) in
            let rest =
              granted_tokens calls rl' n (c.rate ∙ rated) (c.window ∙ wide) bound (c.bucket ∙ there)
                dry.1 in
            rw (returned, granted) (ground (arith, apart, rest))
      ]

  -- From a limiter with a positive rate that has no bucket for the key, be it new or after `Reset`: of
  -- a request of the key and the requests behind it, up to the time at which a token is filled in,
  -- exactly the first as many of the key's are granted as the rate says. Other keys do not count.
  pub granted_burst :
      (rl : RateLimiter) (calls : List (String × Time))
      → rl.rate ≡ pos (suc r)
      → rl.window ≡ w
      → suc r < 2 ^ 63
      → find rl.buckets key ≡ none
      → NoFill calls
      → granted refill rl key ((key, last) ∷ calls)
        ≡ min_ℕ (asked key ((key, last) ∷ calls)) (suc r)
  unfolding granted
  granted_burst rl calls rated wide bound gone dry =
      let b : TokenBucket = record { tokens = pos r; last_fill = last } in
      let first : allow refill rl last key
          ≡ some (record rl { buckets = put rl.buckets key b }, true, pos 0) =
        allow_new refill rl last key gone
        ∙ ap
            (λ (x : ℤ). some (
              record rl { buckets = put rl.buckets key (record { tokens = x; last_fill = last }) },
              true,
              pos 0,
            ))
            (ap minus_one rated ∙ minus_one-suc r (omega (arith, bound))) in
      let rest =
        granted_tokens calls (record rl { buckets = put rl.buckets key b }) r rated wide
          (omega (arith, bound)) (find-put_self rl.buckets key b) dry in
      rw (first, granted) (ground (arith, eq_iff key key, rest))
