-- ===== src/AuditZip/RateLimiter/Window.antt =====
-- What apps/api/internal/auditzip/rate_limiter.go grants to a tenant within one window.
use prompt_pack.Base.{
  ℕ, suc, ◌+◌, ◌-◌, ◌^◌, ◌≤◌, ◌<◌, String, ◌≡◌, refl, ap, ◌∙◌, inl, inr, true, false, some, List,
  [], ◌∷◌, arith, ◌==◌, eq_iff,
}
use prompt_pack.Base.Tests.{if◌then◌else◌, ltb, leb, Bool-cases}
use prompt_pack.Base.Dict.{find, put, find-put, find-put_self}
use prompt_pack.Base.Int.{pos}
use prompt_pack.AuditZip.Types.{Time}
use prompt_pack.AuditZip.Storage.{add_duration}
use prompt_pack.AuditZip.RateLimiter.{
  TenantRate, RateLimiter, sub_time, current_rate, allow, granted, asked, Within, min_ℕ,
}

-- A limiter in which the tenant has used `n` of its `limit` requests of the window from `start`.
pub record Used (r : RateLimiter) (tenant : String) (n limit start w : ℕ) : Type 0 where
  pub stored : find r.per_tenant tenant ≡ some (record { count = n; window_start = start })
  pub is_limit : r.limit ≡ pos limit
  pub is_window : r.window ≡ pos w

-- Up to the end of its window a tenant keeps its state.
current_rate-kept :
    (r : RateLimiter) (n start w now : ℕ)
    → r.window ≡ pos w
    → start ≤ now
    → now < start + w
    → current_rate r now (some (record { count = n; window_start = start }))
      ≡ record { count = n; window_start = start }
unfolding current_rate sub_time
current_rate-kept r n start w now is from to = elim (Bool-cases (ltb (now - start) (2 ^ 63))) [
  | inl small ↦ ground (arith, is, from, to, small)
  | inr large ↦ ground (arith, is, from, to, large)
]

-- The two answers of a limiter with a limit.
module _ (r : RateLimiter) (now : Time) (who : String) (limit : ℕ) (rate : TenantRate)
    (is_limit : r.limit ≡ pos limit) (nonzero : 0 < limit)
    (is : current_rate r now (find r.per_tenant who) ≡ rate) where
  allow_denies :
      leb limit rate.count ≡ true
      → allow r now who ≡ (
        record r { per_tenant = put r.per_tenant who rate },
        false,
        sub_time (add_duration rate.window_start r.window) now,
      )
  unfolding allow
  allow_denies full = ground (arith, is_limit, nonzero, is, full)

  allow_grants :
      leb limit rate.count ≡ false
      → allow r now who ≡ (
        record r { per_tenant = put r.per_tenant who (record rate { count = suc rate.count }) },
        true,
        pos 0,
      )
  unfolding allow
  allow_grants free = ground (arith, is_limit, nonzero, is, free)

module _ (tenant : String) (limit start w : ℕ) (nonzero : 0 < limit) where
  put_other-Used :
      (r : RateLimiter) (n : ℕ) (other : String) (rate : TenantRate)
      → Used r tenant n limit start w
      → (other == tenant) ≡ false
      → Used (record r { per_tenant = put r.per_tenant other rate }) tenant n limit start w
  put_other-Used r n other rate u ne = record {
    stored = ground (arith, find-put r.per_tenant other tenant rate, ne, u.stored);
    is_limit = u.is_limit;
    is_window = u.is_window;
  }

  put_own-Used :
      (r : RateLimiter) (n m : ℕ)
      → Used r tenant n limit start w
      → Used
          (record r {
            per_tenant = put r.per_tenant tenant (record { count = m; window_start = start });
          })
          tenant
          m
          limit
          start
          w
  put_own-Used r n m u = record {
    stored = find-put_self r.per_tenant tenant (record { count = m; window_start = start });
    is_limit = u.is_limit;
    is_window = u.is_window;
  }

  -- A request of another tenant leaves the tenant's count.
  allow_other :
      (r : RateLimiter) (n : ℕ) (now : Time) (other : String)
      → Used r tenant n limit start w
      → (other == tenant) ≡ false
      → Used (allow r now other).0 tenant n limit start w
  allow_other r n now other u ne =
      let rate = current_rate r now (find r.per_tenant other) in
      elim (Bool-cases (leb limit rate.count)) [
        | inl full ↦
            rw (allow_denies r now other limit rate u.is_limit nonzero refl full)
              (put_other-Used r n other rate u ne)
        | inr free ↦
            rw (allow_grants r now other limit rate u.is_limit nonzero refl free)
              (put_other-Used r n other (record rate { count = suc rate.count }) u ne)
      ]

  -- A request in the window is granted while fewer than `limit` were.
  allow_own :
      (r : RateLimiter) (n : ℕ) (now : Time)
      → Used r tenant n limit start w
      → start ≤ now
      → now < start + w
      → (m : ℕ) × (n + (if (allow r now tenant).1 then 1 else 0) ≡ m)
        × (m ≡ (if leb limit n then n else suc n))
        × Used (allow r now tenant).0 tenant m limit start w
  allow_own r n now u from to =
      let rate : TenantRate = record { count = n; window_start = start } in
      let is : current_rate r now (find r.per_tenant tenant) ≡ rate =
        ap (current_rate r now) u.stored ∙ current_rate-kept r n start w now u.is_window from to in
      elim (Bool-cases (leb limit n)) [
        | inl full ↦
            rw (allow_denies r now tenant limit rate u.is_limit nonzero is full, full)
              (n, ground arith, refl, put_own-Used r n n u)
        | inr free ↦
            rw (allow_grants r now tenant limit rate u.is_limit nonzero is free, free)
              (suc n, ground arith, refl, put_own-Used r n (suc n) u)
      ]

  -- Within a window a tenant that has used `n` requests of its positive limit is granted all it asks for until the
  -- limit is reached, and nothing more, whatever other tenants ask in between.
  pub granted_exact :
      (r : RateLimiter) (n : ℕ) (calls : List (String × Time))
      → Used r tenant n limit start w
      → n ≤ limit
      → Within start w tenant calls
      → n + granted r tenant calls ≡ min_ℕ (n + asked tenant calls) limit
  unfolding granted
  granted_exact r n [] u le h = ground arith
  granted_exact r n ((other, now) ∷ calls) u le h = elim (Bool-cases (other == tenant)) [
    | inr ne ↦ ground (
      arith,
      ne,
      granted_exact (allow r now other).0 n calls (allow_other r n now other u ne) le h.1,
    )
    | inl own ↦
        let e = (eq_iff other tenant).0 own in
        let (from, to) = h.0 e in
        let mine = allow_own r n now u from to in
        let rest =
          granted_exact (allow r now tenant).0 mine.0 calls mine.3 (ground (arith, mine.2, le))
            h.1 in
        ground (arith, own, e, mine.1, mine.2, rest)
  ]
