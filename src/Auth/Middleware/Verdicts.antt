-- ===== src/Auth/Middleware/Verdicts.antt =====
-- What the middleware of apps/api/internal/auth/middleware.go lets through, and what it answers.
use prompt_pack.Auth.Store.{invalid_key}
use prompt_pack.Auth.Store.{is_past}
use prompt_pack.Base.Tests.{Option-cases, is_some, ltb}
use prompt_pack.Base.{◌≢◌, ◌<◌}
use prompt_pack.Auth.Middleware.{Later}
use prompt_pack.Base.{
  String, ◌≡◌, refl, sym, ap, subst, ◌∙◌, ◌⊎◌, inl, inr, true, false, Option, List, arith, ◌==◌,
  eq_iff,
}
use prompt_pack.Base.Tests.{if◌then◌else◌, Bool-cases}
use prompt_pack.Auth.Domain.{Time, Tenant, ApiKey, Actor, Config}
use prompt_pack.Auth.Hash.{Crypto}
use prompt_pack.Auth.Store.{KeyStore, StoreError, Result, ok, err, invalid_api_key, validate_key}
use prompt_pack.Auth.Store.Validate.{validate_key_sound, Found, Accepts}
use prompt_pack.Auth.Middleware.{
  Request, AuthError, Verdict, Event, raw_key_of, auth_error, handle_auth_error, past_grace,
  actor_of, success_event, admit, middleware, rejected, forwarded,
}

Result-cases :
    (r : Result (Tenant × ApiKey))
    → ((e : StoreError) × (r ≡ err e)) ⊎ ((t : Tenant) × (k : ApiKey) × (r ≡ ok (t, k)))
Result-cases (err e) = inl (e, refl)
Result-cases (ok (t, k)) = inr (t, k, refl)

admit_forwards :
    (cfg : Config) (later : Later) (corr_id : String) (t : Tenant) (k : ApiKey) (tenant : Tenant)
    (actor : Actor)
    → (admit cfg later corr_id t k).0 ≡ forwarded tenant actor
    → (t ≡ tenant)
      × (t.status ≡ "active")
      × (actor ≡ actor_of t k)
      × ((admit cfg later corr_id t k).1 ≡ success_event cfg t k)
unfolding admit
admit_forwards cfg later corr_id t k tenant actor h = (
  ground (arith, h),
  (eq_iff t.status "active").0 (ground (arith, h)),
  ground (arith, h),
  ground (arith, h),
)

module _ (c : Crypto) (s : KeyStore) (order : List (String × ApiKey)) (cfg : Config) (now : Time)
    (later : ApiKey → Later) (new_corr_id : String) (r : Request) where
  abbrev answer : Verdict × Option Event
  answer = middleware c s order cfg now later new_corr_id r

  corr_id_of : String
  corr_id_of = if r.correlation_id == "" then new_corr_id else r.correlation_id

  middleware_admits :
      (t : Tenant) (k : ApiKey)
      → (raw_key_of r == "") ≡ false
      → validate_key c s order now (raw_key_of r) ≡ ok (t, k)
      → answer ≡ admit cfg (later k) corr_id_of t k
  unfolding middleware corr_id_of
  middleware_admits t k given e = ground (arith, given, e)

  middleware_refuses :
      (x : StoreError)
      → (raw_key_of r == "") ≡ false
      → validate_key c s order now (raw_key_of r) ≡ err x
      → answer ≡ handle_auth_error corr_id_of x
  unfolding middleware corr_id_of
  middleware_refuses x given e = ground (arith, given, e)

  -- The three ways through the middleware.
  answer_cases :
      ((raw_key_of r == "") ≡ true)
      ⊎ ((x : StoreError) × (answer ≡ handle_auth_error corr_id_of x))
      ⊎ ((t : Tenant) × (k : ApiKey) × (validate_key c s order now (raw_key_of r) ≡ ok (t, k))
          × (answer ≡ admit cfg (later k) corr_id_of t k))
  answer_cases = elim (Bool-cases (raw_key_of r == "")) [
    | inl missing ↦ inl missing
    | inr given ↦ elim (Result-cases (validate_key c s order now (raw_key_of r))) [
      | inl (x, e) ↦ inr (inl (x, middleware_refuses x given e))
      | inr (t, k, e) ↦ inr (inr (t, k, e, middleware_admits t k given e))
    ]
  ]

  missing_key :
      (raw_key_of r == "") ≡ true
      → (e : AuthError) × (answer.0 ≡ rejected e) × (e.code ≡ "AUTH_REQUIRED")
  unfolding middleware auth_error
  missing_key h = (
    auth_error 401 "AUTH_REQUIRED" "API key required" corr_id_of,
    unfold corr_id_of in ground (arith, h),
    refl,
  )

  refused_code :
      (x : StoreError)
      → (e : AuthError) × ((handle_auth_error corr_id_of x).0 ≡ rejected e)
        × ((e.code ≡ "INVALID_KEY") ⊎ (e.code ≡ "AUTH_FAILED"))
  unfolding handle_auth_error auth_error
  refused_code invalid_key = (_, refl, inl refl)
  refused_code invalid_api_key = (_, refl, inl refl)
  refused_code _ = (_, refl, inr refl)

  -- A request is handed on only with a key that the store accepts at that time: it verifies, is not
  -- revoked and not expired, and its tenant exists and is active. The actor is that key's, with its
  -- tenant and scopes, and the audit event, if successes are recorded, is the success.
  pub middleware_forwards :
      (tenant : Tenant) (actor : Actor)
      → answer.0 ≡ forwarded tenant actor
      → (key : ApiKey) × Found c s.tenants now (raw_key_of r) order tenant key
        × (tenant.status ≡ "active")
        × (actor ≡ actor_of tenant key)
        × (answer.1 ≡ success_event cfg tenant key)
  middleware_forwards tenant actor h = elim answer_cases [
    | inl missing ↦ let (e, is, _) = missing_key missing in absurd (cc (sym h ∙ is))
    | inr (inl (x, e)) ↦
        let (a, is, _) = refused_code x in
        absurd (cc (sym h ∙ ap (λ (v : Verdict × Option Event). v.0) e ∙ is))
    | inr (inr (t, k, valid, e)) ↦
        let (same, active, is, recorded) =
          admit_forwards cfg (later k) corr_id_of t k tenant actor
            (sym (ap (λ (v : Verdict × Option Event). v.0) e) ∙ h) in
        (
          k,
          subst (λ (x : Tenant). Found c s.tenants now (raw_key_of r) order x k) same
              (validate_key_sound c s order now (raw_key_of r) t k valid),
          ap (λ (x : Tenant). x.status) (sym same) ∙ active,
          is ∙ ap (λ (x : Tenant). actor_of x k) same,
          ap (λ (v : Verdict × Option Event). v.1) e
              ∙ recorded
              ∙ ap (λ (x : Tenant). success_event cfg x k) same,
        )
  ]

  -- A refusal behind `ValidateKey`, and what was read for it.
  admit_codes :
      (t : Tenant) (k : ApiKey) (e : AuthError)
      → (admit cfg (later k) corr_id_of t k).0 ≡ rejected e
      → (e.code ≡ "TENANT_SUSPENDED")
        ⊎ ((e.code ≡ "KEY_EXPIRED") × (is_past (later k).at_expiry (later k).expires_at ≡ true))
        ⊎ ((e.code ≡ "KEY_REVOKED") × (is_some (later k).revoked_at ≡ true))
  unfolding admit past_grace auth_error
  admit_codes t k e h = elim (Bool-cases (t.status == "active")) [
    | inr suspended ↦ inl (ground (arith, h, suspended))
    | inl active ↦ elim (Bool-cases (past_grace cfg (later k))) [
      | inl past ↦ inr (inl (ground (arith, h, active, past), ground (arith, past)))
      | inr fine ↦ elim (Bool-cases (is_some (later k).revoked_at)) [
        | inl revoked ↦ inr (inr (ground (arith, h, active, fine, revoked), revoked))
        | inr kept ↦ absurd (ground (arith, h, active, fine, kept))
      ]
    ]
  ]

  -- A key that has expired since: its expiry was changed, or the clock has passed it.
  expired_since :
      (k : ApiKey)
      → Accepts c now (raw_key_of r) k
      → is_past (later k).at_expiry (later k).expires_at ≡ true
      → ((later k).expires_at ≢ k.expires_at) ⊎ (now < (later k).at_expiry)
  unfolding is_past
  expired_since k a past = elim (Bool-cases (ltb now (later k).at_expiry)) [
    | inl before ↦ inr (ground (arith, before))
    | inr after ↦ inl (λ same.
        let past' : is_past (later k).at_expiry k.expires_at ≡ true =
          ap (is_past (later k).at_expiry) (sym same) ∙ past in
        elim (Option-cases k.expires_at) [
          | inl never ↦ absurd (ground (arith, never, past'))
          | inr (t, at) ↦ absurd (ground (arith, at, past', after, a.unexpired))
        ])
  ]

  revoked_since :
      (k : ApiKey)
      → Accepts c now (raw_key_of r) k
      → is_some (later k).revoked_at ≡ true
      → (later k).revoked_at ≢ k.revoked_at
  revoked_since k a revoked same = absurd (ground (arith, revoked, same ∙ a.unrevoked))

  -- Every rejection has the code AUTH_REQUIRED, INVALID_KEY, AUTH_FAILED or TENANT_SUSPENDED; or it has
  -- KEY_EXPIRED or KEY_REVOKED, and then `ValidateKey` has accepted a key of this request, and between
  -- its reading and that of the middleware the expiry of that key was changed or the clock moved on, for
  -- KEY_EXPIRED, or its revocation was changed, for KEY_REVOKED.
  pub middleware_codes :
      (e : AuthError)
      → answer.0 ≡ rejected e
      → (e.code ≡ "AUTH_REQUIRED")
        ⊎ (e.code ≡ "INVALID_KEY")
        ⊎ (e.code ≡ "AUTH_FAILED")
        ⊎ (e.code ≡ "TENANT_SUSPENDED")
        ⊎ ((tenant : Tenant) × (key : ApiKey) × Found c s.tenants now
              (raw_key_of r)
              order
              tenant
              key
            × (((e.code ≡ "KEY_EXPIRED")
                  × (((later key).expires_at ≢ key.expires_at) ⊎ (now < (later key).at_expiry)))
                ⊎ ((e.code ≡ "KEY_REVOKED") × ((later key).revoked_at ≢ key.revoked_at))))
  middleware_codes e h = elim answer_cases [
    | inl missing ↦
        let (x, is, code) = missing_key missing in inl (ground (arith, sym h ∙ is, code))
    | inr (inl (x, at)) ↦
        let (y, is, code) = refused_code x in
        let same : rejected e ≡ rejected y =
          sym h ∙ ap (λ (v : Verdict × Option Event). v.0) at ∙ is in
        elim code [
          | inl invalid ↦ inr (inl (ground (arith, same, invalid)))
          | inr failed ↦ inr (inr (inl (ground (arith, same, failed))))
        ]
    | inr (inr (t, k, valid, at)) ↦
        let found = validate_key_sound c s order now (raw_key_of r) t k valid in
        let (_, _, _, a, _) = found in
        elim (admit_codes t k e (sym (ap (λ (v : Verdict × Option Event). v.0) at) ∙ h)) [
          | inl suspended ↦ inr (inr (inr (inl suspended)))
          | inr (inl (code, past)) ↦
              inr (inr (inr (inr (t, k, found, inl (code, expired_since k a past)))))
          | inr (inr (code, revoked)) ↦
              inr (inr (inr (inr (t, k, found, inr (code, revoked_since k a revoked)))))
        ]
  ]
