-- ===== src/Auth/Context.antt =====
-- The context helpers of apps/api/internal/auth/domain.go, and a handler behind `Middleware` and
-- `RequireScope` of middleware.go, which hand the tenant and the actor on through the context.
use prompt_pack.Auth.Middleware.{Later}
use prompt_pack.Base.{
  String, ◌≡◌, refl, sym, ap, ◌∙◌, ◌⊎◌, inl, inr, Bool, true, false, Option, none, some, List, [],
  ◌∷◌, arith, ◌&◌,
}
use prompt_pack.Base.Tests.{if◌then◌else◌, Bool-cases}
use prompt_pack.Auth.Domain.{Time, Tenant, ApiKey, Actor, Config, has_scope, has_scope_iff, Has}
use prompt_pack.Auth.Hash.{Crypto}
use prompt_pack.Auth.Store.{KeyStore}
use prompt_pack.Auth.Store.Validate.{Found}
use prompt_pack.Auth.Middleware.{
  Request, AuthError, Verdict, rejected, forwarded, middleware, require_scope, actor_of, auth_error,
  raw_key_of,
}
use prompt_pack.Auth.Middleware.Verdicts.{middleware_forwards}

-- `TenantContextKey` and `ActorContextKey`; their values are pointers, which differ from those of
-- other keys.
pub data ContextKey : Type 0 where
  tenant_context_key actor_context_key : ContextKey

pub data ContextValue : Type 0 where
  tenant_value : Tenant → ContextValue
  actor_value : Actor → ContextValue

-- `context.Context`, as the values that `context.WithValue` has put into it, the last one first.
abbrev pub Context : Type 0
Context = List (ContextKey × ContextValue)

abbrev same_key : ContextKey → ContextKey → Bool
same_key tenant_context_key tenant_context_key = true
same_key actor_context_key actor_context_key = true
same_key _ _ = false

-- `ctx.Value`
unfoldable pub value : Context → ContextKey → Option ContextValue
value [] k = none
value ((j, v) ∷ ctx) k = if same_key j k then some v else value ctx k

unfoldable pub tenant_from_context : Context → Option Tenant
unfolding value
tenant_from_context ctx = elim (value ctx tenant_context_key) [
  | none ↦ none
  | some v ↦ elim v [ tenant_value tenant ↦ some tenant | actor_value actor ↦ none ]
]

unfoldable pub actor_from_context : Context → Option Actor
unfolding value
actor_from_context ctx = elim (value ctx actor_context_key) [
  | none ↦ none
  | some v ↦ elim v [ tenant_value tenant ↦ none | actor_value actor ↦ some actor ]
]

unfoldable pub context_with_tenant : Context → Tenant → Context
context_with_tenant ctx tenant = (tenant_context_key, tenant_value tenant) ∷ ctx

unfoldable pub context_with_actor : Context → Actor → Context
context_with_actor ctx actor = (actor_context_key, actor_value actor) ∷ ctx

-- `RequireScope` on a context: the error that it answers, or the context for the next handler.
unfoldable pub pass_scope : String → Request → Context → AuthError ⊎ Context
unfolding require_scope actor_from_context
pass_scope scope r ctx = elim (require_scope scope r.correlation_id (actor_from_context ctx)) [
  | some e ↦ inl e
  | none ↦ inr ctx
]

-- `RequireScope` finds the actor that `ContextWithActor` has put in.
module _ (ctx : Context) (tenant : Tenant) (actor : Actor) (scope : String) (r : Request) where
  handed_on : Context
  handed_on = context_with_actor (context_with_tenant ctx tenant) actor

  pass_scope-has : has_scope actor scope ≡ true → pass_scope scope r handed_on ≡ inr handed_on
  unfolding handed_on context_with_actor pass_scope actor_from_context value require_scope
  pass_scope-has has = rw (has, pass_scope) refl

  pass_scope-lacks :
      has_scope actor scope ≡ false
      → pass_scope scope r handed_on
        ≡ inl (auth_error 403 "INSUFFICIENT_SCOPE" ("Required scope: " & scope) r.correlation_id)
  unfolding handed_on context_with_actor pass_scope actor_from_context value require_scope
  pass_scope-lacks lacks = rw (lacks, pass_scope) refl

-- An accepted key that the store has, for an active tenant.
abbrev pub Accepted :
    Crypto → KeyStore → List (String × ApiKey) → Time → Request → Tenant → ApiKey → Type 0
Accepted c s order now r tenant key =
    Found c s.tenants now (raw_key_of r) order tenant key × (tenant.status ≡ "active")

module _ (c : Crypto) (s : KeyStore) (order : List (String × ApiKey)) (cfg : Config) (now : Time)
    (later : ApiKey → Later) (new_corr_id scope : String) (r : Request) (ctx : Context) where
  -- A request through `Middleware` and then `RequireScope`.
  unfoldable pub protected : AuthError ⊎ Context
  unfolding middleware context_with_tenant context_with_actor pass_scope
  protected = elim (middleware c s order cfg now later new_corr_id r).0 [
    | rejected e ↦ inl e
    | forwarded tenant actor ↦
        pass_scope scope r (context_with_actor (context_with_tenant ctx tenant) actor)
  ]

  protected-rejected :
      (e : AuthError)
      → (middleware c s order cfg now later new_corr_id r).0 ≡ rejected e
      → protected ≡ inl e
  unfolding protected
  protected-rejected e stopped = rw (stopped, protected) refl

  protected-forwarded :
      (tenant : Tenant) (actor : Actor)
      → (middleware c s order cfg now later new_corr_id r).0 ≡ forwarded tenant actor
      → protected ≡ pass_scope scope r (context_with_actor (context_with_tenant ctx tenant) actor)
  unfolding protected
  protected-forwarded tenant actor let_in = rw (let_in, protected) refl

  Verdict-cases :
      (v : Verdict)
      → ((e : AuthError) × (v ≡ rejected e)) ⊎ ((t : Tenant) × (a : Actor) × (v ≡ forwarded t a))
  Verdict-cases (rejected e) = inl (e, refl)
  Verdict-cases (forwarded t a) = inr (t, a, refl)

  -- A request through `Middleware` and `RequireScope` is answered with the middleware's error; or with
  -- 403 and INSUFFICIENT_SCOPE, and then the key that it carries is accepted but lists neither the scope
  -- nor the wildcard; or it reaches the handler, and then the key lists one of them, and the context
  -- gives the key's tenant and its actor. `RequireScope` never misses the actor.
  pub protected_cases :
      ((e : AuthError) × (protected ≡ inl e)
        × (((middleware c s order cfg now later new_corr_id r).0 ≡ rejected e)
            ⊎ ((tenant : Tenant) × (key : ApiKey) × Accepted c s order now r tenant key
                × (e.status ≡ 403)
                × (e.code ≡ "INSUFFICIENT_SCOPE")
                × ¬ (Has scope key.scopes ⊎ Has "*" key.scopes))))
      ⊎ ((ctx' : Context) × (protected ≡ inr ctx')
          × ((tenant : Tenant) × (key : ApiKey) × Accepted c s order now r tenant key
              × (Has scope key.scopes ⊎ Has "*" key.scopes)
              × (tenant_from_context ctx' ≡ some tenant)
              × (actor_from_context ctx' ≡ some (actor_of tenant key))))
  unfolding auth_error context_with_tenant context_with_actor tenant_from_context actor_from_context
      value handed_on actor_of
  protected_cases = elim (Verdict-cases (middleware c s order cfg now later new_corr_id r).0) [
    | inl (e, stopped) ↦ inl (e, protected-rejected e stopped, inl stopped)
    | inr (tenant, actor, let_in) ↦
        let (key, found, active, is, _) =
          middleware_forwards c s order cfg now later new_corr_id r tenant actor let_in in
        let listed = has_scope_iff (actor_of tenant key) scope in
        elim (Bool-cases (has_scope actor scope)) [
          | inl has ↦ inr (
            context_with_actor (context_with_tenant ctx tenant) actor,
            protected-forwarded tenant actor let_in ∙ pass_scope-has ctx tenant actor scope r has,
            (
              tenant,
              key,
              (found, active),
              listed.0 (ap (λ (a : Actor). has_scope a scope) (sym is) ∙ has),
              refl,
              ap some is,
            ),
          )
          | inr lacks ↦ inl (
            auth_error 403 "INSUFFICIENT_SCOPE" ("Required scope: " & scope) r.correlation_id,
            protected-forwarded tenant actor let_in
                ∙ pass_scope-lacks ctx tenant actor scope r lacks,
            inr (
              tenant,
              key,
              (found, active),
              refl,
              refl,
              λ h.
                  absurd
                    (ground (arith, ap (λ (a : Actor). has_scope a scope) is, listed.1 h, lacks)),
            ),
          )
        ]
  ]
