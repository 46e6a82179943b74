-- ===== src/Server/Refusals.antt =====
-- Which requests of the server reach the handlers of the audit export.
use prompt_pack.Base.{String, ◌≡◌, refl, ap, ◌∙◌, ◌↔◌, ◌⊎◌, inl, inr, false, List, ◌==◌, arith}
use prompt_pack.Base.Tests.{Sum-cases}
use prompt_pack.Glue.{HttpRequest, Binders, bind_header, apply_middlewares}
use prompt_pack.Glue.Bound.{One, bind_header_iff, bind_three-eq-inr}
use prompt_pack.AuditZip.Wire.{Response}
use prompt_pack.AuditZip.Service.{Params, Service, enqueue_audit_zip}
use prompt_pack.AuditZip.Storage.{InMemoryStorage}
use prompt_pack.AuditZip.Api.{EnqueueAuditZipParams, bind_enqueue_params, call_enqueue_audit_zip}
use prompt_pack.Server.Cors.{cors_middleware}
use prompt_pack.Server.Routes.{World, Luck, State, routes, dispatch, table, handle, audit_interface}

-- Each of the three headers is there once, and converts.
abbrev pub Bound : Binders → HttpRequest → EnqueueAuditZipParams → Type 0
Bound b r p =
    One b.bind_uuid "X-Correlation-Id" r.headers p.x_correlation_id
    × One b.bind_string "X-Tenant-Id" r.headers p.x_tenant_id
    × One b.bind_uuid "Idempotency-Key" r.headers p.idempotency_key

bind_enqueue_params_iff :
    (b : Binders) (r : HttpRequest) (p : EnqueueAuditZipParams)
    → (bind_enqueue_params b r ≡ inr p) ↔ Bound b r p
unfolding bind_enqueue_params
bind_enqueue_params_iff b r p = (
  λ h.
      let (c, t, k, hc, ht, hk, e) =
        bind_three-eq-inr (bind_header b.bind_uuid "X-Correlation-Id" r.headers)
          (bind_header b.bind_string "X-Tenant-Id" r.headers)
          (bind_header b.bind_uuid "Idempotency-Key" r.headers)
          (λ (c t k : String).
            let q : EnqueueAuditZipParams = record {
              x_correlation_id = c;
              x_tenant_id = t;
              idempotency_key = k;
            } in
            q)
          p h in
      (
        (bind_header_iff b.bind_uuid "X-Correlation-Id" r.headers p.x_correlation_id).0
            (hc ∙ ap (λ (x : EnqueueAuditZipParams). inr x.x_correlation_id) e),
        (bind_header_iff b.bind_string "X-Tenant-Id" r.headers p.x_tenant_id).0
            (ht ∙ ap (λ (x : EnqueueAuditZipParams). inr x.x_tenant_id) e),
        (bind_header_iff b.bind_uuid "Idempotency-Key" r.headers p.idempotency_key).0
            (hk ∙ ap (λ (x : EnqueueAuditZipParams). inr x.idempotency_key) e),
      ),
  λ (c, t, k).
      rw
        (
          (bind_header_iff b.bind_uuid "X-Correlation-Id" r.headers p.x_correlation_id).1 c,
          (bind_header_iff b.bind_string "X-Tenant-Id" r.headers p.x_tenant_id).1 t,
          (bind_header_iff b.bind_uuid "Idempotency-Key" r.headers p.idempotency_key).1 k,
        )
        refl,
)

module _ (w : World) (luck : Luck) (allowed : List String) (r : HttpRequest) (st : State) where
  -- Where each of the three headers of `POST /audit/zip` is there once, with a value that converts,
  -- `EnqueueAuditZip` is called with these values and the server's state and status are its own;
  -- otherwise the status is 400 and nothing changes, not even the rate limiter. The invoices never
  -- change.
  pub post_audit_zip_cases :
      (up : String → String)
      → (r.method == "OPTIONS") ≡ false
      → w.choose r.method r.path (table w luck) ≡ inr (1, up)
      → (((handle w luck allowed r st).0 ≡ st)
          × ((handle w luck allowed r st).1.status ≡ 400)
          × ((p : EnqueueAuditZipParams) → ¬ Bound w.binders r p))
        ⊎ ((p : EnqueueAuditZipParams) × Bound w.binders r p
            × (let params : Params = record {
              corr_id = p.x_correlation_id;
              tenant_id = p.x_tenant_id;
              idempotency_key = p.idempotency_key;
            } in
                let answer : Service InMemoryStorage × Response =
                  enqueue_audit_zip w.audit_floats w.encoders luck.audit params st.audit
                    (w.decode_request r.body) in
                ((handle w luck allowed r st).0 ≡ record st { audit = answer.0 })
                × ((handle w luck allowed r st).1.status ≡ answer.1.status)))
  unfolding handle cors_middleware dispatch routes apply_middlewares audit_interface
  post_audit_zip_cases up other chosen = elim (Sum-cases (bind_enqueue_params w.binders r)) [
    | inl (e, bad) ↦ inl (
      rw (other, handle, chosen, dispatch, bad, call_enqueue_audit_zip) refl,
      rw (other, handle, chosen, dispatch, bad, call_enqueue_audit_zip) refl,
      λ p bound.
          let good = (bind_enqueue_params_iff w.binders r p).1 bound in ground (arith, bad, good),
    )
    | inr (p, good) ↦ inr (
      p,
      (bind_enqueue_params_iff w.binders r p).0 good,
      (
        rw (other, handle, chosen, dispatch, good, call_enqueue_audit_zip) refl,
        rw (other, handle, chosen, dispatch, good, call_enqueue_audit_zip) refl,
      ),
    )
  ]
