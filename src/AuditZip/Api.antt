-- ===== src/AuditZip/Api.antt =====
-- apps/api/internal/auditzip/api.gen.go: the parameters of the two operations, their binding, and the
-- routes.
use prompt_pack.Base.{ℕ, String, ◌&◌, ◌⊎◌, inl, inr, Bool, Option, none, List, [], ◌∷◌}
use prompt_pack.Glue.{
  ParamError, Binders, HttpRequest, Wrapper, Options, Route, ◌>>=◌, checked, bind_header,
  apply_middlewares, wrapper_of,
}

pub record GetAuditZipJobParams : Type 0 where
  pub cancel : Option Bool
  pub x_correlation_id : String
  pub x_tenant_id : String

pub record EnqueueAuditZipParams : Type 0 where
  pub x_correlation_id : String
  pub x_tenant_id : String
  pub idempotency_key : String

pub record ServerInterface (H : Type 0) : Type 0 where
  pub get_audit_zip_job : String → GetAuditZipJobParams → H
  pub enqueue_audit_zip : EnqueueAuditZipParams → H

-- `Unimplemented`; the handler of a status without a body is given.
unfoldable pub unimplemented : {H : Type 0} → (ℕ → H) → ServerInterface H
unimplemented write_header = record {
  get_audit_zip_job = λ job_id params. write_header 501;
  enqueue_audit_zip = λ params. write_header 501;
}

module _ (b : Binders) where
  -- The parameters of `GetAuditZipJob`, in the order in which they are bound.
  unfoldable pub bind_get_params :
      String → HttpRequest → ParamError ⊎ (String × GetAuditZipJobParams)
  unfolding bind_header checked
  bind_get_params raw_id r = do
    job_id ← checked "jobId" (b.bind_uuid raw_id)
    cancel ← checked "cancel" (b.bind_flag "cancel" r.query)
    corr_id ← bind_header b.bind_uuid "X-Correlation-Id" r.headers
    tenant_id ← bind_header b.bind_string "X-Tenant-Id" r.headers
    inr (job_id, record { cancel = cancel; x_correlation_id = corr_id; x_tenant_id = tenant_id })

  -- The parameters of `EnqueueAuditZip`.
  unfoldable pub bind_enqueue_params : HttpRequest → ParamError ⊎ EnqueueAuditZipParams
  unfolding bind_header
  bind_enqueue_params r = do
    corr_id ← bind_header b.bind_uuid "X-Correlation-Id" r.headers
    tenant_id ← bind_header b.bind_string "X-Tenant-Id" r.headers
    key ← bind_header b.bind_uuid "Idempotency-Key" r.headers
    inr (record { x_correlation_id = corr_id; x_tenant_id = tenant_id; idempotency_key = key })

  module _ {H : Type 0} (siw : Wrapper (ServerInterface H) H) where
    unfoldable pub call_get_audit_zip_job : (String → String) → HttpRequest → H
    unfolding bind_get_params
    call_get_audit_zip_job url_param r = elim (bind_get_params (url_param "jobId") r) [
      | inl e ↦ siw.error_handler e
      | inr (job_id, params) ↦
          apply_middlewares siw.middlewares (siw.handler.get_audit_zip_job job_id params)
    ]

    unfoldable pub call_enqueue_audit_zip : (String → String) → HttpRequest → H
    unfolding bind_enqueue_params
    call_enqueue_audit_zip url_param r = elim (bind_enqueue_params r) [
      | inl e ↦ siw.error_handler e
      | inr params ↦ apply_middlewares siw.middlewares (siw.handler.enqueue_audit_zip params)
    ]

  -- `HandlerWithOptions`: the routes that it adds to the router.
  unfoldable pub handler_with_options :
      {H : Type 0} → (String → ℕ → H) → ServerInterface H → Options H → List (Route H)
  unfolding call_get_audit_zip_job call_enqueue_audit_zip wrapper_of
  handler_with_options http_error handler options =
      let siw = wrapper_of http_error handler options in
      record {
        method = "GET";
        pattern = options.base_url & "/audit/jobs/{jobId}";
        serve = call_get_audit_zip_job siw;
      }
      ∷ record {
        method = "POST";
        pattern = options.base_url & "/audit/zip";
        serve = call_enqueue_audit_zip siw;
      }
      ∷ []

  -- `HandlerFromMuxWithBaseURL`
  unfoldable pub handler_from_mux_with_base_url :
      {H : Type 0} → (String → ℕ → H) → ServerInterface H → String → List (Route H)
  unfolding handler_with_options
  handler_from_mux_with_base_url http_error handler base_url =
      handler_with_options http_error handler
        (record { base_url = base_url; middlewares = []; error_handler = none })
