-- ===== src/Pint/Api.antt =====
-- apps/api/internal/pint/jp_pint.gen.go: the parameters of the three operations, their binding, and
-- the routes. The server of cmd/audit-zip does not use them: it calls the handlers by itself.
use prompt_pack.Base.{ℕ, String, ◌&◌, ◌⊎◌, inl, inr, none, List, [], ◌∷◌}
use prompt_pack.Glue.{
  ParamError, Binders, HttpRequest, Wrapper, Options, Route, ◌>>=◌, checked, bind_header,
  apply_middlewares, wrapper_of,
}

pub record IssueInvoiceParams : Type 0 where
  pub x_correlation_id : String
  pub x_tenant_id : String

pub record ValidateInvoiceParams : Type 0 where
  pub x_correlation_id : String
  pub x_tenant_id : String

pub record GetInvoiceParams : Type 0 where
  pub x_correlation_id : String
  pub x_tenant_id : String

pub record ServerInterface (H : Type 0) : Type 0 where
  pub issue_invoice : IssueInvoiceParams → H
  pub validate_invoice : ValidateInvoiceParams → H
  pub get_invoice : String → GetInvoiceParams → H

-- `Unimplemented`; the handler of a status without a body is given.
unfoldable pub unimplemented : {H : Type 0} → (ℕ → H) → ServerInterface H
unimplemented write_header = record {
  issue_invoice = λ params. write_header 501;
  validate_invoice = λ params. write_header 501;
  get_invoice = λ id params. write_header 501;
}

module _ (b : Binders) where
  unfoldable pub bind_issue_params : HttpRequest → ParamError ⊎ IssueInvoiceParams
  unfolding bind_header
  bind_issue_params r = do
    corr_id ← bind_header b.bind_uuid "X-Correlation-Id" r.headers
    tenant_id ← bind_header b.bind_string "X-Tenant-Id" r.headers
    inr (record { x_correlation_id = corr_id; x_tenant_id = tenant_id })

  unfoldable pub bind_validate_params : HttpRequest → ParamError ⊎ ValidateInvoiceParams
  unfolding bind_header
  bind_validate_params r = do
    corr_id ← bind_header b.bind_uuid "X-Correlation-Id" r.headers
    tenant_id ← bind_header b.bind_string "X-Tenant-Id" r.headers
    inr (record { x_correlation_id = corr_id; x_tenant_id = tenant_id })

  unfoldable pub bind_invoice_params :
      String → HttpRequest → ParamError ⊎ (String × GetInvoiceParams)
  unfolding bind_header checked
  bind_invoice_params raw_id r = do
    id ← checked "id" (b.bind_uuid raw_id)
    corr_id ← bind_header b.bind_uuid "X-Correlation-Id" r.headers
    tenant_id ← bind_header b.bind_string "X-Tenant-Id" r.headers
    inr (id, record { x_correlation_id = corr_id; x_tenant_id = tenant_id })

  module _ {H : Type 0} (siw : Wrapper (ServerInterface H) H) where
    unfoldable pub call_issue_invoice : (String → String) → HttpRequest → H
    unfolding bind_issue_params
    call_issue_invoice url_param r = elim (bind_issue_params r) [
      | inl e ↦ siw.error_handler e
      | inr params ↦ apply_middlewares siw.middlewares (siw.handler.issue_invoice params)
    ]

    unfoldable pub call_validate_invoice : (String → String) → HttpRequest → H
    unfolding bind_validate_params
    call_validate_invoice url_param r = elim (bind_validate_params r) [
      | inl e ↦ siw.error_handler e
      | inr params ↦ apply_middlewares siw.middlewares (siw.handler.validate_invoice params)
    ]

    unfoldable pub call_get_invoice : (String → String) → HttpRequest → H
    unfolding bind_invoice_params
    call_get_invoice url_param r = elim (bind_invoice_params (url_param "id") r) [
      | inl e ↦ siw.error_handler e
      | inr (id, params) ↦ apply_middlewares siw.middlewares (siw.handler.get_invoice id params)
    ]

  -- `HandlerWithOptions`: the routes that it adds to the router.
  unfoldable pub handler_with_options :
      {H : Type 0} → (String → ℕ → H) → ServerInterface H → Options H → List (Route H)
  unfolding call_issue_invoice call_validate_invoice call_get_invoice wrapper_of
  handler_with_options http_error handler options =
      let siw = wrapper_of http_error handler options in
      record {
        method = "POST";
        pattern = options.base_url & "/invoices";
        serve = call_issue_invoice siw;
      }
      ∷ record {
        method = "POST";
        pattern = options.base_url & "/invoices/validate";
        serve = call_validate_invoice siw;
      }
      ∷ record {
        method = "GET";
        pattern = options.base_url & "/invoices/{id}";
        serve = call_get_invoice siw;
      }
      ∷ []

  -- `HandlerFromMuxWithBaseURL`
  unfoldable pub handler_from_mux_with_base_url :
      {H : Type 0} → (String → ℕ → H) → ServerInterface H → String → List (Route H)
  unfolding handler_with_options
  handler_from_mux_with_base_url http_error handler base_url =
      handler_with_options http_error handler
        (record { base_url = base_url; middlewares = []; error_handler = none })
