-- ===== src/Server/Routes.antt =====
-- apps/api/cmd/audit-zip/main.go: the services, the routes of the server and what it does with a
-- request. chi's choice of a route is a parameter.
use prompt_pack.Base.{
  ℕ, String, ◌⊎◌, inl, inr, Bool, Option, none, some, List, [], ◌∷◌, ◌++◌, map, ◌==◌,
}
use prompt_pack.Base.Tests.{if◌then◌else◌}
use prompt_pack.Base.Lists.{get_elem?}
use prompt_pack.Base.Dict.{Dict}
use prompt_pack.Glue.{Binders, HttpRequest, Route}
use prompt_pack.AuditZip.Types.{AuditZipRequest}
use prompt_pack.AuditZip.JobState.{JobQueue}
use prompt_pack.AuditZip.Storage.{InMemoryStorage as ArchiveStorage}
use prompt_pack.AuditZip.Validator.{FloatOps}
use prompt_pack.AuditZip.Wire.{Response as AuditResponse, Body as AuditBody}
use prompt_pack.AuditZip.Service.{
  Service as AuditService, Encoders, Chance as AuditChance, Params, enqueue_audit_zip,
  get_audit_zip_job,
}
use prompt_pack.AuditZip.Api.{ServerInterface, handler_from_mux_with_base_url}
use prompt_pack.Auth.Hash.{trim_prefix}
use prompt_pack.Pint.Types.{Time, InvoiceDraft}
use prompt_pack.Pint.Storage.{StorageApi, InMemoryStorage, in_memory}
use prompt_pack.Pint.Service.{
  Service, Libraries, Chance, Headers, Response, Body, validate_invoice, issue_invoice, get_invoice,
}
use prompt_pack.Server.Cors.{header_get, cors_middleware}

-- What the server calls that is not the repository's code. `choose` is chi's choice among the methods
-- and patterns of the routes: an index and the parameters of the path, or a status.
pub record World : Type 0 where
  pub choose : String → String → List (String × String) → ℕ ⊎ (ℕ × (String → String))
  pub equal_fold : String → String → Bool
  pub binders : Binders
  pub decode_request : String → String ⊎ AuditZipRequest
  pub decode_draft : String → String ⊎ InvoiceDraft
  pub audit_floats : FloatOps
  pub encoders : Encoders
  pub libraries : Libraries
  pub detect_content_type : String → String
  pub url_of : String → Time → String

-- What one request sees of clocks and random sources, and what the other goroutines do to the queue
-- while it is served.
pub record Luck : Type 0 where
  pub audit : AuditChance
  pub invoice : Chance
  pub others : JobQueue ArchiveStorage → JobQueue ArchiveStorage

-- The two services with all that they hold.
pub record State : Type 0 where
  pub audit : AuditService ArchiveStorage
  pub invoices : Service InMemoryStorage

pub data ServerBody : Type 0 where
  audit_body : AuditBody → ServerBody
  invoice_body : Body → ServerBody
  text_body : String → ServerBody
  object_body : String → ServerBody
  empty_body : ServerBody

pub record HttpReply : Type 0 where
  pub status : ℕ
  pub headers : Dict String
  pub body : ServerBody

abbrev pub Handler : Type 0
Handler = HttpRequest → State → State × HttpReply

-- `writeJSON` of the audit export: the correlation id is sent back if there is one.
unfoldable pub audit_reply : AuditResponse → HttpReply
audit_reply r = record {
  status = r.status;
  headers =
      ("Content-Type", "application/json")
      ∷ ((if r.corr_id == "" then [] else ("X-Correlation-Id", r.corr_id) ∷ []) ++ r.extra);
  body = audit_body r.body;
}

unfoldable pub invoice_reply : Response → HttpReply
invoice_reply r = record {
  status = r.status;
  headers = ("Content-Type", "application/json") ∷ [];
  body = invoice_body r.body;
}

-- `http.Error`
unfoldable pub http_error : String → ℕ → Handler
http_error message status r st = (
  st,
  record {
    status = status;
    headers = ("Content-Type", "text/plain; charset=utf-8") ∷ [];
    body = text_body message;
  },
)

-- The route that serves stored invoices, on what `GetObject` returns.
unfoldable pub object_reply : String ⊎ (String × String) → HttpReply
object_reply (inl error) = record {
  status = 404;
  headers = ("Content-Type", "text/plain; charset=utf-8") ∷ [];
  body = text_body "404 page not found";
}
object_reply (inr (body, content_type)) = record {
  status = 200;
  headers = ("Content-Type", content_type) ∷ [];
  body = object_body body;
}

module _ (w : World) (luck : Luck) where
  abbrev pub storage_api : StorageApi InMemoryStorage
  storage_api = in_memory w.detect_content_type w.url_of

  -- The service of the audit export as the generated code calls it.
  unfoldable pub audit_interface : ServerInterface Handler
  unfolding audit_reply
  audit_interface = record {
    get_audit_zip_job = λ job_id p r st.
        let params : Params = record {
          corr_id = p.x_correlation_id;
          tenant_id = p.x_tenant_id;
          idempotency_key = "";
        } in
        let (s, reply) =
          get_audit_zip_job w.audit_floats w.encoders luck.audit params luck.others st.audit job_id
            p.cancel in
        (record st { audit = s }, audit_reply reply);
    enqueue_audit_zip = λ p r st.
        let params : Params = record {
          corr_id = p.x_correlation_id;
          tenant_id = p.x_tenant_id;
          idempotency_key = p.idempotency_key;
        } in
        let (s, reply) =
          enqueue_audit_zip w.audit_floats w.encoders luck.audit params st.audit
            (w.decode_request r.body) in
        (record st { audit = s }, audit_reply reply);
  }

  -- The headers that `withRequestContext` reads.
  unfoldable pub context_headers : HttpRequest → Headers
  unfolding header_get
  context_headers r = record {
    corr_id = header_get r.headers "X-Correlation-Id";
    tenant_id = header_get r.headers "X-Tenant-Id";
  }

  unfoldable pub answer_invoices : State → Service InMemoryStorage × Response → State × HttpReply
  unfolding invoice_reply
  answer_invoices st (s, reply) = (record st { invoices = s }, invoice_reply reply)

  unfoldable pub post_validate : Handler
  unfolding context_headers answer_invoices
  post_validate r st = answer_invoices st (
      validate_invoice storage_api w.libraries luck.invoice (context_headers r) st.invoices
        (w.decode_draft r.body))

  unfoldable pub post_invoice : Handler
  unfolding context_headers answer_invoices
  post_invoice r st = answer_invoices st (
      issue_invoice storage_api w.libraries luck.invoice (context_headers r) st.invoices
        (w.decode_draft r.body))

  unfoldable pub get_invoice_at : String → Handler
  unfolding context_headers answer_invoices
  get_invoice_at id r st =
      answer_invoices st
        (get_invoice storage_api w.libraries luck.invoice (context_headers r) st.invoices id)

  unfoldable pub get_storage : Handler
  unfolding object_reply
  get_storage r st = (
    st,
    object_reply (storage_api.get_object (trim_prefix r.path "/storage/") st.invoices.storage),
  )

  -- The routes of `main`, in the order in which they are added.
  unfoldable pub routes : List (Route Handler)
  unfolding http_error audit_interface handler_from_mux_with_base_url post_validate post_invoice
      get_invoice_at get_storage
  routes =
      handler_from_mux_with_base_url w.binders http_error audit_interface ""
      ++ record {
        method = "POST";
        pattern = "/invoices/validate";
        serve = λ url_param _. post_validate;
      }
        ∷ record { method = "POST"; pattern = "/invoices"; serve = λ url_param _. post_invoice }
        ∷ record {
          method = "GET";
          pattern = "/invoices/{id}";
          serve = λ url_param _. get_invoice_at (url_param "id");
        }
        ∷ record { method = "GET"; pattern = "/storage/*"; serve = λ url_param _. get_storage }
        ∷ []

  -- What chi is given to choose from.
  unfoldable pub table : List (String × String)
  unfolding routes
  table = map (λ (route : Route Handler). (route.method, route.pattern)) routes

  -- chi's reply where it has no route.
  abbrev refused : ℕ → HttpReply
  refused status = record { status = status; headers = []; body = empty_body }

  unfoldable pub dispatch : Handler
  unfolding routes table
  dispatch r st = elim (w.choose r.method r.path table) [
    | inl status ↦ (st, refused status)
    | inr (i, url_param) ↦ elim (get_elem? routes i) [
      | none ↦ (st, refused 404)
      | some route ↦ route.serve url_param r r st
    ]
  ]

  -- The reply behind the CORS headers.
  abbrev with_headers : Dict String → Option (State × HttpReply) → State → State × HttpReply
  with_headers headers none st = (st, record { status = 204; headers = headers; body = empty_body })
  with_headers headers (some (st', reply)) st =
      (st', record reply { headers = headers ++ reply.headers })

  -- One request, from the router's middleware on; `allowed` is `cfg.AllowedOrigins`.
  unfoldable pub handle : List String → Handler
  unfolding cors_middleware dispatch
  handle allowed r st =
      let (headers, next) = cors_middleware w.equal_fold allowed (λ r. dispatch r st) r in
      with_headers headers next st
