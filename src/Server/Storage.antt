-- ===== src/Server/Storage.antt =====
-- What a request to the server of apps/api/cmd/audit-zip/main.go leaves of the stored invoices.
use Prim.Native.String.{count}
use prompt_pack.Base.{String, ◌≡◌, ap, ◌∙◌, ◌≢◌, inl, inr, some, List, ◌==◌}
use prompt_pack.Base.Tests.{Bool-cases, Option-cases, Sum-cases}
use prompt_pack.Base.Lists.{get_elem?, All, All-get_elem?}
use prompt_pack.Base.Dict.{find}
use prompt_pack.Glue.{HttpRequest, Route, apply_middlewares}
use prompt_pack.AuditZip.Api.{
  bind_get_params, bind_enqueue_params, call_get_audit_zip_job, call_enqueue_audit_zip,
}
use prompt_pack.Pint.Storage.{StoredObject, InMemoryStorage}
use prompt_pack.Pint.Service.{object_key}
use prompt_pack.Pint.Service.Persist.{
  validate_invoice-storage, get_invoice-storage, issue_invoice-found,
}
use prompt_pack.Server.Cors.{cors_middleware}
use prompt_pack.Server.Routes.{
  World, Luck, State, Handler, context_headers, routes, dispatch, table, handle,
}

module _ (w : World) (luck : Luck) (t id : String) (obj : StoredObject)
    (long : count luck.invoice.invoice_id ≡ count id) (ne : luck.invoice.invoice_id ≢ id) where
  abbrev Holds : State → Type 0
  Holds st = find st.invoices.storage.objects (object_key t id "invoice.xml") ≡ some obj

  kept_by :
      (st : State) (s : InMemoryStorage)
      → s ≡ st.invoices.storage
      → Holds st
      → find s.objects (object_key t id "invoice.xml") ≡ some obj
  kept_by st s e at =
      ap (λ (x : InMemoryStorage). find x.objects (object_key t id "invoice.xml")) e ∙ at

  -- A route after which the object is still there.
  abbrev Keeps : Route Handler → Type 0
  Keeps route =
      (url_param : String → String) (r : HttpRequest) (st : State)
      → Holds st
      → Holds (route.serve url_param r r st).0

  routes-Keeps : All Keeps (routes w luck)
  unfolding routes apply_middlewares
  routes-Keeps = (
    λ up r st at. elim (Sum-cases (bind_get_params w.binders (up "jobId") r)) [
      | inl (e, bad) ↦ rw (bad, call_get_audit_zip_job) at
      | inr (p, good) ↦ rw (good, call_get_audit_zip_job) at
    ],
    (
      λ up r st at. elim (Sum-cases (bind_enqueue_params w.binders r)) [
        | inl (e, bad) ↦ rw (bad, call_enqueue_audit_zip) at
        | inr (p, good) ↦ rw (good, call_enqueue_audit_zip) at
      ],
      (
        λ up r st at.
            kept_by st _
              (validate_invoice-storage w.detect_content_type w.url_of w.libraries luck.invoice
                (context_headers w luck r) st.invoices (w.decode_draft r.body))
              at,
        (
          λ up r st at.
              issue_invoice-found w.detect_content_type w.url_of w.libraries luck.invoice
                (context_headers w luck r) st.invoices (w.decode_draft r.body) t id obj long ne at,
          (
            λ up r st at.
                kept_by st _
                  (get_invoice-storage w.detect_content_type w.url_of w.libraries luck.invoice
                    (context_headers w luck r) st.invoices (up "id"))
                  at,
            (λ up r st at. at, tt),
          ),
        ),
      ),
    ),
  )

  dispatch-Holds : (r : HttpRequest) (st : State) → Holds st → Holds (dispatch w luck r st).0
  unfolding dispatch
  dispatch-Holds r st at = elim (Sum-cases (w.choose r.method r.path (table w luck))) [
    | inl (status, refused) ↦ rw (refused, dispatch) at
    | inr ((i, up), chosen) ↦ elim (Option-cases (get_elem? (routes w luck) i)) [
      | inl missing ↦ rw (chosen, dispatch, missing) at
      | inr (route, found) ↦
          rw (chosen, dispatch, found)
            (All-get_elem? Keeps (routes w luck) i route routes-Keeps found up r st at)
    ]
  ]

  -- A request that draws another id leaves the object.
  pub handle-Holds :
      (allowed : List String) (r : HttpRequest) (st : State)
      → Holds st
      → Holds (handle w luck allowed r st).0
  unfolding handle cors_middleware
  handle-Holds allowed r st at = elim (Bool-cases (r.method == "OPTIONS")) [
    | inl options ↦ rw (options, handle) at
    | inr other ↦ rw (other, handle) (dispatch-Holds r st at)
  ]
