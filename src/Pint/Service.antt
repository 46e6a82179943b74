-- ===== src/Pint/Service.antt =====
-- apps/api/internal/pint/handler.go: the HTTP handlers of the invoices, over the validation, the storage
-- and the audit log. A decoded body is what `encoding/json` gives; logging is left out.
pub mod Keys
pub mod Invoices
pub mod RoundTrip
pub mod Foreign
pub mod Persist
use prompt_pack.Base.{
  ℕ, String, ◌&◌, ◌⊎◌, inl, inr, true, not, ◌&&◌, ◌||◌, Option, none, some, List, ◌==◌,
}
use prompt_pack.Base.Tests.{if◌then◌else◌}
use prompt_pack.Pint.Types.{
  Time, FloatOps, InvoiceDraft, Totals, ValidationErrorItem, ValidationResult, Config,
  InternalError, Uuid, InvoiceRecord,
}
use prompt_pack.Pint.Storage.{StorageApi, ObjectMeta, add_duration}
use prompt_pack.Pint.Audit.{MemoryAuditRecorder, Digest, hash_chain}
use prompt_pack.Pint.Validator.{Formats, validate}
use prompt_pack.Pint.Ubl.{UblInvoice, build_ubl}
use prompt_pack.Pint.Pdf.{Renderers, render, panics}

-- The JSON of a response, by the literals of the handlers.
pub data Body : Type 0 where
  error_body : String → String → Body
  errors_body : List ValidationErrorItem → Body
  result_body : ValidationResult → Body
  internal_body : InternalError → Body
  issued_body : String → String → String → String → Time → Body
  record_body : InvoiceRecord → Body
  no_body : Body

pub record Response : Type 0 where
  pub status : ℕ
  pub body : Body

unfoldable pub write_json : ℕ → Body → Response
write_json status body = record { status = status; body = body }

-- The headers; an absent one is "".
pub record Headers : Type 0 where
  pub corr_id : String
  pub tenant_id : String

-- `audit` may be nil. The validator and the PDF renderer hold the same configuration.
pub record Service (S : Type 0) : Type 0 where
  pub cfg : Config
  pub storage : S
  pub audit : Option MemoryAuditRecorder

unfoldable pub new_service : {S : Type 0} → Config → S → Option MemoryAuditRecorder → Service S
new_service cfg storage audit = record { cfg = cfg; storage = storage; audit = audit }

-- The code that is not the repository's: float64s, formats, `encoding/xml`, the PDF's makers,
-- SHA-256, and `uuid.Parse`.
pub record Libraries : Type 0 where
  pub floats : FloatOps
  pub formats : Formats
  pub marshal_indent : UblInvoice → Option String
  pub renderers : Renderers
  pub digest : Digest
  pub parse_uuid : String → Option Uuid

-- What one request sees: the ids that are drawn for it, `ctx.Err()` and the clock at its calls.
pub record Chance : Type 0 where
  pub invoice_id : String
  pub audit_id : String
  pub entry_id : Uuid
  pub xml_ctx : Option String
  pub pdf_ctx : Option String
  pub xml_times : Time × Time
  pub pdf_times : Time × Time
  pub xml_signed : Time
  pub pdf_signed : Time
  pub audited : Time
  pub answered : Time

-- `withRequestContext`
unfoldable pub with_request_context : Headers → Option String
with_request_context h =
    if h.corr_id == "" || h.tenant_id == ""
    then some "missing X-Correlation-Id or X-Tenant-Id"
    else none

-- `fmt.Sprintf("%s/invoices/%s/invoice.xml", tenantID, id)`, and the same for the PDF.
unfoldable pub object_key : String → String → String → String
object_key tenant_id id file = tenant_id & ("/invoices/" & (id & ("/" & file)))

unfoldable pub bad_request : String → Response
unfolding write_json
bad_request message = write_json 400 (error_body "BAD_REQUEST" message)

unfoldable pub internal_error : String → Response
unfolding write_json
internal_error message =
    write_json 500
      (internal_body (record { code = "INTERNAL_ERROR"; message = message; retryable = true }))

-- A handler that panics: `net/http` closes the connection and sends no response, for which the status 0
-- stands.
unfoldable pub aborted : Response
unfolding write_json
aborted = write_json 0 no_body

-- `url, _ := …`: the empty text for an error.
unfoldable pub url_or_empty : String ⊎ String → String
url_or_empty (inl e) = ""
url_or_empty (inr url) = url

unfoldable pub append_audit :
    Digest
    → Chance
    → Option MemoryAuditRecorder
    → String
    → String
    → String
    → Option MemoryAuditRecorder
append_audit d ch none tenant_id corr_id action = none
append_audit d ch (some m) tenant_id corr_id action =
    some
      (hash_chain d m tenant_id (record {
        audit_id = ch.audit_id;
        corr_id = corr_id;
        tenant_id = tenant_id;
        actor = "system";
        action = action;
        ts = ch.audited;
        hash = "";
        prev_hash = "";
      })).0

module _ {S : Type 0} (api : StorageApi S) (lib : Libraries) (ch : Chance) (h : Headers) where
  unfoldable pub audited : Service S → String → Service S
  unfolding append_audit
  audited s action = record s {
    audit = append_audit lib.digest ch s.audit h.tenant_id h.corr_id action;
  }

  -- `ValidateInvoice`; a body that does not decode comes with its error.
  unfoldable pub validate_invoice : Service S → String ⊎ InvoiceDraft → Service S × Response
  unfolding with_request_context bad_request write_json audited
  validate_invoice s body = elim (with_request_context h) [
    | some e ↦ (s, bad_request e)
    | none ↦ elim body [
      | inl e ↦ (s, bad_request ("invalid JSON: " & e))
      | inr draft ↦ (
        audited s "invoice.validate",
        write_json 200 (result_body (validate lib.floats lib.formats s.cfg draft)),
      )
    ]
  ]

  -- The PDF of `IssueInvoice`, where `Render` does not panic: the storage after it, and its URL.
  unfoldable pub store_pdf : Config → S → InvoiceDraft → Totals → S × String
  unfolding object_key url_or_empty
  store_pdf cfg storage draft totals =
      let key = object_key h.tenant_id ch.invoice_id "invoice.pdf" in
      elim (render lib.renderers lib.formats.date_string cfg draft totals) [
        | inl e ↦ (storage, "")
        | inr pdf ↦
            let (after, failed) =
              api.put_object ch.pdf_ctx ch.pdf_times.0 ch.pdf_times.1 key pdf "application/pdf"
                storage in
            elim failed [
              | some e ↦ (after, "")
              | none ↦ (
                after,
                url_or_empty (api.get_signed_url ch.pdf_signed key cfg.sign_url_ttl after),
              )
            ]
      ]

  -- `IssueInvoice` from the PDF on, where `Render` does not panic.
  unfoldable pub complete_issue : Service S → InvoiceDraft → Totals → Service S × Response
  unfolding object_key url_or_empty store_pdf audited write_json
  complete_issue s draft totals =
      let xml_url = url_or_empty (
        api.get_signed_url ch.xml_signed (object_key h.tenant_id ch.invoice_id "invoice.xml")
          s.cfg.sign_url_ttl s.storage) in
      let (storage, pdf_url) =
        if s.cfg.pdf_enabled then store_pdf s.cfg s.storage draft totals else (s.storage, "") in
      (
        audited (record s { storage = storage }) "invoice.issue",
        write_json 201 (
            issued_body ch.invoice_id "issued" xml_url pdf_url
              (add_duration ch.answered s.cfg.sign_url_ttl)),
      )

  -- `IssueInvoice` once the XML is stored. A panic of `Render` ends the handler there, before the entry in
  -- the audit log.
  unfoldable pub finish_issue : Service S → InvoiceDraft → Totals → Service S × Response
  unfolding complete_issue aborted
  finish_issue s draft totals =
      if s.cfg.pdf_enabled && panics lib.renderers s.cfg
      then (s, aborted)
      else complete_issue s draft totals

  -- `IssueInvoice` on what the `PutObject` of the XML has done and returned.
  unfoldable pub answer_put :
      Service S → InvoiceDraft → Totals → S × Option String → Service S × Response
  unfolding internal_error finish_issue
  answer_put s draft totals (storage, some e) =
      (record s { storage = storage }, internal_error "storage error")
  answer_put s draft totals (storage, none) =
      finish_issue (record s { storage = storage }) draft totals

  -- `IssueInvoice` on the XML that `BuildUBL` has returned.
  unfoldable pub store_xml :
      Service S → InvoiceDraft → Totals → Option String → Service S × Response
  unfolding object_key internal_error answer_put
  store_xml s draft totals none = (s, internal_error "failed to generate UBL XML")
  store_xml s draft totals (some xml_body) = answer_put s draft totals (
      api.put_object ch.xml_ctx ch.xml_times.0 ch.xml_times.1
        (object_key h.tenant_id ch.invoice_id "invoice.xml") xml_body "application/xml" s.storage)

  -- `IssueInvoice` on a draft.
  unfoldable pub issue_draft : Service S → InvoiceDraft → Service S × Response
  unfolding write_json store_xml
  issue_draft s draft =
      let validation = validate lib.floats lib.formats s.cfg draft in
      if not validation.valid
      then (s, write_json 400 (errors_body validation.errors))
      else store_xml s draft validation.totals (
          build_ubl lib.floats lib.formats.date_string lib.marshal_indent ch.invoice_id draft
            validation.totals)

  -- `IssueInvoice` behind `withRequestContext`.
  unfoldable pub issue_body : Service S → String ⊎ InvoiceDraft → Service S × Response
  unfolding bad_request issue_draft
  issue_body s (inl e) = (s, bad_request ("invalid JSON: " & e))
  issue_body s (inr draft) = issue_draft s draft

  unfoldable pub issue_invoice : Service S → String ⊎ InvoiceDraft → Service S × Response
  unfolding with_request_context bad_request issue_body
  issue_invoice s body = elim (with_request_context h) [
    | some e ↦ (s, bad_request e)
    | none ↦ issue_body s body
  ]

  unfoldable pub invoice_record : Service S → String → ObjectMeta → Uuid → InvoiceRecord
  unfolding object_key url_or_empty
  invoice_record s id meta uuid = record {
    audit = some (record {
      action = "invoice.get";
      actor = "system";
      audit_id = ch.entry_id;
      corr_id = h.corr_id;
      hash = "";
      prev_hash = "";
      tenant_id = h.tenant_id;
      timestamp = meta.updated_at;
    });
    created_at = meta.updated_at;
    invoice_id = uuid;
    pdf_url = some (
        url_or_empty (
          api.get_signed_url ch.pdf_signed (object_key h.tenant_id id "invoice.pdf")
            s.cfg.sign_url_ttl s.storage));
    status = "issued";
    updated_at = meta.updated_at;
    xml_url = url_or_empty (
        api.get_signed_url ch.xml_signed (object_key h.tenant_id id "invoice.xml")
          s.cfg.sign_url_ttl s.storage);
  }

  unfoldable pub get_invoice : Service S → String → Service S × Response
  unfolding with_request_context bad_request write_json object_key invoice_record audited
  get_invoice s id = elim (with_request_context h) [
    | some e ↦ (s, bad_request e)
    | none ↦ elim (api.head (object_key h.tenant_id id "invoice.xml") s.storage) [
      | inl e ↦ (s, write_json 404 (error_body "NOT_FOUND" "invoice not found"))
      | inr meta ↦ elim (lib.parse_uuid id) [
        | none ↦ (s, bad_request "invalid invoice ID format")
        | some uuid ↦
            (audited s "invoice.get", write_json 200 (record_body (invoice_record s id meta uuid)))
      ]
    ]
  ]
