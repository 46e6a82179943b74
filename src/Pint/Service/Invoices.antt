-- ===== src/Pint/Service/Invoices.antt =====
-- What `IssueInvoice` of apps/api/internal/pint/handler.go stores and answers.
use prompt_pack.Pint.Service.{complete_issue, audited, aborted}
use prompt_pack.Pint.Pdf.{panics, default_string}
use prompt_pack.Pint.Audit.{AuditLog, MemoryAuditRecorder, hash_chain-OneMore}
use prompt_pack.Base.Recorder.{Recorded}
use prompt_pack.Base.{ap, ◌&&◌, ◌==◌, arith}
use prompt_pack.Base.{String, ◌≡◌, refl, ◌∙◌, ◌⊎◌, inl, inr, Bool, true, false, Option, none, some}
use prompt_pack.Base.Tests.{if◌then◌else◌, Bool-cases, Option-cases}
use Prim.Native.String.{len}
use prompt_pack.Base.Tests.{Sum-cases}
use prompt_pack.Base.Dict.{find, find-put_self, find-put_ne}
use prompt_pack.Pint.Types.{Time, InvoiceDraft, Totals, Config}
use prompt_pack.Pint.Storage.{StorageApi, InMemoryStorage, in_memory, put_object}
use prompt_pack.Pint.Validator.{validate}
use prompt_pack.Pint.Ubl.{build_ubl}
use prompt_pack.Pint.Pdf.{render}
use prompt_pack.Pint.Service.{
  Service, Libraries, Chance, Headers, Response, object_key, store_pdf, finish_issue, store_xml,
  answer_put, issue_draft, issue_body, issue_invoice, with_request_context, append_audit,
}
use prompt_pack.Pint.Service.Keys.{pdf-ne-xml}

module _ (detect : String → String) (url_of : String → Time → String) (lib : Libraries)
    (ch : Chance) (h : Headers) where
  abbrev api : StorageApi InMemoryStorage
  api = in_memory detect url_of

  -- The XML of the invoice is stored, with what `Head` says of it.
  abbrev pub Stored : InMemoryStorage → String → Type 0
  Stored s xml =
      (find s.objects (object_key h.tenant_id ch.invoice_id "invoice.xml")
        ≡ some (record { body = xml; content_type = detect xml; updated_at = ch.xml_times.0 }))
      × (find s.metas (object_key h.tenant_id ch.invoice_id "invoice.xml")
          ≡ some (record {
            key = object_key h.tenant_id ch.invoice_id "invoice.xml";
            size = len xml;
            updated_at = ch.xml_times.1;
            content_type = detect xml;
          }))

  -- The PDF does not take the place of the XML.
  store_pdf-Stored :
      (cfg : Config) (s : InMemoryStorage) (draft : InvoiceDraft) (totals : Totals) (xml : String)
      → Stored s xml
      → Stored (store_pdf api lib ch h cfg s draft totals).0 xml
  unfolding store_pdf in_memory
  store_pdf-Stored cfg s draft totals xml stored =
      elim (Sum-cases (render lib.renderers lib.formats.date_string cfg draft totals)) [
        | inl (e, failed) ↦ rw (failed, store_pdf) stored
        | inr (pdf, made) ↦ elim (Option-cases ch.pdf_ctx) [
          | inl fine ↦ rw (made, store_pdf, fine) (kept pdf)
          | inr (e, failed) ↦ rw (made, store_pdf, failed) (kept pdf)
        ]
      ]
    where
      kept :
          (pdf : String)
          → Stored
              (put_object detect url_of ch.pdf_ctx ch.pdf_times.0 ch.pdf_times.1
                (object_key h.tenant_id ch.invoice_id "invoice.pdf")
                pdf
                "application/pdf"
                s).0
              xml
      kept pdf = (
        find-put_ne s.objects _ _ _ (pdf-ne-xml h.tenant_id ch.invoice_id) ∙ stored.0,
        find-put_ne s.metas _ _ _ (pdf-ne-xml h.tenant_id ch.invoice_id) ∙ stored.1,
      )

  -- The draft is not issued: with 400 nothing changes, with 500 the audit log does not.
  abbrev pub NotIssued : Service InMemoryStorage → Service InMemoryStorage × Response → Type 0
  NotIssued s r = ((r.0 ≡ s) × (r.1.status ≡ 400)) ⊎ ((r.0.audit ≡ s.audit) × (r.1.status ≡ 500))

  -- The body is a valid draft, and the XML that `BuildUBL` makes of it is stored.
  abbrev pub XmlStored :
      Service InMemoryStorage → String ⊎ InvoiceDraft → Service InMemoryStorage → Type 0
  XmlStored s body s' =
      (draft : InvoiceDraft) × (xml : String) × (body ≡ inr draft)
      × ((validate lib.floats lib.formats s.cfg draft).valid ≡ true)
      × (build_ubl lib.floats lib.formats.date_string lib.marshal_indent ch.invoice_id draft
            (validate lib.floats lib.formats s.cfg draft).totals
          ≡ some xml)
      × Stored s'.storage xml
      × (s'.cfg ≡ s.cfg)

  -- The time zone of the PDF is one that `LoadLocation` knows.
  abbrev pub ZoneKnown : Service InMemoryStorage → Bool → Type 0
  ZoneKnown s known =
      lib.renderers.known_zone
        (if s.cfg.pdf_time_zone == "" then "Asia/Tokyo" else s.cfg.pdf_time_zone)
      ≡ known

  -- The handler panics: the XML is stored, there is no entry in the audit log, and no response.
  abbrev pub Aborted :
      Service InMemoryStorage → String ⊎ InvoiceDraft → Service InMemoryStorage × Response → Type 0
  Aborted s body r =
      XmlStored s body r.0
      × (s.cfg.pdf_enabled ≡ true)
      × ZoneKnown s false
      × (r.0.audit ≡ s.audit)
      × (r.1.status ≡ 0)

  -- What the audit log says of an invoice that is issued.
  abbrev pub Issuing : AuditLog → Type 0
  Issuing e =
      (e.audit_id ≡ ch.audit_id)
      × (e.tenant_id ≡ h.tenant_id)
      × (e.corr_id ≡ h.corr_id)
      × (e.action ≡ "invoice.issue")
      × (e.ts ≡ ch.audited)

  -- A valid draft is issued: its XML is stored, the audit log, where there is one, has one more entry,
  -- the answer is 201.
  abbrev pub Issued :
      Service InMemoryStorage → String ⊎ InvoiceDraft → Service InMemoryStorage × Response → Type 0
  Issued s body r =
      XmlStored s body r.0
      × ((s.cfg.pdf_enabled ≡ true) → ZoneKnown s true)
      × Recorded Issuing h.tenant_id s.audit r.0.audit
      × (r.1.status ≡ 201)

  append_audit-Recorded :
      (o : Option MemoryAuditRecorder)
      → Recorded Issuing h.tenant_id o
          (append_audit lib.digest ch o h.tenant_id h.corr_id "invoice.issue")
  unfolding append_audit
  append_audit-Recorded none = refl
  append_audit-Recorded (some m) =
      let (same, more) = hash_chain-OneMore lib.digest m (record {
        audit_id = ch.audit_id;
        corr_id = h.corr_id;
        tenant_id = h.tenant_id;
        actor = "system";
        action = "invoice.issue";
        ts = ch.audited;
        hash = "";
        prev_hash = "";
      }) in
      (
        _,
        _,
        refl,
        (
          ap (λ (e : AuditLog). e.audit_id) same,
          ap (λ (e : AuditLog). e.tenant_id) same,
          ap (λ (e : AuditLog). e.corr_id) same,
          ap (λ (e : AuditLog). e.action) same,
          ap (λ (e : AuditLog). e.ts) same,
        ),
        more,
      )

  -- The panic, or all that comes after the XML.
  abbrev Finished : Service InMemoryStorage → String → Service InMemoryStorage × Response → Type 0
  Finished s xml r =
      Stored r.0.storage xml
      × (r.0.cfg ≡ s.cfg)
      × (((s.cfg.pdf_enabled ≡ true) × ZoneKnown s false × (r.0.audit ≡ s.audit) × (r.1.status ≡ 0))
          ⊎ (((s.cfg.pdf_enabled ≡ true) → ZoneKnown s true)
              × Recorded Issuing h.tenant_id s.audit r.0.audit
              × (r.1.status ≡ 201)))

  finish_issue-Finished :
      (s : Service InMemoryStorage) (draft : InvoiceDraft) (totals : Totals) (xml : String)
      → Stored s.storage xml
      → Finished s xml (finish_issue api lib ch h s draft totals)
  unfolding complete_issue audited aborted finish_issue panics default_string
  finish_issue-Finished s draft totals xml stored =
      elim (Bool-cases (s.cfg.pdf_enabled && panics lib.renderers s.cfg)) [
        | inl panicking ↦
            rw (panicking, finish_issue)
              (stored, refl, inl (ground (arith, panicking), zone_unknown panicking, refl, refl))
        | inr fine ↦
            rw (fine, finish_issue)
              (
                chosen s.cfg.pdf_enabled,
                refl,
                inr (λ on. zone_known on fine, append_audit-Recorded s.audit, refl),
              )
      ]
    where
      zone_unknown : (s.cfg.pdf_enabled && panics lib.renderers s.cfg) ≡ true → ZoneKnown s false
      zone_unknown h = ground (arith, h)

      zone_known :
          s.cfg.pdf_enabled ≡ true
          → (s.cfg.pdf_enabled && panics lib.renderers s.cfg) ≡ false
          → ZoneKnown s true
      zone_known on h = ground (arith, on, h)

      chosen :
          (b : Bool)
          → Stored
              (if b then store_pdf api lib ch h s.cfg s.storage draft totals else (s.storage, "")).0
              xml
      chosen true = store_pdf-Stored s.cfg s.storage draft totals xml stored
      chosen false = stored

  -- `POST /invoices` refuses the request with 400 and changes nothing, or fails with 500 and leaves the
  -- audit log; or the draft is valid and the XML that `BuildUBL` makes of it is stored under the tenant's
  -- key, also after the PDF is stored. Then PDFs are on with a time zone that `LoadLocation` does not
  -- know, the handler panics without a response, and the audit log is as it was; or the answer is 201, a
  -- recorder that is there has one more entry in the tenant's log, an `invoice.issue` with the request's ids, and
  -- the other tenants' logs as they were, and without a recorder there is still none.
  pub issue_invoice_cases :
      (s : Service InMemoryStorage) (body : String ⊎ InvoiceDraft)
      → let r = issue_invoice api lib ch h s body in
        NotIssued s r ⊎ Aborted s body r ⊎ Issued s body r
  unfolding issue_invoice put_object in_memory
  issue_invoice_cases s body = elim (Option-cases (with_request_context h)) [
    | inr (e, bad) ↦ rw (bad, issue_invoice) (inl (inl (refl, refl)))
    | inl good ↦ rw (good, issue_invoice) (decoded body refl)
  ]
    where
      built :
          (draft : InvoiceDraft)
          → body ≡ inr draft
          → (validate lib.floats lib.formats s.cfg draft).valid ≡ true
          → (o : Option String)
          → build_ubl lib.floats lib.formats.date_string lib.marshal_indent ch.invoice_id draft
              (validate lib.floats lib.formats s.cfg draft).totals
            ≡ o
          → let r =
              store_xml api lib ch h s draft
                (validate lib.floats lib.formats s.cfg draft).totals
                o in
            NotIssued s r ⊎ Aborted s body r ⊎ Issued s body r
      built draft b v none e = inl (inr (refl, refl))
      built draft b v (some xml) e = put ch.xml_ctx
        where
          put :
              (o : Option String)
              → let r =
                  answer_put api lib ch h s draft
                    (validate lib.floats lib.formats s.cfg draft).totals
                    (put_object detect url_of o ch.xml_times.0 ch.xml_times.1
                      (object_key h.tenant_id ch.invoice_id "invoice.xml")
                      xml
                      "application/xml"
                      s.storage) in
                NotIssued s r ⊎ Aborted s body r ⊎ Issued s body r
          put (some x) = inl (inr (refl, refl))
          put none =
              let (kept, cfg, end) =
                finish_issue-Finished
                  (record s {
                    storage =
                        (put_object detect url_of none ch.xml_times.0 ch.xml_times.1
                          (object_key h.tenant_id ch.invoice_id "invoice.xml") xml "application/xml"
                          s.storage).0;
                  })
                  draft (validate lib.floats lib.formats s.cfg draft).totals xml
                  (find-put_self s.storage.objects _ _, find-put_self s.storage.metas _ _) in
              elim end [
                | inl (on, zone, log, status) ↦
                    inr (inl ((draft, xml, b, v, e, kept, cfg), on, zone, log, status))
                | inr (zone, log, status) ↦
                    inr (inr ((draft, xml, b, v, e, kept, cfg), zone, log, status))
              ]

      decoded :
          (o : String ⊎ InvoiceDraft)
          → body ≡ o
          → let r = issue_body api lib ch h s o in
            NotIssued s r ⊎ Aborted s body r ⊎ Issued s body r
      decoded (inl e) b = inl (inl (refl, refl))
      decoded (inr draft) b =
          elim (Bool-cases (validate lib.floats lib.formats s.cfg draft).valid) [
            | inr bad ↦ rw (bad, issue_draft) (inl (inl (refl, refl)))
            | inl good ↦ rw (good, issue_draft) (built draft b good _ refl)
          ]
