-- ===== src/Pint/Service/Foreign.antt =====
-- `IssueInvoice` of one tenant does not touch what `GetInvoice` shows to another.
use prompt_pack.Base.{
  ◌&&◌, ◌≢◌, String, ◌&◌, ◌≡◌, refl, ap, ◌∙◌, ◌⊎◌, inl, inr, Bool, true, false, Option, none, some,
}
use prompt_pack.Base.Tests.{if◌then◌else◌, Bool-cases, Option-cases}
use Prim.Native.String.{count}
use prompt_pack.Base.Tests.{Sum-cases}
use prompt_pack.Base.Dict.{find, find-put_ne}
use prompt_pack.Pint.Types.{Time, InvoiceDraft, Totals, Config, Uuid, InvoiceRecord}
use prompt_pack.Pint.Storage.{
  StorageApi, InMemoryStorage, ObjectMeta, in_memory, put_object, get_signed_url, head,
  add_duration,
}
use prompt_pack.Pint.Validator.{validate}
use prompt_pack.Pint.Pdf.{render, panics}
use prompt_pack.Pint.Service.{
  Service, Libraries, Chance, Headers, write_json, object_key, store_pdf, finish_issue,
  complete_issue, store_xml, answer_put, issue_draft, issue_body, issue_invoice, get_invoice,
  with_request_context, record_body, invoice_record, url_or_empty, invoice_record, url_or_empty,
}
use prompt_pack.Pint.Service.Keys.{foreign_ne}

module _ (detect : String → String) (url_of : String → Time → String) (lib : Libraries)
    (ch : Chance) (h : Headers) where
  abbrev api : StorageApi InMemoryStorage
  api = in_memory detect url_of

  -- What is stored under the other keys stays.
  abbrev pub Kept : InMemoryStorage → InMemoryStorage → Type 0
  Kept s s' =
      (k : String)
      → object_key h.tenant_id ch.invoice_id "invoice.xml" ≢ k
      → object_key h.tenant_id ch.invoice_id "invoice.pdf" ≢ k
      → (find s'.objects k ≡ find s.objects k) × (find s'.metas k ≡ find s.metas k)

  store_pdf-Kept :
      (cfg : Config) (s : InMemoryStorage) (draft : InvoiceDraft) (totals : Totals)
      → Kept s (store_pdf api lib ch h cfg s draft totals).0
  unfolding store_pdf in_memory put_object
  store_pdf-Kept cfg s draft totals =
      elim (Sum-cases (render lib.renderers lib.formats.date_string cfg draft totals)) [
        | inl (e, failed) ↦ rw (failed, store_pdf) (λ k xml pdf. (refl, refl))
        | inr (pdf, made) ↦ elim (Option-cases ch.pdf_ctx) [
          | inl fine ↦ rw (made, store_pdf, fine) (put_one pdf)
          | inr (e, failed) ↦ rw (made, store_pdf, failed) (put_one pdf)
        ]
      ]
    where
      put_one :
          (pdf : String)
          → Kept s
              (put_object detect url_of ch.pdf_ctx ch.pdf_times.0 ch.pdf_times.1
                (object_key h.tenant_id ch.invoice_id "invoice.pdf")
                pdf
                "application/pdf"
                s).0
      put_one pdf k ne_xml ne_pdf =
          (find-put_ne s.objects _ k _ ne_pdf, find-put_ne s.metas _ k _ ne_pdf)

  finish_issue-Kept :
      (s : Service InMemoryStorage) (draft : InvoiceDraft) (totals : Totals)
      → let r = finish_issue api lib ch h s draft totals in
        Kept s.storage r.0.storage × (r.0.cfg ≡ s.cfg)
  unfolding complete_issue finish_issue
  finish_issue-Kept s draft totals =
      elim (Bool-cases (s.cfg.pdf_enabled && panics lib.renderers s.cfg)) [
        | inl panicking ↦ rw (panicking, finish_issue) (λ k xml pdf. (refl, refl), refl)
        | inr fine ↦ rw (fine, finish_issue) (chosen s.cfg.pdf_enabled, refl)
      ]
    where
      chosen :
          (b : Bool)
          → Kept s.storage
              (if b then store_pdf api lib ch h s.cfg s.storage draft totals else (s.storage, "")).0
      chosen true = store_pdf-Kept s.cfg s.storage draft totals
      chosen false = λ k xml pdf. (refl, refl)

  put-Kept :
      (o : Option String) (s : Service InMemoryStorage) (draft : InvoiceDraft) (totals : Totals)
      (xml : String)
      → let r = answer_put api lib ch h s draft totals (
          put_object detect url_of o ch.xml_times.0 ch.xml_times.1
            (object_key h.tenant_id ch.invoice_id "invoice.xml")
            xml
            "application/xml"
            s.storage) in
        Kept s.storage r.0.storage × (r.0.cfg ≡ s.cfg)
  unfolding answer_put put_object
  put-Kept (some x) s draft totals xml = (
    λ k ne_xml ne_pdf.
        (find-put_ne s.storage.objects _ k _ ne_xml, find-put_ne s.storage.metas _ k _ ne_xml),
    refl,
  )
  put-Kept none s draft totals xml =
      let (kept, cfg) = finish_issue-Kept (record s { storage = s' }) draft totals in
      (
        λ k ne_xml ne_pdf.
            let (o, m) = kept k ne_xml ne_pdf in
            (
              o ∙ find-put_ne s.storage.objects _ k _ ne_xml,
              m ∙ find-put_ne s.storage.metas _ k _ ne_xml,
            ),
        cfg,
      )
    where
      s' : InMemoryStorage
      s' =
          (put_object detect url_of none ch.xml_times.0 ch.xml_times.1
            (object_key h.tenant_id ch.invoice_id "invoice.xml") xml "application/xml" s.storage).0

  pub issue_invoice-Kept :
      (s : Service InMemoryStorage) (body : String ⊎ InvoiceDraft)
      → let r = issue_invoice api lib ch h s body in Kept s.storage r.0.storage × (r.0.cfg ≡ s.cfg)
  unfolding issue_invoice in_memory put_object
  issue_invoice-Kept s body = elim (Option-cases (with_request_context h)) [
    | inr (e, bad) ↦ rw (bad, issue_invoice) (λ k xml pdf. (refl, refl), refl)
    | inl good ↦ rw (good, issue_invoice) (decoded body)
  ]
    where
      made :
          (draft : InvoiceDraft) (totals : Totals) (o : Option String)
          → let r = store_xml api lib ch h s draft totals o in
            Kept s.storage r.0.storage × (r.0.cfg ≡ s.cfg)
      made draft totals none = (λ k xml pdf. (refl, refl), refl)
      made draft totals (some xml) = put-Kept ch.xml_ctx s draft totals xml

      decoded :
          (o : String ⊎ InvoiceDraft)
          → let r = issue_body api lib ch h s o in Kept s.storage r.0.storage × (r.0.cfg ≡ s.cfg)
      decoded (inl e) = (λ k xml pdf. (refl, refl), refl)
      decoded (inr draft) = elim (Bool-cases (validate lib.floats lib.formats s.cfg draft).valid) [
        | inr bad ↦ rw (bad, issue_draft) (λ k xml pdf. (refl, refl), refl)
        | inl good ↦ rw (good, issue_draft) (made draft _ _)
      ]

  url_same :
      (s s' : Service InMemoryStorage) (now : Time) (key : String)
      → s'.cfg ≡ s.cfg
      → find s'.storage.objects key ≡ find s.storage.objects key
      → url_or_empty (api.get_signed_url now key s'.cfg.sign_url_ttl s'.storage)
        ≡ url_or_empty (api.get_signed_url now key s.cfg.sign_url_ttl s.storage)
  unfolding in_memory url_or_empty
  url_same s s' now key cfg at = elim (Option-cases (find s.storage.objects key)) [
    | inl gone ↦ rw (get_signed_url, at, gone) refl
    | inr (o, found) ↦
        rw (get_signed_url, at, found)
          (ap (λ (c : Config). url_of ("/storage/" & key) (add_duration now c.sign_url_ttl)) cfg)
  ]

  invoice_record_same :
      (s s' : Service InMemoryStorage) (ch' : Chance) (h' : Headers) (id : String) (m : ObjectMeta)
      (uuid : Uuid)
      → s'.cfg ≡ s.cfg
      → find s'.storage.objects (object_key h'.tenant_id id "invoice.xml")
        ≡ find s.storage.objects (object_key h'.tenant_id id "invoice.xml")
      → find s'.storage.objects (object_key h'.tenant_id id "invoice.pdf")
        ≡ find s.storage.objects (object_key h'.tenant_id id "invoice.pdf")
      → invoice_record api lib ch' h' s' id m uuid ≡ invoice_record api lib ch' h' s id m uuid
  unfolding invoice_record in_memory get_signed_url
  invoice_record_same s s' ch' h' id m uuid cfg xml pdf =
      let x = url_same s s' ch'.xml_signed (object_key h'.tenant_id id "invoice.xml") cfg xml in
      let p = url_same s s' ch'.pdf_signed (object_key h'.tenant_id id "invoice.pdf") cfg pdf in
      λ i. record (invoice_record api lib ch' h' s id m uuid) {
        pdf_url = some (p i);
        xml_url = x i;
      }

  -- `GetInvoice` answers alike on two storages that agree at the two keys it asks for.
  get_invoice-reply :
      (s s' : Service InMemoryStorage) (ch' : Chance) (h' : Headers) (id : String)
      → s'.cfg ≡ s.cfg
      → find s'.storage.metas (object_key h'.tenant_id id "invoice.xml")
        ≡ find s.storage.metas (object_key h'.tenant_id id "invoice.xml")
      → find s'.storage.objects (object_key h'.tenant_id id "invoice.xml")
        ≡ find s.storage.objects (object_key h'.tenant_id id "invoice.xml")
      → find s'.storage.objects (object_key h'.tenant_id id "invoice.pdf")
        ≡ find s.storage.objects (object_key h'.tenant_id id "invoice.pdf")
      → (get_invoice api lib ch' h' s' id).1 ≡ (get_invoice api lib ch' h' s id).1
  unfolding get_invoice in_memory head
  get_invoice-reply s s' ch' h' id cfg meta xml pdf =
      elim (Option-cases (with_request_context h')) [
        | inr (e, bad) ↦ rw (bad, get_invoice) refl
        | inl good ↦
            elim (Option-cases (find s.storage.metas (object_key h'.tenant_id id "invoice.xml"))) [
              | inl gone ↦ rw (good, get_invoice, meta, gone) refl
              | inr (m, at) ↦ elim (Option-cases (lib.parse_uuid id)) [
                | inl wrong ↦ rw (good, get_invoice, meta, at, wrong) refl
                | inr (uuid, parsed) ↦
                    rw (good, get_invoice, meta, at, parsed)
                      (ap (λ (r : InvoiceRecord). write_json 200 (record_body r))
                        (invoice_record_same s s' ch' h' id m uuid cfg xml pdf))
              ]
            ]
      ]

  -- What any tenant gets for the id of an invoice is the same before and after another tenant's
  -- `POST /invoices` has drawn that id, whatever comes of that request.
  pub get-issue_foreign :
      (s : Service InMemoryStorage) (body : String ⊎ InvoiceDraft) (ch' : Chance) (h' : Headers)
      → h.tenant_id ≢ h'.tenant_id
      → (get_invoice api lib ch' h' (issue_invoice api lib ch h s body).0 ch.invoice_id).1
        ≡ (get_invoice api lib ch' h' s ch.invoice_id).1
  get-issue_foreign s body ch' h' other =
      let (kept, cfg) = issue_invoice-Kept s body in
      let apart : (file file' : String)
          → count file ≡ count file'
          → object_key h.tenant_id ch.invoice_id file
            ≢ object_key h'.tenant_id ch.invoice_id file' =
        λ file file' same.
          foreign_ne h.tenant_id h'.tenant_id ch.invoice_id file file' same other in
      let xml =
        kept (object_key h'.tenant_id ch.invoice_id "invoice.xml")
          (apart "invoice.xml" "invoice.xml" refl) (apart "invoice.pdf" "invoice.xml" refl) in
      let pdf =
        kept (object_key h'.tenant_id ch.invoice_id "invoice.pdf")
          (apart "invoice.xml" "invoice.pdf" refl) (apart "invoice.pdf" "invoice.pdf" refl) in
      get_invoice-reply s (issue_invoice api lib ch h s body).0 ch' h' ch.invoice_id cfg xml.1 xml.0
        pdf.0
