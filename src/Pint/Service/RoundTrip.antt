-- ===== src/Pint/Service/RoundTrip.antt =====
-- `GetInvoice` of apps/api/internal/pint/handler.go on what `IssueInvoice` has stored.
use prompt_pack.Base.{String, ◌&◌, ◌≡◌, refl, ap, ◌∙◌, ◌⊎◌, inl, inr, none, some, arith}
use mathlib.Core.Path.{ap₂}
use prompt_pack.Base.Dict.{find}
use prompt_pack.Base.Int.{ℤ}
use prompt_pack.Pint.Types.{Time, InvoiceDraft, Config, Uuid, InvoiceRecord}
use prompt_pack.Pint.Storage.{
  StorageApi, StoredObject, InMemoryStorage, ObjectMeta, in_memory, get_signed_url, head,
  get_object, add_duration,
}
use prompt_pack.Pint.Validator.{validate}
use prompt_pack.Pint.Ubl.{build_ubl}
use prompt_pack.Pint.Service.{
  Service, Libraries, Chance, Headers, write_json, object_key, issue_invoice, get_invoice,
  with_request_context, record_body, invoice_record, url_or_empty,
}
use prompt_pack.Pint.Service.Invoices.{issue_invoice_cases}

module _ (detect : String → String) (url_of : String → Time → String) (lib : Libraries)
    (ch : Chance) (h : Headers) where
  abbrev api : StorageApi InMemoryStorage
  api = in_memory detect url_of

  head_found :
      (key : String) (s : InMemoryStorage) (meta : ObjectMeta)
      → find s.metas key ≡ some meta
      → api.head key s ≡ inr meta
  unfolding in_memory
  head_found key s meta at = rw (at, head) refl

  url_found :
      (now : Time) (key : String) (ttl : ℤ) (s : InMemoryStorage) (obj : StoredObject)
      → find s.objects key ≡ some obj
      → api.get_signed_url now key ttl s ≡ inr (url_of ("/storage/" & key) (add_duration now ttl))
  unfolding in_memory
  url_found now key ttl s obj at = rw (at, get_signed_url) refl

  -- `GetInvoice` on an invoice whose XML is stored.
  get_invoice-Stored :
      (s : Service InMemoryStorage) (ch' : Chance) (h' : Headers) (id : String) (obj : StoredObject)
      (meta : ObjectMeta) (uuid : Uuid)
      → find s.storage.objects (object_key h'.tenant_id id "invoice.xml") ≡ some obj
      → find s.storage.metas (object_key h'.tenant_id id "invoice.xml") ≡ some meta
      → with_request_context h' ≡ none
      → lib.parse_uuid id ≡ some uuid
      → ((get_invoice api lib ch' h' s id).1
          ≡ write_json 200 (record_body (invoice_record api lib ch' h' s id meta uuid)))
        × ((invoice_record api lib ch' h' s id meta uuid).xml_url
            ≡ url_of
                ("/storage/" & object_key h'.tenant_id id "invoice.xml")
                (add_duration ch'.xml_signed s.cfg.sign_url_ttl))
  unfolding get_invoice invoice_record
  get_invoice-Stored s ch' h' id obj meta uuid object at good parsed = (
    rw
        (
          good,
          head_found (object_key h'.tenant_id id "invoice.xml") s.storage meta at,
          parsed,
          get_invoice,
        )
        refl,
    ap url_or_empty (
        url_found ch'.xml_signed (object_key h'.tenant_id id "invoice.xml") s.cfg.sign_url_ttl
          s.storage obj object),
  )

  -- An invoice that is issued with 201 is there: the object under the tenant's key is the XML that
  -- `BuildUBL` made of the draft, and a later `GET /invoices/{id}` of the same tenant with that id, where it is a
  -- UUID and both headers are set, answers 200 with the id, the time at which the XML was stored, and
  -- the signed URL of that key.
  pub get-issue :
      (s : Service InMemoryStorage) (body : String ⊎ InvoiceDraft) (ch' : Chance) (h' : Headers)
      (uuid : Uuid)
      → (issue_invoice api lib ch h s body).1.status ≡ 201
      → with_request_context h' ≡ none
      → h'.tenant_id ≡ h.tenant_id
      → lib.parse_uuid ch.invoice_id ≡ some uuid
      → let s' = (issue_invoice api lib ch h s body).0 in
        let key = object_key h.tenant_id ch.invoice_id "invoice.xml" in
        (draft : InvoiceDraft) × (xml : String) × (body ≡ inr draft)
        × (build_ubl lib.floats lib.formats.date_string lib.marshal_indent ch.invoice_id draft
              (validate lib.floats lib.formats s.cfg draft).totals
            ≡ some xml)
        × (get_object detect url_of key s'.storage ≡ inr (xml, detect xml))
        × ((found : InvoiceRecord) × ((get_invoice api lib ch' h' s' ch.invoice_id).1
              ≡ write_json 200 (record_body found))
            × (found.invoice_id ≡ uuid)
            × (found.updated_at ≡ ch.xml_times.1)
            × (found.xml_url
                ≡ url_of ("/storage/" & key) (add_duration ch'.xml_signed s.cfg.sign_url_ttl)))
  unfolding get_object
  get-issue s body ch' h' uuid created good tenant parsed =
      elim (issue_invoice_cases detect url_of lib ch h s body) [
        | inl (inl (_, status)) ↦ absurd (omega (arith, created, status))
        | inl (inr (_, status)) ↦ absurd (omega (arith, created, status))
        | inr (inl (_, _, _, _, status)) ↦ absurd (omega (arith, created, status))
        | inr (inr ((draft, xml, b, _, made, (object, meta), cfg), _, _, _)) ↦
            let s' = (issue_invoice api lib ch h s body).0 in
            let same : object_key h'.tenant_id ch.invoice_id "invoice.xml"
                ≡ object_key h.tenant_id ch.invoice_id "invoice.xml" =
              ap (λ (t : String). object_key t ch.invoice_id "invoice.xml") tenant in
            let (reply, url) =
              get_invoice-Stored s' ch' h' ch.invoice_id _ _ uuid
                (ap (find s'.storage.objects) same ∙ object)
                (ap (find s'.storage.metas) same ∙ meta) good parsed in
            (
              draft,
              xml,
              b,
              made,
              rw (object, get_object) refl,
              (
                invoice_record api lib ch' h' s' ch.invoice_id _ uuid,
                reply,
                unfold invoice_record in refl,
                unfold invoice_record in refl,
                url
                    ∙ ap₂
                        (λ (key : String) (c : Config).
                          url_of ("/storage/" & key) (add_duration ch'.xml_signed c.sign_url_ttl))
                        same cfg,
              ),
            )
      ]
