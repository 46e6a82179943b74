-- ===== src/Pint/Service/Persist.antt =====
-- What the handlers of apps/api/internal/pint/handler.go leave in the storage, for invoices of other ids.
use Prim.Native.String.{count}
use text.Mathlib.TextLemmas.{append_cancel_left, append_inj, length-append}
use prompt_pack.Base.{String, ◌&◌, ◌≡◌, refl, ap, ◌≢◌, ◌⊎◌, inl, inr, some, arith, ◌∙◌}
use prompt_pack.Base.Tests.{Option-cases, Sum-cases}
use prompt_pack.Base.Dict.{find}
use prompt_pack.Pint.Types.{InvoiceDraft, Time}
use prompt_pack.Pint.Storage.{StorageApi, StoredObject, InMemoryStorage, in_memory}
use prompt_pack.Pint.Service.{
  Service, Libraries, Chance, Headers, object_key, validate_invoice, issue_invoice, get_invoice,
  with_request_context,
}
use prompt_pack.Pint.Service.Foreign.{issue_invoice-Kept}

-- Among ids of one length and files with names of one length, a key names its id, whatever the
-- tenants are.
pub other_id_ne :
    (t t' id id' file file' : String)
    → count id ≡ count id'
    → count file ≡ count file'
    → id ≢ id'
    → object_key t id file ≢ object_key t' id' file'
unfolding object_key
other_id_ne t t' id id' file file' ids files ne e =
    let rest = id & ("/" & file) in
    let rest' = id' & ("/" & file') in
    let (heads, tails) = append_inj e (
      omega (
        arith,
        ids,
        files,
        ap count e,
        length-append t ("/invoices/" & rest),
        length-append t' ("/invoices/" & rest'),
        length-append "/invoices/" rest,
        length-append "/invoices/" rest',
        length-append id ("/" & file),
        length-append id' ("/" & file'),
        length-append "/" file,
        length-append "/" file',
      )) in
    ne (append_inj (append_cancel_left "/invoices/" rest rest' tails) ids).0

module _ (detect : String → String) (url_of : String → Time → String) (lib : Libraries)
    (ch : Chance) (h : Headers) where
  abbrev api : StorageApi InMemoryStorage
  api = in_memory detect url_of

  pub validate_invoice-storage :
      (s : Service InMemoryStorage) (body : String ⊎ InvoiceDraft)
      → (validate_invoice api lib ch h s body).0.storage ≡ s.storage
  unfolding validate_invoice
  validate_invoice-storage s body = elim (Option-cases (with_request_context h)) [
    | inr (e, bad) ↦ rw (bad, validate_invoice) refl
    | inl good ↦ elim (Sum-cases body) [
      | inl (e, bad) ↦ rw (good, validate_invoice, bad) refl
      | inr (draft, decoded) ↦ rw (good, validate_invoice, decoded) refl
    ]
  ]

  pub get_invoice-storage :
      (s : Service InMemoryStorage) (id : String)
      → (get_invoice api lib ch h s id).0.storage ≡ s.storage
  unfolding get_invoice
  get_invoice-storage s id = elim (Option-cases (with_request_context h)) [
    | inr (e, bad) ↦ rw (bad, get_invoice) refl
    | inl good ↦ elim (Sum-cases (api.head (object_key h.tenant_id id "invoice.xml") s.storage)) [
      | inl (e, gone) ↦ rw (good, get_invoice, gone) refl
      | inr (m, at) ↦ elim (Option-cases (lib.parse_uuid id)) [
        | inl wrong ↦ rw (good, get_invoice, at, wrong) refl
        | inr (uuid, parsed) ↦ rw (good, get_invoice, at, parsed) refl
      ]
    ]
  ]

  -- An object of an invoice with another id stays.
  pub issue_invoice-found :
      (s : Service InMemoryStorage) (body : String ⊎ InvoiceDraft) (t id : String)
      (obj : StoredObject)
      → count ch.invoice_id ≡ count id
      → ch.invoice_id ≢ id
      → find s.storage.objects (object_key t id "invoice.xml") ≡ some obj
      → find (issue_invoice api lib ch h s body).0.storage.objects (object_key t id "invoice.xml")
        ≡ some obj
  issue_invoice-found s body t id obj long ne at =
      ((issue_invoice-Kept detect url_of lib ch h s body).0 (object_key t id "invoice.xml")
        (other_id_ne h.tenant_id t ch.invoice_id id "invoice.xml" "invoice.xml" long refl ne)
        (other_id_ne h.tenant_id t ch.invoice_id id "invoice.pdf" "invoice.xml" long refl ne)).0
      ∙ at
