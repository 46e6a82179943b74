-- ===== src/Server/Download.antt =====
-- An issued invoice is served by the route of its storage.
use Prim.Native.String.{count, len, slice}
use text.Mathlib.TextPositions.{starts_with-append, slice-append_right, len-append}
use prompt_pack.Base.{
  ℕ, String, ◌≡◌, refl, sym, ap, ◌∙◌, ◌≢◌, inr, false, some, List, ◌==◌, ◌&◌, inl, arith, [], ◌∷◌,
  true,
}
use prompt_pack.Base.Lists.{length, All}
use prompt_pack.Base.Hex.{IsByte}
use prompt_pack.Base.Uuid.{new_id}
use prompt_pack.Base.Uuid.Form.{count-new_id}
use prompt_pack.Base.Dict.{find}
use prompt_pack.Glue.{HttpRequest}
use prompt_pack.AuditZip.Service.{Service as AuditService}
use prompt_pack.AuditZip.Storage.{InMemoryStorage as ArchiveStorage}
use prompt_pack.Pint.Service.{object_key}
use prompt_pack.Auth.Hash.{trim_prefix}
use prompt_pack.Pint.Types.{Time, InvoiceDraft}
use prompt_pack.Pint.Storage.{StoredObject, InMemoryStorage, get_object, in_memory}
use prompt_pack.Pint.Validator.{validate}
use prompt_pack.Pint.Ubl.{build_ubl}
use prompt_pack.Pint.Service.Invoices.{issue_invoice_cases}
use prompt_pack.Base.Tests.{if_true}
use prompt_pack.Server.Cors.{cors_middleware}
use prompt_pack.Server.Routes.{
  World, Luck, State, routes, HttpReply, object_body, storage_api, dispatch, table, handle,
  post_invoice, get_storage, object_reply, context_headers,
}
use prompt_pack.Server.Storage.{handle-Holds}

-- The id of a request's invoice is drawn by `newID`.
pub record Drawn (luck : Luck) : Type 0 where
  pub bytes : List ℕ
  pub byte_range : All IsByte bytes
  pub byte_count : length bytes ≡ 16
  pub id_form : luck.invoice.invoice_id ≡ new_id bytes

-- What the server goes through: requests that draw other ids than the given one, and whatever happens
-- to the audit export in between.
pub data Later (w : World) (allowed : List String) (id : String) (st : State) : State → Type 0 where
  now : Later w allowed id st st
  request :
      {st' st'' : State} (luck : Luck) (r : HttpRequest)
      → Later w allowed id st st'
      → Drawn luck
      → luck.invoice.invoice_id ≢ id
      → st'' ≡ (handle w luck allowed r st').0
      → Later w allowed id st st''
  background :
      {st' : State} (s : AuditService ArchiveStorage)
      → Later w allowed id st st'
      → Later w allowed id st (record st' { audit = s })

count-Drawn : (luck : Luck) → Drawn luck → count luck.invoice.invoice_id ≡ 36
count-Drawn luck d = ap count d.id_form ∙ count-new_id d.bytes d.byte_range d.byte_count

module _ (w : World) (allowed : List String) where
  later-Holds :
      (t id : String) (obj : StoredObject) {st st' : State}
      → count id ≡ 36
      → Later w allowed id st st'
      → find st.invoices.storage.objects (object_key t id "invoice.xml") ≡ some obj
      → find st'.invoices.storage.objects (object_key t id "invoice.xml") ≡ some obj
  later-Holds t id obj long now at = at
  later-Holds t id obj long (request {st'} luck r before drawn ne e) at =
      ap (λ (x : State). find x.invoices.storage.objects (object_key t id "invoice.xml")) e
      ∙ handle-Holds w luck t id obj (count-Drawn luck drawn ∙ sym long) ne allowed r st'
          (later-Holds t id obj long before at)
  later-Holds t id obj long (background s before) at = later-Holds t id obj long before at

  -- The server hands a request to the route that chi has chosen.
  handle-post :
      (luck : Luck) (r : HttpRequest) (st : State) (up : String → String)
      → (r.method == "OPTIONS") ≡ false
      → w.choose r.method r.path (table w luck) ≡ inr (3, up)
      → ((handle w luck allowed r st).0 ≡ (post_invoice w luck r st).0)
        × ((handle w luck allowed r st).1.status ≡ (post_invoice w luck r st).1.status)
  unfolding handle cors_middleware dispatch routes
  handle-post luck r st up other chosen =
      (rw (other, handle, chosen, dispatch) refl, rw (other, handle, chosen, dispatch) refl)

  handle-get :
      (luck : Luck) (r : HttpRequest) (st : State) (up : String → String)
      → (r.method == "OPTIONS") ≡ false
      → w.choose r.method r.path (table w luck) ≡ inr (5, up)
      → ((handle w luck allowed r st).0 ≡ st)
        × ((handle w luck allowed r st).1.status ≡ (get_storage w luck r st).1.status)
        × ((handle w luck allowed r st).1.body ≡ (get_storage w luck r st).1.body)
  unfolding handle cors_middleware dispatch routes
  handle-get luck r st up other chosen = (
    rw (other, handle, chosen, dispatch) refl,
    rw (other, handle, chosen, dispatch) refl,
    rw (other, handle, chosen, dispatch) refl,
  )

trim_prefix-append : (p s : String) → trim_prefix (p & s) p ≡ s
unfolding trim_prefix
trim_prefix-append p s =
    if_true _ _ (starts_with-append p s)
    ∙ ap (λ (n : ℕ). slice (p & s) (len p) n) (len-append p s)
    ∙ slice-append_right p s

get_object-found :
    (detect : String → String) (url_of : String → Time → String) (key : String) (obj : StoredObject)
    (s : InMemoryStorage)
    → find s.objects key ≡ some obj
    → get_object detect url_of key s ≡ inr (obj.body, obj.content_type)
unfolding get_object
get_object-found detect url_of key obj s at = rw (get_object, at) refl

-- The route of the storage on an object that is there.
get_storage-found :
    (w : World) (luck : Luck) (r : HttpRequest) (st : State) (key : String) (obj : StoredObject)
    → r.path ≡ "/storage/" & key
    → find st.invoices.storage.objects key ≡ some obj
    → (get_storage w luck r st).1 ≡ record {
      status = 200;
      headers = ("Content-Type", obj.content_type) ∷ [];
      body = object_body obj.body;
    }
unfolding get_storage in_memory object_reply
get_storage-found w luck r st key obj path at =
    ap (λ (k : String). object_reply ((storage_api w luck).get_object k st.invoices.storage))
      (ap (λ (p : String). trim_prefix p "/storage/") path ∙ trim_prefix-append "/storage/" key)
    ∙ ap object_reply
        (get_object-found w.detect_content_type w.url_of key obj st.invoices.storage at)

-- Where the server answers `POST /invoices` with 201, the body is a draft that is valid, `BuildUBL`
-- makes XML of it, and from then on a `GET` of `/storage/` with the key of the invoice gets 200 and
-- that XML, whoever asks and with whatever headers, and changes nothing: after any requests of any
-- tenants, with the same or other routes, and whatever happens to the audit export, as long as no
-- request draws the invoice's id again. The ids are those of `newID`.
pub download-issue :
    (w : World) (allowed : List String) (luck luck' : Luck) (r r' : HttpRequest) (st st' : State)
    (up up' : String → String)
    → Drawn luck
    → (r.method == "OPTIONS") ≡ false
    → w.choose r.method r.path (table w luck) ≡ inr (3, up)
    → (handle w luck allowed r st).1.status ≡ 201
    → Later w allowed luck.invoice.invoice_id (handle w luck allowed r st).0 st'
    → (r'.method == "OPTIONS") ≡ false
    → w.choose r'.method r'.path (table w luck') ≡ inr (5, up')
    → r'.path
      ≡ "/storage/"
        & object_key (context_headers w luck r).tenant_id luck.invoice.invoice_id "invoice.xml"
    → let cfg = st.invoices.cfg in
      let lib = w.libraries in
      (draft : InvoiceDraft) × (xml : String) × (w.decode_draft r.body ≡ inr draft)
      × ((validate lib.floats lib.formats cfg draft).valid ≡ true)
      × (build_ubl lib.floats lib.formats.date_string lib.marshal_indent luck.invoice.invoice_id
            draft
            (validate lib.floats lib.formats cfg draft).totals
          ≡ some xml)
      × ((handle w luck' allowed r' st').0 ≡ st')
      × ((handle w luck' allowed r' st').1.status ≡ 200)
      × ((handle w luck' allowed r' st').1.body ≡ object_body xml)
unfolding post_invoice
download-issue w allowed luck luck' r r' st st' up up' drawn posted chosen created later got chosen'
      path =
    let h = context_headers w luck r in
    let key = object_key h.tenant_id luck.invoice.invoice_id "invoice.xml" in
    let (after, answered) = handle-post w allowed luck r st up posted chosen in
    let (same, status, body) = handle-get w allowed luck' r' st' up' got chosen' in
    elim (issue_invoice_cases w.detect_content_type w.url_of w.libraries luck.invoice h st.invoices
      (w.decode_draft r.body)) [
        | inl (inl (_, refused)) ↦ absurd (omega (arith, created, answered, refused))
        | inl (inr (_, failed)) ↦ absurd (omega (arith, created, answered, failed))
        | inr (inl (_, _, _, _, panicked)) ↦ absurd (omega (arith, created, answered, panicked))
        | inr (inr ((draft, xml, decoded, valid, made, (object, _), _), _, _, _)) ↦
            let at : find st'.invoices.storage.objects key
                ≡ some (record {
                  body = xml;
                  content_type = w.detect_content_type xml;
                  updated_at = luck.invoice.xml_times.0;
                }) =
              later-Holds w allowed h.tenant_id luck.invoice.invoice_id _ (count-Drawn luck drawn)
                later (ap (λ (x : State). find x.invoices.storage.objects key) after ∙ object) in
            let reply = get_storage-found w luck' r' st' key _ path at in
            (
              draft,
              xml,
              decoded,
              valid,
              made,
              same,
              status ∙ ap (λ (x : HttpReply). x.status) reply,
              body ∙ ap (λ (x : HttpReply). x.body) reply,
            )
      ]
