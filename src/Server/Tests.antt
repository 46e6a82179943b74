-- ===== src/Server/Tests.antt =====
-- Runs of the server.
use prompt_pack.Pint.Pdf.{panics}
use prompt_pack.Base.{
  ℕ, zero, suc, String, ◌≡◌, refl, ◌⊎◌, inr, true, none, some, List, [], ◌∷◌, ◌==◌, arith, eq_iff,
}
use prompt_pack.Base.Tests.{if◌then◌else◌}
use prompt_pack.Base.Lists.{length, get_elem?}
use prompt_pack.Base.Hex.{hex, unhex}
use prompt_pack.Base.Uuid.{new_id}
use prompt_pack.Base.Uuid.Form.{new_id_form}
use prompt_pack.Base.Decimal.{decimal}
use prompt_pack.Glue.{HttpRequest}
use prompt_pack.AuditZip.Api.{EnqueueAuditZipParams}
use prompt_pack.AuditZip.Service.Tests.{
  whole as audit_whole, encoders, chance as audit_chance, service as audit_service,
  request as audit_request,
}
use prompt_pack.Pint.Tests.{libraries, url_of, chance, draft, service}
use Prim.Native.String.{count}
use prompt_pack.Base.Tests.{eqb}
use prompt_pack.Base.{◌+◌, ◌%◌}
use prompt_pack.Base.Dict.{find}
use prompt_pack.Glue.{bind_header}
use prompt_pack.AuditZip.Wire.{Response}
use prompt_pack.AuditZip.Service.{Params, Service, enqueue_audit_zip}
use prompt_pack.AuditZip.Storage.{InMemoryStorage}
use prompt_pack.Pint.Types.{InvoiceDraft}
use prompt_pack.Pint.Text.{is_blank}
use prompt_pack.Pint.Validator.{validate}
use prompt_pack.Pint.Ubl.{build_ubl}
use prompt_pack.Pint.Storage.{in_memory}
use prompt_pack.Pint.Service.{new_service, issue_invoice, object_key}
use prompt_pack.Server.Routes.{context_headers}
use prompt_pack.Server.Routes.{World, Luck, State, handle, object_body}
use prompt_pack.Server.Download.{Drawn, Later, download-issue}
use prompt_pack.Server.Refusals.{Bound, post_audit_zip_cases}

abbrev world : World
world = record {
  choose = λ method path table.
      if path == "/audit/zip"
      then inr (1, λ n. "")
      else if method == "POST"
      then inr (3, λ n. "")
      else inr (5, λ n. "");
  equal_fold = λ a b. a == b;
  binders = record {
    bind_uuid = λ s. inr s;
    bind_string = λ s. inr s;
    bind_flag = λ n q. inr none;
  };
  decode_request = λ b. inr audit_request;
  decode_draft = λ b. inr draft;
  audit_floats = audit_whole;
  encoders = encoders;
  libraries = libraries;
  detect_content_type = λ b. "text";
  url_of = url_of;
}

abbrev zeros : ℕ → List ℕ
zeros zero = []
zeros (suc n) = 0 ∷ zeros n

abbrev first_id : String
first_id = "00000000-0000-4000-8000-000000000000"

abbrev second_id : String
second_id = "ff000000-0000-4000-8000-000000000000"

abbrev luck : Luck
luck = record {
  audit = audit_chance;
  invoice = record chance { invoice_id = first_id };
  others = λ q. q;
}

abbrev second_luck : Luck
second_luck = record luck { invoice = record chance { invoice_id = second_id } }

luck-Drawn : Drawn luck
unfolding new_id hex
luck-Drawn = record {
  bytes = zeros 16;
  byte_range = omega arith;
  byte_count = refl;
  id_form = refl;
}

second_luck-Drawn : Drawn second_luck
unfolding new_id hex
second_luck-Drawn = record {
  bytes = 255 ∷ zeros 15;
  byte_range = omega arith;
  byte_count = refl;
  id_form = refl;
}

abbrev state : State
state = record { audit = audit_service; invoices = service }

abbrev post : HttpRequest
post = record {
  method = "POST";
  path = "/invoices";
  headers = ("X-Tenant-Id", "acme" ∷ []) ∷ ("X-Correlation-Id", "c1" ∷ []) ∷ [];
  query = [];
  body = "";
}

abbrev foreign_post : HttpRequest
foreign_post = record post {
  headers = ("X-Tenant-Id", "other" ∷ []) ∷ ("X-Correlation-Id", "c1" ∷ []) ∷ [];
}

-- No header at all.
abbrev fetch : HttpRequest
fetch = record post {
  method = "GET";
  path = "/storage/acme/invoices/00000000-0000-4000-8000-000000000000/invoice.xml";
  headers = [];
}

abbrev issued : State
issued = (handle world luck [] post state).0

abbrev after : State
after = (handle world second_luck [] foreign_post issued).0

later : Later world [] first_id issued after
later =
    Later.request second_luck foreign_post Later.now second_luck-Drawn
      (λ e. ground (arith, eq_iff second_id first_id, e)) refl

issued_test : (handle world luck [] post state).1.status ≡ 201
unfolding handle context_headers find issue_invoice validate decimal new_service is_blank build_ubl
    in_memory panics
issued_test = refl

download-issue_example :
    let cfg = service.cfg in
    (d : InvoiceDraft) × (xml : String) × (◌≡◌ {A = String ⊎ InvoiceDraft} (inr draft) (inr d))
    × ((validate libraries.floats libraries.formats cfg d).valid ≡ true)
    × (build_ubl libraries.floats libraries.formats.date_string libraries.marshal_indent first_id d
          (validate libraries.floats libraries.formats cfg d).totals
        ≡ some xml)
    × ((handle world second_luck [] fetch after).0 ≡ after)
    × ((handle world second_luck [] fetch after).1.status ≡ 200)
    × ((handle world second_luck [] fetch after).1.body ≡ object_body xml)
unfolding context_headers find object_key
download-issue_example =
    download-issue world [] luck second_luck post fetch state after (λ n. "") (λ n. "") luck-Drawn
      refl refl issued_test later refl refl refl

-- A second tenant id.
abbrev doubled : HttpRequest
doubled = record post {
  path = "/audit/zip";
  headers = ("X-Tenant-Id", "acme" ∷ "other" ∷ []) ∷ ("X-Correlation-Id", "c1" ∷ []) ∷ [];
}

post_audit_zip_cases_example :
    (((handle world luck [] doubled state).0 ≡ state)
      × ((handle world luck [] doubled state).1.status ≡ 400)
      × ((p : EnqueueAuditZipParams) → ¬ Bound world.binders doubled p))
    ⊎ ((p : EnqueueAuditZipParams) × Bound world.binders doubled p
        × (let params : Params = record {
          corr_id = p.x_correlation_id;
          tenant_id = p.x_tenant_id;
          idempotency_key = p.idempotency_key;
        } in
            let answer : Service InMemoryStorage × Response =
              enqueue_audit_zip audit_whole encoders audit_chance params audit_service
                (inr audit_request) in
            ((handle world luck [] doubled state).0 ≡ record state { audit = answer.0 })
            × ((handle world luck [] doubled state).1.status ≡ answer.1.status)))
post_audit_zip_cases_example = post_audit_zip_cases world luck [] doubled state (λ n. "") refl refl

doubled_test : (handle world luck [] doubled state).1.status ≡ 400
unfolding handle bind_header find
doubled_test = refl

-- Sixteen bytes of all ones.
abbrev ones : ℕ → List ℕ
ones zero = []
ones (suc n) = 255 ∷ ones n

new_id_test : new_id (ones 16) ≡ "ffffffff-ffff-4fff-bfff-ffffffffffff"
unfolding new_id hex
new_id_test = refl

new_id_form_example :
    (count (new_id (ones 16)) ≡ 36)
    × (length (unhex (new_id (ones 16))) ≡ 16)
    × ((i b : ℕ)
        → get_elem? (ones 16) i ≡ some b
        → get_elem? (unhex (new_id (ones 16))) i
          ≡ some (if eqb i 6 then 64 + b % 16 else if eqb i 8 then 128 + b % 64 else b))
new_id_form_example = new_id_form (ones 16) (omega arith) refl
