-- ===== src/Pint/Tests.antt =====
-- Runs of the validation of an invoice and of its UBL form.
use prompt_pack.Pint.Service.Invoices.{Aborted}
use prompt_pack.Pint.Pdf.{panics}
use prompt_pack.Base.Dict.{find, put}
use prompt_pack.Base.{true, ◌==◌}
use prompt_pack.Base.Tests.{is_some}
use prompt_pack.Pint.Service.Invoices.{Aborted}
use prompt_pack.Base.{◌+◌, ◌*◌, ◌/◌, ◌≡◌, refl, ◌↔◌, true, false, none, some, [], ◌∷◌, String, ℕ}
use prompt_pack.Base.Tests.{ltb, leb}
use prompt_pack.Base.Lists.{length, get_elem?, All}
use prompt_pack.Base.Int.{pos}
use prompt_pack.Base.Decimal.{decimal}
use prompt_pack.Base.{ℕ, String, ◌&◌, ◌⊎◌, inr, arith, eq_iff}
use prompt_pack.Pint.Types.{InvoiceRecord}
use prompt_pack.Pint.Storage.{
  StorageApi, InMemoryStorage, in_memory, new_in_memory_storage, get_object,
}
use prompt_pack.Pint.Ubl.{build_ubl}
use prompt_pack.Pint.Service.{
  Service, Libraries, Chance, Headers, Response, new_service, issue_invoice, get_invoice,
  object_key, write_json, record_body, with_request_context,
}
use prompt_pack.Pint.Service.Invoices.{NotIssued, Issued, issue_invoice_cases}
use prompt_pack.Pint.Service.RoundTrip.{get-issue}
use prompt_pack.Pint.Service.Foreign.{get-issue_foreign}
use prompt_pack.Pint.Text.{is_blank}
use prompt_pack.Pint.Types.{Config, FloatOps, Party, LineItem, InvoiceDraft, Totals}
use prompt_pack.Pint.Validator.Rules.{validate_iff, DraftIsValid}
use prompt_pack.Pint.Validator.{Formats, validate, contains}
use prompt_pack.Pint.Ubl.{InvoiceLine, ubl_of, ubl_lines, line_amounts}

-- Whole numbers in place of float64s: enough to run the code.
abbrev pub whole : FloatOps
whole = record {
  add = λ a b. a + b;
  mul = λ a b. a * b;
  div = λ a b. a / b;
  lt = λ a b. ltb a b;
  le = λ a b. leb a b;
  math_round = λ a. a;
}

abbrev pub formats : Formats
formats = record { date_string = λ d. decimal d; int_string = λ n. "500" }

abbrev pub config : Config
config = record {
  s3_endpoint = "https://s3";
  s3_bucket = "jp-pint-invoices";
  sign_url_ttl = pos 600;
  max_lines = pos 500;
  allowed_delta = 0;
  rounding_mode = "HALF_UP";
  max_description = pos 240;
  pdf_enabled = true;
  default_time_zone = "Asia/Tokyo";
  default_locale = "ja-JP";
  max_parallel_jobs = pos 4;
  enable_audit_hash = true;
  valid_unit_codes = "EA" ∷ [];
  valid_tax_category = "S" ∷ [];
  pdf_chromium_path = "";
  pdf_timeout = pos 15000000000;
  pdf_tmp_dir = "/tmp";
  pdf_locale = "ja-JP";
  pdf_time_zone = "Asia/Tokyo";
  pdf_fonts_dir = "";
}

abbrev pub party : Party
party = record {
  address = "1-1";
  country_code = "JP";
  name = "Acme";
  postal = "100";
  tax_id = "T1";
}

abbrev pub item : LineItem
item = record {
  description = "Tea";
  quantity = 2;
  tax_category = "S";
  tax_rate = 1;
  unit_code = "EA";
  unit_price = 30;
}

abbrev pub draft : InvoiceDraft
draft = record {
  currency = "JPY";
  customer = party;
  due_date = 800;
  invoice_number = none;
  issue_date = 790;
  lines = item ∷ record item { description = "Rice" } ∷ [];
  notes = none;
  supplier = party;
}

decimal_test : decimal 1203 ≡ "1203"
unfolding decimal
decimal_test = refl

-- Blanks alone are no description.
blank_test : is_blank "  " ≡ true
unfolding is_blank
blank_test = refl

late_test : (validate whole formats config (record draft { due_date = 700 })).valid ≡ false
unfolding validate contains is_blank decimal
late_test = refl

validate_iff_example :
    ((validate whole formats config draft).valid ≡ true) ↔ DraftIsValid whole formats config draft
validate_iff_example = validate_iff whole formats config draft

abbrev totals : Totals
totals = record { subtotal = 120; tax = 120; grand_total = 240 }

ubl_lines_example :
    let ubl = ubl_of whole decimal "inv1" draft totals in
    (ubl.document_currency_code ≡ "JPY")
    × (length ubl.invoice_line ≡ 2)
    × ((l : InvoiceLine) × (get_elem? ubl.invoice_line 0 ≡ some l)
        × (l.id ≡ decimal 1)
        × (l.invoiced_quantity.value ≡ 2)
        × (l.invoiced_quantity.unit_code ≡ "EA")
        × (l.item.description ≡ "Tea")
        × All (λ a. a.currency ≡ "JPY") (line_amounts l)
        × (l.price.price_amount.value ≡ 30)
        × (l.line_extension_amount.value ≡ 60)
        × (l.tax_total.tax_amount.value ≡ whole.mul 60 item.tax_rate))
ubl_lines_example = ubl_lines whole decimal "inv1" draft totals 0 item refl

-- Libraries that leave texts as they are.
abbrev pub libraries : Libraries
libraries = record {
  floats = whole;
  formats = formats;
  marshal_indent = λ ubl. some ubl.id;
  renderers = record {
    execute = λ zone d t. inr "html";
    known_zone = λ zone. zone == "Asia/Tokyo";
    path_escape = λ s. s;
    run = λ path timeout url. inr "pdf";
  };
  digest = record { time_string = λ t. "now"; sha256_hex = λ s. s };
  parse_uuid = λ s. some s;
}

abbrev pub chance : Chance
chance = record {
  invoice_id = "i1";
  audit_id = "a1";
  entry_id = "e1";
  xml_ctx = none;
  pdf_ctx = none;
  xml_times = (5, 6);
  pdf_times = (7, 8);
  xml_signed = 9;
  pdf_signed = 9;
  audited = 10;
  answered = 11;
}

abbrev headers : Headers
headers = record { corr_id = "c1"; tenant_id = "acme" }

abbrev pub url_of : String → ℕ → String
url_of path t = path

abbrev pub service : Service InMemoryStorage
service = new_service config new_in_memory_storage (some [])

abbrev api : StorageApi InMemoryStorage
api = in_memory (λ b. "text") url_of

abbrev issued : Service InMemoryStorage × Response
issued = issue_invoice api libraries chance headers service (inr draft)

issue_invoice_cases_example :
    NotIssued (λ b. "text") url_of libraries chance headers service issued
    ⊎ Aborted (λ b. "text") url_of libraries chance headers service (inr draft) issued
    ⊎ Issued (λ b. "text") url_of libraries chance headers service (inr draft) issued
issue_invoice_cases_example =
    issue_invoice_cases (λ b. "text") url_of libraries chance headers service (inr draft)

issued_test : issued.1.status ≡ 201
unfolding issue_invoice validate decimal new_service is_blank build_ubl in_memory panics
issued_test = refl

-- With a PDF time zone that is not known the handler panics: the invoice is stored, but there is neither a
-- response nor an entry in the audit log.
unknown_zone_test :
    let s = record service { cfg = record config { pdf_time_zone = "Mars" } } in
    let r = issue_invoice api libraries chance headers s (inr draft) in
    (r.1.status ≡ 0)
    × (r.0.audit ≡ some [])
    × (is_some (find r.0.storage.objects (object_key "acme" "i1" "invoice.xml")) ≡ true)
unfolding issue_invoice validate decimal new_service is_blank build_ubl in_memory find panics put
    new_in_memory_storage
unknown_zone_test = (refl, refl, refl)

get-issue_example :
    let key = object_key "acme" "i1" "invoice.xml" in
    (d : InvoiceDraft) × (xml : String) × (◌≡◌ {A = String ⊎ InvoiceDraft} (inr draft) (inr d))
    × (build_ubl whole decimal libraries.marshal_indent "i1" d
          (validate whole formats config d).totals
        ≡ some xml)
    × (get_object (λ b. "text") url_of key issued.0.storage ≡ inr (xml, "text"))
    × ((found : InvoiceRecord) × ((get_invoice api libraries chance headers issued.0 "i1").1
          ≡ write_json 200 (record_body found))
        × (found.invoice_id ≡ "i1")
        × (found.updated_at ≡ 6)
        × (found.xml_url ≡ "/storage/" & key))
unfolding with_request_context decimal new_service
get-issue_example =
    get-issue (λ b. "text") url_of libraries chance headers service (inr draft) chance headers "i1"
      issued_test refl refl refl

get-issue_foreign_example :
    (get_invoice api libraries chance (record headers { tenant_id = "other" }) issued.0 "i1").1
    ≡ (get_invoice api libraries chance (record headers { tenant_id = "other" }) service "i1").1
get-issue_foreign_example =
    get-issue_foreign (λ b. "text") url_of libraries chance headers service (inr draft) chance
      (record headers { tenant_id = "other" }) (λ e. ground (arith, eq_iff "acme" "other", e))
