-- ===== src/Pint/Pdf.antt =====
-- apps/api/internal/pint/pdf.go: what is handed to the HTML template and to Chromium, which are
-- parameters.
pub mod Page
use prompt_pack.Base.{
  String, ◌&◌, ◌⊎◌, inl, inr, Option, none, some, List, [], ◌∷◌, ◌==◌, Bool, not,
}
use prompt_pack.Base.Tests.{if◌then◌else◌}
use prompt_pack.Base.Int.{ℤ, pos, leb_ℤ}
use prompt_pack.Pint.Types.{Date, Float64, LineItem, Party, InvoiceDraft, Totals, Config}

pub record PdfPartyData : Type 0 where
  pub name : String
  pub tax_id : String
  pub postal : String
  pub address : String
  pub country_code : String

pub record PdfLineData : Type 0 where
  pub description : String
  pub quantity : Float64
  pub unit_code : String
  pub unit_price : Float64
  pub tax_category : String
  pub tax_rate : Float64

pub record PdfDraftData : Type 0 where
  pub supplier : PdfPartyData
  pub customer : PdfPartyData
  pub issue_date : String
  pub due_date : String
  pub notes : String
  pub currency : String
  pub invoice_number : String
  pub lines : List PdfLineData

-- The template of pdf.go at a time zone, with the helpers of its `FuncMap`; `url.PathEscape`; and a run
-- of Chromium with the three flags, given the path of its program, the timeout and the page's URL.
-- `known_zone` says of a name whether `time.LoadLocation` knows it.
-- A text on the left is an error's.
pub record Renderers : Type 0 where
  pub execute : String → PdfDraftData → Totals → String ⊎ String
  pub known_zone : String → Bool
  pub path_escape : String → String
  pub run : Option String → ℤ → String → String ⊎ String

unfoldable pub default_string : String → String → String
default_string s def = if s == "" then def else s

-- The literal for the supplier and, alike, for the customer.
unfoldable pub pdf_party : Party → PdfPartyData
pdf_party p = record {
  name = p.name;
  tax_id = p.tax_id;
  postal = p.postal;
  address = p.address;
  country_code = p.country_code;
}

unfoldable pub pdf_line : LineItem → PdfLineData
pdf_line line = record {
  description = line.description;
  quantity = line.quantity;
  unit_code = line.unit_code;
  unit_price = line.unit_price;
  tax_category = line.tax_category;
  tax_rate = line.tax_rate;
}

unfoldable pub pdf_lines : List LineItem → List PdfLineData
unfolding pdf_line
pdf_lines [] = []
pdf_lines (line ∷ lines) = pdf_line line ∷ pdf_lines lines

unfoldable pub text_or_empty : Option String → String
text_or_empty none = ""
text_or_empty (some s) = s

unfoldable pub convert_draft_for_pdf : (Date → String) → InvoiceDraft → PdfDraftData
unfolding pdf_party pdf_lines text_or_empty
convert_draft_for_pdf date_string draft = record {
  supplier = pdf_party draft.supplier;
  customer = pdf_party draft.customer;
  issue_date = date_string draft.issue_date;
  due_date = date_string draft.due_date;
  notes = text_or_empty draft.notes;
  currency = draft.currency;
  invoice_number = text_or_empty draft.invoice_number;
  lines = pdf_lines draft.lines;
}

-- `LoadLocation` gives a nil location for a name it does not know, its error is dropped, and the call
-- `In(tz)` of `renderHTML` panics.
unfoldable pub panics : Renderers → Config → Bool
unfolding default_string
panics r cfg = not (r.known_zone (default_string cfg.pdf_time_zone "Asia/Tokyo"))

-- `renderHTML` where it does not panic.
unfoldable pub render_html :
    Renderers → (Date → String) → Config → InvoiceDraft → Totals → String ⊎ String
unfolding default_string convert_draft_for_pdf
render_html r date_string cfg draft totals =
    r.execute (default_string cfg.pdf_time_zone "Asia/Tokyo")
      (convert_draft_for_pdf date_string draft) totals

-- `Render` where `renderHTML` does not panic.
unfoldable pub render :
    Renderers → (Date → String) → Config → InvoiceDraft → Totals → String ⊎ String
unfolding render_html
render r date_string cfg draft totals = elim (render_html r date_string cfg draft totals) [
  | inl e ↦ inl ("render html: " & e)
  | inr html ↦
      let path = if cfg.pdf_chromium_path == "" then none else some cfg.pdf_chromium_path in
      let timeout = if leb_ℤ cfg.pdf_timeout (pos 0) then pos 15000000000 else cfg.pdf_timeout in
      elim (r.run path timeout ("data:text/html," & r.path_escape html)) [
        | inl e ↦ inl ("chromedp run failed: " & e)
        | inr pdf ↦ inr pdf
      ]
]
