-- ===== src/Pint/Pdf/Page/Tests.antt =====
-- A page of apps/api/internal/pint/pdf.go, with an escaping that turns `<` into `&lt;`.
use Prim.Native.Char.{code}
use Prim.Native.String.{[] as nil, ◌∷◌ as cons}
use prompt_pack.Base.{◌+◌, ◌*◌, String, ◌≡◌, refl, ◌⊎◌, none, some, arith, inl, inr}
use prompt_pack.Base.Tests.{if◌then◌else◌, eqb, Bool-cases}
use prompt_pack.Base.Lists.{length}
use prompt_pack.Pint.Types.{Totals}
use prompt_pack.Pint.Pdf.{PdfDraftData, convert_draft_for_pdf, default_string}
use prompt_pack.Pint.Tests.{draft, config}
use prompt_pack.Pint.Pdf.Page.{PageOps, page}
use prompt_pack.Pint.Pdf.Page.Safety.{tag_count, page_tags}

abbrev escaped : String → String
escaped nil = nil
escaped (cons c s) =
    let rest = escaped s in
    if eqb (code c) 60 then cons "&" (cons "l" (cons "t" (cons ";" rest))) else cons c rest

tag_count-escaped : (s : String) → tag_count (escaped s) ≡ 0
unfolding tag_count
tag_count-escaped nil = refl
tag_count-escaped (cons c s) = elim (Bool-cases (eqb (code c) 60)) [
  | inl tag ↦ rw tag (omega (arith, tag_count-escaped s))
  | inr other ↦ rw other (rw other (omega (arith, tag_count-escaped s)))
]

abbrev ops : PageOps
ops = record {
  escape = escaped;
  html_escape_string = escaped;
  fixed = λ n v. "1";
  mul = λ a b. a * b;
  hundred = 100;
  load_location = λ zone. some zone;
  parse_date = λ v. none;
  format = λ zone layout t. layout;
}

-- A tag in the notes.
abbrev marked : PdfDraftData
marked = record (convert_draft_for_pdf (λ d. "2024-01-02") draft) { notes = "<script>" }

abbrev totals : Totals
totals = record { subtotal = 120; tax = 120; grand_total = 240 }

page_tags_example :
    ((ops.load_location (default_string config.pdf_time_zone "Asia/Tokyo") ≡ none)
      × (page ops config 5 marked totals ≡ none))
    ⊎ ((html : String) × (page ops config 5 marked totals ≡ some html)
        × (tag_count html ≡ 100 + 12 * length marked.lines + 6))
page_tags_example = page_tags ops tag_count-escaped config 5 marked totals
