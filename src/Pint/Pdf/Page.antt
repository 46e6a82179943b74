-- ===== src/Pint/Pdf/Page.antt =====
-- The page of apps/api/internal/pint/pdf.go that is printed as the PDF of an invoice: `renderHTML` with
-- `htmlTemplate`. `Renderers.execute` of Pint/Pdf stands for it. The escaping of `html/template`, the
-- formats of numbers and dates, and the time zones are parameters.
pub mod Safety
pub mod Tests
use prompt_pack.Base.{String, ◌&◌, Option, none, some, List, [], ◌∷◌, ◌++◌, ◌==◌, ℕ}
use prompt_pack.Base.Tests.{if◌then◌else◌}
use prompt_pack.Pint.Types.{Time, Float64, Totals, Config}
use prompt_pack.Pint.Pdf.{PdfDraftData, PdfPartyData, PdfLineData, default_string}

-- `escape` is what `html/template` does to a value in the text of an element, `html_escape_string` its
-- function of that name, `fixed` is `%.nf`, and `format` a time in a time zone, with a layout.
pub record PageOps : Type 0 where
  pub escape : String → String
  pub html_escape_string : String → String
  pub fixed : ℕ → Float64 → String
  pub mul : Float64 → Float64 → Float64
  pub hundred : Float64
  pub load_location : String → Option String
  pub parse_date : String → Option Time
  pub format : String → String → Time → String

-- The template's own text, or the value of an action.
pub data Piece : Type 0 where
  literal value : String → Piece

abbrev pub text_of : PageOps → Piece → String
text_of o (literal s) = s
text_of o (value s) = o.escape s

unfoldable pub execute : PageOps → List Piece → String
execute o [] = ""
execute o (p ∷ ps) = text_of o p & execute o ps

module _ (o : PageOps) where
  unfoldable pub format_number : Float64 → String
  format_number v = o.html_escape_string (o.fixed 0 v)

  -- `escape` of the `FuncMap`, which the template does not use.
  unfoldable pub html_escape : String → String
  html_escape s = o.html_escape_string s

  -- `money` of the `FuncMap`
  unfoldable pub money : Float64 → String
  unfolding format_number
  money v = "¥" & format_number v

  unfoldable pub mul100 : Float64 → Float64
  mul100 v = o.mul v o.hundred

  -- `date` of the `FuncMap`, in a time zone
  unfoldable pub date : String → String → String
  date zone v = elim (o.parse_date v) [ none ↦ v | some t ↦ o.format zone "2006/01/02" t ]

  unfoldable pub party_pieces : PdfPartyData → List Piece
  party_pieces p =
      value p.name
      ∷ literal "</div>\n        <div class=\"value\">"
      ∷ value p.address
      ∷ literal "</div>\n        <div class=\"value\">"
      ∷ value p.postal
      ∷ literal "</div>\n        <div class=\"value\">"
      ∷ value p.country_code
      ∷ literal "</div>\n        <div class=\"value\">登録番号: "
      ∷ value p.tax_id
      ∷ []

  unfoldable pub line_pieces : PdfLineData → List Piece
  unfolding money mul100
  line_pieces l =
      literal "\n      <tr>\n        <td>"
      ∷ value l.description
      ∷ literal "</td>\n        <td>"
      ∷ value (o.fixed 2 l.quantity)
      ∷ literal " "
      ∷ value l.unit_code
      ∷ literal "</td>\n        <td>"
      ∷ value (money l.unit_price)
      ∷ literal "</td>\n        <td>"
      ∷ value (o.fixed 0 (mul100 l.tax_rate) & "%")
      ∷ literal "</td>\n        <td class=\"total\">"
      ∷ value (money (o.mul l.quantity l.unit_price))
      ∷ literal "</td>\n      </tr>\n    "
      ∷ []

  unfoldable pub lines_pieces : List PdfLineData → List Piece
  unfolding line_pieces
  lines_pieces [] = []
  lines_pieces (l ∷ ls) = line_pieces l ++ lines_pieces ls

  unfoldable pub totals_pieces : Totals → List Piece
  unfolding money
  totals_pieces t =
      literal "\n    </tbody>\n  </table>\n\n"
      ∷ literal "  <div style=\"display:flex; justify-content:flex-end; margin-top:12px;\">\n"
      ∷ literal "    <div style=\"min-width:200px;\">\n"
      ∷ literal
          "      <div class=\"row\" style=\"justify-content:space-between;\"><div>小計</div><div>"
      ∷ value (money t.subtotal)
      ∷ literal "</div></div>\n"
      ∷ literal
          "      <div class=\"row\" style=\"justify-content:space-between;\"><div>税額</div><div>"
      ∷ value (money t.tax)
      ∷ literal "</div></div>\n"
      ∷ literal
          "      <div class=\"row\" style=\"justify-content:space-between; font-weight:700;\"><div>合計</div><div>"
      ∷ value (money t.grand_total)
      ∷ literal "</div></div>\n    </div>\n  </div>\n\n  "
      ∷ []

  unfoldable pub notes_pieces : String → List Piece
  notes_pieces notes =
      if notes == ""
      then []
      else literal "\n  <div class=\"card\">\n    <div class=\"label\">備考</div>\n"
        ∷ literal "    <div class=\"value\">"
        ∷ value notes
        ∷ literal "</div>\n  </div>\n  "
        ∷ []

  unfoldable pub style_pieces : List Piece
  style_pieces =
      literal "\n<!doctype html>\n<html lang=\"ja\">\n<head>\n  <meta charset=\"utf-8\" />\n"
      ∷ literal "  <style>\n"
      ∷ literal
          "    body { font-family: 'Noto Sans JP', 'Helvetica Neue', Arial, sans-serif; margin: 24px; color: #0f172a; }\n"
      ∷ literal "    h1 { margin: 0 0 8px; }\n"
      ∷ literal
          "    .meta { display: flex; justify-content: space-between; margin-bottom: 16px; }\n"
      ∷ literal
          "    .card { border: 1px solid #e2e8f0; border-radius: 8px; padding: 12px; margin-bottom: 12px; }\n"
      ∷ literal "    .row { display: flex; gap: 12px; }\n    .col { flex: 1; }\n"
      ∷ literal "    .label { font-size: 12px; color: #475569; }\n"
      ∷ literal "    .value { font-size: 14px; margin-bottom: 4px; }\n"
      ∷ literal "    table { width: 100%; border-collapse: collapse; margin-top: 8px; }\n"
      ∷ literal "    th, td { padding: 8px; border-bottom: 1px solid #e2e8f0; text-align: left; }\n"
      ∷ literal "    th { background: #f8fafc; }\n    .total { text-align: right; }\n  </style>\n"
      ∷ literal "</head>\n<body>\n"
      ∷ []

  unfoldable pub meta_pieces : String → String → PdfDraftData → List Piece
  unfolding date
  meta_pieces zone now d =
      literal "  <div class=\"meta\">\n    <h1>請求書</h1>\n"
      ∷ literal "    <div style=\"text-align:right\">\n      <div class=\"label\">発行日</div>\n"
      ∷ literal "      <div class=\"value\">"
      ∷ value (date zone d.issue_date)
      ∷ literal "</div>\n      <div class=\"label\">支払期日</div>\n      <div class=\"value\">"
      ∷ value (date zone d.due_date)
      ∷ literal "</div>\n      <div class=\"label\">作成日時</div>\n      <div class=\"value\">"
      ∷ value now
      ∷ literal "</div>\n    </div>\n  </div>\n\n  <div class=\"card\">\n"
      ∷ literal "    <div class=\"row\">\n      <div class=\"col\">\n"
      ∷ literal "        <div class=\"label\">サプライヤー</div>\n        <div class=\"value\">"
      ∷ []

  unfoldable pub between_pieces : List Piece
  between_pieces =
      literal "</div>\n      </div>\n      <div class=\"col\">\n"
      ∷ literal "        <div class=\"label\">カスタマー</div>\n        <div class=\"value\">"
      ∷ []

  unfoldable pub header_pieces : List Piece
  header_pieces =
      literal "</div>\n      </div>\n    </div>\n  </div>\n\n  <table>\n    <thead>\n"
      ∷ literal "      <tr>\n        <th>内容</th>\n        <th>数量</th>\n        <th>単価</th>\n"
      ∷ literal "        <th>税率</th>\n        <th class=\"total\">小計</th>\n      </tr>\n"
      ∷ literal "    </thead>\n    <tbody>\n    "
      ∷ []

  -- `htmlTemplate`
  unfoldable pub html_template : String → String → PdfDraftData → Totals → List Piece
  unfolding party_pieces lines_pieces totals_pieces notes_pieces style_pieces meta_pieces
      between_pieces header_pieces
  html_template zone now d t =
      style_pieces
      ++ (meta_pieces zone now d
          ++ (party_pieces d.supplier
              ++ (between_pieces
                  ++ (party_pieces d.customer
                      ++ (header_pieces
                          ++ (lines_pieces d.lines
                              ++ (totals_pieces t
                                  ++ (notes_pieces d.notes
                                      ++ literal "\n</body>\n</html>\n" ∷ []))))))))

  -- `renderHTML` on the data; `none` is the panic of `In` where the time zone is not known.
  unfoldable pub page : Config → Time → PdfDraftData → Totals → Option String
  unfolding html_template execute
  page cfg now d t = elim (o.load_location (default_string cfg.pdf_time_zone "Asia/Tokyo")) [
    | none ↦ none
    | some zone ↦ some (execute o (html_template zone (o.format zone "2006/01/02 15:04" now) d t))
  ]

-- `embedFont`, with `base64.StdEncoding`.
unfoldable pub embed_font : (String → String) → String → String
embed_font encode base64_data =
    if base64_data == ""
    then ""
    else "@font-face{font-family:'Noto Sans JP';src:url('data:font/woff2;base64,"
      & (encode base64_data & "') format('woff2');}")
