-- ===== src/Pint/Pdf/Page/Safety.antt =====
-- What the values of an invoice can do to its page.
use Prim.Native.Char.{code}
use Prim.Native.String.{[] as nil, ◌∷◌ as cons}
use text.Mathlib.TextLemmas.{nil-append, cons-append}
use prompt_pack.Base.{
  ◌⊎◌, ℕ, ◌+◌, ◌*◌, String, ◌&◌, ◌≡◌, refl, ap, ◌∙◌, List, [], ◌∷◌, ◌++◌, arith, ◌==◌, inl, inr,
  none, some,
}
use prompt_pack.Base.Tests.{if◌then◌else◌, eqb, Bool-cases, Option-cases}
use prompt_pack.Base.Lists.{length}
use prompt_pack.Pint.Pdf.{PdfLineData, PdfDraftData, PdfPartyData, Totals, Config, default_string}
use prompt_pack.Pint.Pdf.Page.{
  PageOps, Piece, literal, value, execute, line_pieces, lines_pieces, notes_pieces, style_pieces,
  meta_pieces, party_pieces, between_pieces, header_pieces, totals_pieces, html_template, page,
  Time,
}

-- How often a text has `<`.
unfoldable pub tag_count : String → ℕ
tag_count nil = 0
tag_count (cons c s) = (if eqb (code c) 60 then 1 else 0) + tag_count s

tag_count-append : (s t : String) → tag_count (s & t) ≡ tag_count s + tag_count t
unfolding tag_count
tag_count-append nil t = ap tag_count (nil-append t) ∙ omega arith
tag_count-append (cons c s) t =
    ap tag_count (cons-append c s t) ∙ omega (arith, tag_count-append s t)

-- The same of the template's own text.
abbrev markup : List Piece → ℕ
markup [] = 0
markup (literal s ∷ ps) = tag_count s + markup ps
markup (value s ∷ ps) = markup ps

markup-append : (ps qs : List Piece) → markup (ps ++ qs) ≡ markup ps + markup qs
markup-append [] qs = omega arith
markup-append (literal s ∷ ps) qs = omega (arith, markup-append ps qs)
markup-append (value s ∷ ps) qs = markup-append ps qs

module _ (o : PageOps) (escapes : (s : String) → tag_count (o.escape s) ≡ 0) where
  tag_count-execute : (ps : List Piece) → tag_count (execute o ps) ≡ markup ps
  unfolding execute tag_count
  tag_count-execute [] = refl
  tag_count-execute (literal s ∷ ps) =
      tag_count-append s (execute o ps) ∙ omega (arith, tag_count-execute ps)
  tag_count-execute (value s ∷ ps) =
      tag_count-append (o.escape s) (execute o ps) ∙ omega (arith, escapes s, tag_count-execute ps)

  markup-lines : (ls : List PdfLineData) → markup (lines_pieces o ls) ≡ 12 * length ls
  unfolding lines_pieces line_pieces tag_count
  markup-lines [] = refl
  markup-lines (l ∷ ls) = omega (arith, markup-lines ls)

  markup-notes : (notes : String) → markup (notes_pieces o notes) ≡ (if notes == "" then 0 else 6)
  unfolding notes_pieces tag_count
  markup-notes notes = elim (Bool-cases (notes == "")) [
    | inl empty ↦ rw empty refl
    | inr some_text ↦ rw some_text refl
  ]

  markup-style : markup (style_pieces o) ≡ 8
  unfolding style_pieces tag_count
  markup-style = refl

  markup-meta : (zone now : String) (d : PdfDraftData) → markup (meta_pieces o zone now d) ≡ 24
  unfolding meta_pieces tag_count
  markup-meta zone now d = refl

  markup-party : (p : PdfPartyData) → markup (party_pieces o p) ≡ 8
  unfolding party_pieces tag_count
  markup-party p = refl

  markup-between : markup (between_pieces o) ≡ 6
  unfolding between_pieces tag_count
  markup-between = refl

  markup-header : markup (header_pieces o) ≡ 20
  unfolding header_pieces tag_count
  markup-header = refl

  markup-totals : (t : Totals) → markup (totals_pieces o t) ≡ 24
  unfolding totals_pieces tag_count
  markup-totals t = refl

  markup-template :
      (zone now : String) (d : PdfDraftData) (t : Totals)
      → markup (html_template o zone now d t)
        ≡ 100 + 12 * length d.lines + (if d.notes == "" then 0 else 6)
  unfolding html_template tag_count
  markup-template zone now d t =
      let end = literal "\n</body>\n</html>\n" ∷ [] in
      let r₁ = notes_pieces o d.notes ++ end in
      let r₂ = totals_pieces o t ++ r₁ in
      let r₃ = lines_pieces o d.lines ++ r₂ in
      let r₄ = header_pieces o ++ r₃ in
      let r₅ = party_pieces o d.customer ++ r₄ in
      let r₆ = between_pieces o ++ r₅ in
      let r₇ = party_pieces o d.supplier ++ r₆ in
      let r₈ = meta_pieces o zone now d ++ r₇ in
      omega (
        arith,
        markup-append (style_pieces o) r₈,
        markup-append (meta_pieces o zone now d) r₇,
        markup-append (party_pieces o d.supplier) r₆,
        markup-append (between_pieces o) r₅,
        markup-append (party_pieces o d.customer) r₄,
        markup-append (header_pieces o) r₃,
        markup-append (lines_pieces o d.lines) r₂,
        markup-append (totals_pieces o t) r₁,
        markup-append (notes_pieces o d.notes) end,
        markup-style,
        markup-meta zone now d,
        markup-party d.supplier,
        markup-party d.customer,
        markup-between,
        markup-header,
        markup-lines d.lines,
        markup-totals t,
        markup-notes d.notes,
      )

  -- Where the time zone of the configuration is known, there is a page, and the `<` in it are those of
  -- the template, 100 and 12 for each line and 6 for notes: no text of an invoice opens or closes an
  -- element, provided that the escaping of `html/template` leaves no `<`. Where the time zone is not
  -- known, there is no page.
  pub page_tags :
      (cfg : Config) (now : Time) (d : PdfDraftData) (t : Totals)
      → ((o.load_location (default_string cfg.pdf_time_zone "Asia/Tokyo") ≡ none)
          × (page o cfg now d t ≡ none))
        ⊎ ((html : String) × (page o cfg now d t ≡ some html)
            × (tag_count html ≡ 100 + 12 * length d.lines + (if d.notes == "" then 0 else 6)))
  unfolding page
  page_tags cfg now d t =
      elim (Option-cases (o.load_location (default_string cfg.pdf_time_zone "Asia/Tokyo"))) [
        | inl unknown ↦ inl (unknown, rw (unknown, page) refl)
        | inr (zone, known) ↦ inr (
          execute o (html_template o zone (o.format zone "2006/01/02 15:04" now) d t),
          rw (known, page) refl,
          tag_count-execute (html_template o zone (o.format zone "2006/01/02 15:04" now) d t)
              ∙ markup-template zone (o.format zone "2006/01/02 15:04" now) d t,
        )
      ]
