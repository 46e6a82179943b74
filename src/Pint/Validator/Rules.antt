-- ===== src/Pint/Validator/Rules.antt =====
-- The rules that apps/api/internal/pint/validator.go enforces, as one predicate on drafts.
use Prim.Native.String.{len, [] as nil, ◌∷◌ as cons}
use prompt_pack.Base.{
  ℕ, suc, ◌≤◌, ◌<◌, String, ◌&◌, ◌≡◌, refl, ◌≢◌, ◌↔◌, ◌⊎◌, inl, inr, Bool, true, false, not, ◌&&◌,
  ◌||◌, List, [], ◌∷◌, arith, ◌==◌, eq_iff,
}
use prompt_pack.Base.Text.{is_space}
use prompt_pack.Base.Tests.{if◌then◌else◌, Bool-cases, ltb, eqb}
use prompt_pack.Base.Lists.{length, All}
use prompt_pack.Base.Int.{pos, ltb_ℤ}
use prompt_pack.Base.Decimal.{decimal}
use prompt_pack.Pint.Text.{is_blank}
use prompt_pack.Pint.Types.{
  FloatOps, float_zero, float_one, LineItem, InvoiceDraft, ValidationErrorItem, Config,
}
use prompt_pack.Pint.Validator.{
  Formats, contains, when, is_zero, head_errors, line_errors, lines_errors, validate,
}

-- The elements of a list of texts.
abbrev pub Has : String → List String → Type 0
Has s [] = ⊥
Has s (x ∷ xs) = (x ≡ s) ⊎ Has s xs

contains_iff : (list : List String) (s : String) → (contains list s ≡ true) ↔ Has s list
unfolding contains
contains_iff [] s = (λ h. cc h, λ h. absurd h)
contains_iff (x ∷ xs) s =
    let (to, from) = contains_iff xs s in
    (λ h. ground (arith, eq_iff x s, to, h), λ h. ground (arith, eq_iff x s, from, h))

-- A text of nothing but white space, as `unicode.IsSpace` has it.
abbrev pub Blank : String → Type 0
Blank nil = Unit
Blank (cons c s) = (is_space c ≡ true) × Blank s

both_iff : (a b : Bool) → ((if a then b else false) ≡ true) ↔ ((a ≡ true) × (b ≡ true))
both_iff true b = (λ h. (refl, h), λ h. h.1)
both_iff false b = (λ h. absurd (cc h), λ h. absurd (cc (h.0)))

is_blank_iff : (s : String) → (is_blank s ≡ true) ↔ Blank s
unfolding is_blank
is_blank_iff nil = (λ h. tt, λ h. refl)
is_blank_iff (cons c s) =
    let (to, from) = is_blank_iff s in
    let (split, join) = both_iff (is_space c) (is_blank s) in
    (λ h. let (a, b) = split h in (a, to b), λ h. join (h.0, from h.1))

-- What a line must be, in the terms of the float comparisons. `len` counts bytes, as Go does.
pub record LineIsValid (f : FloatOps) (cfg : Config) (line : LineItem) : Type 0 where
  pub described : ¬ Blank line.description
  pub short : ltb_ℤ cfg.max_description (pos (len line.description)) ≡ false
  pub quantity : f.le line.quantity float_zero ≡ false
  pub unit_price : f.lt line.unit_price float_zero ≡ false
  pub unit_code : Has line.unit_code cfg.valid_unit_codes
  pub tax_category : Has line.tax_category cfg.valid_tax_category
  pub rate_least : f.lt line.tax_rate float_zero ≡ false
  pub rate_most : f.lt float_one line.tax_rate ≡ false

pub record DraftIsValid (f : FloatOps) (fmt : Formats) (cfg : Config) (d : InvoiceDraft)
    : Type 0 where
  pub supplier : d.supplier.name ≢ ""
  pub customer : d.customer.name ≢ ""
  pub issued : fmt.date_string d.issue_date ≢ "0001-01-01"
  pub due : fmt.date_string d.due_date ≢ "0001-01-01"
  pub ordered : (d.issue_date ≡ 366) ⊎ (d.due_date ≡ 366) ⊎ (d.issue_date ≤ d.due_date)
  pub currency : d.currency ≡ "JPY"
  pub some_line : 0 < length d.lines
  pub few_lines : ltb_ℤ cfg.max_lines (pos (length d.lines)) ≡ false
  pub lines : All (LineIsValid f cfg) d.lines

when-empty :
    (b : Bool) (e : ValidationErrorItem) (rest : List ValidationErrorItem)
    → (length (when b e rest) ≡ 0) ↔ ((b ≡ false) × (length rest ≡ 0))
unfolding when
when-empty true e rest = (λ h. absurd (omega (arith, h)), λ h. absurd (cc (h.0)))
when-empty false e rest = (λ h. (refl, h), λ h. h.1)

line_errors-empty :
    (f : FloatOps) (cfg : Config) (path : String) (line : LineItem)
    (rest : List ValidationErrorItem)
    → (length (line_errors f cfg path line rest) ≡ 0) ↔ (LineIsValid f cfg line × (length rest ≡ 0))
unfolding line_errors when
line_errors-empty f cfg path line rest = (
  λ h. (
    record {
      described = λ b. ground (arith, (is_blank_iff line.description).1 b, h);
      short = ground (arith, h);
      quantity = ground (arith, h);
      unit_price = ground (arith, h);
      unit_code = (contains_iff cfg.valid_unit_codes line.unit_code).0 (ground (arith, h));
      tax_category = (contains_iff cfg.valid_tax_category line.tax_category).0 (ground (arith, h));
      rate_least = ground (arith, h);
      rate_most = ground (arith, h);
    },
    ground (arith, h),
  ),
  λ h.
      let shown : is_blank line.description ≡ false =
        elim (Bool-cases (is_blank line.description)) [
          | inl b ↦ absurd (h.0.described ((is_blank_iff line.description).0 b))
          | inr some_text ↦ some_text
        ] in
      ground (
        arith,
        shown,
        h.0.short,
        h.0.quantity,
        h.0.unit_price,
        (contains_iff cfg.valid_unit_codes line.unit_code).1 h.0.unit_code,
        (contains_iff cfg.valid_tax_category line.tax_category).1 h.0.tax_category,
        h.0.rate_least,
        h.0.rate_most,
        h.1,
      ),
)

lines_errors-empty :
    (f : FloatOps) (cfg : Config) (i : ℕ) (lines : List LineItem)
    → (length (lines_errors f cfg i lines) ≡ 0) ↔ All (LineIsValid f cfg) lines
unfolding lines_errors
lines_errors-empty f cfg i [] = (λ h. tt, λ h. refl)
lines_errors-empty f cfg i (line ∷ lines) =
    let path = "lines[" & decimal i & "]" in
    let (to, from) = line_errors-empty f cfg path line (lines_errors f cfg (suc i) lines) in
    let (to', from') = lines_errors-empty f cfg (suc i) lines in
    (λ h. ((to h).0, to' (to h).1), λ h. from (h.0, from' h.1))

-- The rules on the draft as a whole, as the tests that the code makes.
abbrev HeadPasses : Formats → Config → InvoiceDraft → Type 0
HeadPasses fmt cfg d =
    ((d.supplier.name == "" || d.customer.name == "") ≡ false)
    × ((fmt.date_string d.issue_date == "0001-01-01" || fmt.date_string d.due_date == "0001-01-01")
        ≡ false)
    × ((not (is_zero d.issue_date) && not (is_zero d.due_date) && ltb d.due_date d.issue_date)
        ≡ false)
    × (not (d.currency == "JPY") ≡ false)
    × (eqb (length d.lines) 0 ≡ false)
    × (ltb_ℤ cfg.max_lines (pos (length d.lines)) ≡ false)

head_errors-empty :
    (fmt : Formats) (cfg : Config) (d : InvoiceDraft) (rest : List ValidationErrorItem)
    → (length (head_errors fmt cfg d rest) ≡ 0) ↔ (HeadPasses fmt cfg d × (length rest ≡ 0))
unfolding head_errors
head_errors-empty fmt cfg d rest = (
  λ h.
      let (a, h₁) = (when-empty _ _ _).0 h in
      let (b, h₂) = (when-empty _ _ _).0 h₁ in
      let (c, h₃) = (when-empty _ _ _).0 h₂ in
      let (e, h₄) = (when-empty _ _ _).0 h₃ in
      let (g, h₅) = (when-empty _ _ _).0 h₄ in
      let (k, h₆) = (when-empty _ _ _).0 h₅ in ((a, b, c, e, g, k), h₆),
  λ h.
      let ((a, b, c, e, g, k), r) = h in
      (when-empty _ _ _).1 (
        a,
        (when-empty _ _ _).1 (
          b,
          (when-empty _ _ _).1
              (c, (when-empty _ _ _).1 (e, (when-empty _ _ _).1 (g, (when-empty _ _ _).1 (k, r)))),
        ),
      ),
)

-- A draft is reported as valid exactly when it keeps every rule: both names, both dates, their
-- order, the currency, the number of lines, and the rules of each line: a description that is not
-- blank and not too long in bytes, a quantity above 0, a price of 0 or more, a unit and a tax category
-- of the lists of the configuration, and a rate from 0 to 1.
pub validate_iff :
    (f : FloatOps) (fmt : Formats) (cfg : Config) (d : InvoiceDraft)
    → ((validate f fmt cfg d).valid ≡ true) ↔ DraftIsValid f fmt cfg d
unfolding validate is_zero
validate_iff f fmt cfg d =
    let (to, from) = lines_errors-empty f cfg 0 d.lines in
    let (head, head') = head_errors-empty fmt cfg d (lines_errors f cfg 0 d.lines) in
    (
      λ h.
          let ((names, dates, order, currency, some_line, few), rest) = head (ground (arith, h)) in
          record {
            supplier = λ e. ground (arith, names, eq_iff d.supplier.name "", e);
            customer = λ e. ground (arith, names, eq_iff d.customer.name "", e);
            issued =
                λ e. ground (arith, dates, eq_iff (fmt.date_string d.issue_date) "0001-01-01", e);
            due = λ e. ground (arith, dates, eq_iff (fmt.date_string d.due_date) "0001-01-01", e);
            ordered = ground (arith, order);
            currency = (eq_iff d.currency "JPY").0 (ground (arith, currency));
            some_line = ground (arith, some_line);
            few_lines = few;
            lines = to rest;
          },
      λ v.
          let passes : HeadPasses fmt cfg d = (
            ground (
              arith,
              eq_iff d.supplier.name "",
              eq_iff d.customer.name "",
              λ (e : d.supplier.name ≡ ""). v.supplier e,
              λ (e : d.customer.name ≡ ""). v.customer e,
            ),
            ground (
              arith,
              eq_iff (fmt.date_string d.issue_date) "0001-01-01",
              eq_iff (fmt.date_string d.due_date) "0001-01-01",
              λ (e : fmt.date_string d.issue_date ≡ "0001-01-01"). v.issued e,
              λ (e : fmt.date_string d.due_date ≡ "0001-01-01"). v.due e,
            ),
            ground (arith, v.ordered),
            ground (arith, eq_iff d.currency "JPY", v.currency),
            ground (arith, v.some_line),
            v.few_lines,
          ) in
          ground (arith, head' (passes, from v.lines)),
    )
