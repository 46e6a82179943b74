-- ===== src/Pint/Validator.antt =====
-- apps/api/internal/pint/validator.go: the rules that an invoice draft must keep, and its totals.
pub mod Rules
use Prim.Native.String.{len}
use prompt_pack.Base.{
  ℕ, suc, ◌≤◌, ◌<◌, String, ◌&◌, ◌≡◌, refl, ◌≢◌, ◌↔◌, ◌⊎◌, Bool, true, false, not, ◌&&◌, ◌||◌, List,
  [], ◌∷◌, arith, ◌==◌, eq_iff,
}
use prompt_pack.Base.Tests.{if◌then◌else◌, ltb, eqb}
use prompt_pack.Base.Lists.{length, All}
use prompt_pack.Base.Int.{ℤ, pos, ltb_ℤ}
use prompt_pack.Base.Decimal.{decimal}
use prompt_pack.Pint.Text.{is_blank}
use prompt_pack.Pint.Types.{
  Date, Float64, FloatOps, float_zero, float_one, float_hundred, LineItem, InvoiceDraft,
  ValidationErrorItem, ValidationResult, Config,
}

-- What `Date.String` of the date type, and `%d` of a limit, give.
pub record Formats : Type 0 where
  pub date_string : Date → String
  pub int_string : ℤ → String

unfoldable pub err_item : String → String → String → ValidationErrorItem
err_item rule_id path message = record {
  code = rule_id;
  path = path;
  message = message;
  rule_id = rule_id;
}

unfoldable pub contains : List String → String → Bool
contains [] value = false
contains (item ∷ list) value = if item == value then true else contains list value

-- `if b { errors = append(errors, e) }`, in front of what follows.
unfoldable pub when :
    Bool → ValidationErrorItem → List ValidationErrorItem → List ValidationErrorItem
when b e rest = if b then e ∷ rest else rest

-- `round(val, 2)`, where `math.Pow(10, 2)` is 100.
unfoldable pub round : FloatOps → Float64 → Float64
round f val = f.div (f.math_round (f.mul val float_hundred)) float_hundred

-- `IsZero`, of a date.
unfoldable pub is_zero : Date → Bool
is_zero d = eqb d 366

unfoldable pub head_errors :
    Formats → Config → InvoiceDraft → List ValidationErrorItem → List ValidationErrorItem
unfolding when err_item is_zero
head_errors fmt cfg d rest =
    when (d.supplier.name == "" || d.customer.name == "")
      (err_item "JP-PINT-REQ-001" "supplier.name/customer.name"
        "Supplier and customer names are required")
      (when
        (fmt.date_string d.issue_date == "0001-01-01" || fmt.date_string d.due_date == "0001-01-01")
        (err_item "JP-PINT-REQ-002" "issueDate/dueDate" "Issue and due dates are required")
        (when
          (not (is_zero d.issue_date) && not (is_zero d.due_date) && ltb d.due_date d.issue_date)
          (err_item "JP-PINT-MATH-002" "dueDate" "Due date must be on or after issue date")
          (when (not (d.currency == "JPY"))
            (err_item "JP-PINT-REQ-005" "currency" "Only JPY is supported in this version")
            (when (eqb (length d.lines) 0)
              (err_item "JP-PINT-REQ-006" "lines" "At least one line item is required")
              (when (ltb_ℤ cfg.max_lines (pos (length d.lines)))
                (err_item "JP-PINT-LIMIT-001" "lines"
                  ("Too many lines (max " & fmt.int_string cfg.max_lines & ")"))
                rest)))))

unfoldable pub line_errors :
    FloatOps → Config → String → LineItem → List ValidationErrorItem → List ValidationErrorItem
unfolding when err_item contains
line_errors f cfg path line rest =
    when (is_blank line.description)
      (err_item "JP-PINT-REQ-007" (path & ".description") "Description is required")
      (when (ltb_ℤ cfg.max_description (pos (len line.description)))
        (err_item "JP-PINT-LIMIT-002" (path & ".description") "Description too long")
        (when (f.le line.quantity float_zero)
          (err_item "JP-PINT-MATH-003" (path & ".quantity") "Quantity must be positive")
          (when (f.lt line.unit_price float_zero)
            (err_item "JP-PINT-MATH-004" (path & ".unitPrice") "Unit price must be non-negative")
            (when (not (contains cfg.valid_unit_codes line.unit_code))
              (err_item "JP-PINT-CODE-001" (path & ".unitCode") "Invalid unit code")
              (when (not (contains cfg.valid_tax_category line.tax_category))
                (err_item "JP-PINT-CODE-002" (path & ".taxCategory") "Invalid tax category")
                (when (f.lt line.tax_rate float_zero || f.lt float_one line.tax_rate)
                  (err_item "JP-PINT-MATH-005" (path & ".taxRate")
                    "Tax rate must be between 0 and 1")
                  rest))))))

-- The errors of the loop over the lines, from the index `i`.
unfoldable pub lines_errors : FloatOps → Config → ℕ → List LineItem → List ValidationErrorItem
unfolding line_errors
lines_errors f cfg i [] = []
lines_errors f cfg i (line ∷ lines) =
    line_errors f cfg ("lines[" & decimal i & "]") line (lines_errors f cfg (suc i) lines)

-- The two sums of the loop, from what they are before it.
unfoldable pub sums : FloatOps → Float64 → Float64 → List LineItem → Float64 × Float64
unfolding round
sums f subtotal tax [] = (subtotal, tax)
sums f subtotal tax (line ∷ lines) =
    let line_subtotal = round f (f.mul line.quantity line.unit_price) in
    let line_tax = round f (f.mul line_subtotal line.tax_rate) in
    sums f (f.add subtotal line_subtotal) (f.add tax line_tax) lines

unfoldable pub validate : FloatOps → Formats → Config → InvoiceDraft → ValidationResult
unfolding head_errors lines_errors sums round
validate f fmt cfg d =
    let errors = head_errors fmt cfg d (lines_errors f cfg 0 d.lines) in
    let (subtotal, tax) = sums f float_zero float_zero d.lines in
    record {
      valid = eqb (length errors) 0;
      errors = errors;
      totals = record {
        subtotal = subtotal;
        tax = tax;
        grand_total = round f (f.add subtotal tax);
      };
    }
