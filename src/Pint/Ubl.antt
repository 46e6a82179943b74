-- ===== src/Pint/Ubl.antt =====
-- apps/api/internal/pint/ubl.go: the UBL invoice of a draft. `encoding/xml` is a parameter.
use prompt_pack.Base.{
  ℕ, zero, suc, ◌+◌, String, ◌&◌, ◌≡◌, refl, ap, ◌∙◌, Option, none, some, List, [], ◌∷◌, arith,
}
use prompt_pack.Base.Lists.{length, All, get_elem?}
use prompt_pack.Base.Decimal.{decimal}
use prompt_pack.Pint.Types.{
  Date, Float64, FloatOps, float_hundred, LineItem, Party, InvoiceDraft, Totals,
}

pub record Country : Type 0 where
  pub identification_code : String

pub record Address : Type 0 where
  pub street_name : String
  pub postal_zone : String
  pub country : Country

pub record TaxInfo : Type 0 where
  pub id : String

pub record TaxScheme : Type 0 where
  pub company_id : String
  pub tax_scheme : TaxInfo

pub record NameWrapper : Type 0 where
  pub name : String

pub record PartyType : Type 0 where
  pub party_name : NameWrapper
  pub postal_address : Address
  pub party_tax_scheme : TaxScheme

pub record PartyWrapper : Type 0 where
  pub party : PartyType

pub record Amount : Type 0 where
  pub currency : String
  pub value : Float64

pub record TaxTotal : Type 0 where
  pub tax_amount : Amount

pub record MonetaryTotal : Type 0 where
  pub line_extension_amount : Amount
  pub tax_exclusive_amount : Amount
  pub tax_inclusive_amount : Amount
  pub payable_amount : Amount

pub record Quantity : Type 0 where
  pub unit_code : String
  pub value : Float64

pub record TaxCategory : Type 0 where
  pub id : String
  pub percent : Float64
  pub tax_scheme : TaxInfo

pub record Item : Type 0 where
  pub description : String
  pub tax_category : TaxCategory

pub record Price : Type 0 where
  pub price_amount : Amount

pub record LineTaxTotal : Type 0 where
  pub tax_amount : Amount

pub record InvoiceLine : Type 0 where
  pub id : String
  pub invoiced_quantity : Quantity
  pub line_extension_amount : Amount
  pub item : Item
  pub price : Price
  pub tax_total : LineTaxTotal

pub record UblInvoice : Type 0 where
  pub xmlns : String
  pub cbc : String
  pub cac : String
  pub customization_id : String
  pub profile_id : String
  pub id : String
  pub issue_date : String
  pub due_date : String
  pub invoice_type_code : String
  pub note : String
  pub document_currency_code : String
  pub accounting_supplier_party : PartyWrapper
  pub accounting_customer_party : PartyWrapper
  pub tax_total : TaxTotal
  pub legal_monetary_total : MonetaryTotal
  pub invoice_line : List InvoiceLine

unfoldable pub amount : String → Float64 → Amount
amount currency value = record { currency = currency; value = value }

-- The literal for the supplier and, alike, for the customer.
unfoldable pub party_wrapper : Party → PartyWrapper
party_wrapper p = record {
  party = record {
    party_name = record { name = p.name };
    postal_address = record {
      street_name = p.address;
      postal_zone = p.postal;
      country = record { identification_code = p.country_code };
    };
    party_tax_scheme = record { company_id = p.tax_id; tax_scheme = record { id = "VAT" } };
  };
}

unfoldable pub invoice_line : FloatOps → String → ℕ → LineItem → InvoiceLine
unfolding amount
invoice_line f currency i line =
    let line_subtotal = f.mul line.quantity line.unit_price in
    let line_tax = f.mul line_subtotal line.tax_rate in
    record {
      id = decimal (i + 1);
      invoiced_quantity = record { unit_code = line.unit_code; value = line.quantity };
      line_extension_amount = amount currency line_subtotal;
      item = record {
        description = line.description;
        tax_category = record {
          id = line.tax_category;
          percent = f.mul line.tax_rate float_hundred;
          tax_scheme = record { id = "VAT" };
        };
      };
      price = record { price_amount = amount currency line.unit_price };
      tax_total = record { tax_amount = amount currency line_tax };
    }

-- The loop over the lines, from the index `i`.
unfoldable pub invoice_lines : FloatOps → String → ℕ → List LineItem → List InvoiceLine
unfolding invoice_line
invoice_lines f currency i [] = []
invoice_lines f currency i (line ∷ lines) =
    invoice_line f currency i line ∷ invoice_lines f currency (suc i) lines

unfoldable pub ubl_of : FloatOps → (Date → String) → String → InvoiceDraft → Totals → UblInvoice
unfolding amount party_wrapper invoice_lines
ubl_of f date_string invoice_id draft totals = record {
  xmlns = "urn:oasis:names:specification:ubl:schema:xsd:Invoice-2";
  cbc = "urn:oasis:names:specification:ubl:schema:xsd:CommonBasicComponents-2";
  cac = "urn:oasis:names:specification:ubl:schema:xsd:CommonAggregateComponents-2";
  customization_id = "urn:jp:pint:invoice:1.0";
  profile_id = "urn:peppol:bis:billing:3";
  id = invoice_id;
  issue_date = date_string draft.issue_date;
  due_date = date_string draft.due_date;
  invoice_type_code = "380";
  note = (elim draft.notes [ none ↦ "" | some notes ↦ notes ]);
  document_currency_code = draft.currency;
  accounting_supplier_party = party_wrapper draft.supplier;
  accounting_customer_party = party_wrapper draft.customer;
  tax_total = record { tax_amount = amount draft.currency totals.tax };
  legal_monetary_total = record {
    line_extension_amount = amount draft.currency totals.subtotal;
    tax_exclusive_amount = amount draft.currency totals.subtotal;
    tax_inclusive_amount = amount draft.currency totals.grand_total;
    payable_amount = amount draft.currency totals.grand_total;
  };
  invoice_line = invoice_lines f draft.currency 0 draft.lines;
}

-- `BuildUBL`, where `marshal_indent` gives `none` for an error.
unfoldable pub build_ubl :
    FloatOps
    → (Date → String)
    → (UblInvoice → Option String)
    → String
    → InvoiceDraft
    → Totals
    → Option String
unfolding ubl_of
build_ubl f date_string marshal_indent invoice_id draft totals =
    elim (marshal_indent (ubl_of f date_string invoice_id draft totals)) [
      | none ↦ none
      | some output ↦ some ("<?xml version=\"1.0\" encoding=\"UTF-8\"?>\n" & output)
    ]

length-invoice_lines :
    (f : FloatOps) (currency : String) (i : ℕ) (lines : List LineItem)
    → length (invoice_lines f currency i lines) ≡ length lines
unfolding invoice_lines
length-invoice_lines f currency i [] = refl
length-invoice_lines f currency i (line ∷ lines) =
    ap suc (length-invoice_lines f currency (suc i) lines)

get_elem?-invoice_lines :
    (f : FloatOps) (currency : String) (i j : ℕ) (lines : List LineItem) (line : LineItem)
    → get_elem? lines j ≡ some line
    → get_elem? (invoice_lines f currency i lines) j ≡ some (invoice_line f currency (i + j) line)
unfolding invoice_lines
get_elem?-invoice_lines f currency i j [] line h = absurd (cc h)
get_elem?-invoice_lines f currency i zero (x ∷ lines) line h =
    ap (λ (n : ℕ). some (invoice_line f currency n x)) (omega arith)
    ∙ ap (λ (o : LineItem). some (invoice_line f currency (i + 0) o)) (ground (arith, h))
get_elem?-invoice_lines f currency i (suc j) (x ∷ lines) line h =
    get_elem?-invoice_lines f currency (suc i) j lines line h
    ∙ ap (λ (n : ℕ). some (invoice_line f currency n line)) (omega arith)

-- The amounts of a line.
abbrev pub line_amounts : InvoiceLine → List Amount
line_amounts l = l.line_extension_amount ∷ l.price.price_amount ∷ l.tax_total.tax_amount ∷ []

-- The UBL invoice is in the draft's currency and has as many lines as the draft, and at each line's
-- place one with the line's number, counted from one, with its quantity, unit, description and price,
-- every amount in the draft's currency, and the product of quantity and price, which is not rounded,
-- as its amount; the amount of its tax is that product times the rate.
pub ubl_lines :
    (f : FloatOps) (date_string : Date → String) (invoice_id : String) (draft : InvoiceDraft)
    (totals : Totals) (i : ℕ) (line : LineItem)
    → get_elem? draft.lines i ≡ some line
    → let ubl = ubl_of f date_string invoice_id draft totals in
      (ubl.document_currency_code ≡ draft.currency)
      × (length ubl.invoice_line ≡ length draft.lines)
      × ((l : InvoiceLine) × (get_elem? ubl.invoice_line i ≡ some l)
          × (l.id ≡ decimal (i + 1))
          × (l.invoiced_quantity.value ≡ line.quantity)
          × (l.invoiced_quantity.unit_code ≡ line.unit_code)
          × (l.item.description ≡ line.description)
          × All (λ a. a.currency ≡ draft.currency) (line_amounts l)
          × (l.price.price_amount.value ≡ line.unit_price)
          × (l.line_extension_amount.value ≡ f.mul line.quantity line.unit_price)
          × (l.tax_total.tax_amount.value
              ≡ f.mul (f.mul line.quantity line.unit_price) line.tax_rate))
unfolding ubl_of invoice_line amount
ubl_lines f date_string invoice_id draft totals i line at = (
  refl,
  length-invoice_lines f draft.currency 0 draft.lines,
  (
    invoice_line f draft.currency i line,
    get_elem?-invoice_lines f draft.currency 0 i draft.lines line at
        ∙ ap (λ (n : ℕ). some (invoice_line f draft.currency n line)) (omega arith),
    refl,
    refl,
    refl,
    refl,
    (refl, (refl, (refl, tt))),
    refl,
    refl,
    refl,
  ),
)
