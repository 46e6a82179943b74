-- ===== src/Pint/Types.antt =====
-- The schema types of apps/api/internal/pint/jp_pint.gen.go, models.go, and the
-- configuration of config.go.
use prompt_pack.Base.{ℕ, String, Bool, Option, List}
use prompt_pack.Base.Int.{ℤ}

-- An instant: nanoseconds on one clock.
abbrev pub Time : Type 0
Time = ℕ

-- A calendar date: days since 0000-01-01, so that Go's zero time is day 366.
abbrev pub Date : Type 0
Date = ℕ

-- A float64, by its 64 bits.
abbrev pub Float64 : Type 0
Float64 = ℕ

-- The processor's float64 arithmetic, and `math.Round`.
pub record FloatOps : Type 0 where
  pub add : Float64 → Float64 → Float64
  pub mul : Float64 → Float64 → Float64
  pub div : Float64 → Float64 → Float64
  pub lt : Float64 → Float64 → Bool
  pub le : Float64 → Float64 → Bool
  pub math_round : Float64 → Float64

abbrev pub float_zero : Float64
float_zero = 0

abbrev pub float_one : Float64
float_one = 4607182418800017408

abbrev pub float_hundred : Float64
float_hundred = 4636737291354636288

pub record Party : Type 0 where
  pub address : String
  pub country_code : String
  pub name : String
  pub postal : String
  pub tax_id : String

pub record LineItem : Type 0 where
  pub description : String
  pub quantity : Float64
  pub tax_category : String
  pub tax_rate : Float64
  pub unit_code : String
  pub unit_price : Float64

pub record InvoiceDraft : Type 0 where
  pub currency : String
  pub customer : Party
  pub due_date : Date
  pub invoice_number : Option String
  pub issue_date : Date
  pub lines : List LineItem
  pub notes : Option String
  pub supplier : Party

-- The field `severity` is set nowhere.
pub record ValidationErrorItem : Type 0 where
  pub code : String
  pub message : String
  pub path : String
  pub rule_id : String

pub record InternalError : Type 0 where
  pub code : String
  pub message : String
  pub retryable : Bool

-- An identifier of the UUID type, by its text.
abbrev pub Uuid : Type 0
Uuid = String

pub record AuditEntry : Type 0 where
  pub action : String
  pub actor : String
  pub audit_id : Uuid
  pub corr_id : String
  pub hash : String
  pub prev_hash : String
  pub tenant_id : String
  pub timestamp : Time

pub record InvoiceRecord : Type 0 where
  pub audit : Option AuditEntry
  pub created_at : Time
  pub invoice_id : Uuid
  pub pdf_url : Option String
  pub status : String
  pub updated_at : Time
  pub xml_url : String

pub record Totals : Type 0 where
  pub subtotal : Float64
  pub tax : Float64
  pub grand_total : Float64

pub record ValidationResult : Type 0 where
  pub valid : Bool
  pub errors : List ValidationErrorItem
  pub totals : Totals

pub record Config : Type 0 where
  pub s3_endpoint : String
  pub s3_bucket : String
  pub sign_url_ttl : ℤ
  pub max_lines : ℤ
  pub allowed_delta : Float64
  pub rounding_mode : String
  pub max_description : ℤ
  pub pdf_enabled : Bool
  pub default_time_zone : String
  pub default_locale : String
  pub max_parallel_jobs : ℤ
  pub enable_audit_hash : Bool
  pub valid_unit_codes : List String
  pub valid_tax_category : List String
  pub pdf_chromium_path : String
  pub pdf_timeout : ℤ
  pub pdf_tmp_dir : String
  pub pdf_locale : String
  pub pdf_time_zone : String
  pub pdf_fonts_dir : String
