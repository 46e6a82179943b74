-- ===== src/Pint/Settings.antt =====
-- apps/api/internal/pint/config.go: the configuration that an environment gives.
use prompt_pack.Base.{true, [], ◌∷◌}
use prompt_pack.Base.Int.{pos}
use prompt_pack.Base.Env.{Env, getenv, get_duration, get_int, get_float, get_bool}
use prompt_pack.Pint.Types.{Config}

-- 0.01 by its bits; durations are nanoseconds.
unfoldable pub load_config : Env → Config
load_config env = record {
  s3_endpoint = getenv env "S3_ENDPOINT" "https://s3.example.com";
  s3_bucket = getenv env "S3_BUCKET" "jp-pint-invoices";
  sign_url_ttl = get_duration env "SIGN_URL_TTL" (pos 600000000000);
  max_lines = get_int env "MAX_INVOICE_LINES" (pos 500);
  allowed_delta = get_float env "ALLOWED_TOTAL_DELTA" 4576918229304087675;
  rounding_mode = getenv env "ROUNDING_MODE" "HALF_UP";
  max_description = get_int env "MAX_DESCRIPTION_LEN" (pos 240);
  pdf_enabled = get_bool env "PDF_ENABLED" true;
  default_time_zone = getenv env "DEFAULT_TZ" "Asia/Tokyo";
  default_locale = getenv env "DEFAULT_LOCALE" "ja-JP";
  max_parallel_jobs = get_int env "MAX_PARALLEL_JOBS" (pos 4);
  enable_audit_hash = get_bool env "ENABLE_AUDIT_HASH" true;
  valid_unit_codes = "EA" ∷ "HUR" ∷ "MTR" ∷ "D64" ∷ "KGM" ∷ "LTR" ∷ [];
  valid_tax_category = "S" ∷ "Z" ∷ "E" ∷ "O" ∷ "AE" ∷ "K" ∷ "G" ∷ [];
  pdf_chromium_path = getenv env "PDF_CHROMIUM_PATH" "";
  pdf_timeout = get_duration env "PDF_TIMEOUT" (pos 15000000000);
  pdf_tmp_dir = getenv env "PDF_TMP_DIR" "/tmp";
  pdf_locale = getenv env "PDF_LOCALE" "ja-JP";
  pdf_time_zone = getenv env "PDF_TIMEZONE" "Asia/Tokyo";
  pdf_fonts_dir = getenv env "PDF_FONTS_DIR" "";
}
