-- ===== src/AuditZip/Validator.antt =====
-- apps/api/internal/auditzip/validator.go: the rules that a request for an audit export must keep,
-- and the hint to split a range that is too long.
pub mod Accepted
use Prim.Native.String.{len}
use prompt_pack.Base.{
  ℕ, zero, suc, ◌+◌, ◌-◌, ◌*◌, ◌/◌, ◌%◌, ◌^◌, ◌≤◌, ◌<◌, String, ◌&◌, ◌≡◌, refl, sym, ap, subst, ◌∙◌,
  ◌≢◌, ◌↔◌, ◌⊎◌, inl, inr, Bool, true, false, not, ◌&&◌, ◌||◌, Option, none, some, List, [], ◌∷◌,
  ◌++◌, map, arith, ◌==◌, eq_iff,
}
use prompt_pack.Base.Tests.{
  if◌then◌else◌, ltb, leb, eqb, Bool-cases, Option-cases, if_true, if_false,
}
use prompt_pack.Base.Int.{ℤ, pos, negsuc, leb_ℤ}
use prompt_pack.AuditZip.Types.{Date, Float64, AuditZipRequest, Config}

pub record SplitHint : Type 0 where
  pub approx_size_mb : Float64
  pub chunks : ℤ

pub record ValidationErrorItem : Type 0 where
  pub code : String
  pub message : String
  pub path : String

-- The processor's float64 arithmetic, and `math.Ceil`.
pub record FloatOps : Type 0 where
  pub lt : Float64 → Float64 → Bool
  pub mul : Float64 → Float64 → Float64
  pub div : Float64 → Float64 → Float64
  pub ceil : Float64 → Float64
  pub of_int : ℤ → Float64

-- `IsZero`: Go's zero time is 0001-01-01, which is day 366.
unfoldable pub is_zero : Date → Bool
is_zero d = eqb d 366

-- `if b { errs = append(errs, …) }`, in front of what follows.
unfoldable pub when :
    Bool → String → String → String → List ValidationErrorItem → List ValidationErrorItem
when b code path message rest =
    if b then record { code = code; path = path; message = message } ∷ rest else rest

unfoldable pub exceeds : Option String → Bool
exceeds none = false
exceeds (some partner) = ltb 140 (len partner)

unfoldable pub is_negative : FloatOps → Option Float64 → Bool
is_negative f none = false
is_negative f (some x) = f.lt x 0

unfoldable pub is_crossed : FloatOps → Option Float64 → Option Float64 → Bool
is_crossed f (some least) (some most) = f.lt most least
is_crossed f _ _ = false

unfoldable pub request_errors : FloatOps → AuditZipRequest → List ValidationErrorItem
unfolding when exceeds is_negative is_crossed
request_errors f req =
    when (ltb req.to_date req.from_date) "AUDIT-REQ-004" "to" "to must be on or after from" (
      when (not (req.format == "zip")) "AUDIT-REQ-005" "format" "format must be zip" (
        when (exceeds req.partner) "AUDIT-REQ-006" "partner" "partner too long" (
          when (is_negative f req.min_amount) "AUDIT-REQ-007" "minAmount" "minAmount must be >= 0" (
            when (is_negative f req.max_amount) "AUDIT-REQ-008" "maxAmount" "maxAmount must be >= 0"
              (when (is_crossed f req.min_amount req.max_amount) "AUDIT-REQ-009"
                "minAmount/maxAmount" "minAmount must be <= maxAmount" [])))))

-- `int(to.Sub(from).Hours()/24) + 1`, of dates in order: a day is 86400 * 10^9 nanoseconds, and
-- `Sub` stops at the end of an `int64`.
unfoldable pub range_days : Date → Date → ℕ
range_days from to =
    let nanoseconds = (to - from) * 86400000000000 in
    (if ltb nanoseconds (2 ^ 63) then nanoseconds else 2 ^ 63 - 1) / 86400000000000 + 1

-- `int(math.Ceil(float64(days) / float64(max)))` for a `max` that is not 0: the quotients of such
-- small integers round to no other integer's side.
unfoldable pub chunks_of : ℕ → ℤ → ℤ
chunks_of days (pos m) = pos ((days + (m - 1)) / m)
chunks_of days (negsuc n) = if ltb days (suc n) then pos 0 else negsuc (days / suc n - 1)

unfoldable pub split_hint_if_needed : FloatOps → Config → Date → Date → Option SplitHint
unfolding range_days chunks_of
split_hint_if_needed f cfg from to =
    let days = range_days from to in
    let chunks = chunks_of days cfg.max_range_days in
    if leb_ℤ cfg.max_range_days (pos 0) && leb_ℤ (pos 0) cfg.max_range_days
    then none
    else if leb_ℤ (pos days) cfg.max_range_days
    then none
    else some (record {
      approx_size_mb =
          f.ceil (f.div (f.mul cfg.estimated_mb_per_day (f.of_int (pos days))) (f.of_int chunks));
      chunks = chunks;
    })

-- The errors and the hint; no hint is looked for where there are errors.
unfoldable pub validate_request :
    FloatOps → Config → AuditZipRequest → List ValidationErrorItem × Option SplitHint
unfolding is_zero request_errors split_hint_if_needed
validate_request f cfg req =
    if is_zero req.from_date || is_zero req.to_date
    then (
      record { code = "AUDIT-REQ-001"; path = "from/to"; message = "from and to are required" }
          ∷ [],
      none,
    )
    else elim (request_errors f req) [
      | e ∷ es ↦ (e ∷ es, none)
      | [] ↦ ([], split_hint_if_needed f cfg req.from_date req.to_date)
    ]
