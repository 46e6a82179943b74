-- ===== src/AuditZip/Validator/Accepted.antt =====
-- The requests that apps/api/internal/auditzip/validator.go accepts, and those it wants split.
use prompt_pack.Base.{
  ℕ, zero, suc, ◌+◌, ◌-◌, ◌*◌, ◌/◌, ◌^◌, ◌≤◌, ◌<◌, String, ◌≡◌, refl, sym, ap, subst, ◌∙◌, ◌≢◌, ◌↔◌,
  ◌⊎◌, inl, inr, Bool, true, false, not, Option, none, some, List, [], ◌∷◌, arith, ◌==◌, eq_iff,
}
use prompt_pack.Base.Tests.{ltb, leb, Bool-cases, if_true}
use prompt_pack.Base.Int.{pos}
use native.Mathlib.Nat.{div-mul-le_self, lt-div-mul-add, le-div_iff_mul-le, mul-div_cancel}
use mathlib.Core.Option.{some-injective, none-ne-some}
use mathlib.Core.Path.{ap₂}
use Prim.Native.String.{len}
use prompt_pack.AuditZip.Types.{Date, Float64, AuditZipRequest, Config}
use prompt_pack.AuditZip.Validator.{
  SplitHint, ValidationErrorItem, FloatOps, is_zero, when, exceeds, is_negative, is_crossed,
  request_errors, range_days, chunks_of, split_hint_if_needed, validate_request,
}

-- What the rules ask of a request, in the terms of the float comparisons. `len` counts bytes, as Go
-- does; an optional field that is absent keeps its rule.
pub record IsProper (f : FloatOps) (req : AuditZipRequest) : Type 0 where
  pub from_set : req.from_date ≢ 366
  pub to_set : req.to_date ≢ 366
  pub ordered : req.from_date ≤ req.to_date
  pub format : req.format ≡ "zip"
  pub partner : (name : String) → req.partner ≡ some name → len name ≤ 140
  pub min_amount : (x : Float64) → req.min_amount ≡ some x → f.lt x 0 ≡ false
  pub max_amount : (x : Float64) → req.max_amount ≡ some x → f.lt x 0 ≡ false
  pub amounts :
      (least most : Float64)
      → req.min_amount ≡ some least
      → req.max_amount ≡ some most
      → f.lt most least ≡ false

exceeds_iff :
    (o : Option String) → (exceeds o ≡ false) ↔ ((name : String) → o ≡ some name → len name ≤ 140)
unfolding exceeds
exceeds_iff none = (λ h name e. absurd (none-ne-some name e), λ h. refl)
exceeds_iff (some partner) = (
  λ h name e.
      subst (λ (s : String). len s ≤ 140) (some-injective partner name e) (ground (arith, h)),
  λ h. ground (arith, h partner refl),
)

is_negative_iff :
    (f : FloatOps) (o : Option Float64)
    → (is_negative f o ≡ false) ↔ ((x : Float64) → o ≡ some x → f.lt x 0 ≡ false)
unfolding is_negative
is_negative_iff f none = (λ h x e. absurd (none-ne-some x e), λ h. refl)
is_negative_iff f (some y) =
    (λ h x e. ap (λ (z : Float64). f.lt z 0) (sym (some-injective y x e)) ∙ h, λ h. h y refl)

is_crossed_iff :
    (f : FloatOps) (a b : Option Float64)
    → (is_crossed f a b ≡ false)
      ↔ ((least most : Float64) → a ≡ some least → b ≡ some most → f.lt most least ≡ false)
unfolding is_crossed
is_crossed_iff f none b = (λ h x y e k. absurd (none-ne-some x e), λ h. refl)
is_crossed_iff f (some a) none = (λ h x y e k. absurd (none-ne-some y k), λ h. refl)
is_crossed_iff f (some a) (some b) = (
  λ h x y e k. ap₂ f.lt (sym (some-injective b y k)) (sym (some-injective a x e)) ∙ h,
  λ h. h a b refl refl,
)

-- The tests of the rules behind the first, as the code makes them.
abbrev Passes : FloatOps → AuditZipRequest → Type 0
Passes f req =
    (ltb req.to_date req.from_date ≡ false)
    × (not (req.format == "zip") ≡ false)
    × (exceeds req.partner ≡ false)
    × (is_negative f req.min_amount ≡ false)
    × (is_negative f req.max_amount ≡ false)
    × (is_crossed f req.min_amount req.max_amount ≡ false)

when-empty :
    (b : Bool) (code path message : String) (rest : List ValidationErrorItem)
    → (when b code path message rest ≡ []) ↔ ((b ≡ false) × (rest ≡ []))
unfolding when
when-empty true code path message rest = (λ h. absurd (cc h), λ h. absurd (cc (h.0)))
when-empty false code path message rest = (λ h. (refl, h), λ h. h.1)

request_errors-empty :
    (f : FloatOps) (req : AuditZipRequest) → (request_errors f req ≡ []) ↔ Passes f req
unfolding request_errors
request_errors-empty f req = (
  λ h.
      let (a, h₁) = (when-empty _ _ _ _ _).0 h in
      let (b, h₂) = (when-empty _ _ _ _ _).0 h₁ in
      let (c, h₃) = (when-empty _ _ _ _ _).0 h₂ in
      let (d, h₄) = (when-empty _ _ _ _ _).0 h₃ in
      let (e, h₅) = (when-empty _ _ _ _ _).0 h₄ in
      let (g, h₆) = (when-empty _ _ _ _ _).0 h₅ in (a, b, c, d, e, g),
  λ h. (when-empty _ _ _ _ _).1 (
    h.0,
    (when-empty _ _ _ _ _).1 (
      h.1,
      (when-empty _ _ _ _ _).1 (
        h.2,
        (when-empty _ _ _ _ _).1
            (h.3, (when-empty _ _ _ _ _).1 (h.4, (when-empty _ _ _ _ _).1 (h.5, refl))),
      ),
    ),
  ),
)

IsProper-errors :
    (f : FloatOps) (req : AuditZipRequest) → IsProper f req → request_errors f req ≡ []
IsProper-errors f req p = (request_errors-empty f req).1 (
  ground (arith, p.ordered),
  ground (arith, eq_iff req.format "zip", p.format),
  (exceeds_iff req.partner).1 p.partner,
  (is_negative_iff f req.min_amount).1 p.min_amount,
  (is_negative_iff f req.max_amount).1 p.max_amount,
  (is_crossed_iff f req.min_amount req.max_amount).1 p.amounts,
)

-- The validation reports no error for exactly the requests that keep every rule: both dates are set
-- and in order, the format is zip, a partner has at most 140 bytes, neither amount is negative, and the
-- greatest is not below the least.
pub validate_request_iff :
    (f : FloatOps) (cfg : Config) (req : AuditZipRequest)
    → ((validate_request f cfg req).0 ≡ []) ↔ IsProper f req
unfolding validate_request is_zero
validate_request_iff f cfg req =
    let to = (request_errors-empty f req).0 in
    (
      λ h.
          let (order, format, partner, least, most, crossed) = to (no_errors h) in
          record {
            from_set = λ e. ground (arith, h, e);
            to_set = λ e. ground (arith, h, e);
            ordered = ground (arith, order);
            format = (eq_iff req.format "zip").0 (ground (arith, format));
            partner = (exceeds_iff req.partner).0 partner;
            min_amount = (is_negative_iff f req.min_amount).0 least;
            max_amount = (is_negative_iff f req.max_amount).0 most;
            amounts = (is_crossed_iff f req.min_amount req.max_amount).0 crossed;
          },
      λ p. accepts p (IsProper-errors f req p),
    )
  where
    errors_cases :
        (l : List ValidationErrorItem)
        → (l ≡ []) ⊎ ((e : ValidationErrorItem) × (es : List ValidationErrorItem) × (l ≡ e ∷ es))
    errors_cases [] = inl refl
    errors_cases (e ∷ es) = inr (e, es, refl)

    no_errors : (validate_request f cfg req).0 ≡ [] → request_errors f req ≡ []
    no_errors h = elim (errors_cases (request_errors f req)) [
      | inl none_left ↦ none_left
      | inr (e, es, found) ↦ absurd (ground (arith, h, found))
    ]

    accepts : IsProper f req → request_errors f req ≡ [] → (validate_request f cfg req).0 ≡ []
    accepts p e =
        ground (
          arith,
          e,
          λ (x : req.from_date ≡ 366). p.from_set x,
          λ (x : req.to_date ≡ 366). p.to_set x,
        )

hint_of : FloatOps → Config → ℕ → SplitHint
hint_of f cfg days = record {
  approx_size_mb = f.ceil (
      f.div (f.mul cfg.estimated_mb_per_day (f.of_int (pos days)))
        (f.of_int (chunks_of days cfg.max_range_days)));
  chunks = chunks_of days cfg.max_range_days;
}

module _ (f : FloatOps) (cfg : Config) (from to : Date) (m : ℕ)
    (is : cfg.max_range_days ≡ pos m) where
  some_hint :
      m < range_days from to
      → 0 < m
      → split_hint_if_needed f cfg from to ≡ some (hint_of f cfg (range_days from to))
  unfolding split_hint_if_needed hint_of
  some_hint more limit = ground (arith, is, more, limit)

  -- What a hint tells of the range.
  hint_says :
      (hint : SplitHint)
      → split_hint_if_needed f cfg from to ≡ some hint
      → (0 < m) × (m < range_days from to) × (hint.chunks ≡ chunks_of (range_days from to) (pos m))
  unfolding split_hint_if_needed
  hint_says hint h = (ground (arith, is, h), ground (arith, is, h), ground (arith, is, h))

less-mul : (n m d : ℕ) → 0 < m → 2 ≤ n → n * m ≤ d + (m - 1) → (n - 1) * m < d
less-mul zero m d p two h = absurd (omega arith)
less-mul (suc n) m d p two h =
    let e : n * m + m ≡ suc n * m = grind arith in
    let s : suc n - 1 ≡ n = omega arith in rw s (omega (arith, p, h, e))

accepts_with :
    (f : FloatOps) (cfg : Config) (req : AuditZipRequest)
    → IsProper f req
    → (validate_request f cfg req).1 ≡ split_hint_if_needed f cfg req.from_date req.to_date
unfolding validate_request is_zero
accepts_with f cfg req p =
    let e = IsProper-errors f req p in
    ground
      (arith, e, λ (x : req.from_date ≡ 366). p.from_set x, λ (x : req.to_date ≡ 366). p.to_set x)

leb→le : (a b : ℕ) → leb a b ≡ true → a ≤ b
leb→le a b h = ground arith

leb→lt : (a b : ℕ) → leb a b ≡ false → b < a
leb→lt a b h = ground arith

some-ne-none : {x : SplitHint} → ◌≢◌ {A = Option SplitHint} (some x) none
some-ne-none h = cc h

-- With a positive `MaxRangeDays` a request that is let in without errors or hint has a range of at
-- most that many days.
pub accepted_range :
    (f : FloatOps) (cfg : Config) (req : AuditZipRequest) (m : ℕ)
    → cfg.max_range_days ≡ pos m
    → 0 < m
    → validate_request f cfg req ≡ ([], none)
    → range_days req.from_date req.to_date ≤ m
unfolding validate_request split_hint_if_needed is_zero
accepted_range f cfg req m is limit h =
    let from = req.from_date in
    let to = req.to_date in
    let proper =
      (validate_request_iff f cfg req).0
        (ap (λ (x : List ValidationErrorItem × Option SplitHint). x.0) h) in
    let no_hint : split_hint_if_needed f cfg from to ≡ none =
      sym (accepts_with f cfg req proper)
      ∙ ap (λ (x : List ValidationErrorItem × Option SplitHint). x.1) h in
    elim (Bool-cases (leb (range_days from to) m)) [
      | inl le ↦ leb→le (range_days from to) m le
      | inr more ↦
          let hint = some_hint f cfg from to m is (leb→lt (range_days from to) m more) limit in
          absurd (some-ne-none (sym hint ∙ no_hint))
    ]

-- Of dates in order that are at most 106751 days apart, where `Sub` does not stop, a range has all the
-- days from the first to the last.
range_days-eq :
    (from to : Date) → from ≤ to → to ≤ from + 106751 → range_days from to ≡ suc (to - from)
unfolding range_days
range_days-eq from to ordered near =
    let d = to - from in
    let fits : ltb (d * 86400000000000) (2 ^ 63) ≡ true = ground (arith, near) in
    ap (λ (n : ℕ). n / 86400000000000 + 1) (if_true _ _ fits)
    ∙ ap (λ (n : ℕ). n + 1) (mul-div_cancel d (omega arith))
    ∙ omega arith

-- With a positive `MaxRangeDays`, and of dates in order that are at most 106751 days apart, a hint to
-- split names the least number of chunks that, at `MaxRangeDays` days each, hold the days from the first
-- to the last, both counted, and that is two at least.
pub split_hint_least :
    (f : FloatOps) (cfg : Config) (from to : Date) (m : ℕ) (hint : SplitHint)
    → cfg.max_range_days ≡ pos m
    → from ≤ to
    → to ≤ from + 106751
    → split_hint_if_needed f cfg from to ≡ some hint
    → (n : ℕ) × (hint.chunks ≡ pos n)
      × (2 ≤ n)
      × (suc (to - from) ≤ n * m)
      × ((n - 1) * m < suc (to - from))
unfolding split_hint_if_needed chunks_of
split_hint_least f cfg from to m hint is ordered near h =
    let (limit, more, chunks) = hint_says f cfg from to m is hint h in
    let d = range_days from to in
    let days = range_days-eq from to ordered near in
    let x = d + (m - 1) in
    let n = x / m in
    let below = div-mul-le_self x m in
    let above = lt-div-mul-add {a = x} {b = m} limit in
    let two : 2 ≤ n = (le-div_iff_mul-le limit).1 (omega (arith, more, limit)) in
    (
      n,
      chunks,
      two,
      omega (arith, above, limit, days),
      omega (arith, less-mul n m d limit two below, days),
    )
