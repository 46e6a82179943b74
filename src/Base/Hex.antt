-- ===== src/Base/Hex.antt =====
-- `%x` of bytes, and the random UUIDs that both id.go files make of 16 bytes.
use Prim.Native.Nat.{ℕ, zero, suc, ◌+◌, ◌-◌, ◌*◌, ◌/◌, ◌%◌, ◌<◌}
use Prim.Native.Char.{Char, code}
use Prim.Native.String.{String, ◌++◌ as ◌&◌, slice, count, [] as nil, ◌∷◌ as cons}
use mathlib.Core.Path.{◌≡◌, refl, ap, ap₂, ◌∙◌}
use mathlib.Core.Bool.{true, false}
use mathlib.Core.List.{List, [], ◌∷◌, ◌++◌}
use native.Mathlib.Omega.{arith}
use text.Mathlib.TextLemmas.{append_assoc, nil-append, cons-append, length-append}
use prompt_pack.Base.Tests.{if◌then◌else◌, leb, eqb}
use prompt_pack.Base.Lists.{length, All}

abbrev pub hex_char : ℕ → String
hex_char n = slice "0123456789abcdef" n (n + 1)

-- `fmt.Sprintf("%x", bytes)`: two digits for each byte.
unfoldable pub hex : List ℕ → String
hex [] = ""
hex (b ∷ bs) = hex_char (b / 16) & (hex_char (b % 16) & hex bs)

-- The value of a digit in lower case.
abbrev pub hex_value : Char → ℕ
hex_value c = if leb (code c) 57 then code c - 48 else code c - 87

-- The bytes that a text spells, dashes aside.
unfoldable pub unhex : String → List ℕ
unhex nil = []
unhex (cons c nil) = []
unhex (cons c (cons d s)) = elim (eqb (code c) 45) [
  | true ↦ unhex (cons d s)
  | false ↦ (hex_value c * 16 + hex_value d) ∷ unhex s
]

-- What holds of each hexadecimal digit.
below_sixteen {ℓ} :
    (P : ℕ → Type ℓ)
    → P 0
    → P 1
    → P 2
    → P 3
    → P 4
    → P 5
    → P 6
    → P 7
    → P 8
    → P 9
    → P 10
    → P 11
    → P 12
    → P 13
    → P 14
    → P 15
    → (n : ℕ) → n < 16
    → P n
below_sixteen P p0 p1 p2 p3 p4 p5 p6 p7 p8 p9 p10 p11 p12 p13 p14 p15 zero h = p0
below_sixteen P p0 p1 p2 p3 p4 p5 p6 p7 p8 p9 p10 p11 p12 p13 p14 p15 (suc zero) h = p1
below_sixteen P p0 p1 p2 p3 p4 p5 p6 p7 p8 p9 p10 p11 p12 p13 p14 p15 (suc (suc zero)) h = p2
below_sixteen P p0 p1 p2 p3 p4 p5 p6 p7 p8 p9 p10 p11 p12 p13 p14 p15 (suc (suc (suc zero))) h = p3
below_sixteen P p0 p1 p2 p3 p4 p5 p6 p7 p8 p9 p10 p11 p12 p13 p14 p15 (suc (suc (suc (suc zero))))
      h =
    p4
below_sixteen P p0 p1 p2 p3 p4 p5 p6 p7 p8 p9 p10 p11 p12 p13 p14 p15
      (suc (suc (suc (suc (suc zero))))) h =
    p5
below_sixteen P p0 p1 p2 p3 p4 p5 p6 p7 p8 p9 p10 p11 p12 p13 p14 p15
      (suc (suc (suc (suc (suc (suc zero)))))) h =
    p6
below_sixteen P p0 p1 p2 p3 p4 p5 p6 p7 p8 p9 p10 p11 p12 p13 p14 p15
      (suc (suc (suc (suc (suc (suc (suc zero))))))) h =
    p7
below_sixteen P p0 p1 p2 p3 p4 p5 p6 p7 p8 p9 p10 p11 p12 p13 p14 p15
      (suc (suc (suc (suc (suc (suc (suc (suc zero)))))))) h =
    p8
below_sixteen P p0 p1 p2 p3 p4 p5 p6 p7 p8 p9 p10 p11 p12 p13 p14 p15
      (suc (suc (suc (suc (suc (suc (suc (suc (suc zero))))))))) h =
    p9
below_sixteen P p0 p1 p2 p3 p4 p5 p6 p7 p8 p9 p10 p11 p12 p13 p14 p15
      (suc (suc (suc (suc (suc (suc (suc (suc (suc (suc zero)))))))))) h =
    p10
below_sixteen P p0 p1 p2 p3 p4 p5 p6 p7 p8 p9 p10 p11 p12 p13 p14 p15
      (suc (suc (suc (suc (suc (suc (suc (suc (suc (suc (suc zero))))))))))) h =
    p11
below_sixteen P p0 p1 p2 p3 p4 p5 p6 p7 p8 p9 p10 p11 p12 p13 p14 p15
      (suc (suc (suc (suc (suc (suc (suc (suc (suc (suc (suc (suc zero)))))))))))) h =
    p12
below_sixteen P p0 p1 p2 p3 p4 p5 p6 p7 p8 p9 p10 p11 p12 p13 p14 p15
      (suc (suc (suc (suc (suc (suc (suc (suc (suc (suc (suc (suc (suc zero))))))))))))) h =
    p13
below_sixteen P p0 p1 p2 p3 p4 p5 p6 p7 p8 p9 p10 p11 p12 p13 p14 p15
      (suc (suc (suc (suc (suc (suc (suc (suc (suc (suc (suc (suc (suc (suc zero)))))))))))))) h =
    p14
below_sixteen P p0 p1 p2 p3 p4 p5 p6 p7 p8 p9 p10 p11 p12 p13 p14 p15
      (suc (suc (suc (suc (suc (suc (suc (suc (suc (suc (suc (suc (suc (suc (suc zero)))))))))))))))
      h =
    p15
below_sixteen P p0 p1 p2 p3 p4 p5 p6 p7 p8 p9 p10 p11 p12 p13 p14 p15
      (suc
        (suc (suc (suc (suc (suc (suc (suc (suc (suc (suc (suc (suc (suc (suc (suc n))))))))))))))))
      h =
    absurd (omega arith)

-- A digit is one character, which is no dash and has the digit's value.
abbrev IsDigit : ℕ → Type 0
IsDigit n = (c : Char) × (hex_char n ≡ cons c nil) × (hex_value c ≡ n) × (eqb (code c) 45 ≡ false)

hex_char-IsDigit : (n : ℕ) → n < 16 → IsDigit n
hex_char-IsDigit =
    below_sixteen IsDigit ("0", refl, refl, refl) ("1", refl, refl, refl) ("2", refl, refl, refl)
      ("3", refl, refl, refl) ("4", refl, refl, refl) ("5", refl, refl, refl)
      ("6", refl, refl, refl) ("7", refl, refl, refl) ("8", refl, refl, refl)
      ("9", refl, refl, refl) ("a", refl, refl, refl) ("b", refl, refl, refl)
      ("c", refl, refl, refl) ("d", refl, refl, refl) ("e", refl, refl, refl)
      ("f", refl, refl, refl)

two_more : (c d : Char) (s : String) → (cons c nil & (cons d nil & s)) ≡ cons c (cons d s)
two_more c d s =
    cons-append c nil (cons d nil & s)
    ∙ ap (cons c) (nil-append (cons d nil & s) ∙ cons-append d nil s ∙ ap (cons d) (nil-append s))

abbrev pub IsByte : ℕ → Type 0
IsByte b = b < 256

unhex-two :
    (c d : Char) (s : String)
    → eqb (code c) 45 ≡ false
    → unhex (cons c (cons d s)) ≡ ((hex_value c * 16 + hex_value d) ∷ unhex s)
unfolding unhex
unhex-two c d s no_dash = rw (no_dash, unhex) refl

unhex-byte :
    (b : ℕ) (s : String)
    → b < 256
    → unhex (hex_char (b / 16) & (hex_char (b % 16) & s)) ≡ (b ∷ unhex s)
unhex-byte b s small = spelt (hex_char-IsDigit (b / 16) high) (hex_char-IsDigit (b % 16) low)
  where
    high : b / 16 < 16
    high = omega arith

    low : b % 16 < 16
    low = omega arith

    spelt :
        IsDigit (b / 16)
        → IsDigit (b % 16)
        → unhex (hex_char (b / 16) & (hex_char (b % 16) & s)) ≡ (b ∷ unhex s)
    spelt (c, first, hv, no_dash) (d, second, lv, _) =
        ap₂ (λ (x y : String). unhex (x & (y & s))) first second
        ∙ ap unhex (two_more c d s)
        ∙ unhex-two c d s no_dash
        ∙ ap (λ (n : ℕ). n ∷ unhex s) (omega (arith, hv, lv))

pub unhex-hex : (bs : List ℕ) (s : String) → All IsByte bs → unhex (hex bs & s) ≡ (bs ++ unhex s)
unfolding hex
unhex-hex [] s h = ap unhex (nil-append s)
unhex-hex (b ∷ bs) s (hb, h) =
    ap unhex (
      append_assoc (hex_char (b / 16)) (hex_char (b % 16) & hex bs) s
      ∙ ap (λ (x : String). hex_char (b / 16) & x) (append_assoc (hex_char (b % 16)) (hex bs) s))
    ∙ unhex-byte b (hex bs & s) hb
    ∙ ap (λ (x : List ℕ). b ∷ x) (unhex-hex bs s h)

pub unhex-dash : (s : String) → unhex ("-" & s) ≡ unhex s
unfolding unhex
unhex-dash nil = refl
unhex-dash (cons c s) =
    ap unhex (cons-append "-" nil (cons c s) ∙ ap (cons "-") (nil-append (cons c s)))

count-hex_char : (n : ℕ) → n < 16 → count (hex_char n) ≡ 1
count-hex_char =
    below_sixteen (λ n. count (hex_char n) ≡ 1) refl refl refl refl refl refl refl refl refl refl
      refl refl refl refl refl refl

pub count-hex : (bs : List ℕ) → All IsByte bs → count (hex bs) ≡ 2 * length bs
unfolding hex
count-hex [] h = refl
count-hex (b ∷ bs) (hb, h) = omega (
  arith,
  length-append (hex_char (b / 16)) (hex_char (b % 16) & hex bs),
  length-append (hex_char (b % 16)) (hex bs),
  count-hex_char (b / 16) (omega arith),
  count-hex_char (b % 16) (omega arith),
  count-hex bs h,
)
