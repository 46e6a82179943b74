-- ===== src/Base/Scan.antt =====
-- Texts that are put together of parts and numbers, and how `split` and a scan of digits take them
-- apart again.
use Prim.Native.Char.{Char, code}
use Prim.Native.String.{[] as nil, ◌∷◌ as cons}
use text.Mathlib.TextLemmas.{append_assoc, nil-append, cons-append}
use Prim.Native.Nat.{ℕ, zero, suc, ◌+◌, ◌-◌, ◌*◌, ◌/◌, ◌%◌, ◌<◌}
use Prim.Native.String.{String, ◌++◌ as ◌&◌}
use mathlib.Core.Path.{◌≡◌, refl, ap, ◌∙◌}
use mathlib.Core.Logic.{inl, inr}
use mathlib.Core.Bool.{Bool, false, ◌&&◌, ◌||◌}
use mathlib.Core.List.{[], ◌∷◌}
use native.Mathlib.Omega.{arith}
use prompt_pack.Base.Tests.{if◌then◌else◌, leb, ltb, eqb, Bool-cases}
use prompt_pack.Base.Text.{split, onto_first}
use prompt_pack.Base.Decimal.{decimal, decimal_on, digit}

-- Does a text have the character of a code?
unfoldable pub has : ℕ → String → Bool
has sep nil = false
has sep (cons c s) = eqb (code c) sep || has sep s

pub has-append : (sep : ℕ) (s t : String) → has sep (s & t) ≡ (has sep s || has sep t)
unfolding has
has-append sep nil t = ap (has sep) (nil-append t)
has-append sep (cons c s) t = ap (has sep) (cons-append c s t) ∙ ground (arith, has-append sep s t)

one_more : (c : Char) (t : String) → (cons c nil & t) ≡ cons c t
one_more c t = cons-append c nil t ∙ ap (cons c) (nil-append t)

-- A part without the separator, in front of the separator.
pub split-append : (s t : String) → has 36 s ≡ false → split (s & ("$" & t)) 36 ≡ (s ∷ split t 36)
unfolding split onto_first has
split-append nil t h = ap (λ (x : String). split x 36) (nil-append ("$" & t) ∙ one_more "$" t)
split-append (cons c s) t h =
    ap (λ (x : String). split x 36) (cons-append c s ("$" & t))
    ∙ rw (split-append s t (ground (arith, h))) (ground (arith, h))

pub split-plain : (s : String) → has 36 s ≡ false → split s 36 ≡ (s ∷ [])
unfolding split onto_first has
split-plain nil h = refl
split-plain (cons c s) h = rw (split-plain s (ground (arith, h))) (ground (arith, h))

-- What holds of each digit.
below_ten {ℓ} :
    (P : ℕ → Type ℓ)
    → P 0
    → P 1
    → P 2
    → P 3
    → P 4
    → P 5
    → P 6
    → P 7
    → P 8
    → P 9
    → (n : ℕ) → n < 10
    → P n
below_ten P p0 p1 p2 p3 p4 p5 p6 p7 p8 p9 zero h = p0
below_ten P p0 p1 p2 p3 p4 p5 p6 p7 p8 p9 (suc zero) h = p1
below_ten P p0 p1 p2 p3 p4 p5 p6 p7 p8 p9 (suc (suc zero)) h = p2
below_ten P p0 p1 p2 p3 p4 p5 p6 p7 p8 p9 (suc (suc (suc zero))) h = p3
below_ten P p0 p1 p2 p3 p4 p5 p6 p7 p8 p9 (suc (suc (suc (suc zero)))) h = p4
below_ten P p0 p1 p2 p3 p4 p5 p6 p7 p8 p9 (suc (suc (suc (suc (suc zero))))) h = p5
below_ten P p0 p1 p2 p3 p4 p5 p6 p7 p8 p9 (suc (suc (suc (suc (suc (suc zero)))))) h = p6
below_ten P p0 p1 p2 p3 p4 p5 p6 p7 p8 p9 (suc (suc (suc (suc (suc (suc (suc zero))))))) h = p7
below_ten P p0 p1 p2 p3 p4 p5 p6 p7 p8 p9 (suc (suc (suc (suc (suc (suc (suc (suc zero)))))))) h =
    p8
below_ten P p0 p1 p2 p3 p4 p5 p6 p7 p8 p9 (suc (suc (suc (suc (suc (suc (suc (suc (suc zero)))))))))
      h =
    p9
below_ten P p0 p1 p2 p3 p4 p5 p6 p7 p8 p9
      (suc (suc (suc (suc (suc (suc (suc (suc (suc (suc n)))))))))) h =
    absurd (omega arith)

digit-plain : (n : ℕ) → n < 10 → has 36 (digit n) ≡ false
unfolding has
digit-plain =
    below_ten (λ n. has 36 (digit n) ≡ false) refl refl refl refl refl refl refl refl refl refl

decimal_on-suc :
    (fuel n : ℕ)
    → decimal_on (suc fuel) n
      ≡ (if ltb n 10 then digit n else decimal_on fuel (n / 10) & digit (n % 10))
unfolding decimal_on
decimal_on-suc fuel n = refl

decimal_on-zero : (n : ℕ) → decimal_on zero n ≡ ""
unfolding decimal_on
decimal_on-zero n = refl

decimal_on-plain : (fuel n : ℕ) → has 36 (decimal_on fuel n) ≡ false
unfolding has
decimal_on-plain zero n = ap (has 36) (decimal_on-zero n)
decimal_on-plain (suc fuel) n = ap (has 36) (decimal_on-suc fuel n) ∙ elim (Bool-cases (ltb n 10)) [
  | inl small ↦ rw small (digit-plain n (ground (arith, small)))
  | inr large ↦ rw large (
      ground (
        arith,
        has-append 36 (decimal_on fuel (n / 10)) (digit (n % 10)),
        decimal_on-plain fuel (n / 10),
        digit-plain (n % 10) (omega arith),
      ))
]

pub decimal-plain : (n : ℕ) → has 36 (decimal n) ≡ false
unfolding decimal
decimal-plain n = decimal_on-plain (suc n) n

-- The number that the digits in front of a text go on to, and the text behind them.
unfoldable pub take_digits : ℕ → String → ℕ × String
take_digits acc nil = (acc, nil)
take_digits acc (cons c s) =
    let more = take_digits (acc * 10 + (code c - 48)) s in
    if leb 48 (code c) && leb (code c) 57 then more else (acc, cons c s)

take_digits-digit :
    (acc : ℕ) (rest : String) (n : ℕ)
    → n < 10
    → take_digits acc (digit n & rest) ≡ take_digits (acc * 10 + n) rest
unfolding take_digits
take_digits-digit acc rest =
    below_ten (λ n. take_digits acc (digit n & rest) ≡ take_digits (acc * 10 + n) rest)
      (ap (take_digits acc) (one_more "0" rest)) (ap (take_digits acc) (one_more "1" rest))
      (ap (take_digits acc) (one_more "2" rest)) (ap (take_digits acc) (one_more "3" rest))
      (ap (take_digits acc) (one_more "4" rest)) (ap (take_digits acc) (one_more "5" rest))
      (ap (take_digits acc) (one_more "6" rest)) (ap (take_digits acc) (one_more "7" rest))
      (ap (take_digits acc) (one_more "8" rest)) (ap (take_digits acc) (one_more "9" rest))

take_digits-decimal_on :
    (fuel n : ℕ) (rest : String)
    → n < fuel
    → take_digits 0 (decimal_on fuel n & rest) ≡ take_digits n rest
take_digits-decimal_on zero n rest h = absurd (omega arith)
take_digits-decimal_on (suc fuel) n rest h =
    ap (λ (x : String). take_digits 0 (x & rest)) (decimal_on-suc fuel n)
    ∙ elim (Bool-cases (ltb n 10)) [
      | inl small ↦ rw small (
          take_digits-digit 0 rest n (ground (arith, small))
          ∙ ap (λ (k : ℕ). take_digits k rest) (omega arith))
      | inr large ↦ rw large (
          ap (take_digits 0) (append_assoc (decimal_on fuel (n / 10)) (digit (n % 10)) rest)
          ∙ take_digits-decimal_on fuel (n / 10) (digit (n % 10) & rest) (ground (arith, large))
          ∙ take_digits-digit (n / 10) rest (n % 10) (omega arith)
          ∙ ap (λ (k : ℕ). take_digits k rest) (omega arith))
    ]

-- A scan of a number that is printed reads the number.
pub take_digits-decimal :
    (n : ℕ) (rest : String) → take_digits 0 (decimal n & rest) ≡ take_digits n rest
unfolding decimal
take_digits-decimal n rest = take_digits-decimal_on (suc n) n rest (omega arith)
