-- ===== src/Base/Decimal.antt =====
-- `%d` of Go's `fmt`, of a number that is not negative.
use Prim.Native.Nat.{ℕ, zero, suc, ◌+◌, ◌/◌, ◌%◌, ◌<◌}
use Prim.Native.String.{String, ◌++◌, slice}
use mathlib.Core.Path.{◌≡◌, refl, ap}
use mathlib.Core.Logic.{inl, inr}
use native.Mathlib.Omega.{arith}
use prompt_pack.Base.Tests.{if◌then◌else◌, ltb, Bool-cases}

abbrev pub digit : ℕ → String
digit n = slice "0123456789" n (n + 1)

unfoldable pub decimal_on : ℕ → ℕ → String
decimal_on zero n = ""
decimal_on (suc fuel) n =
    let front = decimal_on fuel (n / 10) in if ltb n 10 then digit n else front ++ digit (n % 10)

-- `fmt.Sprintf("%d", n)`
unfoldable pub decimal : ℕ → String
unfolding decimal_on
decimal n = decimal_on (suc n) n

-- More fuel than the number gives the same digits.
pub decimal_on-enough :
    (fuel fuel' n : ℕ) → n < fuel → n < fuel' → decimal_on fuel n ≡ decimal_on fuel' n
unfolding decimal_on
decimal_on-enough zero fuel' n h h' = absurd (omega arith)
decimal_on-enough (suc fuel) zero n h h' = absurd (omega arith)
decimal_on-enough (suc fuel) (suc fuel') n h h' = elim (Bool-cases (ltb n 10)) [
  | inl small ↦ rw small refl
  | inr large ↦ rw large (
      ap (λ (front : String). front ++ digit (n % 10))
        (decimal_on-enough fuel fuel' (n / 10) (ground (arith, large)) (ground (arith, large))))
]
