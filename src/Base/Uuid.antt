-- ===== src/Base/Uuid.antt =====
-- `newID` of apps/api/internal/auditzip/id.go and apps/api/internal/pint/id.go, which are alike: 16
-- random bytes as a UUID.
pub mod Form
use Prim.Native.Nat.{ℕ, zero, suc, ◌+◌, ◌%◌, ◌<◌, bit_and, bit_or}
use Prim.Native.String.{String, ◌++◌ as ◌&◌}
use mathlib.Core.Path.{◌≡◌, refl, ap, sym, ◌∙◌}
use mathlib.Core.Logic.{inl, inr}
use mathlib.Core.Bool.{Bool, true, false}
use mathlib.Core.List.{List, [], ◌∷◌}
use native.Mathlib.Omega.{arith}
use native.Mathlib.Decide.{ℕ_discrete}
use prompt_pack.Base.Tests.{if◌then◌else◌, eqb, Bool-cases}
use prompt_pack.Base.Hex.{hex}

-- `b[lo:hi]` of a list that is long enough.
abbrev pub slice : {A : Type 0} → List A → ℕ → ℕ → List A
slice [] lo hi = []
slice (b ∷ bs) zero zero = []
slice (b ∷ bs) zero (suc hi) = b ∷ slice bs zero hi
slice (b ∷ bs) (suc lo) zero = []
slice (b ∷ bs) (suc lo) (suc hi) = slice bs lo hi

-- `b[6]`, the version, and `b[8]`, the variant.
abbrev pub with_version : ℕ → ℕ
with_version b = bit_or (bit_and b 0x0f) 0x40

abbrev pub with_variant : ℕ → ℕ
with_variant b = bit_or (bit_and b 0x3f) 0x80

-- A write to the byte at an index, by a function of it.
abbrev pub update : List ℕ → ℕ → (ℕ → ℕ) → List ℕ
update [] i f = []
update (b ∷ bs) zero f = f b ∷ bs
update (b ∷ bs) (suc i) f = b ∷ update bs i f

unfoldable pub stamped : List ℕ → List ℕ
stamped bytes = update (update bytes 6 with_version) 8 with_variant

unfoldable pub new_id : List ℕ → String
unfolding stamped
new_id bytes =
    let b = stamped bytes in
    hex (slice b 0 4)
    & ("-"
        & (hex (slice b 4 6)
            & ("-"
                & (hex (slice b 6 8)
                    & ("-" & (hex (slice b 8 10) & ("-" & hex (slice b 10 16))))))))

-- Whether two functions are the same on all numbers before the given one.
agree : (ℕ → ℕ) → (ℕ → ℕ) → ℕ → Bool
agree f g zero = true
agree f g (suc k) = if eqb (f k) (g k) then agree f g k else false

agree-eq : (f g : ℕ → ℕ) (k : ℕ) → agree f g k ≡ true → (b : ℕ) → b < k → f b ≡ g b
unfolding agree
agree-eq f g zero same b small = absurd (omega (arith, small))
agree-eq f g (suc k) same b small = elim (Bool-cases (eqb (f k) (g k))) [
  | inr other ↦ absurd (ground (arith, same, other))
  | inl equal ↦ elim (ℕ_discrete b k) [
    | yes here ↦ ap f here ∙ (ground (arith, equal)) ∙ ap g (sym here)
    | no before ↦ agree-eq f g k (ground (arith, same, equal)) b (omega (arith, small, before))
  ]
]

-- The high half of the version's byte is 4, and the low half is kept.
pub with_version-eq : (b : ℕ) → b < 256 → with_version b ≡ 64 + b % 16
unfolding agree
with_version-eq = agree-eq with_version (λ b. 64 + b % 16) 256 refl

-- The high bits of the variant's byte are 10, and the others are kept.
pub with_variant-eq : (b : ℕ) → b < 256 → with_variant b ≡ 128 + b % 64
unfolding agree
with_variant-eq = agree-eq with_variant (λ b. 128 + b % 64) 256 refl
