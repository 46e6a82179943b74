-- ===== src/Base/Lists.antt =====
-- Lists measured and indexed by native numbers, and predicates on all their elements.
use Prim.Native.Nat.{ℕ, zero, suc, ◌+◌, ◌<◌}
use mathlib.Core.Path.{◌≡◌, refl, ap}
use mathlib.Core.Logic.{◌≢◌}
use mathlib.Core.Bool.{Bool}
use mathlib.Core.List.{List, [], ◌∷◌, ◌++◌}
use mathlib.Core.Option.{Option, none, some}
use native.Mathlib.Omega.{arith}
use prompt_pack.Base.Tests.{if◌then◌else◌}

module _ {ℓ} {A : Type ℓ} where
  abbrev pub length : List A → ℕ
  length [] = 0
  length (x ∷ xs) = suc (length xs)

  abbrev pub get_elem? : List A → ℕ → Option A
  get_elem? [] i = none
  get_elem? (x ∷ xs) zero = some x
  get_elem? (x ∷ xs) (suc i) = get_elem? xs i

  -- A write out of bounds changes nothing.
  abbrev pub set : List A → ℕ → A → List A
  set [] i v = []
  set (x ∷ xs) zero v = v ∷ xs
  set (x ∷ xs) (suc i) v = x ∷ set xs i v

  -- The last element, `list[len(list)-1]`.
  abbrev pub get_last? : List A → Option A
  get_last? [] = none
  get_last? (x ∷ []) = some x
  get_last? (x ∷ y ∷ ys) = get_last? (y ∷ ys)

  -- How many elements pass a test.
  abbrev pub count_if : (A → Bool) → List A → ℕ
  count_if p [] = 0
  count_if p (x ∷ xs) = (if p x then 1 else 0) + count_if p xs

  pub length-append : (xs ys : List A) → length (xs ++ ys) ≡ length xs + length ys
  length-append [] ys = omega arith
  length-append (x ∷ xs) ys = omega (arith, length-append xs ys)

  pub length-set : (xs : List A) (i : ℕ) (v : A) → length (set xs i v) ≡ length xs
  length-set [] i v = refl
  length-set (x ∷ xs) zero v = refl
  length-set (x ∷ xs) (suc i) v = ap suc (length-set xs i v)

  pub get_last?-append : (xs : List A) (y : A) → get_last? (xs ++ y ∷ []) ≡ some y
  get_last?-append [] y = refl
  get_last?-append (x ∷ []) y = refl
  get_last?-append (x ∷ x' ∷ xs) y = get_last?-append (x' ∷ xs) y

  pub count_if-append :
      (p : A → Bool) (xs ys : List A) → count_if p (xs ++ ys) ≡ count_if p xs + count_if p ys
  count_if-append p [] ys = omega arith
  count_if-append p (x ∷ xs) ys = omega (arith, count_if-append p xs ys)

  -- The number of elements that pass changes by the one element that a write replaces.
  pub count_if-set :
      (p : A → Bool) (xs : List A) (i : ℕ) (x v : A)
      → get_elem? xs i ≡ some x
      → count_if p (set xs i v) + (if p x then 1 else 0) ≡ count_if p xs + (if p v then 1 else 0)
  count_if-set p [] i x v h = cc
  count_if-set p (y ∷ ys) zero x v h = ground arith
  count_if-set p (y ∷ ys) (suc i) x v h = omega (arith, count_if-set p ys i x v h)

  pub get_elem?-set_self :
      (xs : List A) (i : ℕ) (x v : A) → get_elem? xs i ≡ some x → get_elem? (set xs i v) i ≡ some v
  get_elem?-set_self [] i x v h = cc
  get_elem?-set_self (y ∷ ys) zero x v h = refl
  get_elem?-set_self (y ∷ ys) (suc i) x v h = get_elem?-set_self ys i x v h

  pub get_elem?-set_ne :
      (xs : List A) (i j : ℕ) (v : A) → i ≢ j → get_elem? (set xs i v) j ≡ get_elem? xs j
  get_elem?-set_ne [] i j v h = refl
  get_elem?-set_ne (y ∷ ys) zero zero v h = absurd (h refl)
  get_elem?-set_ne (y ∷ ys) zero (suc j) v h = refl
  get_elem?-set_ne (y ∷ ys) (suc i) zero v h = refl
  get_elem?-set_ne (y ∷ ys) (suc i) (suc j) v h = get_elem?-set_ne ys i j v (λ e. h (ap suc e))

  pub set-set : (xs : List A) (i : ℕ) (v w : A) → set (set xs i v) i w ≡ set xs i w
  set-set [] i v w = refl
  set-set (x ∷ xs) zero v w = refl
  set-set (x ∷ xs) (suc i) v w = ap (λ r. x ∷ r) (set-set xs i v w)

  pub set_found : (xs : List A) (i : ℕ) (x : A) → get_elem? xs i ≡ some x → set xs i x ≡ xs
  set_found [] i x h = refl
  set_found (y ∷ ys) zero x h = ground arith
  set_found (y ∷ ys) (suc i) x h = ap (λ r. y ∷ r) (set_found ys i x h)

  pub get_elem?-lt : (xs : List A) (i : ℕ) (x : A) → get_elem? xs i ≡ some x → i < length xs
  get_elem?-lt [] i x h = cc
  get_elem?-lt (y ∷ ys) zero x h = omega arith
  get_elem?-lt (y ∷ ys) (suc i) x h = omega (arith, get_elem?-lt ys i x h)

  pub get_elem?-at : (xs : List A) (i : ℕ) → i < length xs → (x : A) × (get_elem? xs i ≡ some x)
  get_elem?-at [] i h = absurd (omega (arith, h))
  get_elem?-at (y ∷ ys) zero h = (y, refl)
  get_elem?-at (y ∷ ys) (suc i) h = get_elem?-at ys i (omega (arith, h))

  pub get_elem?-append_end : (xs : List A) (y : A) → get_elem? (xs ++ y ∷ []) (length xs) ≡ some y
  get_elem?-append_end [] y = refl
  get_elem?-append_end (x ∷ xs) y = get_elem?-append_end xs y

  pub get_elem?-append_left :
      (xs ys : List A) (i : ℕ) (x : A) → get_elem? xs i ≡ some x → get_elem? (xs ++ ys) i ≡ some x
  get_elem?-append_left [] ys i x h = cc
  get_elem?-append_left (y ∷ xs) ys zero x h = h
  get_elem?-append_left (y ∷ xs) ys (suc i) x h = get_elem?-append_left xs ys i x h

  -- An index of a list with one more element: an old one, or the new element.
  pub get_elem?-append_one :
      (xs : List A) (y : A) (i : ℕ) (x : A)
      → get_elem? (xs ++ y ∷ []) i ≡ some x
      → i ≢ length xs
      → get_elem? xs i ≡ some x
  get_elem?-append_one [] y zero x h ne = absurd (ne refl)
  get_elem?-append_one [] y (suc i) x h ne = cc
  get_elem?-append_one (z ∷ xs) y zero x h ne = h
  get_elem?-append_one (z ∷ xs) y (suc i) x h ne =
      get_elem?-append_one xs y i x h (λ e. ne (ap suc e))

module _ {ℓ κ} {A : Type ℓ} (P : A → Type κ) where
  abbrev pub All : List A → Type κ
  All [] = Unit
  All (x ∷ xs) = P x × All xs

  pub All-append : (xs ys : List A) → All xs → All ys → All (xs ++ ys)
  All-append [] ys hx hy = hy
  All-append (x ∷ xs) ys hx hy = (hx.0, All-append xs ys hx.1 hy)

  pub All-set : (xs : List A) (i : ℕ) (v : A) → All xs → P v → All (set xs i v)
  All-set [] i v h hv = h
  All-set (x ∷ xs) zero v h hv = (hv, h.1)
  All-set (x ∷ xs) (suc i) v h hv = (h.0, All-set xs i v h.1 hv)

  pub All-get_elem? : (xs : List A) (i : ℕ) (x : A) → All xs → get_elem? xs i ≡ some x → P x
  All-get_elem? [] i x h e = absurd (cc)
  All-get_elem? (y ∷ ys) zero x h e = subst' y x (ground arith) h.0
    where
      subst' : (a b : A) → a ≡ b → P a → P b
      subst' a b p u = rw (← p) u
  All-get_elem? (y ∷ ys) (suc i) x h e = All-get_elem? ys i x h.1 e
