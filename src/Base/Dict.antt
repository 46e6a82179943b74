-- ===== src/Base/Dict.antt =====
-- A Go map with text keys, as an association list in which a key stands once.
use Prim.Native.String.{String}
use mathlib.Core.Path.{◌≡◌, refl}
use mathlib.Core.Logic.{◌≢◌}
use mathlib.Core.List.{List, [], ◌∷◌}
use mathlib.Core.Option.{Option, none, some}
use native.Mathlib.Omega.{arith}
use text.Mathlib.Text.{◌==◌}
use text.Mathlib.TextEquality.{eq_iff}
use prompt_pack.Base.Tests.{if◌then◌else◌}

abbrev pub Dict {ℓ} : Type ℓ → Type ℓ
Dict V = List (String × V)

module _ {ℓ} {V : Type ℓ} where
  -- `v, ok := m[k]`
  unfoldable pub find : Dict V → String → Option V
  find [] k = none
  find ((j, v) ∷ m) k = if j == k then some v else find m k

  -- `m[k] = v`
  unfoldable pub put : Dict V → String → V → Dict V
  put [] k v = (k, v) ∷ []
  put ((j, w) ∷ m) k v = if j == k then (k, v) ∷ m else (j, w) ∷ put m k v

  -- `delete(m, k)`
  unfoldable pub delete : Dict V → String → Dict V
  delete [] k = []
  delete ((j, w) ∷ m) k = let rest = delete m k in if j == k then rest else (j, w) ∷ rest

  pub find-put :
      (m : Dict V) (k j : String) (v : V)
      → find (put m k v) j ≡ (if k == j then some v else find m j)
  unfolding find put
  find-put [] k j v = refl
  find-put ((i, w) ∷ m) k j v = ground (arith, eq_iff i k, eq_iff i j, eq_iff k j, find-put m k j v)

  pub find-delete :
      (m : Dict V) (k j : String) → find (delete m k) j ≡ (if k == j then none else find m j)
  unfolding find delete
  find-delete [] k j = ground arith
  find-delete ((i, w) ∷ m) k j =
      ground (arith, eq_iff i k, eq_iff i j, eq_iff k j, find-delete m k j)

  pub find-put_self : (m : Dict V) (k : String) (v : V) → find (put m k v) k ≡ some v
  find-put_self m k v = ground (arith, find-put m k k v, eq_iff k k)

  pub find-put_ne : (m : Dict V) (k j : String) (v : V) → k ≢ j → find (put m k v) j ≡ find m j
  find-put_ne m k j v ne = ground (arith, find-put m k j v, eq_iff k j, ne)

  -- Writing the value that is there changes nothing.
  pub put_found : (m : Dict V) (k : String) (v : V) → find m k ≡ some v → put m k v ≡ m
  unfolding find put
  put_found [] k v h = cc
  put_found ((j, w) ∷ m) k v h = ground (arith, eq_iff j k, put_found m k v)
