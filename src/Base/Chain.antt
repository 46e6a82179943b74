-- ===== src/Base/Chain.antt =====
-- Hash chains: lists of entries in which each names the hash of the one before it.
use Prim.Native.String.{String}
use mathlib.Core.Path.{◌≡◌, refl}
use mathlib.Core.List.{List, [], ◌∷◌, ◌++◌}
use mathlib.Core.Option.{Option, none, some}
use native.Mathlib.Omega.{arith}
use prompt_pack.Base.Lists.{get_last?}

module _ {E : Type 0} (hash_of prev_of : E → String) (compute : E → String) where
  -- A chain that goes on from the hash `prev`.
  abbrev pub Chained : String → List E → Type 0
  Chained prev [] = Unit
  Chained prev (e ∷ es) = (prev_of e ≡ prev) × (hash_of e ≡ compute e) × Chained (hash_of e) es

  -- The hash at the end of a chain.
  abbrev pub end_hash : String → List E → String
  end_hash prev [] = prev
  end_hash prev (e ∷ es) = end_hash (hash_of e) es

  pub Chained-append :
      (prev : String) (es : List E) (e : E)
      → Chained prev es
      → prev_of e ≡ end_hash prev es
      → hash_of e ≡ compute e
      → Chained prev (es ++ e ∷ [])
  Chained-append prev [] e c p h = (p, h, tt)
  Chained-append prev (x ∷ es) e c p h = (c.0, c.1, Chained-append (hash_of x) es e c.2 p h)

  pub end_hash-last :
      (prev : String) (es : List E) (e : E) → get_last? es ≡ some e → end_hash prev es ≡ hash_of e
  end_hash-last prev [] e h = absurd (cc h)
  end_hash-last prev (x ∷ []) e h = ground arith
  end_hash-last prev (x ∷ y ∷ es) e h = end_hash-last (hash_of x) (y ∷ es) e h

  pub end_hash-empty : (prev : String) (es : List E) → get_last? es ≡ none → end_hash prev es ≡ prev
  end_hash-empty prev [] h = refl
  end_hash-empty prev (x ∷ []) h = absurd (cc h)
  end_hash-empty prev (x ∷ y ∷ es) h = absurd (cc (end_hash-some x y es h))
    where
      end_hash-some :
          (x y : E) (es : List E) → get_last? (x ∷ y ∷ es) ≡ none → ◌≡◌ {A = Option E} none (some x)
      end_hash-some x y [] h = absurd (cc h)
      end_hash-some x y (z ∷ es) h = absurd (cc (end_hash-some y z es h))
