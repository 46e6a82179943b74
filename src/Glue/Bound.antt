-- ===== src/Glue/Bound.antt =====
-- When the generated code binds a header parameter.
use prompt_pack.Base.{String, ◌≡◌, refl, ap, ◌∙◌, ◌↔◌, ◌⊎◌, inl, inr, some, List, [], ◌∷◌, arith}
use prompt_pack.Base.Dict.{Dict, find}
use prompt_pack.Base.Tests.{Option-cases}
use prompt_pack.Glue.{ParamError, bind_header, bind_values, checked, ◌>>=◌}

-- The header is there once, with a value that converts.
abbrev pub One : {A : Type 0} → (String → String ⊎ A) → String → Dict (List String) → A → Type 0
One bind name headers a = (v : String) × (find headers name ≡ some (v ∷ [])) × (bind v ≡ inr a)

-- Three bindings in a row succeed where each does.
pub bind_three-eq-inr :
    {A B C D : Type 0} (x : ParamError ⊎ A) (y : ParamError ⊎ B) (z : ParamError ⊎ C)
    (f : A → B → C → D) (d : D)
    → (x >>= λ a. y >>= λ b. z >>= λ c. inr (f a b c)) ≡ inr d
    → (a : A) × (b : B) × (c : C) × (x ≡ inr a) × (y ≡ inr b) × (z ≡ inr c) × (f a b c ≡ d)
bind_three-eq-inr (inl e) y z f d h = absurd (ground (arith, h))
bind_three-eq-inr (inr a) (inl e) z f d h = absurd (ground (arith, h))
bind_three-eq-inr (inr a) (inr b) (inl e) f d h = absurd (ground (arith, h))
bind_three-eq-inr (inr a) (inr b) (inr c) f d h = (a, b, c, refl, refl, refl, ground (arith, h))

checked-eq-inr :
    {A : Type 0} (name : String) (o : String ⊎ A) (a : A) → checked name o ≡ inr a → o ≡ inr a
unfolding checked
checked-eq-inr name (inl e) a h = absurd (ground (arith, h))
checked-eq-inr name (inr x) a h = ground (arith, h)

bind_values-eq-inr :
    {A : Type 0} (bind : String → String ⊎ A) (name : String) (vs : List String) (a : A)
    → bind_values bind name vs ≡ inr a
    → (v : String) × (vs ≡ v ∷ []) × (bind v ≡ inr a)
unfolding bind_values
bind_values-eq-inr bind name [] a h = absurd (ground (arith, h))
bind_values-eq-inr bind name (v ∷ []) a h = (v, refl, checked-eq-inr name (bind v) a h)
bind_values-eq-inr bind name (v ∷ u ∷ vs) a h = absurd (ground (arith, h))

pub bind_header_iff :
    {A : Type 0} (bind : String → String ⊎ A) (name : String) (headers : Dict (List String)) (a : A)
    → (bind_header bind name headers ≡ inr a) ↔ One bind name headers a
unfolding bind_header
bind_header_iff {A} bind name headers a = (bound, binds)
  where
    bound : bind_header bind name headers ≡ inr a → One bind name headers a
    bound h = elim (Option-cases (find headers name)) [
      | inl gone ↦ absurd (ground (arith, gone, h))
      | inr (vs, at) ↦
          let (v, single, good) = bind_values-eq-inr bind name vs a (rw (at, bind_header) at h) in
          (v, at ∙ ap some single, good)
    ]

    binds : One bind name headers a → bind_header bind name headers ≡ inr a
    binds (v, at, good) = rw (at, bind_header) (rw (bind_values, good, checked) refl)
